-- ===== src/Command/Portions.antt =====
-- `recalibrate_some`, the loop of RECALIBRATE_ALL in src/CommandController.cpp, beside `recalibrateAll` of
-- src/TouchController.cpp.
use hardware.Base.{
  ℕ, zero, suc, ◌+◌, ◌<◌, ◌≤◌, ◌≡◌, refl, ap, ◌∙◌, Bool, true, false, ltb, leb, if◌then◌else◌,
  Bool-cases, inl, inr, arith,
}
use hardware.Base.Words.{add8}
use hardware.Config.{num_touch_sensors}
use hardware.Touch.State.{TouchController}
use hardware.Touch.I2c.{Wire}
use hardware.Touch.Controller.{sensor_at, recalibrate, recalibrate_from}
use hardware.Command.Machine.{Parts, Machine}
use hardware.Command.Tick.{recalibrate_some}

module _ (w : Wire) (t : TouchController) where
  recalibrate_if_active :
      (i : ℕ) (bus : w.Bus)
      → i < 25
      → (recalibrate w t i bus).1
        ≡ (if (sensor_at t i).active then (recalibrate w t i bus).1 else bus)
  unfolding recalibrate
  recalibrate_if_active i bus l =
      let range : leb num_touch_sensors i ≡ false = ground arith in
      elim (Bool-cases (sensor_at t i).active) [
        | inl on ↦ rw on refl
        | inr off ↦ rw (range, off) refl
      ]

  pub recalibrate_from-add :
      (k n i : ℕ) (bus : w.Bus)
      → recalibrate_from w n t (i + k) (recalibrate_from w k t i bus)
        ≡ recalibrate_from w (k + n) t i bus
  unfolding recalibrate_from
  recalibrate_from-add zero n i bus =
      ap (λ j. recalibrate_from w n t j bus) {x = i + 0} {y = i} (omega arith)
      ∙ ap (λ j. recalibrate_from w j t i bus) {x = n} {y = 0 + n} (omega arith)
  recalibrate_from-add (suc k) n i bus =
      let one = if (sensor_at t i).active then (recalibrate w t i bus).1 else bus in
      ap (λ j. recalibrate_from w n t j (recalibrate_from w k t (i + 1) one)) {x = i + suc k}
        {y = i + 1 + k} (omega arith)
      ∙ (recalibrate_from-add k n (i + 1) one
          ∙ ap (λ j. recalibrate_from w j t i bus) {x = suc (k + n)} {y = suc k + n} (omega arith))

module _ (p : Parts) where
  -- One portion: the sensors from `a` on.
  pub recalibrate_some-portion :
      (k a : ℕ) (m : Machine p)
      → a + k ≤ 25
      → recalibrate_some p k a m
        ≡ (a + k, record m { bus = recalibrate_from p.wire k m.touch a m.bus })
  unfolding recalibrate_some recalibrate_from
  recalibrate_some-portion zero a m l = ap (λ b. (b, m)) (omega arith)
  recalibrate_some-portion (suc k) a m l =
      let active = (sensor_at m.touch a).active in
      let one = (recalibrate p.wire m.touch a m.bus).1 in
      let more : ℕ → p.wire.Bus → ℕ × Machine p =
        λ j b. recalibrate_some p k j (record m { bus = b }) in
      let there : ltb a num_touch_sensors ≡ true = ground arith in
      ap (λ (b : Bool). if b then more (add8 a 1) one else (a, m)) there
      ∙ (ap (λ j. more j one) {x = add8 a 1} {y = a + 1} (omega arith)
          ∙ (ap (more (a + 1)) (recalibrate_if_active p.wire m.touch a m.bus (omega arith))
              ∙ (recalibrate_some-portion k (a + 1)
                    (record m { bus = if active then one else m.bus }) (omega arith)
                  ∙ ap
                      (λ j. (
                        j,
                        record m {
                          bus =
                              recalibrate_from p.wire k m.touch (a + 1)
                                (if active then one else m.bus);
                        },
                      ))
                      (omega arith))))
