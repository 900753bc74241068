-- ===== src/Touch/Expectations.antt =====
-- The answer to `setExpectDown` of src/TouchController.cpp.
use hardware.Base.{
  ℕ, zero, suc, ◌+◌, ◌<◌, ◌≤◌, ◌≡◌, refl, sym, ap, ◌∙◌, Bool, true, false, ◌&&◌, List, [], ◌∷◌,
  ◌++◌, length, leb, if◌then◌else◌, take, get_or, set, get_or-set_self, length-set, append_assoc,
  length-append, subst, arith,
}
use hardware.Config.{num_touch_sensors}
use hardware.EventQueue.{Event, EventQueue, Env}
use hardware.EventQueue.Emit.{touched_down_event}
use hardware.EventQueue.Fifo.{IsValid, contents}
use hardware.Touch.State.{
  TouchSensorState, ExpectState, TouchController, no_expectation, idle_sensor,
}
use hardware.Touch.Letters.{index_to_letter}
use hardware.Touch.Poll.{debounce_from}
use hardware.Touch.Controller.{sensor_at, set_expect_down}
use hardware.Touch.Reports.{is_due, report, reports, debounce_from-reports}
use hardware.Touch.Debounce.{used, all_used, debounce_from_state}

module _ (env : Env) where
  -- Where the report of sensor `i` stands.
  record Split (now i j : ℕ) (ss : List TouchSensorState) (ds us : List ExpectState) : Type 0 where
    before : List Event
    after : List Event
    early : length before ≤ i
    whole :
        reports env now j ss ds us
        ≡ before
          ++ (report env now
                (j + i)
                (get_or ss i idle_sensor)
                (get_or ds i (no_expectation env))
                (get_or us i (no_expectation env))
              ++ after)

  length-report :
      (now i : ℕ) (s : TouchSensorState) (d u : ExpectState) → length (report env now i s d u) ≤ 1
  length-report now i s d u = ground arith

  reports-Split :
      (now i j : ℕ) (ss : List TouchSensorState) (ds us : List ExpectState)
      → i < length ss
      → length ds ≡ length ss
      → length us ≡ length ss
      → Split now i j ss ds us
  reports-Split now i j [] ds us l hd hu = absurd (omega arith)
  reports-Split now i j (s ∷ ss) [] us l hd hu = absurd (omega arith)
  reports-Split now i j (s ∷ ss) (d ∷ ds) [] l hd hu = absurd (omega arith)
  reports-Split now zero j (s ∷ ss) (d ∷ ds) (u ∷ us) l hd hu = record {
    before = [];
    after = reports env now (j + 1) ss ds us;
    early = omega arith;
    whole =
        ap (λ k. report env now k s d u ++ reports env now (j + 1) ss ds us) {x = j} {y = j + 0}
          (omega arith);
  }
  reports-Split now (suc i) j (s ∷ ss) (d ∷ ds) (u ∷ us) l hd hu =
      let r = reports-Split now i (j + 1) ss ds us (omega arith) (omega arith) (omega arith) in
      let one = report env now j s d u in
      record {
        before = one ++ r.before;
        after = r.after;
        early = omega (arith, length-append one r.before, length-report now j s d u, r.early);
        whole =
            ap (λ es. one ++ es) r.whole
            ∙ (ap
                  (λ k.
                    one
                    ++ (r.before
                        ++ (report env now k (get_or ss i idle_sensor)
                              (get_or ds i (no_expectation env)) (get_or us i (no_expectation env))
                            ++ r.after)))
                  {x = j + 1 + i} {y = j + suc i} (omega arith)
                ∙ sym (append_assoc one r.before _));
      }

  get_or-all_used :
      (touched : Bool) (now i : ℕ) (ss : List TouchSensorState) (xs : List ExpectState)
      → i < length ss
      → length xs ≡ length ss
      → get_or (all_used env touched now ss xs) i (no_expectation env)
        ≡ used env touched now (get_or ss i idle_sensor) (get_or xs i (no_expectation env))
  get_or-all_used touched now i [] xs l h = absurd (omega arith)
  get_or-all_used touched now i (s ∷ ss) [] l h = absurd (omega arith)
  get_or-all_used touched now zero (s ∷ ss) (x ∷ xs) l h = refl
  get_or-all_used touched now (suc i) (s ∷ ss) (x ∷ xs) l h =
      get_or-all_used touched now i ss xs (omega arith) (omega arith)

  -- The arrays have the sizes that they are declared with.
  pub record Sized (t : TouchController) : Type 0 where
    pub sensors : length t.sensors ≡ 25
    pub downs : length t.expect_down ≡ 25
    pub ups : length t.expect_up ≡ 25

  abbrev pub expecting : ℕ → ExpectState
  expecting id = record { active = true; command_id = id }

  -- What a pass of `processDebounce` says of sensor `i`.
  pub record Said (now i : ℕ) (t : TouchController) (q : EventQueue) (es : List Event)
      : Type 0 where
    pub before : List Event
    pub after : List Event
    pub early : length before ≤ i
    pub whole :
        contents (debounce_from env true now 0 t.sensors t.expect_down t.expect_up q).queue
        ≡ take 16 (contents q ++ (before ++ (es ++ after)))

  said :
      (now i : ℕ) (t : TouchController) {q : EventQueue}
      → Sized t
      → i < 25
      → IsValid q
      → Said now i t q (
          report env now i
            (sensor_at t i)
            (get_or t.expect_down i (no_expectation env))
            (get_or t.expect_up i (no_expectation env)))
  said now i t {q} z l v =
      let r =
        reports-Split now i 0 t.sensors t.expect_down t.expect_up (omega (arith, z.sensors))
          (z.downs ∙ sym z.sensors) (z.ups ∙ sym z.sensors) in
      record {
        before = r.before;
        after = r.after;
        early = r.early;
        whole =
            (debounce_from-reports env now 0 t.sensors t.expect_down t.expect_up v).0
            ∙ (ap (λ es. take 16 (contents q ++ es)) r.whole
                ∙ ap
                    (λ k. take 16 (
                      contents q
                      ++ (r.before
                          ++ (report env now k (sensor_at t i)
                                (get_or t.expect_down i (no_expectation env))
                                (get_or t.expect_up i (no_expectation env))
                              ++ r.after))))
                    {x = 0 + i} {y = i} (omega arith));
      }

  report-expected :
      (now i : ℕ) (s : TouchSensorState) (d u : ExpectState) (id : ℕ)
      → report env now i s (expecting id) u ≡ (
          if is_due now s && s.current_touched
          then touched_down_event (index_to_letter i) id ∷ []
          else report env now i s d u)
  report-expected now i s d u id = ground arith

  used-expected :
      (now : ℕ) (s : TouchSensorState) (id : ℕ)
      → used env true now s (expecting id)
        ≡ (if is_due now s && s.current_touched then no_expectation env else expecting id)
  used-expected now s id = ground arith

  -- `setExpectDown` for a sensor of the 25, and then a pass of `processDebounce` over a valid queue: if the
  -- sensor is due and touched, the pass says TOUCHED_DOWN with its letter and the identifier, after at most
  -- one event for each sensor before it, as far as the queue's 16 places allow, and the expectation is gone.
  -- If not, it says what it would have said of the sensor before, and the expectation stays.
  pub set_expect_down-answer :
      (now i id : ℕ) (t : TouchController) {q : EventQueue}
      → Sized t
      → i < 25
      → IsValid q
      → let s = sensor_at t i in
        let u = get_or t.expect_up i (no_expectation env) in
        let t' = set_expect_down t i id in
        let d = debounce_from env true now 0 t'.sensors t'.expect_down t'.expect_up q in
        Said now i t' q (
          if is_due now s && s.current_touched
          then touched_down_event (index_to_letter i) id ∷ []
          else report env now i s (get_or t.expect_down i (no_expectation env)) u)
        × (get_or d.expect_down i (no_expectation env)
            ≡ (if is_due now s && s.current_touched then no_expectation env else expecting id))
  unfolding set_expect_down
  set_expect_down-answer now i id t {q} z l v =
      let ds = set t.expect_down i (expecting id) in
      let t₂ : TouchController = record t { expect_down = ds } in
      let s = sensor_at t i in
      let u = get_or t.expect_up i (no_expectation env) in
      let range : leb num_touch_sensors i ≡ false = ground arith in
      let entry : get_or ds i (no_expectation env) ≡ expecting id =
        get_or-set_self t.expect_down i (expecting id) (no_expectation env)
          (omega (arith, l, z.downs)) in
      let downs : length ds ≡ length t.sensors =
        length-set t.expect_down i (expecting id) ∙ (z.downs ∙ sym z.sensors) in
      let sized : Sized t₂ = record {
        sensors = z.sensors;
        downs = downs ∙ z.sensors;
        ups = z.ups;
      } in
      let passed =
        debounce_from_state env now 0 t.sensors ds t.expect_up q downs (z.ups ∙ sym z.sensors) in
      let told =
        subst (Said now i t₂ q)
          (ap (λ x. report env now i s x u) entry
            ∙ report-expected now i s (get_or t.expect_down i (no_expectation env)) u id)
          (said now i t₂ sized l v) in
      let left =
        ap (λ xs. get_or xs i (no_expectation env)) passed.1
        ∙ (get_or-all_used true now i t.sensors ds (omega (arith, l, z.sensors)) downs
            ∙ (ap (used env true now s) entry ∙ used-expected now s id)) in
      subst
        (λ (x : TouchController).
          Said now i x q (
            if is_due now s && s.current_touched
            then touched_down_event (index_to_letter i) id ∷ []
            else report env now i s (get_or t.expect_down i (no_expectation env)) u)
          × (get_or (debounce_from env true now 0 x.sensors x.expect_down x.expect_up q).expect_down
                i (no_expectation env)
              ≡ (if is_due now s && s.current_touched then no_expectation env else expecting id)))
        (sym (ap (λ (b : Bool). if b then t else t₂) range)) (told, left)
