-- ===== src/Command/Changes.antt =====
-- The changes that the instant commands of src/CommandController.cpp make before they answer.
use hardware.Base.{
  ℕ, ◌<◌, ◌≤◌, ◌≡◌, refl, ap, subst, Bool, true, false, [], ltb, leb, if◌then◌else◌, Bool-cases,
  inl, inr, ltb→lt, arith,
}
use hardware.EventQueue.Emit.{queue_ack, queue_error}
use hardware.Touch.Controller.{set_expect_down, set_expect_up}
use hardware.Led.Strip.{LedController}
use hardware.Led.Invariant as Led
use hardware.Command.Parse.{ParsedCommand}
use hardware.Command.Machine.{Parts, Machine, millis, millis_in_range}
use hardware.Config.{num_positions}
use hardware.Command.Execute.{answer}
use hardware.Command.Steps.{IsValid, Step, Step-trans, Step-silent, Step-enqueue, Step-led}
use hardware.Command.Expected.{acked, failed, done_or_failed}

module _ (p : Parts) where
  -- The common end of the LED commands.
  pub answer-Step :
      (done : Bool) (cmd : ParsedCommand) (m : Machine p)
      → IsValid p m
      → Step p m (answer p done cmd m) (done_or_failed p done cmd)
  unfolding done_or_failed acked failed queue_ack queue_error
  answer-Step true cmd m v = Step-enqueue p m (acked p cmd cmd.position) v refl
  answer-Step false cmd m v = Step-enqueue p m (failed p "command_failed" cmd) v refl

  -- A command is done exactly in range.
  pub in_range :
      (i : ℕ) (l : LedController p.pixels) (r : Bool × LedController p.pixels)
      → (i < 25 → r.0 ≡ true)
      → (25 ≤ i → r ≡ (false, l))
      → r.0 ≡ ltb i 25
  in_range i l r inside outside = elim (Bool-cases (ltb i 25)) [
    | inl small ↦ rw small (inside (ltb→lt _ _ small))
    | inr large ↦ rw large (ap (λ x. x.0) (outside (ground arith)))
  ]

  -- An LED command with the result `r`.
  pub led-Step :
      (cmd : ParsedCommand) (m : Machine p) (r : Bool × LedController p.pixels)
      → IsValid p m
      → Led.IsValid p.pixels r.1
      → r.0 ≡ ltb cmd.position_index 25
      → Step p m
          (answer p r.0 cmd (record m { led = r.1 }))
          (done_or_failed p (ltb cmd.position_index 25) cmd)
  led-Step cmd m r v w e =
      let moved = Step-led p m r.1 v w in
      subst (λ b. Step p m (answer p r.0 cmd (record m { led = r.1 })) (done_or_failed p b cmd)) e
        (Step-trans p moved (answer-Step r.0 cmd (record m { led = r.1 }) moved.valid))

  -- Looking at the clock.
  pub millis-Step : (m : Machine p) → IsValid p m → Step p m (millis p m).1 []
  millis-Step m v =
      Step-silent p (millis p m).1
        (record {
          rx = v.rx;
          led = v.led;
          events = v.events;
          linked = v.linked;
          commands = v.commands;
        })
        refl refl

  pub millis_in_range-Step :
      (i : ℕ) (m : Machine p) → IsValid p m → Step p m (millis_in_range p i m).1 []
  millis_in_range-Step i m v = either (leb num_positions i)
    where
      either : (b : Bool) → Step p m (if b then m else (millis p m).1) []
      either true = Step-silent p m v refl refl
      either false = millis-Step m v

  pub set_expect_down-Step :
      (m : Machine p) (i id : ℕ)
      → IsValid p m
      → Step p m (record m { touch = set_expect_down m.touch i id }) []
  unfolding set_expect_down
  set_expect_down-Step m i id v =
      Step-silent p (record m { touch = set_expect_down m.touch i id })
        (record {
          rx = v.rx;
          led = v.led;
          events = v.events;
          linked = ground (arith, v.linked);
          commands = v.commands;
        })
        refl refl

  pub set_expect_up-Step :
      (m : Machine p) (i id : ℕ)
      → IsValid p m
      → Step p m (record m { touch = set_expect_up m.touch i id }) []
  unfolding set_expect_up
  set_expect_up-Step m i id v =
      Step-silent p (record m { touch = set_expect_up m.touch i id })
        (record {
          rx = v.rx;
          led = v.led;
          events = v.events;
          linked = ground (arith, v.linked);
          commands = v.commands;
        })
        refl refl

  pub bus-Step : (m : Machine p) (b : p.wire.Bus) → IsValid p m → Step p m (record m { bus = b }) []
  bus-Step m b v =
      Step-silent p (record m { bus = b })
        (record {
          rx = v.rx;
          led = v.led;
          events = v.events;
          linked = v.linked;
          commands = v.commands;
        })
        refl refl
