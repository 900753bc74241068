-- ===== src/Firmware/Rounds.antt =====
-- The rounds of `loop` in src/main.cpp: each ends, and the state is valid after it.
use hardware.Base.{
  ℕ, suc, ◌+◌, ◌++◌, ◌≡◌, refl, sym, ap, ◌∙◌, true, Option, none, some, List, [], ◌∷◌, ltb, length,
  Bool-cases, inl, inr, subst, arith,
}
use hardware.Base.Words.{sub32}
use hardware.EventQueue.{Env, EventQueue}
use hardware.EventQueue.Emit.{queue_info, info_event}
use hardware.EventQueue.Fifo as Fifo
use hardware.EventQueue.Flush.{flush_refines}
use hardware.Touch.State.{TouchController, set_event_queue}
use hardware.Touch.I2c.{Wire}
use hardware.Touch.Poll.{debounce_from, poll_sensors}
use hardware.Touch.Reports.{debounce_from-reports}
use hardware.Touch.Controller as Touch
use hardware.Config.{sensor_i2c_addresses}
use hardware.Led.Update as Update
use hardware.Led.Invariant as Led
use hardware.Command.LexerLaws.{LexerLaws}
use hardware.Command.Rx.{poll_serial, begin_rx}
use hardware.Command.Ring as Ring
use hardware.Command.Machine.{Parts, Machine, QueuedCommand}
use hardware.Command.Tick as Tick
use hardware.Command.Tick.{deactivate}
use hardware.Command.Ticks.{tick-Step}
use hardware.Command.Completed.{process_completed_lines_ends, inject_command_ends}
use hardware.Command.Steps.{IsValid}
use hardware.Firmware.{touch_tick, led_tick, flush_events, inject_all, run_controllers, loop, setup}

-- A tick of the touch controller keeps the event queue valid.
tick-IsValid :
    (w : Wire) (env : Env) (now poll_time debounce_time : ℕ) (t : TouchController) (q : EventQueue)
    (bus : w.Bus)
    → t.has_event_queue ≡ true
    → Fifo.IsValid q
    → let (t', q', bus') = Touch.tick w env now poll_time debounce_time t q bus in
      Fifo.IsValid q' × (t'.has_event_queue ≡ true)
unfolding Touch.tick
tick-IsValid w env now poll_time debounce_time t q bus linked v =
    let ss = (poll_sensors w poll_time sensor_i2c_addresses t.sensors bus).0 in
    let (said, v') = debounce_from-reports env debounce_time 0 ss t.expect_down t.expect_up v in
    let w' =
      subst
        (λ b.
          Fifo.IsValid (debounce_from env b debounce_time 0 ss t.expect_down t.expect_up q).queue)
        (sym linked) v' in
    elim (Bool-cases (ltb (sub32 now t.last_poll_time) 10)) [
      | inl early ↦ rw early (v, linked)
      | inr due ↦ rw due (w', linked)
    ]

length-deactivate : (qcs : List QueuedCommand) → length (deactivate qcs) ≡ length qcs
unfolding deactivate
length-deactivate [] = refl
length-deactivate (qc ∷ qcs) = ap suc (length-deactivate qcs)

module _ (p : Parts) where
  -- The arrays have the sizes that they are declared with.
  pub record Sized (m : Machine p) : Type 0 where
    pub buffer : length m.rx.buffer ≡ 128
    pub queue : length m.events.queue ≡ 16
    pub commands : length m.commands ≡ 8

  pub setup-IsValid : (m : Machine p) → Sized m → IsValid p (setup p m).1
  unfolding setup begin_rx Tick.begin Touch.begin set_event_queue Led.run queue_info flush_events
  setup-IsValid m s =
      let (v, none_wait) = Fifo.begin-IsValid m.events s.queue in
      let (told, v') = Fifo.enqueue-take (info_event p.env.no_command_id) v refl in
      record {
        rx = record {
          slots = s.buffer;
          head_in = omega arith;
          tail_in = omega arith;
          index_in = omega arith;
          index_at = refl;
        };
        led = Led.run-begin-IsValid p.pixels [] m.led;
        events = (flush_refines p.env 1 v').2;
        linked = refl;
        commands = length-deactivate m.commands ∙ s.commands;
      }

  poll_serial-IsValid :
      (received : List ℕ) (m : Machine p)
      → IsValid p m
      → IsValid p (record m { rx = poll_serial m.rx received })
  poll_serial-IsValid received m v = record {
    rx = (Ring.poll_serial_refines received m.rx v.rx).1;
    led = v.led;
    events = v.events;
    linked = v.linked;
    commands = v.commands;
  }

  touch_tick-IsValid : (m : Machine p) → IsValid p m → IsValid p (touch_tick p m)
  unfolding touch_tick
  touch_tick-IsValid m v =
      let (events, linked) =
        tick-IsValid p.wire p.env (m.clock m.calls) (m.clock (m.calls + 1)) (m.clock (m.calls + 2))
          m.touch m.events m.bus v.linked v.events in
      record { rx = v.rx; led = v.led; events = events; linked = linked; commands = v.commands }

  led_tick-IsValid : (m : Machine p) → IsValid p m → IsValid p (led_tick p m)
  unfolding led_tick Update.tick Led.call
  led_tick-IsValid m v = record {
    rx = v.rx;
    led = Led.call-IsValid p.pixels (Led.updates (m.clock m.calls)) m.led v.led;
    events = v.events;
    linked = v.linked;
    commands = v.commands;
  }

  flush_events-IsValid : (n : ℕ) (m : Machine p) → IsValid p m → IsValid p (flush_events p n m).1
  unfolding flush_events
  flush_events-IsValid n m v = record {
    rx = v.rx;
    led = v.led;
    events = (flush_refines p.env n v.events).2;
    linked = v.linked;
    commands = v.commands;
  }

  run_controllers-IsValid : (m : Machine p) → IsValid p m → IsValid p (run_controllers p m).1
  unfolding run_controllers
  run_controllers-IsValid m v =
      let (es, ticked) = tick-Step p m v in
      flush_events-IsValid 3 (led_tick p (touch_tick p (Tick.tick p m))) (
        led_tick-IsValid (touch_tick p (Tick.tick p m))
          (touch_tick-IsValid (Tick.tick p m) ticked.valid))

  -- Rounds of `loop`, each with the bytes that have come and the lines of the Mock Pi: what they send.
  unfoldable pub rounds : List (List ℕ × List (List ℕ)) → Machine p → Option (List ℕ × Machine p)
  rounds [] m = some ([], m)
  rounds ((received, mock_lines) ∷ rest) m = elim (loop p received mock_lines m) [
    | none ↦ none
    | some (out, m₁) ↦ elim (rounds rest m₁) [
      | none ↦ none
      | some (more, m₂) ↦ some (out ++ more, m₂)
    ]
  ]

  module _ (laws : LexerLaws p.lexer) where
    inject_all_ends :
        (lines : List (List ℕ)) (m : Machine p)
        → IsValid p m
        → (m' : Machine p) × (inject_all p lines m ≡ some m') × IsValid p m'
    unfolding inject_all
    inject_all_ends [] m v = (m, refl, v)
    inject_all_ends (line ∷ lines) m v =
        let (m₁, e, v₁) = inject_command_ends p laws line m v in
        rw (inject_all, e) (inject_all_ends lines m₁ v₁)

    -- From a valid state a round of `loop` ends, whatever bytes have come and whatever lines the Mock Pi
    -- injects, and the state is valid after it.
    pub loop_ends :
        (received : List ℕ) (mock_lines : List (List ℕ)) (m : Machine p)
        → IsValid p m
        → (out : List ℕ) × (m' : Machine p) × (loop p received mock_lines m ≡ some (out, m'))
          × IsValid p m'
    unfolding loop
    loop_ends received mock_lines m v =
        let m₁ : Machine p = record m { rx = poll_serial m.rx received } in
        let v₁ = poll_serial-IsValid received m v in
        let (m₂, e₂, v₂) =
          process_completed_lines_ends p laws 128 m₁ v₁
            (Ring.pending-lt m₁.rx v₁.rx.head_in v₁.rx.tail_in) in
        let v₃ = run_controllers-IsValid m₂ v₂ in
        let (m₄, e₄, v₄) = inject_all_ends mock_lines (run_controllers p m₂).1 v₃ in
        ((run_controllers p m₂).0, m₄, rw (loop, e₂, e₄) refl, v₄)

    rounds_end :
        (inputs : List (List ℕ × List (List ℕ))) (m : Machine p)
        → IsValid p m
        → (out : List ℕ) × (m' : Machine p) × (rounds inputs m ≡ some (out, m')) × IsValid p m'
    unfolding rounds
    rounds_end [] m v = ([], m, refl, v)
    rounds_end ((received, mock_lines) ∷ rest) m v =
        let (out, m₁, e₁, v₁) = loop_ends received mock_lines m v in
        let (more, m₂, e₂, v₂) = rounds_end rest m₁ v₁ in
        (out ++ more, m₂, rw (rounds, e₁, e₂) refl, v₂)

    -- After `setup`, on arrays of their declared sizes, any number of rounds of `loop` end, whatever bytes
    -- come and whatever lines the Mock Pi injects, and the state is valid after them.
    pub setup-rounds_end :
        (m : Machine p) (inputs : List (List ℕ × List (List ℕ)))
        → Sized m
        → (out : List ℕ) × (m' : Machine p) × (rounds inputs (setup p m).1 ≡ some (out, m'))
          × IsValid p m'
    setup-rounds_end m inputs s = rounds_end inputs (setup p m).1 (setup-IsValid m s)
