-- ===== src/Firmware.antt =====
-- src/main.cpp: `setup` and one round of `loop`. The Mock Pi, which main.cpp compiles in, acts on the
-- rest by `injectCommand`: here the command lines that its `update` sends in a round are an argument, in
-- Firmware/Mocked it is the Mock Pi itself.
pub mod Rounds
pub mod Mocked
pub mod Played
use hardware.Base.{ℕ, ◌+◌, Option, none, some, List, [], ◌∷◌, ltb, if◌then◌else◌}
use hardware.Base.Words.{sub32}
use hardware.Config.{touch_poll_interval_ms}
use hardware.EventQueue
use hardware.EventQueue.Emit.{queue_info}
use hardware.Touch.State.{set_event_queue}
use hardware.Touch.Controller as Touch
use hardware.Led.Controller as Led
use hardware.Led.Update
use hardware.Command.Rx.{poll_serial}
use hardware.Command.Machine.{Parts, Machine, millis}
use hardware.Command.Tick

module _ (p : Parts) where
  -- `touchController.tick()`, with its three calls of `millis()`; the later two are made only if the
  -- poll is due.
  unfoldable pub touch_tick : Machine p → Machine p
  touch_tick m =
      let now = m.clock m.calls in
      let poll_time = m.clock (m.calls + 1) in
      let debounce_time = m.clock (m.calls + 2) in
      let (touch, events, bus) =
        Touch.tick p.wire p.env now poll_time debounce_time m.touch m.events m.bus in
      record m {
        touch = touch;
        events = events;
        bus = bus;
        calls =
            if ltb (sub32 now m.touch.last_poll_time) touch_poll_interval_ms
            then m.calls + 1
            else m.calls + 3;
      }

  unfoldable pub led_tick : Machine p → Machine p
  led_tick m = let (now, m₁) = millis p m in record m₁ { led = Update.tick p.pixels now m₁.led }

  unfoldable pub flush_events : ℕ → Machine p → List ℕ × Machine p
  flush_events n m =
      let (out, events) = EventQueue.flush p.env n m.events in (out, record m { events = events })

  -- The calls of `injectCommand` that the Mock Pi makes.
  unfoldable pub inject_all : List (List ℕ) → Machine p → Option (Machine p)
  inject_all [] m = some m
  inject_all (line ∷ rest) m = elim (Tick.inject_command p line m) [
    | none ↦ none
    | some m' ↦ inject_all rest m'
  ]

  -- The parts of a round after the commands have been read: steps 3 to 6.
  unfoldable pub run_controllers : Machine p → List ℕ × Machine p
  run_controllers m = flush_events 3 (led_tick (touch_tick (Tick.tick p m)))

  -- `received` are the bytes that wait on the serial line; the result has the bytes sent. `none` means
  -- that a loop did not end.
  unfoldable pub loop : List ℕ → List (List ℕ) → Machine p → Option (List ℕ × Machine p)
  loop received mock_lines m =
      let m₁ = record m { rx = poll_serial m.rx received } in
      elim (Tick.process_completed_lines p 128 m₁) [
        | none ↦ none
        | some m₂ ↦
            let (out, m₃) = run_controllers m₂ in
            elim (inject_all mock_lines m₃) [ none ↦ none | some m₄ ↦ some (out, m₄) ]
      ]

  -- `setup`, up to the start of the Mock Pi: the bytes sent, and the state.
  unfoldable pub setup : Machine p → List ℕ × Machine p
  setup m =
      let (found, touch, bus) = Touch.begin p.wire (set_event_queue m.touch) m.bus in
      let m₁ = Tick.begin p (record m {
        events = EventQueue.begin m.events;
        led = Led.begin p.pixels m.led;
        touch = touch;
        bus = bus;
      }) in
      flush_events 1 (record m₁ { events = (queue_info m₁.events p.env.no_command_id).1 })
