-- ===== src/Command/Recalibration.antt =====
-- RECALIBRATE_ALL of src/CommandController.cpp, from its execution to its end.
use hardware.Base.{
  ℕ, suc, ◌<◌, ◌≡◌, refl, sym, ap, ◌∙◌, subst, Bool, true, false, not, some, List, [], ◌∷◌, length,
  get_or, set, get_or-set_self, set-set, length-set, if◌then◌else◌, arith,
}
use hardware.Base.Words.{codes}
use hardware.EventQueue.Emit.{queue_ack, queue_recalibrated}
use hardware.Touch.Controller.{recalibrate_all_sensors}
use hardware.Command.Actions.{recalibrate_all, action_to_string, action_is_long_running}
use hardware.Command.Parse.{ParsedCommand, command_id_of}
use hardware.Command.Execute.{first_free, start_command, queued, queue_command, execute_command}
use hardware.Command.Machine.{Parts, Machine, QueuedCommand, no_command, ack, error, put_command}
use hardware.Command.Tick.{tick}
use hardware.Command.Alone.{Alone-set}
use hardware.Command.Progress.{five_ticks}

module _ (p : Parts) where
  first_free_first :
      (qcs : List QueuedCommand)
      → 0 < length qcs
      → (get_or qcs 0 no_command).active ≡ false
      → first_free p qcs 0 ≡ some 0
  unfolding first_free
  first_free_first [] l h = absurd (omega arith)
  first_free_first (qc ∷ qcs) l h = ap (λ (b : Bool). if b then first_free p qcs 1 else some 0) h

  -- The execution of the command, if the queue of commands has a first place.
  accepted :
      (cmd : ParsedCommand) (m : Machine p)
      → first_free p m.commands 0 ≡ some 0
      → m.has_touch ≡ true
      → let c : ParsedCommand = record cmd { action = recalibrate_all } in
        execute_command p c m ≡ record m {
          calls = suc m.calls;
          commands = set m.commands 0 (queued p c (m.clock m.calls));
          events =
              (queue_ack m.events (codes "RECALIBRATE_ALL") 0 (command_id_of p.env p.lexer c)).1;
        }
  unfolding execute_command queue_command start_command action_is_long_running action_to_string
  accepted cmd m free has_touch =
      let c : ParsedCommand = record cmd { action = recalibrate_all } in
      let id = command_id_of p.env p.lexer c in
      let filled : Machine p = record m {
        calls = suc m.calls;
        commands = set m.commands 0 (queued p c (m.clock m.calls));
      } in
      let acked : Bool × Machine p = (true, ack p (codes "RECALIBRATE_ALL") 0 id filled) in
      let refused : Bool × Machine p = (
        false,
        put_command p 0 (record (get_or filled.commands 0 no_command) { active = false })
            (error p (codes "no_touch_controller") id filled),
      ) in
      let taken : queue_command p c m ≡ start_command p recalibrate_all 0 c filled =
        rw (queue_command, free) refl in
      let started : start_command p recalibrate_all 0 c filled ≡ acked =
        ap (λ (b : Bool). if b then acked else refused) has_touch in
      ap (λ (r : Bool × Machine p). if not r.0 then error p (codes "busy") id r.1 else r.1)
        (taken ∙ started)

  -- RECALIBRATE_ALL, with a touch controller and no other command in the queue: its execution answers with
  -- ACK, the next four ticks of the executor say nothing, and the fifth answers RECALIBRATED ALL and frees
  -- the entry. On the bus the five have done exactly what `recalibrateAll` of the touch controller does at
  -- once.
  pub recalibrate_all-five_ticks :
      (cmd : ParsedCommand) (m : Machine p)
      → length m.commands ≡ 8
      → ((k : ℕ) → (get_or m.commands k no_command).active ≡ false)
      → m.has_touch ≡ true
      → let c : ParsedCommand = record cmd { action = recalibrate_all } in
        let id = command_id_of p.env p.lexer c in
        let begun = execute_command p c m in
        let four = tick p (tick p (tick p (tick p begun))) in
        (begun.events ≡ (queue_ack m.events (codes "RECALIBRATE_ALL") 0 id).1)
        × (four.events ≡ begun.events)
        × (tick p four ≡ record m {
          bus = recalibrate_all_sensors p.wire m.touch m.bus;
          calls = suc m.calls;
          commands =
              set m.commands 0
                (record (queued p c (m.clock m.calls)) { active = false; scan_address = 25 });
          events = (queue_recalibrated begun.events 0 id).1;
        })
  recalibrate_all-five_ticks cmd m slots free has_touch =
      let c : ParsedCommand = record cmd { action = recalibrate_all } in
      let qc = queued p c (m.clock m.calls) in
      let begun : Machine p = record m {
        calls = suc m.calls;
        commands = set m.commands 0 qc;
        events = (queue_ack m.events (codes "RECALIBRATE_ALL") 0 (command_id_of p.env p.lexer c)).1;
      } in
      let e : execute_command p c m ≡ begun =
        accepted cmd m (first_free_first m.commands (omega (arith, slots)) (free 0)) has_touch in
      let (four, five) =
        five_ticks p 0 qc begun (omega arith) (length-set m.commands 0 qc ∙ slots) refl refl
          has_touch (Alone-set p 0 m.commands qc (λ k h. free k))
          (get_or-set_self m.commands 0 qc no_command (omega (arith, slots))) in
      subst
        (λ (x : Machine p).
          (x.events ≡ begun.events)
          × ((tick p (tick p (tick p (tick p x)))).events ≡ x.events)
          × (tick p (tick p (tick p (tick p (tick p x)))) ≡ record m {
            bus = recalibrate_all_sensors p.wire m.touch m.bus;
            calls = suc m.calls;
            commands = set m.commands 0 (record qc { active = false; scan_address = 25 });
            events = (queue_recalibrated x.events 0 (command_id_of p.env p.lexer c)).1;
          }))
        (sym e)
        (
          refl,
          ap (λ (x : Machine p). x.events) four,
          five
              ∙ ap
                  (λ qcs. record begun {
                    bus = recalibrate_all_sensors p.wire m.touch m.bus;
                    commands = qcs;
                    events = (queue_recalibrated begun.events 0 (command_id_of p.env p.lexer c)).1;
                  })
                  (set-set m.commands 0 qc (record qc { active = false; scan_address = 25 })),
        )
