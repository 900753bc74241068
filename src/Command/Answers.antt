-- ===== src/Command/Answers.antt =====
-- `executeCommand` of src/CommandController.cpp on every action and every branch.
use hardware.Base.{
  ℕ, ◌+◌, ◌≡◌, refl, subst, List, Bool-cases, inl, inr, Bool, true, false, not, Option, none, some,
  [], ◌∷◌, if◌then◌else◌, get_or,
}
use hardware.Base.Words.{codes}
use hardware.EventQueue.Emit.{queue_ack, queue_error}
use hardware.Led.Controller
use hardware.Led.Update
use hardware.Led.Invariant as Led
use hardware.Command.Actions.{
  CommandAction, show, hide, blink, stop_blink, expect_down, expect_up, recalibrate_all, success,
  scan, sequence_completed, info, ping, invalid, action_to_string, action_is_long_running,
}
use hardware.Command.Actions
use hardware.Command.Parse.{ParsedCommand, command_id_of}
use hardware.Command.Machine.{
  Parts, Machine, no_command, millis, millis_in_range, ack, error, put_command, QueuedCommand,
}
use hardware.Command.Execute.{
  execute_instant, first_free, start_command, queued, queue_command, execute_command,
}
use hardware.Command.Steps.{
  IsValid, Step, Step-trans, Step-silent, Step-enqueue, Step-led, Step-put_command, Step-if,
}
use hardware.Command.Expected.{some_free, acked, failed, queued_answers, answers}
use hardware.Command.Instant.{no_touch-Step, instant-Step}
use hardware.Command.Changes.{millis-Step, millis_in_range-Step}

module _ (p : Parts) where
  -- What `executeCommand` makes of the answer of `queueCommand`.
  or_busy : ParsedCommand → Bool × Machine p → Machine p
  or_busy cmd r =
      if not r.0 then error p (codes "busy") (command_id_of p.env p.lexer cmd) r.1 else r.1

  busy-Step :
      (cmd : ParsedCommand) (m : Machine p)
      → IsValid p m
      → Step p m (or_busy cmd (false, m)) (failed p "busy" cmd ∷ [])
  unfolding or_busy failed queue_error
  busy-Step cmd m v = Step-enqueue p m (failed p "busy" cmd) v refl

  -- A command that needs the touch controller, in slot `i`.
  needs_touch-Step :
      (has_touch : Bool) (i : ℕ) (qc : QueuedCommand) (cmd : ParsedCommand) (m : Machine p)
      → IsValid p m
      → let id = command_id_of p.env p.lexer cmd in
        Step p m
          (or_busy cmd (
            if has_touch
            then (true, ack p (action_to_string cmd.action) 0 id m)
            else (false, put_command p i qc (error p (codes "no_touch_controller") id m))))
          (if has_touch
            then acked p cmd 0 ∷ []
            else failed p "no_touch_controller" cmd ∷ failed p "busy" cmd ∷ [])
  unfolding or_busy acked queue_ack
  needs_touch-Step true i qc cmd m v = Step-enqueue p m (acked p cmd 0) v refl
  needs_touch-Step false i qc cmd m v =
      let said = no_touch-Step p cmd m v in
      let m₁ = error p (codes "no_touch_controller") (command_id_of p.env p.lexer cmd) m in
      let freed = Step-put_command p m₁ i qc said.valid in
      Step-trans p said (Step-trans p freed (busy-Step cmd (put_command p i qc m₁) freed.valid))

  start-Step :
      (a : CommandAction) (i : ℕ) (cmd : ParsedCommand) (m : Machine p)
      → IsValid p m
      → Step p m (or_busy cmd (start_command p a i cmd m)) (queued_answers p a cmd m.has_touch)
  unfolding start_command queued_answers or_busy Led.call acked queue_ack
  start-Step success i cmd m v =
      let (now, m₁) = millis_in_range p cmd.position_index m in
      let looked = millis_in_range-Step p cmd.position_index m v in
      let led = (Controller.success p.pixels now m.led cmd.position_index).1 in
      let shone =
        Step-led p m₁ led looked.valid
          (Led.call-IsValid p.pixels (Led.succeeds now cmd.position_index) m.led v.led) in
      Step-trans p looked (
        Step-trans p shone
          (Step-enqueue p (record m₁ { led = led }) (acked p cmd cmd.position) shone.valid refl))
  start-Step sequence_completed i cmd m v =
      let now = (millis p m).0 in
      let m₁ = (millis p m).1 in
      let looked = millis-Step p m v in
      let led = Update.start_sequence_completed_animation p.pixels now m.led in
      let shone =
        Step-led p m₁ led looked.valid
          (Led.call-IsValid p.pixels (Led.celebrates now) m.led v.led) in
      Step-trans p looked (
        Step-trans p shone
          (Step-enqueue p (record m₁ { led = led }) (acked p cmd 0) shone.valid refl))
  start-Step scan i cmd m v =
      needs_touch-Step m.has_touch i (record (get_or m.commands i no_command) { active = false })
        cmd m v
  start-Step recalibrate_all i cmd m v =
      needs_touch-Step m.has_touch i (record (get_or m.commands i no_command) { active = false })
        cmd m v
  start-Step invalid i cmd m v = Step-silent p m v refl refl
  start-Step show i cmd m v = Step-silent p m v refl refl
  start-Step hide i cmd m v = Step-silent p m v refl refl
  start-Step blink i cmd m v = Step-silent p m v refl refl
  start-Step stop_blink i cmd m v = Step-silent p m v refl refl
  start-Step expect_down i cmd m v = Step-silent p m v refl refl
  start-Step expect_up i cmd m v = Step-silent p m v refl refl
  start-Step Actions.recalibrate i cmd m v = Step-silent p m v refl refl
  start-Step info i cmd m v = Step-silent p m v refl refl
  start-Step ping i cmd m v = Step-silent p m v refl refl

  queue-Step :
      (o : Option ℕ) (cmd : ParsedCommand) (m : Machine p)
      → IsValid p m
      → Step p m
          (or_busy cmd (elim o [
            | none ↦ (false, m)
            | some i ↦
                let (now, m₁) = millis p m in
                start_command p cmd.action i cmd (put_command p i (queued p cmd now) m₁)
          ]))
          (elim o [
            | none ↦ failed p "busy" cmd ∷ []
            | some i ↦ queued_answers p cmd.action cmd m.has_touch
          ])
  unfolding queued_answers
  queue-Step none cmd m v = busy-Step cmd m v
  queue-Step (some i) cmd m v =
      let (now, m₁) = millis p m in
      let looked = millis-Step p m v in
      let placed = Step-put_command p m₁ i (queued p cmd now) looked.valid in
      Step-trans p looked (
        Step-trans p placed
          (start-Step cmd.action i cmd (put_command p i (queued p cmd now) m₁) placed.valid))

  -- The search of `queueCommand` finds a place exactly if there is one.
  first_free-some_free {ℓ} :
      {A : Type ℓ} (qcs : List QueuedCommand) (i : ℕ) (busy free : A)
      → elim (first_free p qcs i) [ none ↦ busy | some j ↦ free ]
        ≡ (if some_free qcs then free else busy)
  unfolding first_free
  first_free-some_free [] i busy free = refl
  first_free-some_free (qc ∷ qcs) i busy free = elim (Bool-cases qc.active) [
    | inl taken ↦ rw taken (first_free-some_free qcs (i + 1) busy free)
    | inr open_place ↦ rw open_place refl
  ]

  -- `executeCommand` keeps a valid machine valid and reads no serial bytes, and the events that it queues
  -- are exactly the `answers` to the command, as far as they fit: one ACK, one INFO or one error, but for
  -- RECALIBRATE, whose ACK is followed by its event, and for SCAN and RECALIBRATE_ALL without a touch
  -- controller, which have two errors.
  pub execute_command-answers :
      (cmd : ParsedCommand) (m : Machine p)
      → IsValid p m
      → Step p m (execute_command p cmd m) (answers p cmd m)
  unfolding execute_command execute_instant queue_command answers or_busy
  execute_command-answers cmd m v =
      Step-if p (action_is_long_running cmd.action)
        (subst (Step p m (or_busy cmd (queue_command p cmd m)))
          (first_free-some_free m.commands 0 (failed p "busy" cmd ∷ [])
            (queued_answers p cmd.action cmd m.has_touch))
          (queue-Step (first_free p m.commands 0) cmd m v))
        (instant-Step p cmd.action cmd m v)
