-- ===== src/Command/AckLine.antt =====
-- The text with which src/EventQueue.cpp acknowledges the commands of src/CommandController.cpp and
-- reports their end: an action's name goes through an array of 12 bytes.
use hardware.Base.{ℕ, ◌≡◌, refl, List, [], ◌∷◌, ◌++◌, ◌==◌, if◌then◌else◌}
use hardware.Base.Words.{codes}
use hardware.EventQueue.{Env, send_event, send_body, send_suffix}
use hardware.EventQueue.Emit.{ack_event, done_event}
use hardware.Command.Actions.{
  CommandAction, show, hide, success, blink, stop_blink, expect_down, expect_up, recalibrate,
  recalibrate_all, scan, sequence_completed, info, ping, invalid, action_to_string,
}

-- The names that reach the host: two of them are cut off, one to the name of another command.
abbrev pub sent_name : CommandAction → List ℕ
sent_name recalibrate_all = codes "RECALIBRATE"
sent_name sequence_completed = codes "SEQUENCE_CO"
sent_name show = codes "SHOW"
sent_name hide = codes "HIDE"
sent_name success = codes "SUCCESS"
sent_name blink = codes "BLINK"
sent_name stop_blink = codes "STOP_BLINK"
sent_name expect_down = codes "EXPECT_DOWN"
sent_name expect_up = codes "EXPECT_UP"
sent_name recalibrate = codes "RECALIBRATE"
sent_name scan = codes "SCAN"
sent_name info = codes "INFO"
sent_name ping = codes "PING"
sent_name invalid = codes "UNKNOWN"

-- The end of the line: the position if there is one, the identifier unless it is NO_COMMAND_ID.
abbrev pub line_end : Env → ℕ → ℕ → List ℕ
line_end env position id =
    (if position == 0 then [] else b' ' ∷ position ∷ [])
    ++ (if id == env.no_command_id then [] else b' ' ∷ b'#' ∷ env.decimal id)
    ++ env.eol

-- ACK and DONE lines carry the name of the action, but for RECALIBRATE_ALL, which reads RECALIBRATE, and
-- SEQUENCE_COMPLETED, which reads SEQUENCE_CO; then the position unless it is 0, and # with the identifier
-- unless it is NO_COMMAND_ID.
pub send_event-action_to_string :
    (env : Env) (a : CommandAction) (position id : ℕ)
    → (send_event env (ack_event (action_to_string a) position id)
        ≡ codes "ARDUINO> ACK " ++ (sent_name a ++ line_end env position id))
      × (send_event env (done_event (action_to_string a) position id)
          ≡ codes "ARDUINO> DONE " ++ (sent_name a ++ line_end env position id))
unfolding send_event send_body send_suffix action_to_string
send_event-action_to_string env show position id = (refl, refl)
send_event-action_to_string env hide position id = (refl, refl)
send_event-action_to_string env success position id = (refl, refl)
send_event-action_to_string env blink position id = (refl, refl)
send_event-action_to_string env stop_blink position id = (refl, refl)
send_event-action_to_string env expect_down position id = (refl, refl)
send_event-action_to_string env expect_up position id = (refl, refl)
send_event-action_to_string env recalibrate position id = (refl, refl)
send_event-action_to_string env recalibrate_all position id = (refl, refl)
send_event-action_to_string env scan position id = (refl, refl)
send_event-action_to_string env sequence_completed position id = (refl, refl)
send_event-action_to_string env info position id = (refl, refl)
send_event-action_to_string env ping position id = (refl, refl)
send_event-action_to_string env invalid position id = (refl, refl)
