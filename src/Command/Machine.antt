-- ===== src/Command/Machine.antt =====
-- The state that the handlers of src/CommandController.cpp share: the command controller with the
-- controllers and the queue that it refers to, the bus, and the clock.
use hardware.Base.{ℕ, suc, Bool, false, List, set, leb, if◌then◌else◌}
use hardware.Config.{num_positions}
use hardware.EventQueue.{EventQueue, Env}
use hardware.EventQueue.Emit.{queue_ack, queue_done, queue_error}
use hardware.Touch.I2c.{Wire}
use hardware.Touch.State.{TouchController}
use hardware.Led.Strip.{NeoPixel, LedController}
use hardware.Command.Actions.{Lexer, invalid}
use hardware.Command.Parse.{ParsedCommand}
use hardware.Command.Rx.{Rx}

-- What the firmware is built on.
pub record Parts : Type 1 where
  pub env : Env
  pub wire : Wire
  pub pixels : NeoPixel
  pub lexer : Lexer

-- An entry of the queue of long-running commands.
pub record QueuedCommand : Type 0 where
  pub command : ParsedCommand
  pub active : Bool
  pub start_time : ℕ
  pub state : ℕ
  pub scan_address : ℕ

-- What a read out of the array's bounds would give.
abbrev pub no_command : QueuedCommand
no_command = record {
  command = record {
    action = invalid;
    has_position = false;
    position = 0;
    position_index = 255;
    has_id = false;
    id = 0;
    valid = false;
  };
  active = false;
  start_time = 0;
  state = 0;
  scan_address = 0;
}

module _ (p : Parts) where
  -- `has_touch` is `m_touchController != nullptr`. The n-th call of `millis()` returns `clock n`.
  pub record Machine : Type 0 where
    pub rx : Rx
    pub commands : List QueuedCommand
    pub has_touch : Bool
    pub led : LedController p.pixels
    pub touch : TouchController
    pub bus : p.wire.Bus
    pub events : EventQueue
    pub clock : ℕ → ℕ
    pub calls : ℕ

  -- The value of a call of `millis()`, and the state after it.
  abbrev pub millis : Machine → ℕ × Machine
  millis m = (m.clock m.calls, record m { calls = suc m.calls })

  -- The value that `millis()` would have, and the state after it: the LED methods refuse a position out of
  -- range before they look at the clock.
  abbrev pub millis_in_range : ℕ → Machine → ℕ × Machine
  millis_in_range i m =
      (m.clock m.calls, if leb num_positions i then m else record m { calls = suc m.calls })

  -- The queue's answer is ignored where the code ignores it.
  abbrev pub ack : List ℕ → ℕ → ℕ → Machine → Machine
  ack action position id m = record m { events = (queue_ack m.events action position id).1 }

  abbrev pub done : List ℕ → ℕ → ℕ → Machine → Machine
  done action position id m = record m { events = (queue_done m.events action position id).1 }

  abbrev pub error : List ℕ → ℕ → Machine → Machine
  error reason id m = record m { events = (queue_error m.events reason id).1 }

  abbrev pub put_command : ℕ → QueuedCommand → Machine → Machine
  put_command i qc m = record m { commands = set m.commands i qc }
