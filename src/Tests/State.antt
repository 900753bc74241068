-- ===== src/Tests/State.antt =====
-- Concrete states: dark LEDs, a receive ring in which a byte waits, and a machine that has them.
use hardware.Base.{◌*◌, refl, true, false, [], ◌∷◌, ◌++◌, replicate, arith}
use hardware.EventQueue.{EventQueue, blank}
use hardware.EventQueue.Fifo as Fifo
use hardware.Touch.State.{construct}
use hardware.Led.State.{dark}
use hardware.Led.Strip.{LedController}
use hardware.Command.Rx.{Rx}
use hardware.Command.Ring as Ring
use hardware.Command.Machine.{Machine, no_command}
use hardware.Command.Steps as Steps
use hardware.Firmware.Rounds.{Sized}
use hardware.Tests.Parts.{env, pixels, parts}

abbrev pub all_dark : LedController pixels
all_dark = record {
  strip1 = λ j. 0;
  strip2 = λ j. 0;
  positions = replicate 25 dark;
  sequence_anim_active = false;
  sequence_anim_step = 0;
  sequence_anim_last_time = 0;
  needs_update = false;
}

-- One byte waits, in the last place of the ring.
abbrev pub waiting : Rx
waiting = record {
  buffer = replicate 127 0 ++ (b'S' ∷ []);
  head = 0;
  tail = 127;
  line = [];
  line_index = 0;
  overflow = false;
}

pub waiting-IsValid : Ring.IsValid waiting
waiting-IsValid = record {
  slots = refl;
  head_in = omega arith;
  tail_in = omega arith;
  index_in = omega arith;
  index_at = refl;
}

-- Room for events, none of which waits.
abbrev pub silent : EventQueue
silent = record { queue = replicate 16 blank; head = 0; tail = 0; count = 0 }

silent-IsValid : Fifo.IsValid silent
silent-IsValid = record {
  slots = refl;
  tail_in = omega arith;
  count_in = omega arith;
  head_at = refl;
  live = tt;
}

abbrev pub machine : Machine parts
unfolding construct
machine = record {
  rx = waiting;
  commands = replicate 8 no_command;
  has_touch = true;
  led = all_dark;
  touch = record (construct env) { has_event_queue = true };
  bus = 0;
  events = silent;
  clock = λ k. 10 * k;
  calls = 0;
}

pub machine-IsValid : Steps.IsValid parts machine
unfolding machine
machine-IsValid = record {
  rx = waiting-IsValid;
  led = record { all_there = refl; fits = omega arith };
  events = silent-IsValid;
  linked = refl;
  commands = refl;
}

pub machine-Sized : Sized parts machine
unfolding machine
machine-Sized = record { buffer = refl; queue = refl; commands = refl }
