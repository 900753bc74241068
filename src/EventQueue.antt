-- ===== src/EventQueue.antt =====
-- include/EventQueue.h and src/EventQueue.cpp: the ring of outgoing events.
-- The file EventQueue.cpp is cut off inside `sendEvent`, in its ERR case: what a line holds from
-- there on, and the whole line of the event types after ERR, is the parameter `Env.unseen`.
pub mod Emit
pub mod Fifo
pub mod Flush
use hardware.Base.{
  ℕ, zero, suc, ◌+◌, ◌%◌, Bool, true, false, List, [], ◌∷◌, ◌++◌, leb, ◌==◌, if◌then◌else◌, get_or,
  set, take,
}
use hardware.Base.Words.{add8, sub8, codes}
use hardware.Config.{event_queue_size}

pub data EventType : Type 0 where
  ack done err touch_down touch_up touched_down touched_up : EventType
  scanned recalibrated scan_result scan_done info : EventType

-- `action` and `extra` are the C strings in the arrays of 12 and 52 bytes.
pub record Event : Type 0 where
  pub type : EventType
  pub action : List ℕ
  pub position : ℕ
  pub command_id : ℕ
  pub extra : List ℕ
  pub valid : Bool

pub record EventQueue : Type 0 where
  pub queue : List Event
  pub head : ℕ
  pub tail : ℕ
  pub count : ℕ

-- What is not in the readable sources: the constant NO_COMMAND_ID, the Arduino core's decimal
-- printing and line end, and the cut-off part of `sendEvent`.
pub record Env : Type 0 where
  pub no_command_id : ℕ
  pub decimal : ℕ → List ℕ
  pub eol : List ℕ
  pub unseen : Event → List ℕ

-- What a read out of the array's bounds would give.
abbrev pub blank : Event
blank = record { type = info; action = []; position = 0; command_id = 0; extra = []; valid = false }

-- strncpy(dst, src, size - 1); dst[size - 1] = '\0'
abbrev pub strncpy : List ℕ → ℕ → List ℕ
strncpy src n = take n src

pub is_full : EventQueue → Bool
is_full q = leb event_queue_size q.count

pub is_empty : EventQueue → Bool
is_empty q = q.count == 0

-- for (i = 0; i < EVENT_QUEUE_SIZE; i++) m_queue[i].valid = false
clear_slots : List Event → List Event
clear_slots [] = []
clear_slots (e ∷ es) = record e { valid = false } ∷ clear_slots es

pub begin : EventQueue → EventQueue
begin q = record { queue = clear_slots q.queue; head = 0; tail = 0; count = 0 }

pub enqueue : EventQueue → Event → Bool × EventQueue
unfolding is_full
enqueue q event = if is_full q then (false, q) else (
  true,
  record {
    queue = set q.queue q.head event;
    head = (q.head + 1) % event_queue_size;
    tail = q.tail;
    count = add8 q.count 1;
  },
)

module _ (env : Env) where
  -- [" " position] [" #" id], the end of an ACK and of a DONE line
  unfoldable pub send_suffix : Event → List ℕ
  send_suffix e =
      (if e.position == 0 then [] else codes " " ++ (e.position ∷ []))
      ++ (if e.command_id == env.no_command_id then [] else codes " #" ++ env.decimal e.command_id)
      ++ env.eol

  unfoldable pub send_body : EventType → Event → List ℕ
  unfolding send_suffix
  send_body ack e = codes "ACK " ++ (e.action ++ send_suffix e)
  send_body done e = codes "DONE " ++ (e.action ++ send_suffix e)
  send_body err e = codes "ERR " ++ (e.extra ++ env.unseen e)
  send_body _ e = env.unseen e

  -- The bytes that sending an event puts on the serial line.
  unfoldable pub send_event : Event → List ℕ
  unfolding send_body
  send_event e = codes "ARDUINO> " ++ send_body e.type e

  -- One round of the loop of `flush`: the queue, and what it prints.
  pub flush_one : EventQueue → List ℕ × EventQueue
  flush_one q =
      let event = get_or q.queue q.tail blank in
      let queue' =
        if event.valid then set q.queue q.tail (record event { valid = false }) else q.queue in
      (
        if event.valid then send_event event else [],
        record {
          queue = queue';
          head = q.head;
          tail = (q.tail + 1) % event_queue_size;
          count = sub8 q.count 1;
        },
      )

  -- while (!isEmpty() && sent < maxEvents); the rounds left are maxEvents - sent
  pub flush : ℕ → EventQueue → List ℕ × EventQueue
  unfolding is_empty
  flush zero q = ([], q)
  flush (suc rounds) q =
      let (line, q') = flush_one q in
      let (rest, q'') = flush rounds q' in if is_empty q then ([], q) else (line ++ rest, q'')
