-- ===== src/Tests/Queue.antt =====
-- The event queue: a ring that goes round the end of its array.
use hardware.Base.{◌≡◌, refl, [], ◌∷◌, ◌++◌, replicate, take, drop, arith}
use hardware.Base.Words.{codes}
use hardware.EventQueue.{Event, EventQueue, blank, enqueue, flush, send_event}
use hardware.EventQueue.Emit.{ack_event, info_event}
use hardware.EventQueue.Fifo.{IsValid, contents, push, enqueue_refines}
use hardware.EventQueue.Flush.{lines, flush_refines}
use hardware.Tests.Parts.{env}

abbrev first_event : Event
first_event = ack_event (codes "SHOW") b'A' 7

abbrev second_event : Event
second_event = info_event 3

-- Two events, the first in the last slot.
abbrev wrapped : EventQueue
wrapped = record {
  queue = second_event ∷ replicate 14 blank ++ (first_event ∷ []);
  head = 1;
  tail = 15;
  count = 2;
}

wrapped-IsValid : IsValid wrapped
wrapped-IsValid = record {
  slots = refl;
  tail_in = omega arith;
  count_in = omega arith;
  head_at = refl;
  live = (refl, (refl, tt));
}

enqueue_refines_example :
    let (taken, q') = enqueue wrapped second_event in
    ((taken, contents q') ≡ push (contents wrapped) second_event) × IsValid q'
enqueue_refines_example = enqueue_refines second_event wrapped-IsValid refl

flush_refines_example :
    let (out, q') = flush env 1 wrapped in
    (out ≡ lines env (take 1 (contents wrapped)))
    × (contents q' ≡ drop 1 (contents wrapped))
    × IsValid q'
flush_refines_example = flush_refines env 1 wrapped-IsValid

-- The line of the first event, as it goes over the serial port.
first_line : send_event env first_event ≡ codes "ARDUINO> ACK SHOW A #7" ++ (13 ∷ 10 ∷ [])
unfolding send_event
first_line = refl
