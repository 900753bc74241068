-- ===== src/EventQueue/Flush.antt =====
-- `flush` of src/EventQueue.cpp: which events leave, in which order, and what they print.
use hardware.Base.{
  ℕ, zero, suc, ◌+◌, ◌-◌, ◌%◌, ◌≡◌, ◌≢◌, refl, ap, ap₂, ◌∙◌, sym, false, List, [], ◌∷◌, ◌++◌, ◌==◌,
  get_or, set, take, drop, All, arith, length-set, Bool-cases, inl, inr, ==_iff,
}
use hardware.EventQueue.{Event, EventQueue, Env, blank, send_event, flush_one, flush}
use hardware.EventQueue.Fifo.{IsLive, IsValid, collect, contents, collect-mod, collect-set_before}

-- The oldest event after its slot has been given back.
abbrev dropped : EventQueue → EventQueue
dropped q =
    let e = get_or q.queue q.tail blank in
    record {
      queue = set q.queue q.tail (record e { valid = false });
      head = q.head;
      tail = (q.tail + 1) % 16;
      count = (q.count + 256 - 1) % 256;
    }

-- What the events print, in order.
abbrev pub lines : Env → List Event → List ℕ
lines env [] = []
lines env (e ∷ es) = send_event env e ++ lines env es

collect-suc :
    (slots : List Event) (t n : ℕ)
    → n ≢ 0
    → collect slots t n ≡ get_or slots (t % 16) blank ∷ collect slots (t + 1) (n - 1)
collect-suc slots t zero h = absurd (h refl)
collect-suc slots t (suc n) h =
    ap (λ k. get_or slots (t % 16) blank ∷ collect slots (t + 1) k) (omega arith)

abbrev oldest : EventQueue → Event
oldest q = get_or q.queue q.tail blank

module _ {q : EventQueue} (v : IsValid q) (some_left : q.count ≢ 0) where
  contents-dropped : contents (dropped q) ≡ collect q.queue (q.tail + 1) (q.count - 1)
  contents-dropped =
      ap (collect (dropped q).queue ((q.tail + 1) % 16)) (omega arith)
      ∙ (collect-mod (dropped q).queue ((q.tail + 1) % 16) (q.tail + 1) (q.count - 1) (omega arith)
          ∙ collect-set_before q.queue (q.tail + 1) q.tail (q.count - 1) _ v.tail_in refl
              (omega arith))

  contents_split : contents q ≡ oldest q ∷ contents (dropped q)
  contents_split =
      collect-suc q.queue q.tail q.count some_left
      ∙ ap₂ ◌∷◌ (ap (λ i. get_or q.queue i blank) (omega arith)) (sym contents-dropped)

  All-IsLive : All IsLive (oldest q ∷ contents (dropped q))
  All-IsLive = rw contents_split at v.live

  dropped-IsValid : IsValid (dropped q)
  dropped-IsValid = record {
    slots = length-set q.queue q.tail _ ∙ v.slots;
    tail_in = omega arith;
    count_in = omega arith;
    head_at = omega arith;
    live = All-IsLive.1;
  }

  flush_one_lem : (env : Env) → flush_one env q ≡ (send_event env (oldest q), dropped q)
  unfolding flush_one
  flush_one_lem env = rw All-IsLive.0

-- One call of `flush` prints the lines of the oldest events, at most `n` of them, in the order in
-- which they were queued; exactly the others stay, in their order; and the ring stays valid.
pub flush_refines :
    (env : Env) (n : ℕ) {q : EventQueue}
    → IsValid q
    → let (out, q') = flush env n q in
      (out ≡ lines env (take n (contents q))) × (contents q' ≡ drop n (contents q)) × IsValid q'
unfolding flush
flush_refines env zero v = (refl, refl, v)
flush_refines env (suc n) {q} v = elim (Bool-cases (q.count == 0)) [
  | inl empty ↦
      let none_wait : contents q ≡ [] = ap (collect q.queue q.tail) ((==_iff _ _).0 empty) in
      rw (empty, none_wait) (refl, refl, v)
  | inr more ↦
      let ne : q.count ≢ 0 = ground arith in
      let (out, kept, v') = flush_refines env n (dropped-IsValid v ne) in
      rw (more, flush_one_lem v ne env, contents_split v ne)
        (ap (◌++◌ (send_event env (oldest q))) out, kept, v')
]
