-- ===== src/EventQueue/Fifo.antt =====
-- The ring of src/EventQueue.cpp against its contract: a queue of at most 16 events, oldest first.
use hardware.Base.{
  ℕ, zero, suc, ◌+◌, ◌%◌, ◌≤◌, ◌<◌, ◌≡◌, refl, ap, ap₂, ◌∙◌, Bool, true, false, List, [], ◌∷◌, ◌++◌,
  ltb, if◌then◌else◌, length, get_or, set, take, take_all, take-append_le, length-append,
  append-nil, sym, All, All-append, length-set, get_or-set_self, get_or-set_ne, arith, Bool-cases,
  ltb→lt, inl, inr,
}
use hardware.Config.{event_queue_size}
use hardware.EventQueue.{Event, EventQueue, blank, begin, clear_slots, enqueue}

-- The `n` slots from index `t` on, round the array.
abbrev pub collect : List Event → ℕ → ℕ → List Event
collect slots t zero = []
collect slots t (suc n) = get_or slots (t % event_queue_size) blank ∷ collect slots (t + 1) n

-- The events that wait, oldest first.
abbrev pub contents : EventQueue → List Event
contents q = collect q.queue q.tail q.count

abbrev pub IsLive : Event → Type 0
IsLive e = e.valid ≡ true

pub record IsValid (q : EventQueue) : Type 0 where
  pub slots : length q.queue ≡ 16
  pub tail_in : q.tail < 16
  pub count_in : q.count ≤ 16
  pub head_at : q.head ≡ (q.tail + q.count) % 16
  pub live : All IsLive (contents q)

pub length-collect : (slots : List Event) (t n : ℕ) → length (collect slots t n) ≡ n
length-collect slots t zero = refl
length-collect slots t (suc n) = ap suc (length-collect slots (t + 1) n)

pub length-contents : (q : EventQueue) → length (contents q) ≡ q.count
length-contents q = length-collect q.queue q.tail q.count

-- Only the start's remainder counts.
pub collect-mod :
    (slots : List Event) (t u n : ℕ) → t % 16 ≡ u % 16 → collect slots t n ≡ collect slots u n
collect-mod slots t u zero e = refl
collect-mod slots t u (suc n) e =
    ap₂ ◌∷◌ (ap (λ i. get_or slots i blank) e) (collect-mod slots (t + 1) (u + 1) n (omega arith))

-- A write before the window leaves it alone.
pub collect-set_before :
    (slots : List Event) (t i n : ℕ) (e : Event)
    → i < 16
    → (i + 1) % 16 ≡ t % 16
    → n < 16
    → collect (set slots i e) t n ≡ collect slots t n
collect-set_before slots t i n e hi h hn = go n 0 t (omega arith) (omega arith)
  where
    go :
        (n k t : ℕ)
        → (i + 1 + k) % 16 ≡ t % 16
        → k + n < 16
        → collect (set slots i e) t n ≡ collect slots t n
    go zero k t h hn = refl
    go (suc n) k t h hn =
        ap₂ ◌∷◌ (get_or-set_ne slots i (t % 16) e blank (omega arith))
          (go n (k + 1) (t + 1) (omega arith) (omega arith))

-- A write just past the window extends it by that event.
pub collect-set_after :
    (slots : List Event) (t n i : ℕ) (e : Event)
    → length slots ≡ 16
    → n < 16
    → i ≡ (t + n) % 16
    → collect (set slots i e) t (suc n) ≡ collect slots t n ++ (e ∷ [])
collect-set_after slots t zero i e hs hn hi =
    ap (λ x. x ∷ [])
      (ap (λ k. get_or (set slots i e) k blank) (omega arith)
        ∙ get_or-set_self slots i e blank (omega arith))
collect-set_after slots t (suc n) i e hs hn hi =
    ap₂ ◌∷◌ (get_or-set_ne slots i (t % 16) e blank (omega arith))
      (collect-set_after slots (t + 1) n i e hs (omega arith) (omega arith))

-- The contract of `enqueue`.
abbrev pub push : List Event → Event → Bool × List Event
push es e = if ltb (length es) event_queue_size then (true, es ++ (e ∷ [])) else (false, es)

length-clear_slots : (es : List Event) → length (clear_slots es) ≡ length es
unfolding clear_slots
length-clear_slots [] = refl
length-clear_slots (e ∷ es) = ap suc (length-clear_slots es)

-- After `begin` the queue is valid and empty, whatever it held.
pub begin-IsValid :
    (q : EventQueue) → length q.queue ≡ 16 → IsValid (begin q) × (contents (begin q) ≡ [])
unfolding begin
begin-IsValid q h = (
  record {
    slots = length-clear_slots q.queue ∙ h;
    tail_in = omega arith;
    count_in = omega arith;
    head_at = refl;
    live = tt;
  },
  refl,
)

-- The ring after an event has been stored.
abbrev stored : EventQueue → Event → EventQueue
stored q e = record {
  queue = set q.queue q.head e;
  head = (q.head + 1) % 16;
  tail = q.tail;
  count = (q.count + 1) % 256;
}

enqueue_room : (q : EventQueue) (e : Event) → q.count < 16 → enqueue q e ≡ (true, stored q e)
unfolding enqueue
enqueue_room q e h = ground arith

enqueue_full : (q : EventQueue) (e : Event) → 16 ≤ q.count → enqueue q e ≡ (false, q)
unfolding enqueue
enqueue_full q e h = ground arith

module _ {q : EventQueue} (e : Event) (v : IsValid q) where
  contents-stored : q.count < 16 → contents (stored q e) ≡ contents q ++ (e ∷ [])
  contents-stored h =
      let c : (q.count + 1) % 256 ≡ suc q.count = omega arith in
      rw c (collect-set_after q.queue q.tail q.count q.head e v.slots h v.head_at)

  stored-IsValid : q.count < 16 → IsLive e → IsValid (stored q e)
  stored-IsValid h l = record {
    slots = length-set q.queue q.head e ∙ v.slots;
    tail_in = v.tail_in;
    count_in = omega arith;
    head_at = omega arith;
    live = rw (contents-stored h) (All-append IsLive (contents q) (e ∷ []) v.live (l, tt));
  }

  -- `enqueue` answers as the bounded queue does, leaves its contents, and keeps the ring valid.
  pub enqueue_refines :
      IsLive e
      → let (taken, q') = enqueue q e in ((taken, contents q') ≡ push (contents q) e) × IsValid q'
  enqueue_refines l = elim (Bool-cases (ltb q.count 16)) [
    | inl room ↦
        rw (enqueue_room q e (ltb→lt _ _ room), length-contents q, room)
          (
            ap (λ es. (true, es)) (contents-stored (ltb→lt _ _ room)),
            stored-IsValid (ltb→lt _ _ room) l,
          )
    | inr full ↦ rw (enqueue_full q e (ground arith), length-contents q, full) (refl, v)
  ]

-- `push` as an equation on lists: what does not fit is cut off.
push-take :
    (es : List Event) (e : Event) → length es ≤ 16 → (push es e).1 ≡ take 16 (es ++ (e ∷ []))
push-take es e h = elim (Bool-cases (ltb (length es) 16)) [
  | inl room ↦
      rw room (sym (take_all 16 (es ++ (e ∷ [])) (ground (arith, length-append es (e ∷ [])))))
  | inr full ↦ rw full (sym (take-append_le 16 es (e ∷ []) (ground arith) ∙ take_all 16 es h))
]

-- A live event goes to the end of a valid queue, if there is room for it.
pub enqueue-take :
    {q : EventQueue} (e : Event)
    → IsValid q
    → IsLive e
    → (contents (enqueue q e).1 ≡ take 16 (contents q ++ (e ∷ []))) × IsValid (enqueue q e).1
enqueue-take {q} e v l =
    let (answer, v') = enqueue_refines e v l in
    (
      ap (λ r. r.1) answer
          ∙ push-take (contents q) e (omega (arith, length-contents q, v.count_in)),
      v',
    )

pub contents_kept : {q : EventQueue} → IsValid q → contents q ≡ take 16 (contents q ++ [])
contents_kept {q} v =
    rw (append-nil (contents q))
      (sym (take_all 16 (contents q) (omega (arith, length-contents q, v.count_in))))
