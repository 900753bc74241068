-- ===== src/Command/Ring.antt =====
-- The receive ring of src/CommandController.cpp as a queue of bytes: what waits in it, and how a byte
-- enters and leaves.
use hardware.Base.{
  ℕ, zero, suc, ◌+◌, ◌%◌, ◌<◌, ◌≤◌, ◌≡◌, ◌≢◌, refl, ap, ap₂, ◌∙◌, List, [], ◌∷◌, ◌++◌, leb, ◌==◌,
  if◌then◌else◌, get_or, set, length, length-set, get_or-set_self, get_or-set_ne, arith, Bool-cases,
  inl, inr,
}
use hardware.Command.Rx.{Rx, receive, poll_serial, pending}

-- The `n` bytes from index `t` on, round the ring.
abbrev pub bytes_from : List ℕ → ℕ → ℕ → List ℕ
bytes_from buffer t zero = []
bytes_from buffer t (suc n) = get_or buffer t 0 ∷ bytes_from buffer ((t + 1) % 128) n

-- The bytes that wait, oldest first.
abbrev pub bytes : Rx → List ℕ
bytes r = bytes_from r.buffer r.tail (pending r)

pub record IsValid (r : Rx) : Type 0 where
  pub slots : length r.buffer ≡ 128
  pub head_in : r.head < 128
  pub tail_in : r.tail < 128
  pub index_in : r.line_index ≤ 63
  pub index_at : r.line_index ≡ length r.line

length-bytes_from : (buffer : List ℕ) (t n : ℕ) → length (bytes_from buffer t n) ≡ n
length-bytes_from buffer t zero = refl
length-bytes_from buffer t (suc n) = ap suc (length-bytes_from buffer ((t + 1) % 128) n)

pub length-bytes : (r : Rx) → length (bytes r) ≡ pending r
length-bytes r = length-bytes_from r.buffer r.tail (pending r)

pub pending-lt : (r : Rx) → r.head < 128 → r.tail < 128 → pending r < 128
unfolding pending
pending-lt r h t = ground arith

-- One byte taken.
abbrev pub advance : Rx → Rx
advance r = record r { tail = (r.tail + 1) % 128 }

pub pending-empty : (r : Rx) → r.head ≡ r.tail → pending r ≡ 0
unfolding pending
pending-empty r e = ground arith

pub pending-advance :
    (r : Rx) → r.head < 128 → r.tail < 128 → r.head ≢ r.tail → pending r ≡ suc (pending (advance r))
unfolding pending
pending-advance r h t ne = ground arith

pub bytes-empty : (r : Rx) → r.head ≡ r.tail → bytes r ≡ []
bytes-empty r e = ap (bytes_from r.buffer r.tail) (pending-empty r e)

pub bytes-none : (r : Rx) → pending r ≤ 0 → bytes r ≡ []
bytes-none r h = let none_wait : pending r ≡ 0 = omega arith in rw none_wait refl

pub bytes-cons :
    (r : Rx)
    → r.head < 128
    → r.tail < 128
    → r.head ≢ r.tail
    → bytes r ≡ get_or r.buffer r.tail 0 ∷ bytes (advance r)
bytes-cons r h t ne = ap (bytes_from r.buffer r.tail) (pending-advance r h t ne)

-- A write just past the bytes adds one.
bytes_from-set :
    (buffer : List ℕ) (t n i c : ℕ)
    → length buffer ≡ 128
    → t < 128
    → n < 128
    → i ≡ (t + n) % 128
    → bytes_from (set buffer i c) t (suc n) ≡ bytes_from buffer t n ++ (c ∷ [])
bytes_from-set buffer t zero i c hs ht hn e =
    ap (λ x. x ∷ [])
      (ap (λ k. get_or (set buffer i c) k 0) (omega arith)
        ∙ get_or-set_self buffer i c 0 (omega arith))
bytes_from-set buffer t (suc n) i c hs ht hn e =
    ap₂ ◌∷◌ (get_or-set_ne buffer i t c 0 (omega arith))
      (bytes_from-set buffer ((t + 1) % 128) n i c hs (omega arith) (omega arith) (omega arith))

head_at : (r : Rx) → r.head < 128 → r.tail < 128 → r.head ≡ (r.tail + pending r) % 128
unfolding pending
head_at r h t = ground arith

pending-receive :
    (r : Rx) (c : ℕ)
    → r.head < 128
    → r.tail < 128
    → pending r < 127
    → pending (record r { buffer = set r.buffer r.head c; head = (r.head + 1) % 128 })
      ≡ suc (pending r)
unfolding pending
pending-receive r c h t k = ground arith

full_at :
    (r : Rx) → r.head < 128 → r.tail < 128 → ((r.head + 1) % 128 == r.tail) ≡ leb 127 (pending r)
unfolding pending
full_at r h t = ground arith

-- The contract of the ring: at most 127 bytes wait, and further ones are dropped.
abbrev pub offer : List ℕ → ℕ → List ℕ
offer bs c = if leb 127 (length bs) then bs else bs ++ (c ∷ [])

abbrev pub offer_all : List ℕ → List ℕ → List ℕ
offer_all bs [] = bs
offer_all bs (c ∷ cs) = offer_all (offer bs c) cs

receive_refines :
    (r : Rx) (c : ℕ) → IsValid r → (bytes (receive r c) ≡ offer (bytes r) c) × IsValid (receive r c)
unfolding receive
receive_refines r c v =
    let full = full_at r v.head_in v.tail_in in
    elim (Bool-cases (leb 127 (pending r))) [
      | inl no_room ↦ rw (full, length-bytes r, no_room) (refl, v)
      | inr room ↦
          rw (full, length-bytes r, room)
            (
              ap (bytes_from (set r.buffer r.head c) r.tail)
                    (pending-receive r c v.head_in v.tail_in (ground arith))
                  ∙ bytes_from-set r.buffer r.tail (pending r) r.head c v.slots v.tail_in
                      (pending-lt r v.head_in v.tail_in) (head_at r v.head_in v.tail_in),
              record {
                slots = length-set r.buffer r.head c ∙ v.slots;
                head_in = omega arith;
                tail_in = v.tail_in;
                index_in = v.index_in;
                index_at = v.index_at;
              },
            )
    ]

-- `pollSerial` appends the received bytes in their order, and silently drops those that come while 127
-- bytes wait; the ring stays valid.
pub poll_serial_refines :
    (cs : List ℕ) (r : Rx)
    → IsValid r
    → (bytes (poll_serial r cs) ≡ offer_all (bytes r) cs) × IsValid (poll_serial r cs)
unfolding poll_serial
poll_serial_refines [] r v = (refl, v)
poll_serial_refines (c ∷ cs) r v =
    let (one, v₁) = receive_refines r c v in
    let (rest, v₂) = poll_serial_refines cs (receive r c) v₁ in
    (rest ∙ ap (λ bs. offer_all bs cs) one, v₂)
