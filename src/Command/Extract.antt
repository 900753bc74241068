-- ===== src/Command/Extract.antt =====
-- `extractLine` of src/CommandController.cpp as an operation on the queue of bytes that wait.
use hardware.Base.{
  ℕ, zero, suc, ◌+◌, ◌%◌, ◌<◌, ◌≤◌, ◌≡◌, ◌≢◌, refl, ap, ◌∙◌, true, false, [], leb, leb→le, ◌==◌,
  length, drop, arith, Bool-cases, inl, inr, ==_iff,
}
use hardware.Command.Rx.{Rx, pending, take_line, extract_line}
use hardware.Command.Ring.{
  IsValid, bytes, bytes-empty, bytes-cons, pending-empty, pending-advance, advance, length-bytes,
  pending-lt,
}
use hardware.Command.Lines.{
  any_newline, before, first_line, extract, extracted, from, has_newline-bytes,
}
use hardware.Command.TakeLine.{Taken, take_line-bytes}

-- Bytes dropped from the front.
bytes-drop :
    (k : ℕ) (r : Rx)
    → r.head < 128
    → r.tail < 128
    → k ≤ pending r
    → bytes (from r ((r.tail + k) % 128)) ≡ drop k (bytes r)
bytes-drop zero r hh ht h = let same : (r.tail + 0) % 128 ≡ r.tail = omega arith in rw same refl
bytes-drop (suc k) r hh ht h =
    let ne : r.head ≢ r.tail = λ e. absurd (omega (arith, pending-empty r e)) in
    let same : (r.tail + suc k) % 128 ≡ ((r.tail + 1) % 128 + k) % 128 = omega arith in
    rw (same, bytes-cons r hh ht ne)
      (bytes-drop k (advance r) hh (omega arith) (omega (arith, pending-advance r hh ht ne)))

fresh_line : Rx → Rx
fresh_line r = record r { line_index = 0; line = []; overflow = false }

fresh_line-IsValid : (r : Rx) → IsValid r → IsValid (fresh_line r)
unfolding fresh_line
fresh_line-IsValid r v = record {
  slots = v.slots;
  head_in = v.head_in;
  tail_in = v.tail_in;
  index_in = omega arith;
  index_at = refl;
}

bytes-fresh_line : (r : Rx) → bytes (fresh_line r) ≡ bytes r
unfolding fresh_line pending
bytes-fresh_line r = refl

-- The state after 64 bytes have been dropped.
dropped : Rx → Rx
dropped r = record (fresh_line r) { overflow = true; tail = (r.tail + 64) % 128 }

bytes-dropped : (r : Rx) → IsValid r → 64 ≤ pending r → bytes (dropped r) ≡ drop 64 (bytes r)
unfolding dropped fresh_line pending
bytes-dropped r v h = bytes-drop 64 r v.head_in v.tail_in h

dropped-IsValid : (r : Rx) → IsValid r → IsValid (dropped r)
unfolding dropped fresh_line
dropped-IsValid r v = record {
  slots = v.slots;
  head_in = v.head_in;
  tail_in = omega arith;
  index_in = omega arith;
  index_at = refl;
}

Taken-extracted : (r r' : Rx) → Taken (fresh_line r) r' → extracted true r' ≡ first_line (bytes r)
unfolding Taken fresh_line pending
Taken-extracted r r' t =
    let (l, o, b, w) = t in
    let none_before : 0 + length (before (bytes r)) ≡ length (before (bytes r)) = omega arith in
    let o' : r'.overflow ≡ leb 64 (length (before (bytes r))) = o ∙ ap (leb 64) none_before in
    rw (l, o', b) refl

-- `extractLine` answers as `extract` does on the bytes that wait: it takes the text before the first CR
-- or LF, up to 63 characters, with all line ends that follow, and says whether the text was longer;
-- without a line end it drops 64 bytes once so many wait, and else leaves them. The ring stays valid.
pub extract_line_refines :
    (r : Rx)
    → IsValid r
    → let (found, r') = extract_line r in (extracted found r' ≡ extract (bytes r)) × IsValid r'
unfolding extract_line fresh_line dropped Taken
extract_line_refines r v =
    let r₀ = fresh_line r in
    let v₀ = fresh_line-IsValid r v in
    let few = pending-lt r v.head_in v.tail_in in
    let scan = has_newline-bytes 128 r r.tail v.head_in v.tail_in (omega (arith, few)) in
    elim (Bool-cases (r.head == r.tail)) [
      | inl empty ↦ rw (empty, bytes-fresh_line r, bytes-empty r ((==_iff _ _).0 empty)) (refl, v₀)
      | inr more ↦ elim (Bool-cases (any_newline (bytes r))) [
        | inl ends ↦
            let t =
              take_line-bytes 128 r₀ v₀ (omega (arith, pending-lt r₀ v₀.head_in v₀.tail_in)) in
            rw (more, scan, ends) (Taken-extracted r (take_line 128 r₀) t, t.3)
        | inr open_line ↦ elim (Bool-cases (leb 64 (pending r))) [
          | inl long ↦
              rw (more, scan, open_line, length-bytes r, long)
                (
                  ap (λ bs. record { found = true; line = []; overflow = true; waiting = bs })
                      (bytes-dropped r v (leb→le _ _ long)),
                  dropped-IsValid r v,
                )
          | inr short ↦
              rw (more, scan, open_line, length-bytes r, short, bytes-fresh_line r) (refl, v₀)
        ]
      ]
    ]
