-- ===== src/Command/TakeLine.antt =====
-- The loop of `extractLine` of src/CommandController.cpp that moves characters into the line buffer.
use hardware.Base.{
  ℕ, zero, suc, ◌+◌, ◌%◌, ◌<◌, ◌≤◌, ◌≡◌, ◌≢◌, refl, sym, ap, subst, ◌∙◌, true, false, ◌||◌, List,
  [], ◌∷◌, ◌++◌, ltb, leb, lt→ltb, ltb→lt, ltb-false, ◌==◌, get_or, length, take, take-append_le,
  append_assoc, append-nil, take_all, length-append, arith, Bool-cases, inl, inr, ==_iff,
}
use hardware.Command.Rx.{Rx, is_newline, pending, skip_newlines, put_char, take_line}
use hardware.Command.Ring.{
  IsValid, bytes, bytes-none, bytes-empty, bytes-cons, pending-advance, advance, pending-lt,
}
use hardware.Command.Lines.{before, after, Skipped, advance-IsValid, skip_newlines-bytes}

-- What reading a line does, after the characters that are in the line already.
unfoldable pub Taken : Rx → Rx → Type 0
Taken r r' =
    (r'.line ≡ take 63 (r.line ++ before (bytes r)))
    × (r'.overflow ≡ (r.overflow || leb 64 (length r.line + length (before (bytes r)))))
    × (bytes r' ≡ after (bytes r))
    × IsValid r'

-- A character enters the line as long as there is room.
module _ (r : Rx) (c : ℕ) (v : IsValid r) where
  put_char-room :
      length r.line < 63
      → put_char r c ≡ record r { line = r.line ++ (c ∷ []); line_index = r.line_index + 1 }
  unfolding put_char
  put_char-room h =
      let small : (r.line_index + 1) % 256 ≡ r.line_index + 1 = omega (arith, v.index_at, h) in
      rw (lt→ltb r.line_index 63 (omega (arith, v.index_at, h)), small) refl

  put_char-full : 63 ≤ length r.line → put_char r c ≡ record r { overflow = true }
  unfolding put_char
  put_char-full h = rw (ltb-false r.line_index 63 (omega (arith, v.index_at, h))) refl

-- Reading one character before the line end, and then the rest.
module _ (r : Rx) (v : IsValid r) (ne : r.head ≢ r.tail) where
  take_line-more :
      (r' : Rx)
      → is_newline (get_or r.buffer r.tail 0) ≡ false
      → Taken (put_char (advance r) (get_or r.buffer r.tail 0)) r'
      → Taken r r'
  unfolding Taken pending
  take_line-more r' other t =
      let c : ℕ = get_or r.buffer r.tail 0 in
      let rest : List ℕ = before (bytes (advance r)) in
      let next = advance-IsValid r v in
      elim (Bool-cases (ltb (length r.line) 63)) [
        | inl room ↦
            let (l, o, b, w) =
              subst (λ q. Taken q r') (put_char-room (advance r) c next (ltb→lt _ _ room)) t in
            rw (bytes-cons r v.head_in v.tail_in ne, other)
              (
                l ∙ ap (take 63) (append_assoc r.line (c ∷ []) rest),
                o ∙ ap (λ k. r.overflow || leb 64 k) (omega (arith, length-append r.line (c ∷ []))),
                b,
                w,
              )
        | inr full ↦
            let long : 63 ≤ length r.line = ground arith in
            let (l, o, b, w) = subst (λ q. Taken q r') (put_char-full (advance r) c next long) t in
            rw (bytes-cons r v.head_in v.tail_in ne, other)
              (
                l
                    ∙ (take-append_le 63 r.line rest long
                        ∙ sym (take-append_le 63 r.line (c ∷ rest) long)),
                o ∙ ground arith,
                b,
                w,
              )
      ]

put_char-IsValid : (r : Rx) (c : ℕ) → IsValid r → IsValid (put_char r c)
unfolding put_char
put_char-IsValid r c v = elim (Bool-cases (ltb (length r.line) 63)) [
  | inl room ↦ subst IsValid (sym (put_char-room r c v (ltb→lt _ _ room))) (record {
    slots = v.slots;
    head_in = v.head_in;
    tail_in = v.tail_in;
    index_in = omega (arith, ltb→lt _ _ room, v.index_at);
    index_at = omega (arith, v.index_at, length-append r.line (c ∷ []));
  })
  | inr full ↦ subst IsValid (sym (put_char-full r c v (ground arith))) (record {
    slots = v.slots;
    head_in = v.head_in;
    tail_in = v.tail_in;
    index_in = v.index_in;
    index_at = v.index_at;
  })
]

pending-put_char : (r : Rx) (c : ℕ) → pending (put_char r c) ≡ pending r
unfolding pending put_char
pending-put_char r c = ground arith

-- The line is as it was when no character is left to enter it.
line_kept : (r : Rx) → IsValid r → r.line ≡ take 63 (r.line ++ [])
line_kept r v =
    rw (append-nil r.line) (sym (take_all 63 r.line (omega (arith, v.index_at, v.index_in))))

not_longer : (r : Rx) → IsValid r → r.overflow ≡ (r.overflow || leb 64 (length r.line + 0))
not_longer r v = ground (arith, v.index_at, v.index_in)

Taken-none : (r : Rx) → IsValid r → bytes r ≡ [] → Taken r r
unfolding Taken
Taken-none r v e = rw e (line_kept r v, not_longer r v, refl, v)

Taken-newline :
    (r : Rx)
    → IsValid r
    → r.head ≢ r.tail
    → is_newline (get_or r.buffer r.tail 0) ≡ true
    → Taken r (skip_newlines 128 (advance r))
unfolding Taken Skipped
Taken-newline r v ne newline =
    let few = pending-lt (advance r) v.head_in (omega arith) in
    let (b, l, o, w) =
      skip_newlines-bytes 128 (advance r) (advance-IsValid r v) (omega (arith, few)) in
    rw (bytes-cons r v.head_in v.tail_in ne, newline) (l ∙ line_kept r v, o ∙ not_longer r v, b, w)

pub take_line-bytes :
    (fuel : ℕ) (r : Rx) → IsValid r → pending r ≤ fuel → Taken r (take_line fuel r)
unfolding take_line
take_line-bytes zero r v f = Taken-none r v (bytes-none r f)
take_line-bytes (suc fuel) r v f = elim (Bool-cases (r.tail == r.head)) [
  | inl at_end ↦ rw at_end (Taken-none r v (bytes-empty r (sym ((==_iff _ _).0 at_end))))
  | inr more ↦
      let ne : r.head ≢ r.tail = ground arith in
      let next = advance-IsValid r v in
      let c : ℕ = get_or r.buffer r.tail 0 in
      elim (Bool-cases (is_newline c)) [
        | inl newline ↦ rw (more, newline) (Taken-newline r v ne newline)
        | inr other ↦ take_line-more r v ne (take_line (suc fuel) r) other (
            rw (more, other)
              (take_line-bytes fuel (put_char (advance r) c) (put_char-IsValid (advance r) c next) (
                omega (
                  arith,
                  pending-put_char (advance r) c,
                  pending-advance r v.head_in v.tail_in ne,
                  f,
                ))))
      ]
]
