-- ===== src/Command/Lines.antt =====
-- The lines in the bytes that wait for src/CommandController.cpp, and its loops that look for a line end
-- and skip line ends.
use hardware.Base.{
  ℕ, zero, suc, ◌+◌, ◌%◌, ◌<◌, ◌≤◌, ◌≡◌, ◌≢◌, refl, sym, ap, Bool, true, false, List, [], ◌∷◌, leb,
  ◌==◌, if◌then◌else◌, get_or, length, take, drop, arith, Bool-cases, inl, inr, ==_iff,
}
use hardware.Command.Rx.{Rx, is_newline, has_newline, pending, skip_newlines}
use hardware.Command.Ring.{
  IsValid, bytes, bytes-none, bytes-empty, bytes-cons, pending-advance, advance,
}

-- The parts of a sequence of bytes: whether a line ends in it, the characters before the end, the bytes
-- from the first one on that is no line end, and the bytes after the line with its line ends.
abbrev pub any_newline : List ℕ → Bool
any_newline [] = false
any_newline (c ∷ cs) = if is_newline c then true else any_newline cs

abbrev pub before : List ℕ → List ℕ
before [] = []
before (c ∷ cs) = if is_newline c then [] else c ∷ before cs

abbrev pub without_newlines : List ℕ → List ℕ
without_newlines [] = []
without_newlines (c ∷ cs) = if is_newline c then without_newlines cs else c ∷ cs

abbrev pub after : List ℕ → List ℕ
after [] = []
after (c ∷ cs) = if is_newline c then without_newlines cs else after cs

-- What extracting a line promises: whether there is one, its text, whether it was too long, and the
-- bytes that still wait.
pub record Extracted : Type 0 where
  pub found : Bool
  pub line : List ℕ
  pub overflow : Bool
  pub waiting : List ℕ

abbrev pub first_line : List ℕ → Extracted
first_line bs = record {
  found = true;
  line = take 63 (before bs);
  overflow = leb 64 (length (before bs));
  waiting = after bs;
}

abbrev pub extract : List ℕ → Extracted
extract bs =
    if any_newline bs
    then first_line bs
    else if leb 64 (length bs)
    then record { found = true; line = []; overflow = true; waiting = drop 64 bs }
    else record { found = false; line = []; overflow = false; waiting = bs }

abbrev pub extracted : Bool → Rx → Extracted
extracted found r = record {
  found = found;
  line = r.line;
  overflow = r.overflow;
  waiting = bytes r;
}

-- The ring seen from another index.
abbrev pub from : Rx → ℕ → Rx
from r pos = record r { tail = pos }

pub has_newline-bytes :
    (fuel : ℕ) (r : Rx) (pos : ℕ)
    → r.head < 128
    → pos < 128
    → pending (from r pos) ≤ fuel
    → has_newline fuel r pos ≡ any_newline (bytes (from r pos))
unfolding has_newline
has_newline-bytes zero r pos hh hp f = ap any_newline (sym (bytes-none (from r pos) f))
has_newline-bytes (suc fuel) r pos hh hp f = elim (Bool-cases (pos == r.head)) [
  | inl at_end ↦ rw (at_end, bytes-empty (from r pos) (sym ((==_iff _ _).0 at_end))) refl
  | inr more ↦
      let ne : r.head ≢ pos = ground arith in
      rw (more, bytes-cons (from r pos) hh hp ne)
        (ap (λ b. if is_newline (get_or r.buffer pos 0) then true else b)
          (has_newline-bytes fuel r ((pos + 1) % 128) hh (omega arith)
            (omega (arith, pending-advance (from r pos) hh hp ne, f))))
]

-- What stays the same while line ends are skipped.
unfoldable pub Skipped : Rx → Rx → Type 0
Skipped r r' =
    (bytes r' ≡ without_newlines (bytes r))
    × (r'.line ≡ r.line)
    × (r'.overflow ≡ r.overflow)
    × IsValid r'

pub advance-IsValid : (r : Rx) → IsValid r → IsValid (advance r)
advance-IsValid r v = record {
  slots = v.slots;
  head_in = v.head_in;
  tail_in = omega arith;
  index_in = v.index_in;
  index_at = v.index_at;
}

pub skip_newlines-bytes :
    (fuel : ℕ) (r : Rx) → IsValid r → pending r ≤ fuel → Skipped r (skip_newlines fuel r)
unfolding skip_newlines Skipped
skip_newlines-bytes zero r v f = (rw (bytes-none r f) refl, refl, refl, v)
skip_newlines-bytes (suc fuel) r v f = elim (Bool-cases (r.tail == r.head)) [
  | inl at_end ↦ rw (at_end, bytes-empty r (sym ((==_iff _ _).0 at_end))) (refl, refl, refl, v)
  | inr more ↦
      let ne : r.head ≢ r.tail = ground arith in
      elim (Bool-cases (is_newline (get_or r.buffer r.tail 0))) [
        | inl newline ↦
            rw (more, bytes-cons r v.head_in v.tail_in ne, newline)
              (skip_newlines-bytes fuel (advance r) (advance-IsValid r v)
                (omega (arith, pending-advance r v.head_in v.tail_in ne, f)))
        | inr other ↦
            rw (more, bytes-cons r v.head_in v.tail_in ne, other)
              (bytes-cons r v.head_in v.tail_in ne, refl, refl, v)
      ]
]
