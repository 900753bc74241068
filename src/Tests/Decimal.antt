-- ===== src/Tests/Decimal.antt =====
-- Decimal printing, as `%lu` does it, for the runs at concrete inputs.
use hardware.Base.{
  ℕ, zero, suc, ◌+◌, ◌-◌, ◌*◌, ◌/◌, ◌%◌, ◌<◌, ◌≤◌, ◌≡◌, refl, ◌∙◌, List, [], ◌∷◌, ◌++◌, length,
  length-append, ltb, if◌then◌else◌, All, All-append, Bool-cases, inl, inr, arith,
}
use hardware.Command.RoundTrip.{IsDigit, value}

-- The digits of a number that has at most as many.
abbrev pub digits : ℕ → ℕ → List ℕ
digits zero n = []
digits (suc room) n =
    if ltb n 10 then (b'0' + n) ∷ [] else digits room (n / 10) ++ ((b'0' + n % 10) ∷ [])

abbrev pub decimal : ℕ → List ℕ
decimal n = digits 10 n

-- Numbers with at most so many digits.
abbrev limit : ℕ → ℕ
limit zero = 1
limit (suc room) = 10 * limit room

value-append :
    (acc d : ℕ) (ds : List ℕ) → value acc (ds ++ (d ∷ [])) ≡ value acc ds * 10 + (d - b'0')
value-append acc d [] = refl
value-append acc d (e ∷ ds) = value-append (acc * 10 + (e - b'0')) d ds

pub digits-IsDigit : (room n : ℕ) → All IsDigit (digits room n)
digits-IsDigit zero n = tt
digits-IsDigit (suc room) n = elim (Bool-cases (ltb n 10)) [
  | inl h ↦ rw h (ground (arith, h), tt)
  | inr h ↦ rw h (
      All-append IsDigit (digits room (n / 10)) ((b'0' + n % 10) ∷ [])
        (digits-IsDigit room (n / 10)) (omega arith, tt))
]

pub value-digits : (room n : ℕ) → n < limit room → value 0 (digits room n) ≡ n
value-digits zero n h = omega arith
value-digits (suc room) n h = elim (Bool-cases (ltb n 10)) [
  | inl small ↦ rw small (omega arith)
  | inr big ↦ rw big (
      value-append 0 (b'0' + n % 10) (digits room (n / 10))
      ∙ omega (arith, value-digits room (n / 10) (omega arith)))
]

pub length-digits : (room n : ℕ) → length (digits room n) ≤ room
length-digits zero n = omega arith
length-digits (suc room) n = elim (Bool-cases (ltb n 10)) [
  | inl small ↦ rw small (omega arith)
  | inr big ↦ rw big (
      omega (
        arith,
        length-append (digits room (n / 10)) ((b'0' + n % 10) ∷ []),
        length-digits room (n / 10),
      ))
]

pub digits_present : (room n : ℕ) → 0 < length (digits (suc room) n)
digits_present room n = elim (Bool-cases (ltb n 10)) [
  | inl small ↦ rw small (omega arith)
  | inr big ↦ rw big (omega (arith, length-append (digits room (n / 10)) ((b'0' + n % 10) ∷ [])))
]
