-- ===== src/MockPi/Decimal.antt =====
-- The documented behaviour of the decimal printing (`%lu` and `Serial.print`) that the identifiers in
-- the lines of src/MockPiPrograms.cpp and src/EventQueue.cpp go through.
use hardware.Base.{
  ℕ, ◌+◌, ◌-◌, ◌*◌, ◌%◌, ◌^◌, ◌<◌, ◌≤◌, ◌≡◌, refl, ap, ◌∙◌, true, List, [], ◌∷◌, length, leb, All,
  arith,
}
use hardware.EventQueue.{Env}
use hardware.Command.RoundTrip.{IsDigit, value}
use hardware.MockPi.Feed.{read_digits}

pub record DecimalLaws (env : Env) : Type 0 where
  pub digits : (n : ℕ) → All IsDigit (env.decimal n)
  pub names : (n : ℕ) → n < 2 ^ 32 → value 0 (env.decimal n) ≡ n
  pub present : (n : ℕ) → 0 < length (env.decimal n)
  pub short : (n : ℕ) → n < 2 ^ 32 → length (env.decimal n) ≤ 10

-- The digits are read as the number that they name, modulo 2 ^ 32.
pub read_digits-value :
    (acc : ℕ) (ds : List ℕ) → All IsDigit ds → read_digits (acc % 2 ^ 32) ds ≡ value acc ds % 2 ^ 32
unfolding read_digits
read_digits-value acc [] h = refl
read_digits-value acc (d ∷ ds) h =
    let low : leb b'0' d ≡ true = ground (arith, h.0) in
    let high : leb d b'9' ≡ true = ground (arith, h.0) in
    let step : ((acc % 2 ^ 32) * 10 + (d - b'0')) % 2 ^ 32 ≡ (acc * 10 + (d - b'0')) % 2 ^ 32 =
      omega arith in
    rw (low, high)
      (ap (λ n. read_digits n ds) step ∙ read_digits-value (acc * 10 + (d - b'0')) ds h.1)
