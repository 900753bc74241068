-- ===== src/Led/Regions.antt =====
-- The table of src/LedController.cpp: every region of eleven LEDs lies within its strip, and no two
-- regions meet.
use hardware.Base.{
  ℕ, zero, suc, ◌+◌, ◌<◌, ◌≤◌, ◌≡◌, ◌≢◌, refl, Bool, true, false, not, ◌&&◌, ◌||◌, ltb, leb, ◌==◌,
  arith, Bool-cases, subst, sym, ==_iff, ==_ne, inl, inr,
}
use hardware.Led.State.{mapping_at}
use hardware.Led.Pixels.{same_strip, dist, Inside}

-- A test at every number below n.
abbrev all_below : ℕ → (ℕ → Bool) → Bool
all_below zero f = true
all_below (suc n) f = f n && all_below n f

all_below_lem : (n : ℕ) (f : ℕ → Bool) → all_below n f ≡ true → (i : ℕ) → i < n → f i ≡ true
all_below_lem zero f h i lt = absurd (omega arith)
all_below_lem (suc n) f h i lt = elim (Bool-cases (i == n)) [
  | inl last ↦ subst (λ k. f k ≡ true) (sym ((==_iff i n).0 last)) (ground (arith, h))
  | inr before ↦ all_below_lem n f (ground (arith, h)) i (ground arith)
]

abbrev inside : ℕ → Bool
inside i = leb 5 (mapping_at i).index && ltb ((mapping_at i).index + 5) 190

abbrev apart : ℕ → ℕ → Bool
apart i k =
    i == k
    || (not (same_strip (mapping_at i).strip (mapping_at k).strip)
        || leb 11 (dist (mapping_at i).index (mapping_at k).index))

all_inside : all_below 25 inside ≡ true
all_inside = refl

all_apart : all_below 25 (λ i. all_below 25 (apart i)) ≡ true
all_apart = refl

pub mapping_at-Inside : (i : ℕ) → i < 25 → Inside (mapping_at i)
mapping_at-Inside i h =
    let fits : inside i ≡ true = all_below_lem 25 inside all_inside i h in ground (arith, fits)

not_both :
    (same both : Bool) (x y j : ℕ)
    → same ≡ false
    → (same || (not both || leb 11 (dist x y))) ≡ true
    → dist y j ≤ 5
    → (both && leb (dist x j) 5) ≡ false
not_both true both x y j h far near = absurd (ground (arith, h))
not_both false true x y j h far near = ground (arith, far)
not_both false false x y j h far near = refl

-- A pixel of one region is none of another.
pub regions_apart :
    (i k j : ℕ)
    → i < 25
    → k < 25
    → i ≢ k
    → dist (mapping_at k).index j ≤ 5
    → (same_strip (mapping_at i).strip (mapping_at k).strip && leb (dist (mapping_at i).index j) 5)
      ≡ false
regions_apart i k j hi hk ne near =
    let one = all_below_lem 25 (λ i. all_below 25 (apart i)) all_apart i hi in
    let two : apart i k ≡ true = all_below_lem 25 (apart i) one k hk in
    not_both (i == k) (same_strip (mapping_at i).strip (mapping_at k).strip) (mapping_at i).index
      (mapping_at k).index j (==_ne i k ne) two near
