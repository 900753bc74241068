-- ===== src/MockPi/Recording.antt =====
-- The recording of touches in src/MockPiPrograms.cpp, by polling the sensors.
use hardware.Base.{
  ℕ, zero, suc, ◌+◌, ◌<◌, ◌≤◌, ◌≡◌, refl, sym, ap, ap₂, ◌∙◌, subst, Bool, true, false, not, ◌&&◌,
  List, [], ◌∷◌, ◌++◌, length, length-append, take_all, ltb, ◌==◌, if◌then◌else◌, arith,
}
use hardware.Base.Words.{add8}
use hardware.MockPi.State.{MockPi}
use hardware.MockPi.Touch.{bit_at, contains, recorded, record_position}

-- A touched position is noted once, and 25 are.
abbrev pub note : List ℕ → ℕ → List ℕ
note seen c = if not (contains c seen) && ltb (length seen) 25 then seen ++ (c ∷ []) else seen

abbrev pub note_all : List ℕ → List ℕ → List ℕ
note_all seen [] = seen
note_all seen (c ∷ cs) = note_all (note seen c) cs

-- The letters from sensor `i` on whose bit is new.
abbrev pub pressed : ℕ → ℕ → ℕ → ℕ → List ℕ
pressed zero new previous i = []
pressed (suc n) new previous i =
    if bit_at new i && not (bit_at previous i)
    then (b'A' + i) ∷ pressed n new previous (i + 1)
    else pressed n new previous (i + 1)

-- No position twice.
abbrev pub Distinct : List ℕ → Type 0
Distinct [] = Unit
Distinct (c ∷ cs) = (contains c cs ≡ false) × Distinct cs

contains-append :
    (c d : ℕ) (cs : List ℕ)
    → contains c cs ≡ false
    → (d == c) ≡ false
    → contains c (cs ++ (d ∷ [])) ≡ false
contains-append c d [] h e = rw e refl
contains-append c d (x ∷ cs) h e = ground (arith, contains-append c d cs, h, e)

Distinct-append :
    (c : ℕ) (cs : List ℕ) → contains c cs ≡ false → Distinct cs → Distinct (cs ++ (c ∷ []))
Distinct-append c [] h d = (refl, tt)
Distinct-append c (x ∷ cs) h d =
    let ne : (c == x) ≡ false = ground (arith, h) in
    let rest : contains c cs ≡ false = ground (arith, h) in
    (contains-append x c cs d.0 ne, Distinct-append c cs rest d.1)

-- The buffer holds these positions.
pub record Records (seen : List ℕ) (pi : MockPi) : Type 0 where
  pub holds : recorded pi ≡ seen
  pub count : pi.recorded_count ≡ length seen
  pub room : length seen ≤ 25
  pub distinct : Distinct seen

abbrev recorded_one : ℕ → MockPi → MockPi
recorded_one c pi = record pi {
  recorded_sequence = recorded pi ++ (c ∷ []);
  recorded_count = add8 pi.recorded_count 1;
}

pub record_position-Records :
    (c : ℕ) (seen : List ℕ) (pi : MockPi)
    → Records seen pi
    → Records (note seen c) (record_position c pi)
record_position-Records c seen pi r =
    let asked = λ (l : List ℕ) (n : ℕ). not (contains c l) && ltb n 25 in
    subst (λ b. Records (note seen c) (if b then recorded_one c pi else pi))
      (sym (ap₂ asked r.holds r.count)) (pick (asked seen (length seen)) (λ h. ground (arith, h)))
  where
    pick :
        (b : Bool)
        → (b ≡ true → (contains c seen ≡ false) × (length seen < 25))
        → Records (if b then seen ++ (c ∷ []) else seen) (if b then recorded_one c pi else pi)
    pick false h = r
    pick true h =
        let more = recorded pi ++ (c ∷ []) in
        let long : length more ≡ length seen + 1 =
          length-append (recorded pi) (c ∷ []) ∙ ap (λ l. length l + 1) r.holds in
        let next : add8 pi.recorded_count 1 ≡ length seen + 1 =
          omega (arith, r.count, (h refl).1) in
        record {
          holds =
              take_all (add8 pi.recorded_count 1) more (omega (arith, long, next))
              ∙ ap (λ l. l ++ (c ∷ [])) r.holds;
          count = next ∙ sym (length-append seen (c ∷ []));
          room = omega (arith, length-append seen (c ∷ []), (h refl).1);
          distinct = Distinct-append c seen (h refl).0 r.distinct;
        }

-- The rest of the Mock Pi stays.
pub record_position-frame :
    (c : ℕ) (pi : MockPi)
    → record_position c pi ≡ record pi {
      recorded_sequence = (record_position c pi).recorded_sequence;
      recorded_count = (record_position c pi).recorded_count;
    }
record_position-frame c pi = pick (not (contains c (recorded pi)) && ltb pi.recorded_count 25)
  where
    pick :
        (b : Bool)
        → (if b then recorded_one c pi else pi) ≡ record pi {
          recorded_sequence = (if b then recorded_one c pi else pi).recorded_sequence;
          recorded_count = (if b then recorded_one c pi else pi).recorded_count;
        }
    pick true = refl
    pick false = refl
