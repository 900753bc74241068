-- ===== src/MockPi/Letters.antt =====
-- The loop of src/MockPiPrograms.cpp that reads the letters of a sequence.
use hardware.Base.{
  ℕ, zero, suc, ◌+◌, ◌≤◌, ◌<◌, ◌≡◌, ◌≢◌, refl, sym, ap, ◌∙◌, subst, Bool, true, false, Option, some,
  List, [], ◌∷◌, ◌++◌, map, append-nil, append_assoc, length, length-append, get_or, get_or-append,
  take, take_all, take-append_le, leb, leb→le, ◌==◌, ==_ne, if◌then◌else◌, All, Bool-cases, inl,
  inr, arith,
}
use hardware.Base.Words.{add8}
use hardware.MockPi.State.{MockPi}
use hardware.MockPi.Start.{to_upper, is_position, read_letters}

-- The position letters of a text, in upper case.
abbrev pub letters : List ℕ → List ℕ
letters [] = []
letters (c ∷ text) = if is_position (to_upper c) then to_upper c ∷ letters text else letters text

get_or_past : (pre : List ℕ) → get_or (pre ++ []) (length pre) 0 ≡ 0
get_or_past [] = refl
get_or_past (c ∷ pre) = get_or_past pre

-- One round of the loop that goes on.
pub read_letters_round :
    (count : MockPi → ℕ) (add : ℕ → MockPi → MockPi) (fuel : ℕ) (positions : List ℕ) (i : ℕ)
    (pi : MockPi) (c : ℕ)
    → get_or positions i 0 ≡ c
    → (c == 0) ≡ false
    → leb 25 (count pi) ≡ false
    → read_letters count add (suc fuel) positions i pi
      ≡ read_letters count add fuel positions
          (add8 i 1)
          (if is_position (to_upper c) then add (to_upper c) pi else pi)
unfolding read_letters
read_letters_round count add fuel positions i pi c at there room =
    let there' : (get_or positions i 0 == 0) ≡ false = ap (λ x. x == 0) at ∙ there in
    let next = λ (c : ℕ).
      read_letters count add fuel positions (add8 i 1)
        (if is_position (to_upper c) then add (to_upper c) pi else pi) in
    rw (read_letters, there', room) (ap next at)

module _ (count : MockPi → ℕ) (add : ℕ → MockPi → MockPi) {A : Type 0} (view : MockPi → List A)
    (item : ℕ → A) (Kept : MockPi → Type 0)
    (adds : (c : ℕ) (pi : MockPi)
      → Kept pi
      → count pi < 25
      → Kept (add c pi) × (view (add c pi) ≡ view pi ++ (item c ∷ [])))
    (counts : (pi : MockPi) → Kept pi → count pi ≡ length (view pi)) where
  -- The loop reads the letters of the text, after those that are there, up to 25.
  pub record Reads (text : List ℕ) (pi : MockPi) (o : Option MockPi) : Type 0 where
    pub result : MockPi
    pub ended : o ≡ some result
    pub kept : Kept result
    pub read : view result ≡ take 25 (view pi ++ map item (letters text))

  Reads-here :
      (text : List ℕ) (pi : MockPi)
      → Kept pi
      → take 25 (view pi ++ map item (letters text)) ≡ view pi
      → Reads text pi (some pi)
  Reads-here text pi k e = record { result = pi; ended = refl; kept = k; read = sym e }

  Reads-skip :
      (c : ℕ) (text : List ℕ) (pi : MockPi) {o : Option MockPi}
      → is_position (to_upper c) ≡ false
      → Reads text pi o
      → Reads (c ∷ text) pi o
  Reads-skip c text pi h r = record {
    result = r.result;
    ended = r.ended;
    kept = r.kept;
    read = rw h r.read;
  }

  Reads-add :
      (c : ℕ) (text : List ℕ) (pi : MockPi) {o : Option MockPi}
      → is_position (to_upper c) ≡ true
      → Kept pi
      → count pi < 25
      → Reads text (add (to_upper c) pi) o
      → Reads (c ∷ text) pi o
  Reads-add c text pi h k l r = record {
    result = r.result;
    ended = r.ended;
    kept = r.kept;
    read = rw h (
        r.read
        ∙ ap (take 25) (
            ap (λ v. v ++ map item (letters text)) (adds (to_upper c) pi k l).1
            ∙ append_assoc (view pi) (item (to_upper c) ∷ []) (map item (letters text))));
  }

  pub read_letters-Reads :
      (fuel : ℕ) (text pre : List ℕ) (pi : MockPi)
      → length text < fuel
      → length pre + length text < 256
      → All (λ c. c ≢ 0) text
      → Kept pi
      → count pi ≤ 25
      → Reads text pi (read_letters count add fuel (pre ++ text) (length pre) pi)
  unfolding read_letters
  read_letters-Reads zero text pre pi f s n k l = absurd (omega arith)
  read_letters-Reads (suc fuel) [] pre pi f s n k l =
      rw (read_letters, get_or_past pre)
        (Reads-here [] pi k (
          ap (take 25) (append-nil (view pi)) ∙ take_all 25 (view pi) (omega (arith, counts pi k))))
  read_letters-Reads (suc fuel) (c ∷ text) pre pi f s n k l =
      let at : get_or (pre ++ (c ∷ text)) (length pre) 0 ≡ c = get_or-append pre c text 0 in
      let there : (c == 0) ≡ false = ==_ne c 0 n.0 in
      let one : List ℕ = c ∷ [] in
      let next : length (pre ++ one) ≡ add8 (length pre) 1 =
        omega (arith, length-append pre one, s) in
      let full = λ (h : 25 ≤ count pi).
        let long : 25 ≤ length (view pi) = omega (arith, counts pi k, h) in
        take-append_le 25 (view pi) (map item (letters (c ∷ text))) long
        ∙ take_all 25 (view pi) (omega (arith, counts pi k, l)) in
      let move =
        λ (x : MockPi)
            (r : Reads text x
              (read_letters count add fuel ((pre ++ one) ++ text) (length (pre ++ one)) x)).
          subst (λ i. Reads text x (read_letters count add fuel (pre ++ (c ∷ text)) i x)) next
            (subst (λ t. Reads text x (read_letters count add fuel t (length (pre ++ one)) x))
              (append_assoc pre one text) r) in
      let go = λ (x : MockPi) (kx : Kept x) (lx : count x ≤ 25). move x (
        read_letters-Reads fuel text (pre ++ one) x (omega arith)
          (omega (arith, length-append pre one, s)) n.1 kx lx) in
      let chosen = λ (x : MockPi) (b : Bool). Reads text x (
        read_letters count add fuel (pre ++ (c ∷ text)) (add8 (length pre) 1)
          (if b then add (to_upper c) pi else pi)) in
      elim (Bool-cases (leb 25 (count pi))) [
        | inl h ↦ rw (read_letters, at, there, h) (Reads-here (c ∷ text) pi k (full (leb→le _ _ h)))
        | inr h ↦
            let room : count pi < 25 = ground (arith, h) in
            elim (Bool-cases (is_position (to_upper c))) [
              | inl letter ↦
                  let (k', e) = adds (to_upper c) pi k room in
                  let more : count (add (to_upper c) pi) ≤ 25 = omega (
                    arith,
                    counts (add (to_upper c) pi) k',
                    ap length e,
                    length-append (view pi) (item (to_upper c) ∷ []),
                    counts pi k,
                    room,
                  ) in
                  Reads-add c text pi letter k room (
                    rw
                      (read_letters_round count add fuel (pre ++ (c ∷ text)) (length pre) pi c at
                        there h)
                      (subst (chosen (add (to_upper c) pi)) (sym letter)
                        (go (add (to_upper c) pi) k' more)))
              | inr other ↦ Reads-skip c text pi other (
                  rw
                    (read_letters_round count add fuel (pre ++ (c ∷ text)) (length pre) pi c at
                      there h)
                    (subst (chosen pi) (sym other) (go pi k l)))
            ]
      ]
