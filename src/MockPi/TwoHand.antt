-- ===== src/MockPi/TwoHand.antt =====
-- Which sequence `startTwoHandSequence` of src/MockPiPrograms.cpp starts, and texts on which the loop over
-- the letters never ends.
use hardware.Base.{
  ℕ, zero, suc, ◌+◌, ◌<◌, ◌≡◌, ◌≢◌, refl, ap, ◌∙◌, Bool, true, false, Option, none, some, List, [],
  ◌∷◌, ◌++◌, map, length, length-append, get_or, take, take_all, ◌==◌, ==_ne, if◌then◌else◌, All,
  arith,
}
use hardware.Base.Words.{add8}
use hardware.Command.Machine.{Parts}
use hardware.MockPi.State.{
  two_hand_sequence, two_hand_show, MockPi, World, put_pi, Unseen, UnseenLaws,
}
use hardware.MockPi.Start.{
  to_upper, is_position, add_single, add_two_hand, ended_two_hand, read_letters,
  start_sequence_simple, start_two_hand_sequence,
}
use hardware.MockPi.Letters.{letters, read_letters-Reads, read_letters_round}
use hardware.MockPi.Sequence.{is_empty}

-- The letters of the two-hand sequence.
abbrev pub two_hand_sequence_of : MockPi → List ℕ
two_hand_sequence_of pi = take pi.two_hand_count pi.two_hand_positions

record Hands (old pi : MockPi) : Type 0 where
  count : pi.two_hand_count ≡ length (two_hand_sequence_of pi)
  frame : pi ≡ record old {
    two_hand_positions = pi.two_hand_positions;
    two_hand_count = pi.two_hand_count;
  }

add_two_hand-Hands :
    (old : MockPi) (c : ℕ) (pi : MockPi)
    → Hands old pi
    → pi.two_hand_count < 25
    → Hands old (add_two_hand c pi)
      × (two_hand_sequence_of (add_two_hand c pi) ≡ two_hand_sequence_of pi ++ (c ∷ []))
add_two_hand-Hands old c pi k l =
    let more = two_hand_sequence_of pi ++ (c ∷ []) in
    let long : length more ≡ pi.two_hand_count + 1 =
      omega (arith, length-append (two_hand_sequence_of pi) (c ∷ []), k.count) in
    let all : take (add8 pi.two_hand_count 1) more ≡ more =
      take_all (add8 pi.two_hand_count 1) more (omega (arith, long, l)) in
    let put = λ (x : MockPi). record x {
      two_hand_positions = more;
      two_hand_count = add8 pi.two_hand_count 1;
    } in
    (record { count = omega (arith, ap length all, long, l); frame = ap put k.frame }, all)

map_id : (xs : List ℕ) → map (λ c. c) xs ≡ xs
map_id [] = refl
map_id (x ∷ xs) = ap (◌∷◌ x) (map_id xs)

module _ {p : Parts} (u : Unseen p) (laws : UnseenLaws p u) where
  -- What is started with these letters.
  pub record Started (found : List ℕ) (w : World p) (o : Option (World p)) : Type 0 where
    pub world : World p
    pub calls : ℕ
    pub ended : o ≡ some world
    pub positions : world.pi.two_hand_positions ≡ found
    pub count : world.pi.two_hand_count ≡ length found
    pub state : world.pi.state ≡ (if is_empty found then w.pi.state else two_hand_show)
    pub program : world.pi.program ≡ (if is_empty found then w.pi.program else two_hand_sequence)
    pub current : world.pi.two_hand_current ≡ (if is_empty found then w.pi.two_hand_current else 0)
    pub sent : world.sent ≡ w.sent
    pub machine : world.machine ≡ record w.machine { calls = calls }

  abbrev launch : MockPi → MockPi
  launch pi = record pi {
    program = two_hand_sequence;
    two_hand_current = 0;
    step_touched_mask = 0;
    previous_touched = 0;
  }

  started :
      (found : List ℕ) (w : World p) (pi : MockPi)
      → two_hand_sequence_of pi ≡ found
      → Hands w.pi pi
      → Started found w (
          if pi.two_hand_count == 0
          then some (put_pi p (ended_two_hand pi) w)
          else some (u.transition_to two_hand_show (put_pi p (launch (ended_two_hand pi)) w)))
  started [] w pi e k =
      let none_there : (pi.two_hand_count == 0) ≡ true = ap (λ n. n == 0) (k.count ∙ ap length e) in
      rw none_there (record {
        world = put_pi p (ended_two_hand pi) w;
        calls = w.machine.calls;
        machine = refl;
        ended = refl;
        positions = e;
        count = k.count ∙ ap length e;
        state = ap (λ (x : MockPi). x.state) k.frame;
        program = ap (λ (x : MockPi). x.program) k.frame;
        current = ap (λ (x : MockPi). x.two_hand_current) k.frame;
        sent = refl;
      })
  started (c ∷ found) w pi e k =
      let some_there : (pi.two_hand_count == 0) ≡ false = ground (arith, k.count, ap length e) in
      rw (some_there, laws.transition two_hand_show (put_pi p (launch (ended_two_hand pi)) w))
        (record {
          world = _;
          calls = suc w.machine.calls;
          machine = refl;
          ended = refl;
          positions = e;
          count = k.count ∙ ap length e;
          state = refl;
          program = refl;
          current = refl;
          sent = refl;
        })

  pub start_two_hand_sequence-Started :
      (fuel : ℕ) (text : List ℕ) (w : World p)
      → length text < fuel
      → length text < 256
      → 0 < length text
      → All (λ c. c ≢ 0) text
      → Started (take 25 (letters text)) w (start_two_hand_sequence u fuel text w)
  unfolding start_two_hand_sequence
  start_two_hand_sequence-Started fuel [] w f s l n = absurd (omega arith)
  start_two_hand_sequence-Started fuel (c ∷ text) w f s l n =
      let there : (c == 0) ≡ false = ==_ne c 0 n.0 in
      let begun : Hands w.pi (record w.pi { two_hand_count = 0 }) = record {
        count = refl;
        frame = refl;
      } in
      let r =
        read_letters-Reads (λ pi. pi.two_hand_count) add_two_hand two_hand_sequence_of (λ c. c)
          (Hands w.pi) (add_two_hand-Hands w.pi) (λ pi k. k.count) fuel (c ∷ text) []
          (record w.pi { two_hand_count = 0 }) f (omega arith) n begun (omega arith) in
      rw (there, r.ended)
        (started (take 25 (letters (c ∷ text))) w r.result
          (r.read ∙ ap (take 25) (map_id (letters (c ∷ text)))) r.kept)

  -- A text of at most 255 characters that is not empty: `startTwoHandSequence` ends, sends nothing, and the
  -- sequence is the first 25 of its position letters, in upper case. If there is one, the program runs and
  -- is in TWO_HAND_SHOW of the first position; if not, neither changes.
  pub start_two_hand_sequence-letters :
      (fuel : ℕ) (text : List ℕ) (w : World p)
      → length text < fuel
      → length text < 256
      → 0 < length text
      → All (λ c. c ≢ 0) text
      → let found = take 25 (letters text) in
        (w' : World p) × (start_two_hand_sequence u fuel text w ≡ some w')
        × (w'.pi.two_hand_positions ≡ found)
        × (w'.pi.two_hand_count ≡ length found)
        × (w'.pi.state ≡ (if is_empty found then w.pi.state else two_hand_show))
        × (w'.pi.program ≡ (if is_empty found then w.pi.program else two_hand_sequence))
        × (w'.pi.two_hand_current ≡ (if is_empty found then w.pi.two_hand_current else 0))
        × (w'.sent ≡ w.sent)
  start_two_hand_sequence-letters fuel text w f s l n =
      let t = start_two_hand_sequence-Started fuel text w f s l n in
      (t.world, t.ended, t.positions, t.count, t.state, t.program, t.current, t.sent)

-- A place of a text where the loop reads no letter and no end.
abbrev pub IsOther : List ℕ → ℕ → Type 0
IsOther text i = (get_or text i 0 ≢ 0) × (is_position (to_upper (get_or text i 0)) ≡ false)

module _ (count : MockPi → ℕ) (add : ℕ → MockPi → MockPi) where
  read_letters_endless :
      (fuel : ℕ) (text : List ℕ) (i : ℕ) (pi : MockPi)
      → ((k : ℕ) → k < 256 → IsOther text k)
      → i < 256
      → count pi < 25
      → read_letters count add fuel text i pi ≡ none
  unfolding read_letters
  read_letters_endless zero text i pi h l r = refl
  read_letters_endless (suc fuel) text i pi h l r =
      let c = get_or text i 0 in
      let other = h i l in
      let stay : (if is_position (to_upper c) then add (to_upper c) pi else pi) ≡ pi =
        ap (λ (b : Bool). if b then add (to_upper c) pi else pi) other.1 in
      read_letters_round count add fuel text i pi c refl (==_ne c 0 other.0) (ground arith)
      ∙ (ap (read_letters count add fuel text (add8 i 1)) stay
          ∙ read_letters_endless fuel text (add8 i 1) pi h (omega arith) r)

module _ {p : Parts} (u : Unseen p) where
  -- A text whose first 256 characters hold no position letter and no NUL: neither `startSequenceSimple` nor
  -- `startTwoHandSequence` ends, with any number of rounds, since their index has eight bits and starts
  -- again at the first character.
  pub start_endless :
      (fuel : ℕ) (text : List ℕ) (w : World p)
      → ((k : ℕ) → k < 256 → IsOther text k)
      → (start_sequence_simple u fuel text w ≡ none)
        × (start_two_hand_sequence u fuel text w ≡ none)
  unfolding start_sequence_simple start_two_hand_sequence
  start_endless fuel [] w h = absurd ((h 0 (omega arith)).0 refl)
  start_endless fuel (c ∷ text) w h =
      let there : (c == 0) ≡ false = ==_ne c 0 (h 0 (omega arith)).0 in
      let simple =
        read_letters_endless (λ pi. pi.step_count) add_single fuel (c ∷ text) 0
          (record w.pi { step_count = 0 }) h (omega arith) (omega arith) in
      let hands =
        read_letters_endless (λ pi. pi.two_hand_count) add_two_hand fuel (c ∷ text) 0
          (record w.pi { two_hand_count = 0 }) h (omega arith) (omega arith) in
      (rw (there, simple) refl, rw (there, hands) refl)
