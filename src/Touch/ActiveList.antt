-- ===== src/Touch/ActiveList.antt =====
-- The text of `buildActiveSensorList` of src/TouchController.cpp.
use hardware.Base.{
  ℕ, ◌+◌, ◌*◌, ◌≤◌, ◌≡◌, refl, sym, ap, ◌∙◌, true, false, List, [], ◌∷◌, ◌++◌, ltb, if◌then◌else◌,
  length, append-nil, append_assoc, Bool-cases, inl, inr, arith,
}
use hardware.Touch.State.{TouchSensorState, TouchController}
use hardware.Touch.Letters.{index_to_letter}
use hardware.Touch.Controller.{list_from, build_active_sensor_list}

-- The letters of the active sensors, from A for the first one on.
abbrev pub active_letters : ℕ → List TouchSensorState → List ℕ
active_letters i [] = []
active_letters i (s ∷ ss) =
    let rest = active_letters (i + 1) ss in if s.active then (b'A' + i) ∷ rest else rest

-- Each after a comma.
abbrev pub after_commas : List ℕ → List ℕ
after_commas [] = []
after_commas (c ∷ cs) = b',' ∷ c ∷ after_commas cs

-- With commas between them.
abbrev pub with_commas : List ℕ → List ℕ
with_commas [] = []
with_commas (c ∷ cs) = c ∷ after_commas cs

letter_lem : (i : ℕ) → i + 1 ≤ 25 → index_to_letter i ≡ b'A' + i
unfolding index_to_letter
letter_lem i h = ground arith

-- After the first letter.
list_from-after :
    (ss : List TouchSensorState) (i pos : ℕ) (out : List ℕ)
    → i + length ss ≤ 25
    → pos + 2 * length ss ≤ 50
    → list_from 52 ss i out pos false ≡ out ++ after_commas (active_letters i ss)
unfolding list_from
list_from-after [] i pos out h k = sym (append-nil out)
list_from-after (s ∷ ss) i pos out h k = elim (Bool-cases s.active) [
  | inr quiet ↦ rw quiet (list_from-after ss (i + 1) pos out (omega arith) (omega arith))
  | inl active ↦
      let rest = after_commas (active_letters (i + 1) ss) in
      let fits : ltb 52 (pos + 3) ≡ false = ground arith in
      rw (active, fits)
        (list_from-after ss (i + 1) (pos + 2) _ (omega arith) (omega arith)
          ∙ (append_assoc (out ++ (b',' ∷ [])) (index_to_letter i ∷ []) rest
              ∙ (append_assoc out (b',' ∷ []) (index_to_letter i ∷ rest)
                  ∙ ap (λ c. out ++ (b',' ∷ c ∷ rest)) (letter_lem i (omega arith)))))
]

list_from-first :
    (ss : List TouchSensorState) (i : ℕ)
    → i + length ss ≤ 25
    → list_from 52 ss i [] 0 true ≡ with_commas (active_letters i ss)
unfolding list_from
list_from-first [] i h = refl
list_from-first (s ∷ ss) i h = elim (Bool-cases s.active) [
  | inr quiet ↦ rw quiet (list_from-first ss (i + 1) (omega arith))
  | inl active ↦ rw active (
      list_from-after ss (i + 1) 1 (index_to_letter i ∷ []) (omega arith) (omega arith)
      ∙ ap (λ c. c ∷ after_commas (active_letters (i + 1) ss)) (letter_lem i (omega arith)))
]

-- With at most 25 sensors the list fits a buffer of 52 bytes, and has the letters of all that are active.
pub build_active_sensor_list-with_commas :
    (t : TouchController)
    → length t.sensors ≤ 25
    → build_active_sensor_list t 52 ≡ with_commas (active_letters 0 t.sensors)
unfolding build_active_sensor_list
build_active_sensor_list-with_commas t h = list_from-first t.sensors 0 (omega (arith, h))
