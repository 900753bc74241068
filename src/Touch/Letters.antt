-- ===== src/Touch/Letters.antt =====
-- The letters, indices and bus addresses of the sensors: the static methods of
-- src/TouchController.cpp.
use hardware.Base.{
  ℕ, ◌+◌, ◌-◌, ◌<◌, ◌≡◌, ◌⊎◌, ◌&&◌, List, [], ◌∷◌, ltb, leb, ◌==◌, if◌then◌else◌, arith,
}
use hardware.Base.Words.{add8}
use hardware.Config.{num_touch_sensors, sensor_i2c_addresses}

unfoldable pub letter_to_index : ℕ → ℕ
letter_to_index letter =
    let upper = if leb b'a' letter && leb letter b'y' then letter - 32 else letter in
    if leb b'A' upper && leb upper b'Y' then upper - b'A' else 255

unfoldable pub index_to_letter : ℕ → ℕ
index_to_letter index = if ltb index num_touch_sensors then b'A' + index else b'?'

-- The loop over the address table, from index `i` on.
index_from : List ℕ → ℕ → ℕ → ℕ
index_from [] i address = 255
index_from (a ∷ table) i address = if a == address then i else index_from table (add8 i 1) address

pub address_to_index : ℕ → ℕ
unfolding index_from
address_to_index address = index_from sensor_i2c_addresses 0 address

-- Letters and indices are inverse: every index below 25 comes back from its letter, and a letter either has
-- the index 255, or one below 25 whose letter it is, itself or in lower case.
pub letter_to_index-index_to_letter :
    (i letter : ℕ)
    → i < 25
    → (letter_to_index (index_to_letter i) ≡ i)
      × ((letter_to_index letter ≡ 255)
          ⊎ ((letter_to_index letter < 25)
              × ((index_to_letter (letter_to_index letter) ≡ letter)
                  ⊎ (index_to_letter (letter_to_index letter) + 32 ≡ letter))))
unfolding letter_to_index index_to_letter
letter_to_index-index_to_letter i letter h = (ground arith, ground arith)
