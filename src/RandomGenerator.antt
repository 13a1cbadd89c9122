-- ===== src/RandomGenerator.antt =====
-- libsponge/util/util.cc: get_random_generator. The device, the seed sequence and the generator are
-- the standard library's.
mod Tests
use network_project_cs.Common.{ℕ, zero, suc, List, [], ◌∷◌}

-- `random_device`, and `mt19937` made of a `seed_seq` of words.
pub record Randomness : Type 1 where
  pub Device : Type 0
  pub Generator : Type 0
  pub random_device : Device → ℕ × Device
  pub mt19937 : (seed : List ℕ) → Generator

-- `mt19937::state_size`
abbrev pub state_size : ℕ
state_size = 624

module _ (R : Randomness) where
  -- `std::generate` over that many words.
  unfoldable pub generate : ℕ → R.Device → List ℕ × R.Device
  generate zero rd = ([], rd)
  generate (suc n) rd =
      let (word, rd') = R.random_device rd in
      let (others, rd'') = generate n rd' in (word ∷ others, rd'')

  unfoldable pub get_random_generator : R.Device → R.Generator × R.Device
  unfolding generate
  get_random_generator rd =
      let (seed_data, rd') = generate state_size rd in (R.mt19937 seed_data, rd')
