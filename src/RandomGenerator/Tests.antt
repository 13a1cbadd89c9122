-- ===== src/RandomGenerator/Tests.antt =====
-- How the generator is seeded.
use network_project_cs.Common.{ℕ, zero, suc, ◌≡◌, refl, length, ap}
use network_project_cs.RandomGenerator.{Randomness, generate}

-- As many words as were asked for.
length-generate : (R : Randomness) (n : ℕ) (rd : R.Device) → length (generate R n rd).0 ≡ n
unfolding generate
length-generate R zero rd = refl
length-generate R (suc n) rd = ap suc (length-generate R n (R.random_device rd).1)
