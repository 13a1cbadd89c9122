-- ===== src/Common/Words.antt =====
-- Machine words as native numbers, and byte strings. `size_t` has 64 bits.
use Prim.Native.Nat.{ℕ, ◌+◌, ◌-◌, ◌%◌, ◌^◌, ◌≤◌, ◌<◌}
use mathlib.Core.Path.{◌≡◌}
use mathlib.Core.List.{List, [], ◌∷◌}
use native.Mathlib.Omega.{arith}
use network_project_cs.Common.Tests.{◌==◌, if◌then◌else◌}
use network_project_cs.Common.Lists.{All}

-- A `std::string` or a `std::string_view`: its bytes, each by its value as an `uint8_t`.
abbrev pub Bytes : Type 0
Bytes = List ℕ

abbrev pub IsBytes : Bytes → Type 0
IsBytes = All (λ b. b < 256)

abbrev pub size_mod : ℕ
size_mod = 2 ^ 64

-- a + b and a - b on `size_t`.
unfoldable pub size_add : ℕ → ℕ → ℕ
size_add a b = (a + b) % size_mod

unfoldable pub size_sub : ℕ → ℕ → ℕ
size_sub a b = (a + size_mod - b) % size_mod

pub size_add_exact : (a b : ℕ) → a + b < size_mod → size_add a b ≡ a + b
unfolding size_add
size_add_exact a b h = omega arith

pub size_sub_exact : (a b : ℕ) → b ≤ a → a < size_mod → size_sub a b ≡ a - b
unfolding size_sub
size_sub_exact a b h k = omega arith

-- The C string that begins a piece of memory: it ends before the first NUL.
unfoldable pub up_to_nul : Bytes → Bytes
up_to_nul [] = []
up_to_nul (c ∷ cs) = if c == 0 then [] else c ∷ up_to_nul cs
