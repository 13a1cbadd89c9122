-- ===== src/Webget.antt =====
-- apps/webget.cc: the program's arguments, and the placeholder that it calls. What is written to
-- the standard error is the list of the pieces, in order.
mod Tests
use network_project_cs.Common.{
  ℕ, Bool, not, List, [], ◌∷◌, String, get_elem?, none, some, Option, length, ltb, ◌==◌,
  if◌then◌else◌, zero, suc, ◌≡◌, ◌↔◌, refl, arith,
}

pub data Exit : Type 0 where
  exit_success exit_failure aborted : Exit

-- `get_URL` throws nothing.
get_url : String → String → List String
get_url host path =
    "Function called: get_URL(" ∷ host ∷ ", " ∷ path ∷ ").\n"
    ∷ "Warning: get_URL() has not been implemented yet.\n" ∷ []

usage : String → List String
usage name =
    "Usage: " ∷ name ∷ " HOST PATH\n" ∷ "\tExample: " ∷ name ∷ " stanford.edu /class/cs144\n" ∷ []

-- `argv` holds `argc` strings.
unfoldable pub main : List String → Exit × List String
unfolding get_url usage
main [] = (aborted, [])
main (name ∷ host ∷ path ∷ []) = (exit_success, get_url host path)
main (name ∷ args) = (exit_failure, usage name)

-- The program succeeds just when it has two arguments besides its name.
main-exit_success : (argv : List String) → (main argv).0 ≡ exit_success ↔ length argv ≡ 3
unfolding main
main-exit_success [] = ground arith
main-exit_success (a ∷ []) = ground arith
main-exit_success (a ∷ b ∷ []) = ground arith
main-exit_success (a ∷ b ∷ c ∷ []) = ground arith
main-exit_success (a ∷ b ∷ c ∷ d ∷ e) = ground arith
