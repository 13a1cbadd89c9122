-- ===== src/Hexdump/Tests.antt =====
-- Hexdumps of a few bytes.
use network_project_cs.Common.{
  ℕ, ◌≡◌, refl, ◌&&◌, ltb, Bool, [], ◌∷◌, ◌++◌, Bytes, returns, replicate, arith,
}
use network_project_cs.Common.Formatting.{Stream}
use network_project_cs.Hexdump.{hexdump, space, newline, colon}
use network_project_cs.Hexdump.Layout.{lines}
use network_project_cs.Hexdump.Printing.{hexdump-lines}

abbrev printable : ℕ → Bool
printable c = ltb 31 c && ltb c 127

abbrev fresh : Stream
fresh = record { text = []; base = 10; fill = space }

-- A letter, a newline and a byte that is no character.
abbrev three : Bytes
three = 65 ∷ 10 ∷ 255 ∷ []

-- " 00000000:    410a ff", 36 spaces, "A..", and an empty line.
three_dumped :
    (hexdump printable three 1 fresh).1.text
    ≡ space ∷ replicate 8 48
      ++ colon
      ++ (52 ∷ 49 ∷ 48 ∷ 97 ∷ 32 ∷ 102 ∷ 102 ∷ [])
      ++ replicate 36 space
      ++ (65 ∷ 46 ∷ 46 ∷ newline ∷ newline ∷ [])
unfolding hexdump
three_dumped = refl

-- Nothing to show: only here the space that `pchars` starts with is printed.
nothing_dumped : (hexdump printable [] 0 fresh).1.text ≡ replicate 5 space ++ newline ∷ newline ∷ []
unfolding hexdump
nothing_dumped = refl

hexdump-lines_example : hexdump printable three 0 fresh ≡ (
  returns tt,
  record { text = lines printable [] 1 0 three ++ newline ∷ []; base = 10; fill = 48 },
)
hexdump-lines_example =
    hexdump-lines printable three 0 fresh (omega arith, (omega arith, (omega arith, tt)))
      (omega arith) (omega arith)
