-- ===== src/Hexdump/Steps.antt =====
-- One byte after another of a row of a hexdump.
use network_project_cs.Common.{
  ◌/◌, replicate, Bool-cases, inl, inr, if◌then◌else◌, sym, ℕ, ◌+◌, ◌*◌, ◌%◌, ◌^◌, ◌≤◌, ◌<◌, ◌≡◌,
  refl, ap, ◌∙◌, Bool, true, false, [], ◌∷◌, ◌++◌, Bytes, Outcome, returns, length, take, drop,
  take_all, drop_all, length-append, append_assoc, append-nil, map, ◌==◌, arith,
}
use network_project_cs.Common.Formatting.{of_str, put, put_number, put_char, fill_left, digits}
use network_project_cs.Hexdump.{
  newline, end_row, start_row, colon, Dump, space, shown, before_byte, show_byte, show_bytes,
}

-- A number in hexadecimal, filled up with zeros.
unfoldable pub hex : (width n : ℕ) → Bytes
unfolding fill_left digits
hex width n = fill_left 48 width (digits 16 n)

-- The bytes of a row, with a gap before every second one; before all of them, and between them.
unfoldable pub spaced : Bytes → Bytes
unfolding hex
spaced [] = []
spaced (a ∷ []) = space ∷ hex 2 a
spaced (a ∷ b ∷ bytes) = space ∷ hex 2 a ++ hex 2 b ++ spaced bytes

unfoldable pub pairs : Bytes → Bytes
unfolding hex spaced
pairs [] = []
pairs (a ∷ []) = hex 2 a
pairs (a ∷ b ∷ bytes) = hex 2 a ++ hex 2 b ++ spaced bytes

-- The variables with a text printed and some characters of the row noted.
abbrev pub noted : (text chars : Bytes) → ℕ → Dump
noted text chars printed = record {
  cout = record { text = text; base = 16; fill = 48 };
  pchars = record { contents = chars; position = length chars };
  printed = printed;
}

put_char-last :
    (c : ℕ) (cs : Bytes)
    → put_char c (record { contents = cs; position = length cs })
      ≡ record { contents = cs ++ c ∷ []; position = length (cs ++ c ∷ []) }
unfolding put_char
put_char-last c cs =
    let whole : take (length cs) cs ≡ cs = take_all (length cs) cs (omega arith) in
    let nothing : drop (length cs + 1) cs ≡ [] = drop_all (length cs + 1) cs (omega arith) in
    let one_more : length (cs ++ c ∷ []) ≡ length cs + 1 =
      omega (arith, length-append cs (c ∷ [])) in
    rw (whole, nothing, one_more) refl

-- The same state, with its parts written in another way.
pub noted-eq :
    {text text' chars chars' : Bytes} {p p' : ℕ}
    → text ≡ text'
    → chars ≡ chars'
    → p ≡ p'
    → ◌≡◌ {A = Outcome (Unit {0}) × Dump}
        (returns tt, noted text chars p)
        (returns tt, noted text' chars' p')
noted-eq e f g = rw (e, f, g) refl

module _ (isprint : ℕ → Bool) (indent_string : Bytes) where
  abbrev pub chars_of : Bytes → Bytes
  chars_of bytes = map (shown isprint) bytes

  abbrev pub Shows : Bytes → Dump → Dump → Type 0
  Shows bytes s s' = show_bytes isprint indent_string bytes s ≡ (returns tt, s')

  show_byte-odd :
      (b : ℕ) (text chars : Bytes) (p : ℕ)
      → p % 2 ≡ 1
      → p + 1 < 2 ^ 31
      → show_byte isprint indent_string b (noted text chars p)
        ≡ (returns tt, noted (text ++ hex 2 b) (chars ++ shown isprint b ∷ []) (p + 1))
  unfolding show_byte before_byte put_number put hex
  show_byte-odd b text chars p odd small =
      let inside : (p % 16 == 0) ≡ false = ground arith in
      let second : (p % 2 == 0) ≡ false = ground arith in
      let fits : (p + 1 == 2 ^ 31) ≡ false = ground arith in
      rw (inside, second, fits, put_char-last (shown isprint b) chars) refl

  show_byte-even :
      (b : ℕ) (text chars : Bytes) (p : ℕ)
      → p % 2 ≡ 0
      → (p % 16 == 0) ≡ false
      → p + 1 < 2 ^ 31
      → show_byte isprint indent_string b (noted text chars p)
        ≡ (returns tt, noted (text ++ space ∷ hex 2 b) (chars ++ shown isprint b ∷ []) (p + 1))
  unfolding show_byte before_byte put_number put hex
  show_byte-even b text chars p even inside small =
      let first : (p % 2 == 0) ≡ true = ground arith in
      let fits : (p + 1 == 2 ^ 31) ≡ false = ground arith in
      rw (inside, first, fits, put_char-last (shown isprint b) chars)
        (ap (λ t. (returns tt, noted t (chars ++ shown isprint b ∷ []) (p + 1)))
          (append_assoc text (space ∷ []) (hex 2 b)))

  -- The bytes of a row but its first two.
  pub show_bytes-spaced :
      (bytes text chars : Bytes) (k j : ℕ)
      → j % 2 ≡ 0
      → 2 ≤ j
      → j + length bytes ≤ 16
      → 16 * k + j + length bytes < 2 ^ 31
      → Shows bytes
          (noted text chars (16 * k + j))
          (noted (text ++ spaced bytes) (chars ++ chars_of bytes) (16 * k + j + length bytes))
  unfolding show_bytes spaced
  show_bytes-spaced [] text chars k j even inside fits small =
      noted-eq (sym (append-nil text)) (sym (append-nil chars)) (omega arith)
  show_bytes-spaced (a ∷ []) text chars k j even inside fits small =
      let not_first : ((16 * k + j) % 16 == 0) ≡ false = ground arith in
      rw (show_byte-even a text chars (16 * k + j) (omega arith) not_first (omega arith)) refl
  show_bytes-spaced (a ∷ b ∷ bytes) text chars k j even inside fits small =
      let not_first : ((16 * k + j) % 16 == 0) ≡ false = ground arith in
      let text1 = text ++ space ∷ hex 2 a in
      let chars1 = chars ++ shown isprint a ∷ [] in
      let chars2 = chars1 ++ shown isprint b ∷ [] in
      let two_on : 16 * k + j + 1 + 1 ≡ 16 * k + (j + 2) = omega arith in
      rw
        (
          show_byte-even a text chars (16 * k + j) (omega arith) not_first (omega arith),
          show_byte-odd b text1 chars1 (16 * k + j + 1) (omega arith) (omega arith),
          two_on,
        )
        (show_bytes-spaced bytes (text1 ++ hex 2 b) chars2 k (j + 2) (omega arith) (omega arith)
            (omega arith) (omega arith)
          ∙ noted-eq (simp append_assoc) (simp append_assoc) (omega arith))

  -- The text before a row's offset, given the variables before it.
  abbrev pub text_before : Dump → Bytes
  text_before s =
      if s.printed == 0
      then s.cout.text
      else s.cout.text ++ replicate 4 space ++ s.pchars.contents ++ newline ∷ []

  -- The variables at the start of the loop or after a row.
  unfoldable pub IsBetween : Dump → Type 0
  IsBetween s =
      (s.cout.base ≡ 16)
      × (s.cout.fill ≡ 48)
      × (s.printed ≡ 0 → s.pchars ≡ of_str (space ∷ []))
      × (s.printed % 16 ≡ 0)

  pub IsBetween-start : (s : Dump) → IsBetween s → s.printed % 16 ≡ 0
  unfolding IsBetween
  IsBetween-start s between = between.3

  -- The first byte of a row.
  show_byte-first :
      (b : ℕ) (s : Dump)
      → IsBetween s
      → s.printed + 1 < 2 ^ 31
      → show_byte isprint indent_string b s ≡ (
        returns tt,
        noted
            (text_before s ++ indent_string ++ hex 8 s.printed ++ colon ++ hex 2 b)
            (shown isprint b ∷ [])
            (s.printed + 1),
      )
  unfolding show_byte before_byte start_row end_row put_number put hex put_char of_str IsBetween
  show_byte-first b s (base, fill, blank, start) small =
      let first : (s.printed % 16 == 0) ≡ true = ground arith in
      let fits : (s.printed + 1 == 2 ^ 31) ≡ false = ground arith in
      elim (Bool-cases (s.printed == 0)) [
        | inl zeroth ↦
            rw (first, fits, zeroth, base, fill, blank (ground arith))
              (noted-eq (simp append_assoc) refl refl)
        | inr later ↦ rw (first, fits, later, base, fill) (noted-eq (simp append_assoc) refl refl)
      ]

  -- A row.
  pub show_bytes-pairs :
      (row : Bytes) (s : Dump)
      → IsBetween s
      → 1 ≤ length row
      → length row ≤ 16
      → s.printed + length row < 2 ^ 31
      → Shows row s (
          noted
            (text_before s ++ indent_string ++ hex 8 s.printed ++ colon ++ pairs row)
            (chars_of row)
            (s.printed + length row))
  unfolding show_bytes pairs
  show_bytes-pairs [] s between some_left fits small = absurd (omega arith)
  show_bytes-pairs (a ∷ []) s between some_left fits small =
      rw (show_byte-first a s between (omega arith)) refl
  show_bytes-pairs (a ∷ b ∷ bytes) s between some_left fits small =
      let before = text_before s ++ indent_string ++ hex 8 s.printed ++ colon ++ hex 2 a in
      let start : s.printed % 16 ≡ 0 = IsBetween-start s between in
      let two_on : s.printed + 1 + 1 ≡ 16 * (s.printed / 16) + 2 = omega arith in
      rw
        (
          show_byte-first a s between (omega arith),
          show_byte-odd b before (shown isprint a ∷ []) (s.printed + 1) (omega arith) (omega arith),
          two_on,
        )
        (show_bytes-spaced bytes (before ++ hex 2 b) (shown isprint a ∷ shown isprint b ∷ [])
            (s.printed / 16) 2 (omega arith) (omega arith) (omega arith) (omega arith)
          ∙ noted-eq (simp append_assoc) refl (omega arith))
