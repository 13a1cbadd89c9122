-- ===== src/Hexdump/Printing.antt =====
-- hexdump prints the lines of its layout.
use network_project_cs.Common.{
  ◌==◌, All-take, All-drop, length-take, length-drop, take-append-drop, take_all, drop_all,
  append-nil, sym, ap, ◌∙◌, append_assoc, returns, refl, ◌%◌, ◌^◌, ltb, inl, inr, Bool-cases, false,
  ℕ, zero, suc, ◌+◌, ◌-◌, ◌*◌, ◌/◌, ◌%◌, ◌≤◌, ◌<◌, ◌≡◌, refl, Bool, [], ◌∷◌, ◌++◌, Bytes, IsBytes,
  length, take, drop, replicate, arith,
}
use network_project_cs.Common.Formatting.{Stream, put}
use network_project_cs.Common.Actions.{bind_eq, ◌>>◌, bind_assoc}
use network_project_cs.Hexdump.{hexdump, show_byte, Dump, show_bytes, finish, space, newline, colon}
use network_project_cs.Hexdump.Steps.{
  noted, IsBetween-start, IsBetween, text_before, show_bytes-pairs, hex, pairs, chars_of,
}
use network_project_cs.Hexdump.Layout.{line, lines, width-eq, not_zero, more_than}

module _ (isprint : ℕ → Bool) (indent_string : Bytes) where
  show_bytes-append :
      (bytes rest : Bytes) (s : Dump)
      → show_bytes isprint indent_string (bytes ++ rest) s
        ≡ (show_bytes isprint indent_string bytes >> show_bytes isprint indent_string rest) s
  unfolding show_bytes
  show_bytes-append [] rest s = refl
  show_bytes-append (b ∷ bytes) rest s =
      bind_eq (λ _. show_bytes isprint indent_string (bytes ++ rest))
        (λ _. show_bytes isprint indent_string bytes >> show_bytes isprint indent_string rest)
        (show_byte isprint indent_string b) s (λ _ t. show_bytes-append bytes rest t)
      ∙ sym (
          bind_assoc (λ _. show_bytes isprint indent_string bytes)
            (λ _. show_bytes isprint indent_string rest) (show_byte isprint indent_string b) s)

  lines-cons :
      (rows offset : ℕ) (bytes : Bytes)
      → 1 ≤ length bytes
      → lines isprint indent_string (suc rows) offset bytes
        ≡ line isprint indent_string offset (take 16 bytes)
          ++ lines isprint indent_string rows (offset + 16) (drop 16 bytes)
  unfolding lines
  lines-cons rows offset [] some_left = absurd (omega arith)
  lines-cons rows offset (b ∷ bytes) some_left = refl

  lines-nil : (rows offset : ℕ) → lines isprint indent_string rows offset [] ≡ []
  unfolding lines
  lines-nil zero offset = refl
  lines-nil (suc rows) offset = refl

  -- The output after the loop has started a row with these variables.
  Prints : (flags : ℕ) → Bytes → Bytes → Dump → Type 0
  Prints flags bytes text s = finish flags (show_bytes isprint indent_string bytes s) ≡ (
    returns tt,
    record {
      text = text_before isprint indent_string s ++ text ++ newline ∷ [];
      base = flags;
      fill = 48;
    },
  )

  finish-row :
      (flags : ℕ) (row : Bytes) (s : Dump)
      → IsBytes row
      → IsBetween isprint indent_string s
      → 1 ≤ length row
      → length row ≤ 16
      → s.printed + length row < 2 ^ 31
      → Prints flags row (line isprint indent_string s.printed row) s
  unfolding finish line Prints put
  finish-row flags row s byte between some_left fits small =
      let start : s.printed % 16 ≡ 0 = IsBetween-start isprint indent_string s between in
      let rem : (16 - (s.printed + length row) % 16) % 16 ≡ 16 - length row = omega arith in
      rw
        (
          show_bytes-pairs isprint indent_string row s between some_left fits small,
          rem,
          width-eq row byte some_left fits,
        )
        (ap (λ t. (returns tt, record { text = t; base = flags; fill = 48 })) (simp append_assoc))

  -- The variables after a row.
  after_row : Bytes → Dump → Dump
  after_row row s =
      noted
        (text_before isprint indent_string s
          ++ indent_string
          ++ hex 8 s.printed
          ++ colon
          ++ pairs row)
        (chars_of isprint indent_string row) (s.printed + length row)

  after_row-IsBetween :
      (row : Bytes) (s : Dump)
      → IsBetween isprint indent_string s
      → length row ≡ 16
      → IsBetween isprint indent_string (after_row row s)
  unfolding IsBetween after_row
  after_row-IsBetween row s between full = (
    refl,
    refl,
    (λ z. absurd (omega arith)),
    omega (arith, IsBetween-start isprint indent_string s between),
  )

  row-Prints :
      (flags : ℕ) (row rest after : Bytes) (s : Dump)
      → IsBytes row
      → IsBetween isprint indent_string s
      → length row ≡ 16
      → s.printed + 16 < 2 ^ 31
      → Prints flags rest after (after_row row s)
      → Prints flags (row ++ rest) (line isprint indent_string s.printed row ++ after) s
  unfolding Prints after_row line
  row-Prints flags row rest after s byte between full small prints =
      let later : (s.printed + length row == 0) ≡ false =
        not_zero (s.printed + length row) (omega arith) in
      let width : 43 - length (pairs row) ≡ 4 =
        omega (arith, width-eq row byte (omega arith) (omega arith)) in
      rw
        (
          show_bytes-append row rest s,
          show_bytes-pairs isprint indent_string row s between (omega arith) (omega arith)
              (omega arith),
          width,
        )
        (prints
          ∙ rw later (
              ap (λ t. (returns tt, record { text = t; base = flags; fill = 48 }))
                (simp append_assoc)))

  lines-Prints :
      (rows flags : ℕ) (bytes : Bytes) (s : Dump)
      → IsBytes bytes
      → IsBetween isprint indent_string s
      → 1 ≤ length bytes
      → length bytes ≤ 16 * rows
      → s.printed + length bytes < 2 ^ 31
      → Prints flags bytes (lines isprint indent_string rows s.printed bytes) s
  unfolding after_row
  lines-Prints zero flags bytes s byte between some_left fits small = absurd (omega arith)
  lines-Prints (suc rows) flags bytes s byte between some_left fits small =
      elim (Bool-cases (ltb 16 (length bytes))) [
        | inl more ↦
            let row = take 16 bytes in
            let rest = drop 16 bytes in
            let long : 16 < length bytes = more_than (length bytes) more in
            let full : length row ≡ 16 = omega (arith, length-take 16 bytes) in
            let left_over : length rest ≡ length bytes - 16 = length-drop 16 bytes in
            let parts : row ++ rest ≡ bytes = take-append-drop 16 bytes in
            let next : s.printed + length row ≡ s.printed + 16 = omega arith in
            rw (lines-cons rows s.printed bytes some_left) (
              rw (parts, next) at
                (row-Prints flags row rest
                  (lines isprint indent_string rows (s.printed + length row) rest) s
                  (All-take (λ b. b < 256) 16 bytes byte) between full (omega arith)
                  (lines-Prints rows flags rest (after_row row s)
                    (All-drop (λ b. b < 256) 16 bytes byte) (after_row-IsBetween row s between full)
                    (omega arith) (omega arith) (omega arith))))
        | inr last ↦
            let whole : take 16 bytes ≡ bytes = take_all 16 bytes (ground arith) in
            let nothing : drop 16 bytes ≡ [] = drop_all 16 bytes (ground arith) in
            rw
              (
                lines-cons rows s.printed bytes some_left,
                whole,
                nothing,
                lines-nil rows (s.printed + 16),
                append-nil (line isprint indent_string s.printed bytes),
              )
              (finish-row flags bytes s byte between some_left (ground arith) small)
      ]

-- For at least one byte and fewer than 2 ^ 31, `hexdump` returns; it has printed the lines of the
-- layout, one for every 16 bytes begun, and an empty line. The base for numbers is as it was, but
-- the fill character is left at `0`.
pub hexdump-lines :
    (isprint : ℕ → Bool) (bytes : Bytes) (indent : ℕ) (cout : Stream)
    → IsBytes bytes
    → 1 ≤ length bytes
    → length bytes < 2 ^ 31
    → hexdump isprint bytes indent cout ≡ (
      returns tt,
      record {
        text =
            cout.text
            ++ lines isprint (replicate indent space) ((length bytes + 15) / 16) 0 bytes
            ++ newline ∷ [];
        base = cout.base;
        fill = 48;
      },
    )
unfolding hexdump IsBetween Prints
hexdump-lines isprint bytes indent cout byte some_there small =
    lines-Prints isprint (replicate indent space) ((length bytes + 15) / 16) cout.base bytes _ byte
      (refl, refl, (λ z. refl), refl) some_there (omega arith) (omega arith)
