-- ===== src/Parser/NetUnparser/Unparsing.antt =====
-- The bytes that NetUnparser writes.
use network_project_cs.Common.{
  ◌%◌, ◌/◌, ℕ, zero, suc, ◌+◌, ◌-◌, ◌*◌, ◌^◌, ◌≡◌, refl, sym, ap, ◌∙◌, [], ◌∷◌, ◌++◌, Bytes,
  append-nil, append_assoc, arith,
}
use network_project_cs.Parser.BigEndian.{digits, two_pow}
use network_project_cs.Parser.NetUnparser.{the_byte, unparse_loop, unparse_int}

unparse_loop-digits :
    (len left i : ℕ) (s : Bytes) (val : ℕ)
    → i + left ≡ len
    → unparse_loop len left i s val ≡ s ++ digits left val
unfolding unparse_loop digits the_byte
unparse_loop-digits len zero i s val e = sym (append-nil s)
unparse_loop-digits len (suc left) i s val e =
    unparse_loop-digits len left (i + 1) (s ++ the_byte len i val ∷ []) val (omega arith)
    ∙ append_assoc s (the_byte len i val ∷ []) (digits left val)
    ∙ ap (λ (c : ℕ). s ++ c ∷ digits left val) last_digit
  where
    last_digit : the_byte len i val ≡ val / 256 ^ left % 256
    last_digit =
        let shift : (len - i - 1) * 8 ≡ 8 * left = omega arith in rw (shift, two_pow left) refl

-- `_unparse_int` appends the value's digits to the base 256, the highest first.
pub unparse_int-digits :
    (len : ℕ) (s : Bytes) (val : ℕ) → unparse_int len s val ≡ s ++ digits len val
unfolding unparse_int
unparse_int-digits len s val = unparse_loop-digits len len 0 s val (omega arith)
