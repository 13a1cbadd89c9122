-- ===== src/Parser/NetUnparser.antt =====
-- libsponge/util/parser.hh and parser.cc, struct NetUnparser.
pub mod Unparsing
use network_project_cs.Common.{
  ℕ, zero, suc, ◌+◌, ◌-◌, ◌*◌, ◌/◌, ◌%◌, ◌^◌, List, [], ◌∷◌, ◌++◌, Bytes,
}

-- `(val >> ((len - i - 1) * 8)) & 0xff`
the_byte : ℕ → ℕ → ℕ → ℕ
the_byte len i val = val / 2 ^ ((len - i - 1) * 8) % 2 ^ 8

-- The rounds from `i` on, of which `left` are left.
unparse_loop : ℕ → ℕ → ℕ → Bytes → ℕ → Bytes
unfolding the_byte
unparse_loop len zero i s val = s
unparse_loop len (suc left) i s val =
    unparse_loop len left (i + 1) (s ++ the_byte len i val ∷ []) val

-- `_unparse_int<T>` at a type of `len` bytes: the string after the call.
unfoldable pub unparse_int : ℕ → Bytes → ℕ → Bytes
unfolding unparse_loop
unparse_int len s val = unparse_loop len len 0 s val

unfoldable pub u32 : Bytes → ℕ → Bytes
unfolding unparse_int
u32 s val = unparse_int 4 s val

unfoldable pub u16 : Bytes → ℕ → Bytes
unfolding unparse_int
u16 s val = unparse_int 2 s val

unfoldable pub u8 : Bytes → ℕ → Bytes
unfolding unparse_int
u8 s val = unparse_int 1 s val
