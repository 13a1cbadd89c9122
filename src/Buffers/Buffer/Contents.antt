-- ===== src/Buffers/Buffer/Contents.antt =====
-- What the operations of a Buffer do to the bytes that it shows.
use network_project_cs.Common.{
  ℕ, ◌+◌, ◌≤◌, ◌<◌, ◌≡◌, refl, ap, ◌⊎◌, inl, inr, ◌↔◌, Bytes, [], Option, none, some, ok, throw,
  out_of_range, arith, length, drop, ltb-cases, le→not_ltb, size_mod, size_add_exact,
  size_sub_exact, length-drop, take_all, drop_all, drop-drop, drop-nil, drop-eq-nil, sym,
}
use network_project_cs.Buffers.Buffer.{
  Buffer, of_string, view_from, str, size, release, remove_prefix, IsValid, IsReleased,
}

-- The bytes from the offset on.
pub suffix : Option Bytes → ℕ → Bytes
suffix none off = []
suffix (some s) off = drop off s

view_from-suffix :
    (o : Option Bytes) (off : ℕ)
    → IsValid (record { storage = o; starting_offset = off })
    → view_from o off ≡ suffix o off
unfolding view_from suffix
view_from-suffix none off v = refl
view_from-suffix (some s) off v =
    take_all _ (drop off s) (omega (arith, length-drop off s, size_sub_exact (length s) off))

-- On a valid buffer the view is the string less its first `_starting_offset` bytes.
pub str-suffix : (b : Buffer) → IsValid b → str b ≡ suffix b.storage b.starting_offset
unfolding str
str-suffix b v = view_from-suffix b.storage b.starting_offset v

pub str-of_string : (s : Bytes) → length s < size_mod → str (of_string s) ≡ s
unfolding of_string suffix
str-of_string s h = str-suffix (of_string s) (omega arith, h)

pub of_string-IsValid : (s : Bytes) → length s < size_mod → IsValid (of_string s)
unfolding of_string
of_string-IsValid s h = (omega arith, h)

-- The offset moves by `n`, and an exhausted string is given back.
advanced : Option Bytes → ℕ → ℕ → Buffer
advanced o off n = record { storage = release o (off + n); starting_offset = off + n }

advanced-IsValid :
    (o : Option Bytes) (off n : ℕ)
    → IsValid (record { storage = o; starting_offset = off })
    → n ≤ length (suffix o off)
    → IsValid (advanced o off n)
unfolding advanced release suffix
advanced-IsValid none off n v h = omega arith
advanced-IsValid (some s) off n v h = ground (arith, length-drop off s)

suffix-advanced :
    (o : Option Bytes) (off n : ℕ)
    → n ≤ length (suffix o off)
    → suffix (advanced o off n).storage (off + n) ≡ drop n (suffix o off)
unfolding advanced release suffix
suffix-advanced none off n h = sym (drop-nil n)
suffix-advanced (some s) off n h = ground (arith, drop-drop off n s, drop_all (off + n) s)

advanced-IsReleased :
    (o : Option Bytes) (off n : ℕ)
    → IsValid (record { storage = o; starting_offset = off })
    → n ≤ length (suffix o off)
    → IsReleased (advanced o off n) ↔ (drop n (suffix o off) ≡ [])
unfolding advanced release suffix
advanced-IsReleased none off n v h = ((λ _. drop-nil n), λ _. refl)
advanced-IsReleased (some s) off n v h =
    ground
      (arith, length-drop off s, drop-drop off n s, drop_all (off + n) s, drop-eq-nil (off + n) s)

offset_bound : (b : Buffer) (n : ℕ) → IsValid b → n ≤ size b → b.starting_offset + n < size_mod
unfolding size
offset_bound b n v h =
    bound b.storage b.starting_offset v (omega (arith, ap length (str-suffix b v)))
  where
    bound :
        (o : Option Bytes) (off : ℕ)
        → IsValid (record { storage = o; starting_offset = off })
        → n ≤ length (suffix o off)
        → off + n < size_mod
    bound none off w k = unfold suffix in omega arith
    bound (some s) off w k = unfold suffix in omega (arith, length-drop off s)

remove_prefix-advanced :
    (b : Buffer) (n : ℕ)
    → IsValid b
    → n ≤ size b
    → remove_prefix b n ≡ (ok tt, advanced b.storage b.starting_offset n)
unfolding remove_prefix advanced
remove_prefix-advanced b n v h =
    rw (le→not_ltb (size b) n h, size_add_exact _ _ (offset_bound b n v h)) refl

size-suffix : (b : Buffer) → IsValid b → size b ≡ length (suffix b.storage b.starting_offset)
unfolding size
size-suffix b v = ap length (str-suffix b v)

advanced-str :
    (b : Buffer) (n : ℕ)
    → IsValid b
    → n ≤ size b
    → (let b' = advanced b.storage b.starting_offset n in
        IsValid b' × (str b' ≡ drop n (str b)) × (IsReleased b' ↔ (str b' ≡ [])))
unfolding advanced
advanced-str b n v le =
    let o : Option Bytes = b.storage in
    let off : ℕ = b.starting_offset in
    let h : n ≤ length (suffix o off) = omega (arith, size-suffix b v) in
    let w : IsValid (advanced o off n) = advanced-IsValid o off n v h in
    rw (str-suffix (advanced o off n) w, str-suffix b v, suffix-advanced o off n h)
      (w, refl, advanced-IsReleased o off n v h)

-- The two outcomes of `remove_prefix`.
abbrev pub RemovePrefixCases : Buffer → ℕ → Type 0
RemovePrefixCases b n =
    (let (outcome, b') = remove_prefix b n in
      ((n ≤ size b)
        × (outcome ≡ ok tt)
        × (IsValid b' × (str b' ≡ drop n (str b)) × (IsReleased b' ↔ (str b' ≡ []))))
      ⊎ ((size b < n) × (outcome ≡ throw (out_of_range "Buffer::remove_prefix")) × (b' ≡ b)))

-- `remove_prefix` on every branch. If the buffer holds `n` bytes it drops them, and gives the
-- string back exactly when no byte is left; otherwise it throws and changes nothing.
pub remove_prefix_releases : (b : Buffer) (n : ℕ) → IsValid b → RemovePrefixCases b n
remove_prefix_releases b n v = elim (ltb-cases (size b) n) [
  | inl (lt, e) ↦ inr (lt, unfold remove_prefix in rw e, unfold remove_prefix in rw e)
  | inr (le, e) ↦ rw (remove_prefix-advanced b n v le) (inl (le, refl, advanced-str b n v le))
]
