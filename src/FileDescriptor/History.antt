-- ===== src/FileDescriptor/History.antt =====
-- How the objects behind descriptors change over time.
use network_project_cs.Common.{
  some-inj, some-inj, ℕ, zero, suc, ◌^◌, ◌<◌, ◌≡◌, refl, ◌∙◌, is_negative, true, false, List, [],
  ◌∷◌, ◌++◌, All, get_elem?, some, set,
}
use network_project_cs.Machine.{FdWrapper}

-- A closed descriptor is at its end of file, the number is one of a descriptor, and the counters
-- are words of 32 bits.
abbrev pub IsSound : FdWrapper → Type 0
IsSound x =
    (x.closed ≡ true → x.eof ≡ true)
    × (is_negative x.fd ≡ false)
    × (x.read_count < 2 ^ 32)
    × (x.write_count < 2 ^ 32)

-- What an object can turn into: its number stays, what is closed or at its end of file stays so,
-- and what has no owner gets none.
abbrev pub Evolves : FdWrapper → FdWrapper → Type 0
Evolves x y =
    (y.fd ≡ x.fd)
    × (x.closed ≡ true → y.closed ≡ true)
    × (x.eof ≡ true → y.eof ≡ true)
    × (x.use_count ≡ 0 → y.use_count ≡ 0)

-- Each object has evolved, and there may be new ones after them.
abbrev pub Later : List FdWrapper → List FdWrapper → Type 0
Later [] ys = Unit
Later (x ∷ xs) [] = ⊥
Later (x ∷ xs) (y ∷ ys) = Evolves x y × Later xs ys

Evolves-refl : (x : FdWrapper) → Evolves x x
Evolves-refl x = (refl, (λ c. c), (λ e. e), (λ u. u))

Later-refl : (xs : List FdWrapper) → Later xs xs
Later-refl [] = tt
Later-refl (x ∷ xs) = (Evolves-refl x, Later-refl xs)

Later-trans : (xs ys zs : List FdWrapper) → Later xs ys → Later ys zs → Later xs zs
Later-trans [] ys zs p q = tt
Later-trans (x ∷ xs) [] zs p q = absurd p
Later-trans (x ∷ xs) (y ∷ ys) [] p q = absurd q
Later-trans (x ∷ xs) (y ∷ ys) (z ∷ zs) ((n, c, e, u), p) ((n', c', e', u'), q) =
    ((n' ∙ n, (λ h. c' (c h)), (λ h. e' (e h)), (λ h. u' (u h))), Later-trans xs ys zs p q)

Later-set :
    (xs : List FdWrapper) (i : ℕ) (x y : FdWrapper)
    → get_elem? xs i ≡ some x
    → Evolves x y
    → Later xs (set xs i y)
Later-set [] i x y found ev = tt
Later-set (a ∷ xs) zero x y found ev =
    let same : a ≡ x = some-inj found in (rw same ev, Later-refl xs)
Later-set (a ∷ xs) (suc i) x y found ev = (Evolves-refl a, Later-set xs i x y found ev)

Later-append : (xs ys : List FdWrapper) → Later xs (xs ++ ys)
Later-append [] ys = tt
Later-append (x ∷ xs) ys = (Evolves-refl x, Later-append xs ys)

All-set :
    (xs : List FdWrapper) (i : ℕ) (x y : FdWrapper)
    → get_elem? xs i ≡ some x
    → (IsSound x → IsSound y)
    → All IsSound xs
    → All IsSound (set xs i y)
All-set [] i x y found keeps sound = tt
All-set (a ∷ xs) zero x y found keeps (s, rest) =
    let same : a ≡ x = some-inj found in (keeps (rw same at s), rest)
All-set (a ∷ xs) (suc i) x y found keeps (s, rest) = (s, All-set xs i x y found keeps rest)

All-append_one :
    (xs : List FdWrapper) (x : FdWrapper) → All IsSound xs → IsSound x → All IsSound (xs ++ x ∷ [])
All-append_one [] x sound s = (s, tt)
All-append_one (a ∷ xs) x (h, rest) s = (h, All-append_one xs x rest s)

-- What any step does to the objects.
abbrev pub Changes : List FdWrapper → List FdWrapper → Type 0
Changes xs ys = Later xs ys × (All IsSound xs → All IsSound ys)

pub Changes-refl : (xs : List FdWrapper) → Changes xs xs
Changes-refl xs = (Later-refl xs, λ s. s)

pub Changes-trans : (xs ys zs : List FdWrapper) → Changes xs ys → Changes ys zs → Changes xs zs
Changes-trans xs ys zs (p, s) (q, t) = (Later-trans xs ys zs p q, λ h. t (s h))

pub Changes-set :
    (xs : List FdWrapper) (i : ℕ) (x y : FdWrapper)
    → get_elem? xs i ≡ some x
    → Evolves x y
    → (IsSound x → IsSound y)
    → Changes xs (set xs i y)
Changes-set xs i x y found ev keeps = (Later-set xs i x y found ev, All-set xs i x y found keeps)

pub Changes-append : (xs : List FdWrapper) (x : FdWrapper) → IsSound x → Changes xs (xs ++ x ∷ [])
Changes-append xs x s = (Later-append xs (x ∷ []), λ h. All-append_one xs x h s)
