-- ===== src/FileDescriptor/Making.antt =====
-- Actions that make an object, which becomes a local variable of what follows.
use network_project_cs.Common.{
  ℕ, suc, ℤ, ◌≡◌, refl, ap, ap₂, ◌∙◌, sym, List, [], ◌∷◌, ◌++◌, length, inl, inr, append-nil,
  append_assoc, All, is_negative, Bool-cases, All-append,
}
use network_project_cs.Common.Actions.{Ends, bind-Ends, Ends-weaken, ◌>>=◌, ◌>>◌}
use network_project_cs.Kernel.{Kernel}
use network_project_cs.Machine.{FdWrapper, Machine, M}
use network_project_cs.FileDescriptor.{make, new_wrapper}
use network_project_cs.FileDescriptor.Construction.{with_new, NothingLost}
use network_project_cs.FileDescriptor.Owners.{owner_counts, Counted, Keeps}
use network_project_cs.FileDescriptor.Scoped.{scoped, NoneLeft, Tidy, scoped-NoneLeft}

length-owner_counts : (ws : List FdWrapper) → length (owner_counts ws) ≡ length ws
length-owner_counts [] = refl
length-owner_counts (x ∷ ws) = ap suc (length-owner_counts ws)

owner_counts-append :
    (ws vs : List FdWrapper) → owner_counts (ws ++ vs) ≡ owner_counts ws ++ owner_counts vs
owner_counts-append [] vs = refl
owner_counts-append (x ∷ ws) vs = ap (◌∷◌ x.use_count) (owner_counts-append ws vs)

module _ {K : Kernel} (cs : List ℕ) where
  -- The object that has been made is the last one, and has one owner.
  abbrev pub Made : ℕ → Machine K → Type 0
  Made h m = (h ≡ length cs) × Counted {K = K} (cs ++ 1 ∷ []) m

  -- An action that makes an object, or fails and leaves none.
  abbrev pub Makes : M K ℕ → Type 0
  Makes c = (m : Machine K) → Counted cs m → Ends Made (λ m'. NoneLeft cs m'.wrappers) (c m)

  pub bind-Makes :
      {A : Type 0} (c : M K A) (f : A → M K ℕ)
      → Keeps cs c
      → ((a : A) → Makes (f a))
      → Makes (c >>= f)
  bind-Makes c f first next m counted =
      bind-Ends (λ _. Counted cs) Made (λ m'. NoneLeft cs m'.wrappers) f c m
        (Ends-weaken (λ _. Counted cs) (λ _. Counted cs) (Counted cs)
          (λ m'. NoneLeft cs m'.wrappers) (λ a m' p. p) (λ m' p. ([], tt, p ∙ sym (append-nil cs)))
          (c m) (first m counted))
        (λ a m' counted'. next a m' counted')

  -- The local variable, and the rest of its block.
  pub variable-Tidy :
      {A : Type 0} (c : M K ℕ) (block : ℕ → M K A)
      → Makes c
      → Tidy {K = K} (cs ++ 1 ∷ []) (block (length cs))
      → Tidy {K = K} cs (c >>= λ h. scoped h (block h))
  variable-Tidy c block makes tidy m counted =
      bind-Ends Made (λ _ m'. NoneLeft cs m'.wrappers) (λ m'. NoneLeft cs m'.wrappers)
        (λ h. scoped h (block h)) c m (makes m counted)
        (λ h m' (last, counted').
          rw last (scoped-NoneLeft cs (block (length cs)) m' (tidy m' counted')))

  pub last-Made :
      (h : ℕ) (fd : ℤ) (m m' : Machine K)
      → Counted cs m
      → h ≡ length m.wrappers
      → m'.wrappers ≡ m.wrappers ++ new_wrapper fd ∷ []
      → Made h m'
  unfolding new_wrapper
  last-Made h fd m m' counted last same = (
    last ∙ sym (length-owner_counts m.wrappers) ∙ ap length counted,
    ap owner_counts same
        ∙ owner_counts-append m.wrappers (new_wrapper fd ∷ [])
        ∙ ap (λ ds. ds ++ 1 ∷ []) counted,
  )

  pub NothingLost-NoneLeft :
      (fd : ℤ) (m m' : Machine K)
      → Counted cs m
      → NothingLost m.wrappers fd m'
      → NoneLeft cs m'.wrappers
  NothingLost-NoneLeft fd m m' counted (inl (none_made, same)) =
      ([], tt, ap owner_counts same ∙ counted ∙ sym (append-nil cs))
  NothingLost-NoneLeft fd m m' counted (inr (k, closing, y, stored, gone)) = (
    0 ∷ [],
    (refl, tt),
    ap owner_counts stored
        ∙ owner_counts-append m.wrappers (y ∷ [])
        ∙ ap₂ (λ ds n. ds ++ n ∷ []) counted gone,
  )

  pub make-Makes : (fd : ℤ) → Makes (make fd)
  unfolding make
  make-Makes fd m counted = elim (Bool-cases (is_negative fd)) [
    | inl bad ↦ rw bad ([], tt, counted ∙ sym (append-nil cs))
    | inr good ↦ rw good (last-Made (length m.wrappers) fd m (with_new fd m) counted refl refl)
  ]

-- Blocks one after another.
module _ {K : Kernel} where
  pub seq-Tidy :
      {A B : Type 0} (c : M K A) (d : M K B)
      → ((cs : List ℕ) → Tidy {K = K} cs c)
      → ((cs : List ℕ) → Tidy {K = K} cs d)
      → (cs : List ℕ) → Tidy {K = K} cs (c >> d)
  seq-Tidy c d first next cs m counted =
      bind-Ends (λ _ m'. NoneLeft cs m'.wrappers) (λ _ m'. NoneLeft cs m'.wrappers)
        (λ m'. NoneLeft cs m'.wrappers) (λ _. d) c m (first cs m counted)
        (λ a m' (zs, gone, counts).
          Ends-weaken (λ _ m''. NoneLeft (cs ++ zs) m''.wrappers)
            (λ _ m''. NoneLeft cs m''.wrappers) (λ m''. NoneLeft (cs ++ zs) m''.wrappers)
            (λ m''. NoneLeft cs m''.wrappers) (λ b m''. widen cs zs m''.wrappers gone)
            (λ m''. widen cs zs m''.wrappers gone) (d m') (next (cs ++ zs) m' counts))
    where
      widen :
          (cs zs : List ℕ) (ws : List FdWrapper)
          → All (λ n. n ≡ 0) zs
          → NoneLeft (cs ++ zs) ws
          → NoneLeft cs ws
      widen cs zs ws gone (ys, gone', counts) =
          (zs ++ ys, All-append _ zs ys gone gone', counts ∙ append_assoc cs zs ys)
