-- ===== src/FileDescriptor/Scoped.antt =====
-- Local variables that are FileDescriptors: at the end of the block, by an exception or not, the
-- destructor runs.
use network_project_cs.Common.{
  ℕ, ◌≡◌, refl, ap, ◌∙◌, sym, List, [], ◌∷◌, ◌++◌, length, some, get_elem?, set, All, Outcome,
  returns, throws, fault, diverges, arith, append-nil, append_assoc,
}
use network_project_cs.Common.Actions.{Ends, bind-Ends, Ends-weaken, ◌>>=◌, ◌>>◌, pure, raise}
use network_project_cs.Kernel.{Kernel}
use network_project_cs.Machine.{FdWrapper, Machine, M}
use network_project_cs.FileDescriptor.{destroy}
use network_project_cs.FileDescriptor.Lifetime.{destroy-OneOwnerLess}
use network_project_cs.FileDescriptor.Owners.{
  owner_counts, owner_counts-found, owner_counts-set, Counted, Keeps,
}

module _ {K : Kernel} {A : Type 0} where
  leave : ℕ → Outcome A × Machine K → Outcome A × Machine K
  leave h (returns a, m) = (destroy h >> pure a) m
  leave h (throws e, m) = (destroy h >> raise e) m
  leave h (fault, m) = (fault, m)
  leave h (diverges, m) = (diverges, m)

  -- The rest of the block in which the variable behind `h` has been made.
  unfoldable pub scoped : ℕ → M K A → M K A
  unfolding leave
  scoped h block m = leave h (block m)

-- The numbers of owners are those of `cs`, and then there may be objects that are gone.
abbrev pub NoneLeft : List ℕ → List FdWrapper → Type 0
NoneLeft cs ws = (zs : List ℕ) × All (λ n. n ≡ 0) zs × (owner_counts ws ≡ cs ++ zs)

pub get_elem?-middle : (cs zs : List ℕ) (n : ℕ) → get_elem? (cs ++ n ∷ zs) (length cs) ≡ some n
get_elem?-middle [] zs n = refl
get_elem?-middle (c ∷ cs) zs n = get_elem?-middle cs zs n

set-middle : (cs zs : List ℕ) (n k : ℕ) → set (cs ++ n ∷ zs) (length cs) k ≡ cs ++ k ∷ zs
set-middle [] zs n k = refl
set-middle (c ∷ cs) zs n k = ap (◌∷◌ c) (set-middle cs zs n k)

module _ {K : Kernel} (cs : List ℕ) where
  -- An action that comes to an end without a fault; the objects it has made are gone then, and the
  -- others have as many owners as before.
  abbrev pub Tidy : {A : Type 0} → M K A → Type 0
  Tidy c =
      (m : Machine K)
      → Counted cs m
      → Ends (λ _ m'. NoneLeft cs m'.wrappers) (λ m'. NoneLeft cs m'.wrappers) (c m)

  none_made : (m : Machine K) → Counted cs m → NoneLeft cs m.wrappers
  none_made m counted = ([], tt, counted ∙ sym (append-nil cs))

  pub Keeps-Tidy : {A : Type 0} (c : M K A) → Keeps cs c → Tidy c
  Keeps-Tidy c keeps m counted =
      Ends-weaken (λ _. Counted cs) (λ _ m'. NoneLeft cs m'.wrappers) (Counted cs)
        (λ m'. NoneLeft cs m'.wrappers) (λ a. none_made) none_made (c m) (keeps m counted)

  pub bind-Tidy :
      {A B : Type 0} (c : M K A) (f : A → M K B)
      → Keeps cs c
      → ((a : A) → Tidy (f a))
      → Tidy (c >>= f)
  bind-Tidy c f first next m counted =
      bind-Ends (λ _. Counted cs) (λ _ m'. NoneLeft cs m'.wrappers) (λ m'. NoneLeft cs m'.wrappers)
        f c m
        (Ends-weaken (λ _. Counted cs) (λ _. Counted cs) (Counted cs)
          (λ m'. NoneLeft cs m'.wrappers) (λ a m' p. p) none_made (c m) (first m counted))
        (λ a m' counted'. next a m' counted')

  destroy-NoneLeft :
      (m : Machine K)
      → NoneLeft (cs ++ 1 ∷ []) m.wrappers
      → ((destroy (length cs) m).0 ≡ returns tt) × NoneLeft cs (destroy (length cs) m).1.wrappers
  destroy-NoneLeft m (zs, gone, counts) =
      let there : owner_counts m.wrappers ≡ cs ++ 1 ∷ zs = counts ∙ append_assoc cs (1 ∷ []) zs in
      let (x, found, count) =
        owner_counts-found m.wrappers (length cs) {n = 1}
          (ap (λ ds. get_elem? ds (length cs)) there ∙ get_elem?-middle cs zs 1) in
      let (done, y, stored, less) = destroy-OneOwnerLess (length cs) m x found (λ z. omega arith) in
      let last : y.use_count ≡ 0 = omega arith in
      let counts' : owner_counts (destroy (length cs) m).1.wrappers ≡ cs ++ 0 ∷ zs =
        ap owner_counts stored
        ∙ owner_counts-set m.wrappers (length cs) y
        ∙ ap (λ ds. set ds (length cs) y.use_count) there
        ∙ set-middle cs zs 1 y.use_count
        ∙ ap (λ n. cs ++ n ∷ zs) last in
      (done, (0 ∷ zs, (refl, gone), counts'))

  leave-NoneLeft :
      {A : Type 0} (r : Outcome A × Machine K)
      → Ends
          (λ _ m'. NoneLeft (cs ++ 1 ∷ []) m'.wrappers)
          (λ m'. NoneLeft (cs ++ 1 ∷ []) m'.wrappers)
          r
      → Ends (λ _ m'. NoneLeft cs m'.wrappers) (λ m'. NoneLeft cs m'.wrappers) (leave (length cs) r)
  unfolding leave
  leave-NoneLeft (returns a, m) left =
      let (done, none_left) = destroy-NoneLeft m left in rw done none_left
  leave-NoneLeft (throws e, m) left =
      let (done, none_left) = destroy-NoneLeft m left in rw done none_left
  leave-NoneLeft (fault, m) left = left
  leave-NoneLeft (diverges, m) left = left

  -- The variable was made last: its object is the one behind those of `cs`.
  pub scoped-NoneLeft :
      {A : Type 0} (block : M K A) (m : Machine K)
      → Ends
          (λ _ m'. NoneLeft (cs ++ 1 ∷ []) m'.wrappers)
          (λ m'. NoneLeft (cs ++ 1 ∷ []) m'.wrappers)
          (block m)
      → Ends
          (λ _ m'. NoneLeft cs m'.wrappers)
          (λ m'. NoneLeft cs m'.wrappers)
          (scoped (length cs) block m)
  unfolding scoped
  scoped-NoneLeft block m left = leave-NoneLeft (block m) left
