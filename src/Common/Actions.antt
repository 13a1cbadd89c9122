-- ===== src/Common/Actions.antt =====
-- Actions on a state that may throw: what a function does that works on shared objects.
use mathlib.Core.Path.{◌≡◌, refl}
use network_project_cs.Common.Exceptions.{Exception, Outcome, returns, throws, fault, diverges}

abbrev pub Action : Type 0 → Type 0 → Type 0
Action S A = S → Outcome A × S

module _ {S A B : Type 0} where
  abbrev continue : Outcome A → (A → Action S B) → Action S B
  continue (returns a) f s = f a s
  continue (throws e) f s = (throws e, s)
  continue fault f s = (fault, s)
  continue diverges f s = (diverges, s)

  infixl 5 ◌>>=◌ ◌>>◌
  abbrev pub ◌>>=◌ : Action S A → (A → Action S B) → Action S B
  ◌>>=◌ c f s = continue (c s).0 f (c s).1

  abbrev pub ◌>>◌ : Action S A → Action S B → Action S B
  c >> d = c >>= λ _. d

module _ {S : Type 0} where
  abbrev pub pure : {A : Type 0} → A → Action S A
  pure a s = (returns a, s)

  abbrev pub raise : {A : Type 0} → Exception → Action S A
  raise e s = (throws e, s)

  abbrev pub lift : {A : Type 0} → Outcome A → Action S A
  lift r s = (r, s)

-- Actions in a row, however they are grouped.
module _ {S A B C : Type 0} (f : A → Action S B) (g : B → Action S C) where
  continue_assoc :
      (r : Outcome A) (s : S)
      → continue (continue r f s).0 g (continue r f s).1 ≡ continue r (λ a. f a >>= g) s
  continue_assoc (returns a) s = refl
  continue_assoc (throws e) s = refl
  continue_assoc fault s = refl
  continue_assoc diverges s = refl

  pub bind_assoc : (c : Action S A) (s : S) → ((c >>= f) >>= g) s ≡ (c >>= λ a. f a >>= g) s
  bind_assoc c s = continue_assoc (c s).0 (c s).1

-- Actions that go on in the same way.
module _ {S A B : Type 0} (f g : A → Action S B) where
  continue_eq :
      (r : Outcome A) (s : S) → ((a : A) (t : S) → f a t ≡ g a t) → continue r f s ≡ continue r g s
  continue_eq (returns a) s e = e a s
  continue_eq (throws e) s same = refl
  continue_eq fault s e = refl
  continue_eq diverges s e = refl

  pub bind_eq :
      (c : Action S A) (s : S) → ((a : A) (t : S) → f a t ≡ g a t) → (c >>= f) s ≡ (c >>= g) s
  bind_eq c s e = continue_eq (c s).0 (c s).1 e

-- An end that is no fault: a value with `P`, or an exception with `E`.
abbrev pub Ends : {S A : Type 0} → (A → S → Type 0) → (S → Type 0) → Outcome A × S → Type 0
Ends P E (returns a, s) = P a s
Ends P E (throws e, s) = E s
Ends P E (fault, s) = ⊥
Ends P E (diverges, s) = ⊥

module _ {S A B : Type 0} (P : A → S → Type 0) (Q : B → S → Type 0) (E : S → Type 0)
    (f : A → Action S B) where
  continue-Ends :
      (r : Outcome A) (s : S)
      → Ends P E (r, s)
      → ((a : A) (s' : S) → P a s' → Ends Q E (f a s'))
      → Ends Q E (continue r f s)
  continue-Ends (returns a) s ends next = next a s ends
  continue-Ends (throws e) s ends next = ends
  continue-Ends fault s ends next = ends
  continue-Ends diverges s ends next = ends

  -- One action after another.
  pub bind-Ends :
      (c : Action S A) (s : S)
      → Ends P E (c s)
      → ((a : A) (s' : S) → P a s' → Ends Q E (f a s'))
      → Ends Q E ((c >>= f) s)
  bind-Ends c s ends next = continue-Ends (c s).0 (c s).1 ends next

-- What follows from an end.
pub Ends-weaken :
    {S A : Type 0} (P Q : A → S → Type 0) (E F : S → Type 0)
    → ((a : A) (s : S) → P a s → Q a s)
    → ((s : S) → E s → F s)
    → (r : Outcome A × S) → Ends P E r
    → Ends Q F r
Ends-weaken P Q E F f g (returns a, s) ends = f a s ends
Ends-weaken P Q E F f g (throws e, s) ends = g s ends
Ends-weaken P Q E F f g (fault, s) ends = ends
Ends-weaken P Q E F f g (diverges, s) ends = ends

-- Any end of an action: it leaves a state with `I`, and a value that is returned has `P`.
abbrev pub Leaves : {S A : Type 0} → (S → Type 0) → (A → Type 0) → Outcome A × S → Type 0
Leaves I P (returns a, s) = I s × P a
Leaves I P (throws e, s) = I s
Leaves I P (fault, s) = I s
Leaves I P (diverges, s) = I s

module _ {S A B : Type 0} (I : S → Type 0) (P : A → Type 0) (Q : B → Type 0)
    (f : A → Action S B) where
  continue-Leaves :
      (r : Outcome A) (s : S)
      → Leaves I P (r, s)
      → ((a : A) (s' : S) → I s' → P a → Leaves I Q (f a s'))
      → Leaves I Q (continue r f s)
  continue-Leaves (returns a) s (i, p) next = next a s i p
  continue-Leaves (throws e) s i next = i
  continue-Leaves fault s i next = i
  continue-Leaves diverges s i next = i

  pub bind-Leaves :
      (c : Action S A) (s : S)
      → Leaves I P (c s)
      → ((a : A) (s' : S) → I s' → P a → Leaves I Q (f a s'))
      → Leaves I Q ((c >>= f) s)
  bind-Leaves c s leaves next = continue-Leaves (c s).0 (c s).1 leaves next

-- The state that is left, whatever the end.
pub Leaves-state :
    {S A : Type 0} (I : S → Type 0) (P : A → Type 0) (r : Outcome A × S) → Leaves I P r → I r.1
Leaves-state I P (returns a, s) leaves = leaves.0
Leaves-state I P (throws e, s) leaves = leaves
Leaves-state I P (fault, s) leaves = leaves
Leaves-state I P (diverges, s) leaves = leaves
