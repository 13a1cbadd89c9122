-- ===== src/FileDescriptor/Steps.antt =====
-- What each method of FileDescriptor does to the objects, in every outcome and on any kernel.
use network_project_cs.Common.{
  diverges, Outcome, get_elem?-set_self, length_of_some, ◌-◌, is_negative, returns, throws, ◌++◌,
  ◌∷◌, [], ℤ, Option, ℕ, ◌≡◌, refl, inl, inr, ◌⊎◌, false, List, fault, get_elem?, some, none, set,
  ◌==◌, arith, Bool-cases,
}
use network_project_cs.Common.Actions.{Leaves}
use network_project_cs.SystemCall.{system_call_cases}
use network_project_cs.Kernel.{Kernel}
use network_project_cs.Machine.{FdWrapper, Machine, wrapper}
use network_project_cs.FileDescriptor.{
  swallow, close, close_wrapper, duplicate, destroy, destroy_wrapper, make, new_wrapper,
}
use network_project_cs.FileDescriptor.History.{
  Changes-append, IsSound, Evolves, Changes, Changes-trans, Changes-set,
}

module _ {K : Kernel} where
  -- The object behind a handle, if there is one.
  pub wrapper-cases :
      (h : ℕ) (m : Machine K)
      → ((x : FdWrapper) × (get_elem? m.wrappers h ≡ some x) × ((x.use_count == 0) ≡ false))
        ⊎ ((wrapper h m).0 ≡ fault)
  wrapper-cases h m = seek (get_elem? m.wrappers h) refl
    where
      seek :
          (o : Option FdWrapper)
          → get_elem? m.wrappers h ≡ o
          → ((x : FdWrapper) × (get_elem? m.wrappers h ≡ some x) × ((x.use_count == 0) ≡ false))
            ⊎ ((wrapper h m).0 ≡ fault)
      seek none e = inr (rw e refl)
      seek (some x) e = elim (Bool-cases (x.use_count == 0)) [
        | inl gone ↦ inr (rw (e, gone) refl)
        | inr used ↦ inl (x, e, used)
      ]

  -- The objects of a machine that has been reached from one with the objects `ws`.
  abbrev pub Since : List FdWrapper → Machine K → Type 0
  Since ws m = Changes ws m.wrappers

  -- An object that is found is stored anew.
  pub store-Since :
      (ws : List FdWrapper) (h : ℕ) (m : Machine K) (x y : FdWrapper)
      → Since ws m
      → get_elem? m.wrappers h ≡ some x
      → Evolves x y
      → (IsSound x → IsSound y)
      → Changes ws (set m.wrappers h y)
  store-Since ws h m x y since found ev keeps =
      Changes-trans ws m.wrappers (set m.wrappers h y) since
        (Changes-set m.wrappers h x y found ev keeps)

  pub duplicate-Since :
      (ws : List FdWrapper) (h : ℕ) (m : Machine K)
      → Since ws m
      → Leaves (Since ws) (λ _. Unit {0}) (duplicate h m)
  unfolding duplicate
  duplicate-Since ws h m since = elim (wrapper-cases h m) [
    | inl (x, found, used) ↦
        rw (found, used)
          (
            store-Since ws h m x _ since found
                (refl, (λ c. c), (λ e. e), (λ u. absurd (ground arith))) (λ s. s),
            tt,
          )
    | inr gone ↦ rw gone since
  ]

  close_wrapper-Since :
      (ws : List FdWrapper) (h : ℕ) (m : Machine K) (x : FdWrapper)
      → Since ws m
      → get_elem? m.wrappers h ≡ some x
      → Leaves (Since ws) (λ _. Unit {0}) (close_wrapper h x m)
  unfolding close_wrapper
  close_wrapper-Since ws h m x since found =
      let answer = (K.close x.fd m.kernel).0 in
      elim (system_call_cases "close" answer.value answer.errno 0) [
        | inl (passed, _) ↦ rw passed (
          store-Since ws h m x _ since found (refl, (λ c. refl), (λ e. refl), (λ u. u))
              (λ s. ((λ c. refl), s.1, s.2, s.3)),
          tt,
        )
        | inr (thrown, _, _) ↦ rw thrown since
      ]

  pub close-Since :
      (ws : List FdWrapper) (h : ℕ) (m : Machine K)
      → Since ws m
      → Leaves (Since ws) (λ _. Unit {0}) (close h m)
  unfolding close
  close-Since ws h m since = elim (wrapper-cases h m) [
    | inl (x, found, used) ↦ rw (found, used) (close_wrapper-Since ws h m x since found)
    | inr gone ↦ rw gone since
  ]

  swallow-Since :
      (ws : List FdWrapper) (r : Outcome (Unit {0}) × Machine K)
      → Leaves (Since ws) (λ _. Unit {0}) r
      → Leaves (Since ws) (λ _. Unit {0}) (swallow r)
  swallow-Since ws (returns a, m) leaves = leaves
  swallow-Since ws (throws e, m) leaves = (leaves, tt)
  swallow-Since ws (fault, m) leaves = leaves
  swallow-Since ws (diverges, m) leaves = leaves

  destroy_wrapper-Since :
      (ws : List FdWrapper) (h : ℕ) (m : Machine K) (x : FdWrapper)
      → Since ws m
      → get_elem? m.wrappers h ≡ some x
      → Leaves (Since ws) (λ _. Unit {0}) (destroy_wrapper h x m)
  unfolding destroy_wrapper
  destroy_wrapper-Since ws h m x since found = elim (Bool-cases x.closed) [
    | inl closed ↦ rw closed (since, tt)
    | inr still_open ↦
        rw still_open
          (swallow-Since ws (close_wrapper h x m) (close_wrapper-Since ws h m x since found))
  ]

  pub destroy-Since :
      (ws : List FdWrapper) (h : ℕ) (m : Machine K)
      → Since ws m
      → Leaves (Since ws) (λ _. Unit {0}) (destroy h m)
  unfolding destroy
  destroy-Since ws h m since = elim (wrapper-cases h m) [
    | inl (x, found, used) ↦
        let less : FdWrapper = record x { use_count = x.use_count - 1 } in
        let after : Machine K = record m { wrappers = set m.wrappers h less } in
        let since' : Since ws after =
          store-Since ws h m x less since found
            (refl, (λ c. c), (λ e. e), (λ u. absurd (ground arith))) (λ s. s) in
        elim (Bool-cases (x.use_count - 1 == 0)) [
          | inl last ↦
              rw (found, used, last)
                (destroy_wrapper-Since ws h after less since'
                  (get_elem?-set_self m.wrappers h less (length_of_some m.wrappers h found)))
          | inr shared ↦ rw (found, used, shared) (since', tt)
        ]
    | inr gone ↦ rw gone since
  ]

  pub make-Since :
      (ws : List FdWrapper) (fd : ℤ) (m : Machine K)
      → Since ws m
      → Leaves (Since ws) (λ _. Unit {0}) (make fd m)
  unfolding make new_wrapper
  make-Since ws fd m since = elim (Bool-cases (is_negative fd)) [
    | inl bad ↦ rw bad since
    | inr good ↦ rw good (
      Changes-trans ws m.wrappers (m.wrappers ++ new_wrapper fd ∷ []) since (
          Changes-append m.wrappers (new_wrapper fd)
            ((λ c. absurd cc), good, omega arith, omega arith)),
      tt,
    )
  ]
