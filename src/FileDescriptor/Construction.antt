-- ===== src/FileDescriptor/Construction.antt =====
-- Objects that are built on a FileDescriptor: a constructor's body that throws has the base
-- destroyed before the exception goes on.
use network_project_cs.Common.{
  ℤ, ◌⊎◌, inl, inr, refl, ◌++◌, ◌∷◌, [], List, length, is_negative, Bool-cases, set-append_last,
  get_elem?-append_last, true, false, ℕ, ◌≡◌, ◌∙◌, ap, Outcome, returns, throws, fault, diverges,
  get_elem?, some, set,
}
use network_project_cs.Common.Actions.{Ends, Ends-weaken}
use network_project_cs.Kernel.{Kernel}
use network_project_cs.Machine.{FdWrapper, Machine, M, ◌>>=◌, ◌>>◌, raise}
use network_project_cs.FileDescriptor.{destroy, make, new_wrapper}
use network_project_cs.FileDescriptor.Lifetime.{destroy_sole}

module _ {K : Kernel} where
  -- The object behind a handle is gone and its descriptor was closed; the rest is as before.
  abbrev pub Released : ℕ → FdWrapper → Machine K → Machine K → Type 0
  Released h x m m' =
      (k : K.State) × (m'.kernel ≡ (K.close x.fd k).1)
      × (y : FdWrapper) × (m'.wrappers ≡ set m.wrappers h y)
      × (y.use_count ≡ 0)

module _ {K : Kernel} {A : Type 0} where
  unwind : ℕ → Outcome A × Machine K → Outcome A × Machine K
  unwind h (throws e, m) = (destroy h >> raise e) m
  unwind h (returns a, m) = (returns a, m)
  unwind h (fault, m) = (fault, m)
  unwind h (diverges, m) = (diverges, m)

  -- The body of a constructor whose base is the FileDescriptor behind `h`.
  unfoldable pub constructing : ℕ → M K A → M K A
  unfolding unwind
  constructing h body m = unwind h (body m)

  unwind-Ends :
      (P : A → Machine K → Type 0) (h : ℕ) (m : Machine K) (x : FdWrapper)
      (r : Outcome A × Machine K)
      → get_elem? m.wrappers h ≡ some x
      → x.use_count ≡ 1
      → x.closed ≡ false
      → Ends P (λ m'. m'.wrappers ≡ m.wrappers) r
      → Ends P (Released h x m) (unwind h r)
  unfolding unwind
  unwind-Ends P h m x (returns a, m') found last still_open ends = ends
  unwind-Ends P h m x (throws e, m') found last still_open same =
      let (done, closing, y, stored, gone) = destroy_sole h m' x (rw same found) last still_open in
      rw done (m'.kernel, closing, y, stored ∙ ap (λ ws. set ws h y) same, gone)
  unwind-Ends P h m x (fault, m') found last still_open ends = ends
  unwind-Ends P h m x (diverges, m') found last still_open ends = ends

  pub constructing-Ends :
      (P : A → Machine K → Type 0) (h : ℕ) (body : M K A) (m : Machine K) (x : FdWrapper)
      → get_elem? m.wrappers h ≡ some x
      → x.use_count ≡ 1
      → x.closed ≡ false
      → Ends P (λ m'. m'.wrappers ≡ m.wrappers) (body m)
      → Ends P (Released h x m) (constructing h body m)
  unfolding constructing
  constructing-Ends P h body m x found last still_open ends =
      unwind-Ends P h m x (body m) found last still_open ends

module _ {K : Kernel} where
  -- After a failure: there was no descriptor, and no object has come to `ws`; or there was one, and
  -- its object is gone and the last call to the kernel has closed it.
  abbrev pub NothingLost : List FdWrapper → ℤ → Machine K → Type 0
  NothingLost ws fd m =
      ((is_negative fd ≡ true) × (m.wrappers ≡ ws))
      ⊎ ((k : K.State) × (m.kernel ≡ (K.close fd k).1)
          × (y : FdWrapper) × (m.wrappers ≡ ws ++ y ∷ [])
          × (y.use_count ≡ 0))

  closed_again :
      (ws : List FdWrapper) (fd : ℤ) (m m' : Machine K)
      → m.wrappers ≡ ws ++ new_wrapper fd ∷ []
      → Released (length ws) (new_wrapper fd) m m'
      → NothingLost ws fd m'
  unfolding new_wrapper
  closed_again ws fd m m' fresh (k, closing, y, stored, gone) = inr (
    k,
    closing,
    y,
    stored ∙ ap (λ vs. set vs (length ws) y) fresh ∙ set-append_last ws (new_wrapper fd) y,
    gone,
  )

  -- The machine with one more object, for an open descriptor.
  abbrev pub with_new : ℤ → Machine K → Machine K
  with_new fd m = record m { wrappers = m.wrappers ++ new_wrapper fd ∷ [] }

  -- An object that is built on a new FileDescriptor is there if its constructor's body returns; if
  -- that throws, or the number is none of a descriptor, nothing is left.
  pub made-Ends :
      {A : Type 0} (P : A → Machine K → Type 0) (fd : ℤ) (body : ℕ → M K A) (m : Machine K)
      → Ends P
          (λ m'. m'.wrappers ≡ (with_new fd m).wrappers)
          (body (length m.wrappers) (with_new fd m))
      → Ends P (NothingLost m.wrappers fd) ((make fd >>= λ h. constructing h (body h)) m)
  unfolding make new_wrapper
  made-Ends P fd body m ends = elim (Bool-cases (is_negative fd)) [
    | inl bad ↦ rw bad (inl (bad, refl))
    | inr good ↦ rw good (
        Ends-weaken P P (Released (length m.wrappers) (new_wrapper fd) (with_new fd m))
          (NothingLost m.wrappers fd) (λ a m' p. p)
          (λ m' released. closed_again m.wrappers fd (with_new fd m) m' refl released)
          (constructing (length m.wrappers) (body (length m.wrappers)) (with_new fd m))
          (constructing-Ends P (length m.wrappers) (body (length m.wrappers)) (with_new fd m)
            (new_wrapper fd) (get_elem?-append_last m.wrappers (new_wrapper fd)) refl refl ends))
  ]
