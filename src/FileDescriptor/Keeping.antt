-- ===== src/FileDescriptor/Keeping.antt =====
-- The steps that methods are made of, and close(): they leave the numbers of owners as they are.
use network_project_cs.Common.{
  ℕ, suc, ℤ, pos, negsuc, ◌≡◌, refl, ◌∙◌, List, Bytes, String, Result, ok, throw, Exception, some,
  get_elem?, inl, inr, of_result, Bool, true, false, if◌then◌else◌,
}
use network_project_cs.Common.Actions.{◌>>=◌, pure, raise, lift}
use network_project_cs.SystemCall.{Return, system_call_cases}
use network_project_cs.Kernel.{Kernel}
use network_project_cs.Machine.{FdWrapper, call, wrapper}
use network_project_cs.FileDescriptor.{checked, close, resize, register_write}
use network_project_cs.FileDescriptor.Owners.{owner_counts-kept, Counted-found, Keeps, bind-Keeps}

module _ {K : Kernel} (cs : List ℕ) where
  pub pure-Keeps : {A : Type 0} (a : A) → Keeps {K = K} cs (pure a)
  pure-Keeps a m counted = counted

  pub call-Keeps : {A : Type 0} (f : K.State → A × K.State) → Keeps {K = K} cs (call f)
  call-Keeps f m counted = counted

  pub checked-Keeps : (attempt : String) (r : Return) → Keeps {K = K} cs (checked attempt r)
  checked-Keeps attempt r m counted = elim (system_call_cases attempt r.value r.errno 0) [
    | inl (passed, _) ↦ rw passed counted
    | inr (thrown, _, _) ↦ rw thrown counted
  ]

  pub result-Keeps : {A : Type 0} (r : Result A) → Keeps {K = K} cs (lift (of_result r))
  result-Keeps (ok a) m counted = counted
  result-Keeps (throw e) m counted = counted

  pub resize-Keeps : (n : ℤ) (s : Bytes) → Keeps {K = K} cs (lift (resize n s))
  unfolding resize
  resize-Keeps (pos n) s m counted = counted
  resize-Keeps (negsuc n) s m counted = counted

  pub raise_if-Keeps :
      {A : Type 0} (wrong : Bool) (e : Exception) (a : A)
      → Keeps {K = K} cs (if wrong then raise e else pure a)
  raise_if-Keeps true e a m counted = counted
  raise_if-Keeps false e a m counted = counted

  module _ (h n : ℕ) (owned : get_elem? cs h ≡ some (suc n)) where
    pub wrapper-Keeps : Keeps {K = K} cs (wrapper h)
    wrapper-Keeps m counted =
        let (x, found, used) = Counted-found cs h n owned m counted in rw (found, used) counted

    -- A system call at the descriptor's number, whose failure is thrown.
    pub attempt-Keeps :
        (attempt : String) (f : FdWrapper → K.State → Return × K.State)
        → Keeps {K = K} cs (do x ← wrapper h; r ← call (f x); value ← checked attempt r; pure tt)
    attempt-Keeps attempt f = bind-Keeps cs (wrapper h) _ wrapper-Keeps λ x.
        bind-Keeps cs (call (f x)) _ (call-Keeps (f x)) λ r.
          bind-Keeps cs (checked attempt r) (λ value. pure tt) (checked-Keeps attempt r)
            λ value m counted. counted

    pub register_write-Keeps : Keeps {K = K} cs (register_write h)
    unfolding register_write
    register_write-Keeps m counted =
        let (x, found, used) = Counted-found cs h n owned m counted in
        rw (found, used) (owner_counts-kept m.wrappers h x _ found refl ∙ counted)

    pub close-Keeps : Keeps {K = K} cs (close h)
    unfolding close
    close-Keeps m counted =
        let (x, found, used) = Counted-found cs h n owned m counted in
        let r = (K.close x.fd m.kernel).0 in
        elim (system_call_cases "close" r.value r.errno 0) [
          | inl (passed, _) ↦
              rw (found, used, passed) (owner_counts-kept m.wrappers h x _ found refl ∙ counted)
          | inr (thrown, _, _) ↦ rw (found, used, thrown) counted
        ]
