-- ===== src/FileDescriptor/Transfers.antt =====
-- What reading, writing and changing the flags do to the objects, on any kernel.
pub mod Reads
pub mod Writes
use network_project_cs.Common.{
  get_elem?, some, set, ◌≡◌, arith, size_of_ssize, size_add, ssize_of_size, ◌&&◌, ◌==◌, suc, not,
  refl, int_of_ssize, min, runtime_error, true, false, zero, suc, negsuc, suc, ltb, if◌then◌else◌,
  Bool-cases, Exception, of_result, ltb_ℤ, inr, pos, Bytes, ℤ, inl, Bool, String, Outcome, ℕ, List,
  returns, throws, fault, diverges,
}
use network_project_cs.Common.Actions.{◌>>◌, pure, raise, ◌>>=◌, Leaves, bind-Leaves}
use network_project_cs.SystemCall.{system_call_cases, Return, system_call}
use network_project_cs.Kernel.{Kernel}
use network_project_cs.Machine.{FdWrapper, Machine, M, wrapper, call, lift}
use network_project_cs.Buffers.BufferViewList
use network_project_cs.Buffers.BufferViewList.{BufferViewList}
use network_project_cs.FileDescriptor.{
  write, length_all, register_write, new_flags, is_zero, after_writev, write_loop, set_blocking,
  write_once, take_written, check_written, remove_written, buffer_size, register_read, resize,
  note_eof, finish_read, read_into, checked,
}
use network_project_cs.FileDescriptor.Steps.{wrapper-cases}
use network_project_cs.FileDescriptor.History.{IsSound, Evolves}

-- What is kept when an object changes but its number of owners does not.
abbrev pub IsStored : (List FdWrapper → Type 0) → Type 0
IsStored I =
    (ws : List FdWrapper) (h : ℕ) (x y : FdWrapper)
    → I ws
    → get_elem? ws h ≡ some x
    → Evolves x y
    → (IsSound x → IsSound y)
    → y.use_count ≡ x.use_count
    → I (set ws h y)

module _ {K : Kernel} (I : List FdWrapper → Type 0) (stored : IsStored I) where
  abbrev Holds : Machine K → Type 0
  Holds m = I m.wrappers

  -- An action that keeps `I`, however it ends.
  abbrev pub Tame : {A : Type 0} → M K A → Type 0
  Tame c = (m : Machine K) → Holds m → Leaves Holds (λ _. Unit {0}) (c m)

  pub register_read-Tame : (h : ℕ) → Tame (register_read h)
  unfolding register_read
  register_read-Tame h m since = elim (wrapper-cases h m) [
    | inl (x, found, used) ↦
        rw (found, used)
          (
            stored m.wrappers h x _ since found (refl, (λ c. c), (λ e. e), (λ u. u))
                (λ s. (s.0, s.1, omega arith, s.3)) refl,
            tt,
          )
    | inr gone ↦ rw gone since
  ]

  pub register_write-Tame : (h : ℕ) → Tame (register_write h)
  unfolding register_write
  register_write-Tame h m since = elim (wrapper-cases h m) [
    | inl (x, found, used) ↦
        rw (found, used)
          (
            stored m.wrappers h x _ since found (refl, (λ c. c), (λ e. e), (λ u. u))
                (λ s. (s.0, s.1, s.2, omega arith)) refl,
            tt,
          )
    | inr gone ↦ rw gone since
  ]

  pub bind-Tame :
      {A B : Type 0} (c : M K A) (f : A → M K B) → Tame c → ((a : A) → Tame (f a)) → Tame (c >>= f)
  bind-Tame c f first next m since =
      bind-Leaves Holds (λ _. Unit) (λ _. Unit) f c m (first m since)
        (λ a m' since' done. next a m' since')

  pub lift-Tame : {A : Type 0} (r : Outcome A) → Tame (lift r)
  lift-Tame (returns a) m since = (since, tt)
  lift-Tame (throws e) m since = since
  lift-Tame fault m since = since
  lift-Tame diverges m since = since

  pub wrapper-Tame : (h : ℕ) → Tame (wrapper h)
  wrapper-Tame h m since = elim (wrapper-cases h m) [
    | inl (x, found, used) ↦ rw (found, used) (since, tt)
    | inr gone ↦ rw gone since
  ]

  pub call-Tame : {A : Type 0} (f : K.State → A × K.State) → Tame (call {K = K} f)
  call-Tame f m since = (since, tt)

  pub checked-Tame : (attempt : String) (r : Return) → Tame (checked {K = K} attempt r)
  checked-Tame attempt r = lift-Tame (of_result (system_call attempt r.value r.errno 0))

  pub size_check-Tame :
      (too_many : Bool) (e : Exception)
      → Tame (if too_many then raise {S = Machine K} {A = Unit {0}} e else pure tt)
  size_check-Tame true e m since = since
  size_check-Tame false e m since = (since, tt)
  -- What is left of `read` after the test.
