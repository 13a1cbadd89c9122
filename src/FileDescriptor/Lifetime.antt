-- ===== src/FileDescriptor/Lifetime.antt =====
-- Who owns a descriptor: `duplicate`, `close` and the destructors.
use network_project_cs.Common.{
  length, ◌<◌, ℕ, ◌+◌, ◌-◌, ◌≡◌, ◌≢◌, inl, inr, refl, ap, ◌∙◌, ℤ, some, Outcome, returns, fault,
  get_elem?, set, arith, true, false, ◌==◌, if◌then◌else◌, get_elem?-set_self, length_of_some,
  set-set, set-get_elem?, Bool-cases,
}
use network_project_cs.SystemCall.{system_call_cases}
use network_project_cs.Kernel.{Kernel}
use network_project_cs.Machine.{FdWrapper, Machine, wrapper}
use network_project_cs.FileDescriptor.{duplicate, destroy, close_wrapper, destroy_wrapper}
use network_project_cs.FileDescriptor.Handles.{IsLive}

-- The object after its last owner has gone.
abbrev orphan : FdWrapper → FdWrapper
orphan x = record x { use_count = 0 }

abbrev owned_once_more : FdWrapper → FdWrapper
owned_once_more x = record x { use_count = x.use_count + 1 }

abbrev owned_once_less : FdWrapper → FdWrapper
owned_once_less x = record x { use_count = x.use_count - 1 }

more-less : (x : FdWrapper) → owned_once_less (owned_once_more x) ≡ x
more-less x = ground arith

module _ {K : Kernel} where
  -- The machine with another object behind the handle.
  abbrev with_object : Machine K → ℕ → FdWrapper → Machine K
  with_object m h x = record m { wrappers = set m.wrappers h x }

  duplicate-eq :
      (h : ℕ) {fd : ℤ} (m : Machine K) (live : IsLive h fd m)
      → duplicate h m ≡ (returns h, with_object m h (owned_once_more live.object))
  unfolding duplicate
  duplicate-eq h m live = ground arith

  -- A handle that is not the last one goes without a trace but in the count.
  destroy-eq :
      (h : ℕ) (m : Machine K) (x : FdWrapper)
      → get_elem? m.wrappers h ≡ some x
      → x.use_count ≢ 0
      → (x.use_count - 1 == 0) ≡ false
      → destroy h m ≡ (returns tt, with_object m h (owned_once_less x))
  unfolding destroy
  destroy-eq h m x found owned shared = ground arith

  -- Destroying a duplicate leaves the machine as it was before the duplicate was made: no system
  -- call is made and the descriptor stays open.
  pub destroy-duplicate :
      (h : ℕ) (fd : ℤ) (m : Machine K)
      → IsLive h fd m
      → destroy h (duplicate h m).1 ≡ (returns tt, m)
  destroy-duplicate h fd m live = rw (duplicate-eq h m live) (
      destroy-eq h (with_object m h more) more
        (get_elem?-set_self m.wrappers h more (length_of_some m.wrappers h live.found))
        (λ z. omega arith) shared
      ∙ ap (λ ws. (returns tt, record m { wrappers = ws }))
          (set-set m.wrappers h more (owned_once_less more)
            ∙ ap (set m.wrappers h) (more-less live.object)
            ∙ set-get_elem? m.wrappers h live.found))
    where
      more : FdWrapper
      more = owned_once_more live.object

      shared : (live.object.use_count + 1 - 1 == 0) ≡ false
      shared = ground (arith, live.owned)

  -- The last owner leaves the object to its destructor.
  destroy-destroy_wrapper :
      (h : ℕ) (m : Machine K) (x : FdWrapper)
      → get_elem? m.wrappers h ≡ some x
      → x.use_count ≡ 1
      → destroy h m ≡ destroy_wrapper h (orphan x) (with_object m h (orphan x))
  unfolding destroy
  destroy-destroy_wrapper h m x found last = ground arith

  -- What the destructor of the object does.
  abbrev pub Destroyed : ℕ → FdWrapper → Machine K → Outcome (Unit {0}) × Machine K → Type 0
  Destroyed h x m r =
      (r.0 ≡ returns tt)
      × (r.1.kernel ≡ (if x.closed then m.kernel else (K.close x.fd m.kernel).1))
      × ((wrapper h r.1).0 ≡ fault)

  dead :
      (h : ℕ) (x : FdWrapper) (m : Machine K)
      → h < length m.wrappers
      → (wrapper h (with_object m h (orphan x))).0 ≡ fault
  dead h x m inside = rw (get_elem?-set_self m.wrappers h (orphan x) inside) refl

  destroy_wrapper-Destroyed :
      (h : ℕ) (x : FdWrapper) (m : Machine K)
      → h < length m.wrappers
      → Destroyed h x m (destroy_wrapper h (orphan x) (with_object m h (orphan x)))
  unfolding destroy_wrapper close_wrapper
  destroy_wrapper-Destroyed h x m inside = elim (Bool-cases x.closed) [
    | inl closed ↦ rw closed (refl, refl, dead h (record x { closed = true }) m inside)
    | inr not_closed ↦
        let answer = (K.close x.fd m.kernel).0 in
        elim (system_call_cases "close" answer.value answer.errno 0) [
          | inl (passed, _) ↦
              rw (not_closed, passed)
                (
                  refl,
                  refl,
                  rw
                      (set-set m.wrappers h (record x { closed = false; use_count = 0 })
                        (record x { eof = true; closed = true; use_count = 0 }))
                      (dead h (record x { eof = true; closed = true }) m inside),
                )
          | inr (thrown, _, _) ↦
              rw (not_closed, thrown) (refl, refl, dead h (record x { closed = false }) m inside)
        ]
  ]

  -- When the last owner goes, the destructor throws nothing; it calls `close` once if the
  -- descriptor was not closed before, and not at all if it was; and the handle is dead.
  pub destroy_last :
      (h : ℕ) (fd : ℤ) (m : Machine K)
      → (live : IsLive h fd m) → live.object.use_count ≡ 1
      → Destroyed h live.object m (destroy h m)
  destroy_last h fd m live last =
      rw (destroy-destroy_wrapper h m live.object live.found last)
        (destroy_wrapper-Destroyed h live.object m (length_of_some m.wrappers h live.found))

  -- What every destruction of a handle leaves behind it: no exception, and one owner less.
  abbrev pub OneOwnerLess : ℕ → Machine K → FdWrapper → Type 0
  OneOwnerLess h m x =
      ((destroy h m).0 ≡ returns tt)
      × (y : FdWrapper) × ((destroy h m).1.wrappers ≡ set m.wrappers h y)
      × (y.use_count ≡ x.use_count - 1)

  destroy_wrapper-set :
      (h : ℕ) (x : FdWrapper) (m : Machine K)
      → (y : FdWrapper) × ((destroy_wrapper h (orphan x) (with_object m h (orphan x))).1.wrappers
          ≡ set m.wrappers h y)
        × (y.use_count ≡ 0)
  unfolding destroy_wrapper close_wrapper
  destroy_wrapper-set h x m = elim (Bool-cases x.closed) [
    | inl closed ↦ (orphan x, rw closed refl, refl)
    | inr not_closed ↦
        let answer = (K.close x.fd m.kernel).0 in
        elim (system_call_cases "close" answer.value answer.errno 0) [
          | inl (passed, _) ↦ (
            record x { eof = true; closed = true; use_count = 0 },
            rw (not_closed, passed)
                (set-set m.wrappers h (record x { closed = false; use_count = 0 })
                  (record x { eof = true; closed = true; use_count = 0 })),
            refl,
          )
          | inr (thrown, _, _) ↦ (orphan x, rw (not_closed, thrown) refl, refl)
        ]
  ]

  pub destroy-OneOwnerLess :
      (h : ℕ) (m : Machine K) (x : FdWrapper)
      → get_elem? m.wrappers h ≡ some x
      → x.use_count ≢ 0
      → OneOwnerLess h m x
  destroy-OneOwnerLess h m x found owned = elim (Bool-cases (x.use_count - 1 == 0)) [
    | inl last ↦
        let one : x.use_count ≡ 1 = ground arith in
        let (y, stored, gone) = destroy_wrapper-set h x m in
        rw (destroy-destroy_wrapper h m x found one) (
          (destroy_wrapper-Destroyed h x m (length_of_some m.wrappers h found)).0,
          y,
          stored,
          omega arith,
        )
    | inr shared ↦ rw (destroy-eq h m x found owned shared) (refl, owned_once_less x, refl, refl)
  ]

  -- The only owner of an open descriptor goes: no exception, the descriptor is closed, and the
  -- object is gone.
  pub destroy_sole :
      (h : ℕ) (m : Machine K) (x : FdWrapper)
      → get_elem? m.wrappers h ≡ some x
      → x.use_count ≡ 1
      → x.closed ≡ false
      → ((destroy h m).0 ≡ returns tt)
        × ((destroy h m).1.kernel ≡ (K.close x.fd m.kernel).1)
        × (y : FdWrapper) × ((destroy h m).1.wrappers ≡ set m.wrappers h y)
        × (y.use_count ≡ 0)
  destroy_sole h m x found last still_open =
      let (done, closing, gone) =
        destroy_wrapper-Destroyed h x m (length_of_some m.wrappers h found) in
      let (y, stored, none_left) = destroy_wrapper-set h x m in
      let closes : (if x.closed then m.kernel else (K.close x.fd m.kernel).1)
          ≡ (K.close x.fd m.kernel).1 =
        ground (arith, still_open) in
      rw (destroy-destroy_wrapper h m x found last) (done, closing ∙ closes, y, stored, none_left)
