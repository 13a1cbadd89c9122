-- ===== src/FileDescriptor/Owners.antt =====
-- How many owners each object has, and the methods that leave that as it is.
use network_project_cs.Common.{
  min, int_of_ssize, fault, diverges, throws, length, ◌<◌, ◌^◌, true, ℕ, suc, zero, ◌≡◌, refl, ap,
  ◌∙◌, ℤ, pos, negsuc, true, false, List, [], ◌∷◌, map, some, get_elem?, set, Bytes, Outcome, arith,
  ◌==◌, Bool-cases, inl, inr, some-inj, set-get_elem?, ltb, returns, throws,
}
use network_project_cs.Common.Actions.{Leaves, Ends, bind-Ends, Leaves, ◌>>=◌, pure}
use network_project_cs.SystemCall.{system_call_cases}
use network_project_cs.Kernel.{Kernel}
use network_project_cs.Machine.{FdWrapper, Machine, M}
use network_project_cs.Buffers.BufferViewList.{BufferViewList}
use network_project_cs.Buffers.BufferViewList.Contents
use network_project_cs.FileDescriptor.Handles.{IsLive}
use network_project_cs.FileDescriptor.Sending.{write-Ends}
use network_project_cs.FileDescriptor.Transfers.Writes.{write-Tame}
use network_project_cs.FileDescriptor.WriteAll
use network_project_cs.FileDescriptor.{
  write, read, read_into, buffer_size, note_eof, finish_read, read_into, read, register_read, write,
  resize,
}

abbrev pub owner_counts : List FdWrapper → List ℕ
owner_counts ws = map (λ x. x.use_count) ws

get_elem?-owner_counts :
    (ws : List FdWrapper) (h : ℕ) {x : FdWrapper}
    → get_elem? ws h ≡ some x
    → get_elem? (owner_counts ws) h ≡ some x.use_count
get_elem?-owner_counts [] h found = absurd cc
get_elem?-owner_counts (y ∷ ws) zero found = ap (λ x. some x.use_count) (some-inj found)
get_elem?-owner_counts (y ∷ ws) (suc h) found = get_elem?-owner_counts ws h found

-- The object with a number of owners.
pub owner_counts-found :
    (ws : List FdWrapper) (h : ℕ) {n : ℕ}
    → get_elem? (owner_counts ws) h ≡ some n
    → (x : FdWrapper) × (get_elem? ws h ≡ some x) × (x.use_count ≡ n)
owner_counts-found [] h found = absurd cc
owner_counts-found (y ∷ ws) zero found = (y, refl, some-inj found)
owner_counts-found (y ∷ ws) (suc h) found = owner_counts-found ws h found

pub owner_counts-set :
    (ws : List FdWrapper) (h : ℕ) (y : FdWrapper)
    → owner_counts (set ws h y) ≡ set (owner_counts ws) h y.use_count
owner_counts-set [] h y = refl
owner_counts-set (x ∷ ws) zero y = refl
owner_counts-set (x ∷ ws) (suc h) y = ap (◌∷◌ x.use_count) (owner_counts-set ws h y)

-- An object is stored anew with as many owners.
pub owner_counts-kept :
    (ws : List FdWrapper) (h : ℕ) (x y : FdWrapper)
    → get_elem? ws h ≡ some x
    → y.use_count ≡ x.use_count
    → owner_counts (set ws h y) ≡ owner_counts ws
owner_counts-kept ws h x y found same =
    owner_counts-set ws h y
    ∙ ap (set (owner_counts ws) h) same
    ∙ set-get_elem? (owner_counts ws) h (get_elem?-owner_counts ws h found)

module _ {K : Kernel} (cs : List ℕ) where
  abbrev pub Counted : Machine K → Type 0
  Counted m = owner_counts m.wrappers ≡ cs

  -- An action that comes to an end without a fault, and leaves the owners as they are.
  abbrev pub Keeps : {A : Type 0} → M K A → Type 0
  Keeps c = (m : Machine K) → Counted m → Ends (λ _ m'. Counted m') Counted (c m)

  pub bind-Keeps :
      {A B : Type 0} (c : M K A) (f : A → M K B)
      → Keeps c
      → ((a : A) → Keeps (f a))
      → Keeps (c >>= f)
  bind-Keeps c f first next m counted =
      bind-Ends (λ _. Counted) (λ _. Counted) Counted f c m (first m counted)
        (λ a m' counted'. next a m' counted')

  module _ (h n : ℕ) (owned : get_elem? cs h ≡ some (suc n)) where
    -- The object behind the handle.
    pub Counted-found :
        (m : Machine K)
        → Counted m
        → (x : FdWrapper) × (get_elem? m.wrappers h ≡ some x) × ((x.use_count == 0) ≡ false)
    Counted-found m counted =
        let (x, found, count) =
          owner_counts-found m.wrappers h (ap (λ ds. get_elem? ds h) counted ∙ owned) in
        (x, found, ground arith)

    pub register_read-Keeps : Keeps (register_read h)
    unfolding register_read
    register_read-Keeps m counted =
        let (x, found, used) = Counted-found m counted in
        rw (found, used) (owner_counts-kept m.wrappers h x _ found refl ∙ counted)

    note_eof-Keeps : (limit : ℕ) (z : ℤ) → Keeps (note_eof h limit z)
    unfolding note_eof
    note_eof-Keeps limit (pos zero) m counted = elim (Bool-cases (ltb 0 limit)) [
      | inl wanted ↦
          let (x, found, used) = Counted-found m counted in
          rw (wanted, found, used) (owner_counts-kept m.wrappers h x _ found refl ∙ counted)
      | inr unwanted ↦ rw unwanted counted
    ]
    note_eof-Keeps limit (pos (suc z)) m counted = counted
    note_eof-Keeps limit (negsuc z) m counted = counted

    finish_read-Keeps : (size : ℕ) (z : ℤ) (str : Bytes) → Keeps (finish_read h size z str)
    unfolding finish_read resize
    finish_read-Keeps size (pos z) str m counted = elim (Bool-cases (ltb size z)) [
      | inl too_many ↦ rw too_many counted
      | inr fits ↦ rw fits (
          bind-Keeps (register_read h) (λ _. pure _) register_read-Keeps (λ _ m' counted'. counted')
            m counted)
    ]
    finish_read-Keeps size (negsuc z) str m counted = counted

    read_into-Keeps : (str : Bytes) (limit : ℕ) → Keeps (read_into h str limit)
    unfolding read_into resize
    read_into-Keeps str limit m counted =
        let (x, found, used) = Counted-found m counted in
        let size = min buffer_size limit in
        let answer = K.read x.fd size m.kernel in
        let n = int_of_ssize answer.0.0.value in
        elim (system_call_cases "read" n answer.0.0.errno 0) [
          | inl (passed, _) ↦
              rw (found, used, passed)
                (bind-Keeps (note_eof h limit n) _ (note_eof-Keeps limit n)
                  (λ noted. finish_read-Keeps size n _) _ counted)
          | inr (thrown, _, _) ↦ rw (found, used, thrown) counted
        ]

    pub read-Keeps : (limit : ℕ) → Keeps (read h limit)
    unfolding read
    read-Keeps limit = read_into-Keeps [] limit

    ends-Counted :
        (P : ℕ → Machine K → Type 0) (r : Outcome ℕ × Machine K)
        → WriteAll.Ends K P r
        → Leaves Counted (λ _. Unit {0}) r
        → Ends (λ _ m'. Counted m') Counted r
    ends-Counted P (returns k, m) ends leaves = leaves.0
    ends-Counted P (throws e, m) ends leaves = leaves
    ends-Counted P (fault, m) ends leaves = absurd ends
    ends-Counted P (diverges, m) ends leaves = absurd ends

    pub write-Keeps :
        (buffer : BufferViewList)
        → length (Contents.contents buffer) < 2 ^ 63
        → Keeps (write h buffer true)
    write-Keeps buffer small m counted =
        let (x, found, used) = Counted-found m counted in
        let live : IsLive h x.fd m = record {
          object = x;
          found = found;
          owned = λ z. ground arith;
          number = refl;
        } in
        ends-Counted _ (write h buffer true m) (write-Ends K h x.fd buffer m small live) (
          write-Tame (λ ws. owner_counts ws ≡ cs)
            (λ ws i y z counted' found' ev keeps same.
              owner_counts-kept ws i y z found' same ∙ counted')
            h buffer true m counted)
