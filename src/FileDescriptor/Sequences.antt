-- ===== src/FileDescriptor/Sequences.antt =====
-- Any calls of the methods of FileDescriptor, one after another, through any handles. What each
-- returns or throws is left to the caller, who may go on with any other call.
use network_project_cs.Common.{set, ℕ, ℤ, Bool, List, [], ◌∷◌, Bytes, All}
use network_project_cs.Common.Actions.{Leaves-state}
use network_project_cs.Kernel.{Kernel}
use network_project_cs.Machine.{FdWrapper, M, Machine}
use network_project_cs.Buffers.BufferViewList.{BufferViewList}
use network_project_cs.FileDescriptor.{
  make, close, duplicate, destroy, read_into, write, set_blocking,
}
use network_project_cs.FileDescriptor.History.{
  Changes, Changes-set, IsSound, Later, Changes-refl, Changes-trans,
}
use network_project_cs.FileDescriptor.Steps.{
  Since, make-Since, close-Since, duplicate-Since, destroy-Since,
}
use network_project_cs.FileDescriptor.Transfers.{IsStored, Tame}
use network_project_cs.FileDescriptor.Transfers.Reads.{read_into-Tame}
use network_project_cs.FileDescriptor.Transfers.Writes.{write-Tame, set_blocking-Tame}

-- A call of a method; `elsewhere` is what the kernel and other programs do in between.
pub data Call (State : Type 0) : Type 0 where
  construct : (fd : ℤ) → Call State
  closes : (h : ℕ) → Call State
  duplicates : (h : ℕ) → Call State
  destructs : (h : ℕ) → Call State
  reads : (h : ℕ) (str : Bytes) (limit : ℕ) → Call State
  writes : (h : ℕ) (buffer : BufferViewList) (write_all : Bool) → Call State
  sets_blocking : (h : ℕ) (blocking_state : Bool) → Call State
  elsewhere : (act : State → State) → Call State

-- The history of the objects is kept when one changes.
stored-Since : (ws : List FdWrapper) → IsStored (Changes ws)
stored-Since ws vs h x y since found ev keeps same =
    Changes-trans ws vs (set vs h y) since (Changes-set vs h x y found ev keeps)

module _ {K : Kernel} where
  unfoldable pub perform : Call K.State → Machine K → Machine K
  perform (construct fd) m = (make fd m).1
  perform (closes h) m = (close h m).1
  perform (duplicates h) m = (duplicate h m).1
  perform (destructs h) m = (destroy h m).1
  perform (reads h str limit) m = (read_into h str limit m).1
  perform (writes h buffer write_all) m = (write h buffer write_all m).1
  perform (sets_blocking h blocking_state) m = (set_blocking h blocking_state m).1
  perform (elsewhere act) m = record m { kernel = act m.kernel }

  unfoldable pub perform_all : List (Call K.State) → Machine K → Machine K
  unfolding perform
  perform_all [] m = m
  perform_all (c ∷ cs) m = perform_all cs (perform c m)

  left-Since :
      {A : Type 0} (c : M K A) (m : Machine K)
      → Tame (Changes m.wrappers) (stored-Since m.wrappers) c
      → Since m.wrappers (c m).1
  left-Since c m tame =
      Leaves-state (Since m.wrappers) (λ _. Unit) (c m) (tame m (Changes-refl m.wrappers))

  perform-Since : (c : Call K.State) (m : Machine K) → Since m.wrappers (perform c m)
  unfolding perform
  perform-Since (construct fd) m = left-Since (make fd) m (make-Since m.wrappers fd)
  perform-Since (closes h) m = left-Since (close h) m (close-Since m.wrappers h)
  perform-Since (duplicates h) m = left-Since (duplicate h) m (duplicate-Since m.wrappers h)
  perform-Since (destructs h) m = left-Since (destroy h) m (destroy-Since m.wrappers h)
  perform-Since (reads h str limit) m =
      left-Since (read_into h str limit) m
        (read_into-Tame (Changes m.wrappers) (stored-Since m.wrappers) h str limit)
  perform-Since (writes h buffer write_all) m =
      left-Since (write h buffer write_all) m
        (write-Tame (Changes m.wrappers) (stored-Since m.wrappers) h buffer write_all)
  perform-Since (sets_blocking h blocking_state) m =
      left-Since (set_blocking h blocking_state) m
        (set_blocking-Tame (Changes m.wrappers) (stored-Since m.wrappers) h blocking_state)
  perform-Since (elsewhere act) m = Changes-refl m.wrappers

  perform_all-Changes :
      (cs : List (Call K.State)) (m : Machine K) → Since m.wrappers (perform_all cs m)
  unfolding perform_all
  perform_all-Changes [] m = Changes-refl m.wrappers
  perform_all-Changes (c ∷ cs) m =
      Changes-trans m.wrappers (perform c m).wrappers (perform_all cs (perform c m)).wrappers
        (perform-Since c m) (perform_all-Changes cs (perform c m))

  -- Whatever methods are called through whatever handles, in any order and on any kernel, and
  -- whether they return or throw: each object keeps its number, a closed one stays closed, one at
  -- its end of file stays so, and one without an owner never gets another.
  pub perform_all-Later :
      (cs : List (Call K.State)) (m : Machine K) → Later m.wrappers (perform_all cs m).wrappers
  perform_all-Later cs m = (perform_all-Changes cs m).0

  -- If every closed object is at its end of file, every number is one of a descriptor, and both
  -- counters fit in 32 bits, then all this holds after any calls in any order on any kernel, of the
  -- objects made on the way too.
  pub perform_all-IsSound :
      (cs : List (Call K.State)) (m : Machine K)
      → All IsSound m.wrappers
      → All IsSound (perform_all cs m).wrappers
  perform_all-IsSound cs m = (perform_all-Changes cs m).1
