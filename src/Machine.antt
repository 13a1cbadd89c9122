-- ===== src/Machine.antt =====
-- What the methods of FileDescriptor work on: the kernel, and the FDWrapper objects behind the
-- `shared_ptr`s, each found by its place in a list. A handle is such a place; handles that are
-- equal share one object. An object whose count has fallen to 0 is gone.
use network_project_cs.Common.{
  ℕ, ℤ, Bool, List, Option, none, some, Outcome, returns, fault, get_elem?, set, ◌==◌,
  if◌then◌else◌,
}
use network_project_cs.Common.Actions.{Action}
pub use network_project_cs.Common.Actions.{◌>>=◌, ◌>>◌, pure, raise, lift}
use network_project_cs.Kernel.{Kernel}

pub record FdWrapper : Type 0 where
  pub fd : ℤ
  pub eof : Bool
  pub closed : Bool
  pub read_count : ℕ
  pub write_count : ℕ
  pub use_count : ℕ

pub record Machine (K : Kernel) : Type 0 where
  pub kernel : K.State
  pub wrappers : List FdWrapper

abbrev pub M : Kernel → Type 0 → Type 0
M K A = Action (Machine K) A

abbrev live : Option FdWrapper → Outcome FdWrapper
live none = fault
live (some x) = if x.use_count == 0 then fault else returns x

module _ {K : Kernel} where
  -- A system call.
  abbrev pub call : {A : Type 0} → (K.State → A × K.State) → M K A
  call f m = let (a, k) = f m.kernel in (returns a, record m { kernel = k })

  -- The object behind a handle.
  abbrev pub wrapper : ℕ → M K FdWrapper
  wrapper h m = (live (get_elem? m.wrappers h), m)

  abbrev pub store : ℕ → FdWrapper → M K (Unit {0})
  store h x m = (returns tt, record m { wrappers = set m.wrappers h x })
