-- ===== src/Kernel.antt =====
-- The operating system, which the program calls and does not implement: a state, the system calls
-- on it, and the constants of its headers.
use network_project_cs.Common.{ℕ, ℤ, List, Bytes}
use network_project_cs.Buffers.BufferViewList.{Iovec}
use network_project_cs.SystemCall.{Return}

-- `struct pollfd`
pub record Pollfd : Type 0 where
  pub fd : ℤ
  pub events : ℕ
  pub revents : ℕ

pub record Kernel : Type 1 where
  pub State : Type 0
  pub close : ℤ → State → Return × State
  -- The bytes are those stored at the front of the caller's buffer.
  pub read : ℤ → ℕ → State → (Return × Bytes) × State
  pub writev : ℤ → List Iovec → State → Return × State
  pub fcntl_getfl : ℤ → State → Return × State
  pub fcntl_setfl : ℤ → ℤ → State → Return × State
  -- The list is the `revents` that are stored, in order.
  pub poll : List Pollfd → ℤ → State → (Return × List ℕ) × State
  pub o_nonblock : ℕ
  pub pollin : ℕ
  pub pollout : ℕ
  pub pollerr : ℕ
  pub pollhup : ℕ
  pub pollnval : ℕ
  pub eintr : ℕ
