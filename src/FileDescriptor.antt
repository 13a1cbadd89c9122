-- ===== src/FileDescriptor.antt =====
-- libsponge/util/file_descriptor.hh and file_descriptor.cc. A FileDescriptor is a handle; methods
-- that work on the shared object find it through the handle.
pub mod Handles
pub mod Checking
pub mod Writing
pub mod Resizing
pub mod Reading
pub mod Lifetime
pub mod WriteAll
pub mod Sending
pub mod Construction
pub mod History
pub mod Steps
pub mod Transfers
pub mod Sequences
pub mod Flags
pub mod Owners
pub mod Scoped
pub mod Keeping
pub mod Making
pub mod Streams
mod Tests
use Prim.Native.Nat.{bit_and, bit_or, bit_xor}
use network_project_cs.Common.{
  bits, signed, String, ◌*◌, ℕ, zero, suc, ◌+◌, ◌-◌, ◌%◌, ◌^◌, min, ℤ, pos, negsuc, is_negative,
  ltb_ℤ, int_of_ssize, ssize_of_size, size_of_ssize, ◌++◌, Bool, true, false, not, ◌&&◌, List, [],
  ◌∷◌, Bytes, Outcome, returns, throws, diverges, runtime_error, runtime_error_number, length_error,
  of_result, length, take, drop, replicate, size_add, ltb, ◌==◌, if◌then◌else◌,
}
use network_project_cs.Buffers.BufferViewList
use network_project_cs.Buffers.BufferViewList.{BufferViewList}
use network_project_cs.SystemCall.{Return, system_call}
use network_project_cs.Kernel.{Kernel}
use network_project_cs.Machine.{
  FdWrapper, Machine, M, ◌>>=◌, ◌>>◌, pure, raise, lift, call, wrapper, store,
}

-- `_fd` holds an `int`; a new object is owned by the one that makes it.
unfoldable pub new_wrapper : ℤ → FdWrapper
new_wrapper fd = record {
  fd = fd;
  eof = false;
  closed = false;
  read_count = 0;
  write_count = 0;
  use_count = 1;
}

abbrev pub buffer_size : ℕ
buffer_size = 1024 * 1024

-- `std::string::resize` by a `size_t` made of a signed number: a negative one is too large.
unfoldable pub resize : ℤ → Bytes → Outcome Bytes
resize (pos n) s = returns (take n (s ++ replicate (n - length s) 0))
resize (negsuc n) s = throws (length_error "basic_string::_M_replace_aux")

is_zero : ℤ → Bool
is_zero (pos n) = n == 0
is_zero (negsuc n) = false

-- The bytes that the views show, counted.
pub length_all : List Bytes → ℕ
length_all [] = 0
length_all (v ∷ vs) = length v + length_all vs

-- What `set_blocking` makes of the flags, which are an `int`.
pub new_flags : (o_nonblock : ℕ) → (blocking_state : Bool) → ℤ → ℤ
new_flags o_nonblock true flags =
    let f = bits (2 ^ 32) flags in signed (2 ^ 31) (bit_xor f (bit_and f o_nonblock))
new_flags o_nonblock false flags = signed (2 ^ 31) (bit_or (bits (2 ^ 32) flags) o_nonblock)

module _ {K : Kernel} where
  -- `FileDescriptor(const int fd)`: the handle of the new object.
  unfoldable pub make : ℤ → M K ℕ
  unfolding new_wrapper
  make fd m =
      if is_negative fd
      then (throws (runtime_error_number "invalid fd number:" fd), m)
      else (returns (length m.wrappers), record m { wrappers = m.wrappers ++ new_wrapper fd ∷ [] })

  -- `SystemCall(attempt, …)` with no mask.
  abbrev pub checked : (attempt : String) → Return → M K ℤ
  checked attempt r = lift (of_result (system_call attempt r.value r.errno 0))

  -- `FDWrapper::close()`
  close_wrapper : ℕ → FdWrapper → M K (Unit {0})
  close_wrapper h x = do
    r ← call (K.close x.fd)
    value ← checked "close" r
    store h (record x { eof = true; closed = true })

  -- `FileDescriptor::close()`
  unfoldable pub close : ℕ → M K (Unit {0})
  unfolding close_wrapper
  close h = do x ← wrapper h; close_wrapper h x

  -- `FileDescriptor::duplicate()`: one more owner.
  unfoldable pub duplicate : ℕ → M K ℕ
  duplicate h = do x ← wrapper h; store h (record x { use_count = x.use_count + 1 }); pure h

  -- An exception is printed, and goes no further.
  abbrev swallow : Outcome (Unit {0}) × Machine K → Outcome (Unit {0}) × Machine K
  swallow (throws e, m) = (returns tt, m)
  swallow (r, m) = (r, m)

  -- `~FDWrapper()`
  destroy_wrapper : ℕ → FdWrapper → M K (Unit {0})
  unfolding close_wrapper
  destroy_wrapper h x m = if x.closed then (returns tt, m) else swallow (close_wrapper h x m)

  -- `~FileDescriptor()`: the last owner destroys the object.
  unfoldable pub destroy : ℕ → M K (Unit {0})
  unfolding destroy_wrapper
  destroy h = do
    x ← wrapper h
    let x' = record x { use_count = x.use_count - 1 }
    store h x'
    if x'.use_count == 0 then destroy_wrapper h x' else pure tt

  -- Both counters are of type `unsigned`.
  unfoldable pub register_read : ℕ → M K (Unit {0})
  register_read h = do
    x ← wrapper h
    store h (record x { read_count = (x.read_count + 1) % 2 ^ 32 })

  unfoldable pub register_write : ℕ → M K (Unit {0})
  register_write h = do
    x ← wrapper h
    store h (record x { write_count = (x.write_count + 1) % 2 ^ 32 })

  note_eof : ℕ → ℕ → ℤ → M K (Unit {0})
  note_eof h limit (pos zero) =
      if ltb 0 limit then (do x ← wrapper h; store h (record x { eof = true })) else pure tt
  note_eof h limit _ = pure tt

  -- After the system call: `str` has its `size_to_read` bytes.
  finish_read : ℕ → ℕ → ℤ → Bytes → M K Bytes
  unfolding resize register_read
  finish_read h size_to_read bytes_read str = do
    if ltb_ℤ (pos size_to_read) bytes_read
        then raise (runtime_error "read() read more than requested")
        else pure tt
    result ← lift (resize bytes_read str)
    register_read h
    pure result

  -- `void read(std::string &str, const size_t limit)`: the string that is left in `str`.
  unfoldable pub read_into : ℕ → Bytes → ℕ → M K Bytes
  unfolding resize note_eof finish_read
  read_into h str limit = do
    let size_to_read = min buffer_size limit
    resized ← lift (resize (pos size_to_read) str)
    x ← wrapper h
    (r, stored) ← call (K.read x.fd size_to_read)
    bytes_read ← checked "read" (record r { value = int_of_ssize r.value })
    note_eof h limit bytes_read
    finish_read h size_to_read bytes_read (take size_to_read stored ++ drop (length stored) resized)

  -- `std::string read(const size_t limit)`
  unfoldable pub read : ℕ → ℕ → M K Bytes
  unfolding read_into
  read h limit = read_into h [] limit

  -- The two tests on what `writev` returned.
  pub check_written : ℤ → ℕ → M K (Unit {0})
  unfolding is_zero
  check_written bytes_written size =
      if is_zero bytes_written && not (size == 0)
      then raise (runtime_error "write returned 0 given non-empty input buffer")
      else if ltb_ℤ (ssize_of_size size) bytes_written
      then raise (runtime_error "write wrote more than length of input buffer")
      else pure tt

  -- The views less their first `n` bytes; the exception of a view list that is too short.
  pub remove_written : BufferViewList → ℕ → M K (ℕ × BufferViewList)
  remove_written buffer n = do
    let (outcome, rest) = BufferViewList.remove_prefix buffer n
    lift (of_result outcome)
    pure (n, rest)

  -- What the loop's body does with the number that `SystemCall` has let through.
  take_written : ℕ → BufferViewList → ℤ → M K (ℕ × BufferViewList)
  unfolding check_written register_write remove_written
  take_written h buffer bytes_written = do
    check_written bytes_written (BufferViewList.size buffer)
    register_write h
    remove_written buffer (size_of_ssize bytes_written)

  -- From the answer of `writev` on, whose value `SystemCall` takes as an `int`.
  after_writev : ℕ → BufferViewList → Return → M K (ℕ × BufferViewList)
  unfolding take_written
  after_writev h buffer r = do
    bytes_written ← checked "writev" (record r { value = int_of_ssize r.value })
    take_written h buffer bytes_written

  -- The body of the loop of `write`: what it adds to the total, and the views that are left.
  pub write_once : ℕ → BufferViewList → M K (ℕ × BufferViewList)
  unfolding after_writev
  write_once h buffer = do
    x ← wrapper h
    r ← call (K.writev x.fd (BufferViewList.as_iovecs buffer))
    after_writev h buffer r

  -- `do … while (write_all and buffer.size());` on fuel.
  pub write_loop : ℕ → ℕ → Bool → ℕ → BufferViewList → M K ℕ
  unfolding write_once
  write_loop zero h write_all total buffer = lift diverges
  write_loop (suc fuel) h write_all total buffer = do
    (n, rest) ← write_once h buffer
    let total' = size_add total n
    let again = write_loop fuel h write_all total' rest
    if write_all && not (BufferViewList.size rest == 0) then again else pure total'

  -- `write(BufferViewList buffer, const bool write_all)`; every round but the last writes a byte,
  -- so one more round than bytes is fuel enough.
  unfoldable pub write : ℕ → BufferViewList → Bool → M K ℕ
  unfolding write_loop length_all
  write h buffer write_all = write_loop (suc (length_all buffer.views)) h write_all 0 buffer

  unfoldable pub set_blocking : ℕ → Bool → M K (Unit {0})
  unfolding new_flags
  set_blocking h blocking_state = do
    x ← wrapper h
    r ← call (K.fcntl_getfl x.fd)
    flags ← checked "fcntl" r
    r' ← call (K.fcntl_setfl x.fd (new_flags K.o_nonblock blocking_state flags))
    value ← checked "fcntl" r'
    pure tt
