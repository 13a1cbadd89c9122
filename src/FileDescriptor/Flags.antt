-- ===== src/FileDescriptor/Flags.antt =====
-- What `set_blocking` does to the flags of a descriptor.
use Prim.Native.Nat.{bit_and, bit_or, bit_xor}
use network_project_cs.Common.{
  ◌∙◌, sym, ap, ℕ, ◌^◌, ◌<◌, ◌%◌, ◌≡◌, refl, ℤ, pos, signed, Bool, true, false, ◌==◌, if◌then◌else◌,
  returns, arith, inl, inr,
}
use network_project_cs.Common.BinaryDigits.{
  binary_digit, binary_digit-cases, binary_digit-bit_and, binary_digit-bit_or, binary_digit-bit_xor,
}
use network_project_cs.SystemCall.{passes}
use network_project_cs.Kernel.{Kernel}
use network_project_cs.Machine.{Machine}
use network_project_cs.FileDescriptor.{new_flags, set_blocking}
use network_project_cs.FileDescriptor.Handles.{IsLive, not_gone}

-- The digit that is wanted at a place of the new flags: that of `o_nonblock` is 0 for a blocking
-- descriptor and 1 for another one, and the rest is as before.
abbrev pub wanted : (o_nonblock : ℕ) → (blocking_state : Bool) → (flags place : ℕ) → ℕ
wanted o_nonblock blocking_state flags place =
    if binary_digit place o_nonblock == 1
    then (if blocking_state then 0 else 1)
    else binary_digit place flags

-- A word with the digits that are wanted.
abbrev pub IsWanted : (o_nonblock : ℕ) → (blocking_state : Bool) → (flags word : ℕ) → Type 0
IsWanted o_nonblock blocking_state flags word =
    (place : ℕ) → binary_digit place word ≡ wanted o_nonblock blocking_state flags place

cleared :
    (o_nonblock flags : ℕ)
    → IsWanted o_nonblock true flags (bit_xor flags (bit_and flags o_nonblock))
cleared o_nonblock flags place =
    rw
      (
        binary_digit-bit_xor place flags (bit_and flags o_nonblock),
        binary_digit-bit_and place flags o_nonblock,
      )
      (elim (binary_digit-cases place o_nonblock) [
        | inl none ↦ elim (binary_digit-cases place flags) [
          | inl zeroth ↦ rw (none, zeroth) refl
          | inr one ↦ rw (none, one) refl
        ]
        | inr some ↦ elim (binary_digit-cases place flags) [
          | inl zeroth ↦ rw (some, zeroth) refl
          | inr one ↦ rw (some, one) refl
        ]
      ])

added : (o_nonblock flags : ℕ) → IsWanted o_nonblock false flags (bit_or flags o_nonblock)
added o_nonblock flags place =
    rw (binary_digit-bit_or place flags o_nonblock) (elim (binary_digit-cases place o_nonblock) [
      | inl none ↦ elim (binary_digit-cases place flags) [
        | inl zeroth ↦ rw (none, zeroth) refl
        | inr one ↦ rw (none, one) refl
      ]
      | inr some ↦ elim (binary_digit-cases place flags) [
        | inl zeroth ↦ rw (some, zeroth) refl
        | inr one ↦ rw (some, one) refl
      ]
    ])

new_flags-IsWanted :
    (o_nonblock flags : ℕ) (blocking_state : Bool)
    → flags < 2 ^ 31
    → (word : ℕ) × (new_flags o_nonblock blocking_state (pos flags) ≡ signed (2 ^ 31) word)
      × IsWanted o_nonblock blocking_state flags word
unfolding new_flags
new_flags-IsWanted o_nonblock flags true small =
    let kept : flags % 2 ^ 32 ≡ flags = omega arith in
    (bit_xor flags (bit_and flags o_nonblock), rw kept refl, cleared o_nonblock flags)
new_flags-IsWanted o_nonblock flags false small =
    let kept : flags % 2 ^ 32 ≡ flags = omega arith in
    (bit_or flags o_nonblock, rw kept refl, added o_nonblock flags)

module _ {K : Kernel} where
  -- When the two calls of fcntl that it makes succeed, and the first gives flags that fit an `int`,
  -- `set_blocking` sets the flags of its descriptor to the `int` of a word that differs from them
  -- only in the digits of O_NONBLOCK: they are 0 for a blocking descriptor, and 1 for one that does
  -- not block. No object changes.
  pub set_blocking-IsWanted :
      (h : ℕ) (fd : ℤ) (blocking_state : Bool) (m : Machine K) (live : IsLive h fd m) (flags : ℕ)
      → (K.fcntl_getfl live.object.fd m.kernel).0.value ≡ pos flags
      → flags < 2 ^ 31
      → (n : ℕ)
      → (K.fcntl_setfl live.object.fd
          (new_flags K.o_nonblock blocking_state (pos flags))
          (K.fcntl_getfl live.object.fd m.kernel).1).0.value
        ≡ pos n
      → (word : ℕ) × IsWanted K.o_nonblock blocking_state flags word
        × (set_blocking h blocking_state m ≡ (
          returns tt,
          record m {
            kernel =
                (K.fcntl_setfl live.object.fd
                  (signed (2 ^ 31) word)
                  (K.fcntl_getfl live.object.fd m.kernel).1).1;
          },
        ))
  unfolding set_blocking
  set_blocking-IsWanted h fd blocking_state m live flags told small n accepted =
      let (word, made, wanted) = new_flags-IsWanted K.o_nonblock flags blocking_state small in
      let got = K.fcntl_getfl live.object.fd m.kernel in
      let done : (K.fcntl_setfl live.object.fd (signed (2 ^ 31) word) got.1).0.value ≡ pos n =
        ap (λ flags'. (K.fcntl_setfl live.object.fd flags' got.1).0.value) (sym made) ∙ accepted in
      (
        word,
        wanted,
        rw
            (
              live.found,
              not_gone h live,
              told,
              passes "fcntl" flags got.0.errno,
              made,
              done,
              passes "fcntl" n (K.fcntl_setfl live.object.fd (signed (2 ^ 31) word) got.1).0.errno,
            )
            refl,
      )
