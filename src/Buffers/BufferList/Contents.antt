-- ===== src/Buffers/BufferList/Contents.antt =====
-- What the operations of a BufferList do to the bytes that it stands for.
use network_project_cs.Common.{
  zero, suc, suc, Exception, ℕ, ◌+◌, ◌-◌, ◌%◌, ◌≤◌, ◌<◌, ◌≡◌, refl, sym, ap, ◌∙◌, ◌⊎◌, inl, inr,
  List, [], ◌∷◌, ◌++◌, Bytes, Result, ok, throw, out_of_range, arith, length, drop, All, ltb-cases,
  size_mod, size_add, size_sub_exact, length-append, append_assoc, append-nil, drop-append_left,
  drop-append_right,
}
use network_project_cs.Buffers.Buffer
use network_project_cs.Buffers.Buffer.{at, Buffer}
use network_project_cs.Buffers.Buffer.Contents
use network_project_cs.Buffers.BufferList.{
  BufferList, append, push_back_all, append_strings, concatenate, add_sizes, size, remove_loop,
  shrink_front, remove_prefix, to_buffer, only_buffer,
}

abbrev pub IsValid : BufferList → Type 0
IsValid l = All Buffer.IsValid l.buffers

-- The bytes of a queue, from its front.
unfoldable pub contents : List Buffer → Bytes
contents [] = []
contents (b ∷ bs) = Buffer.str b ++ contents bs

append_strings-contents :
    (ret : Bytes) (bs : List Buffer) → append_strings ret bs ≡ ret ++ contents bs
unfolding append_strings contents
append_strings-contents ret [] = sym (append-nil ret)
append_strings-contents ret (b ∷ bs) =
    append_strings-contents (ret ++ Buffer.str b) bs ∙ append_assoc ret (Buffer.str b) (contents bs)

pub concatenate-contents : (l : BufferList) → concatenate l ≡ contents l.buffers
unfolding concatenate
concatenate-contents l = append_strings-contents [] l.buffers

length-concatenate : (l : BufferList) → length (concatenate l) ≡ length (contents l.buffers)
length-concatenate l = ap length (concatenate-contents l)

push_back_all-append : (xs ys : List Buffer) → push_back_all xs ys ≡ xs ++ ys
unfolding push_back_all
push_back_all-append xs [] = sym (append-nil xs)
push_back_all-append xs (y ∷ ys) =
    push_back_all-append (xs ++ y ∷ []) ys ∙ append_assoc xs (y ∷ []) ys

contents-append : (xs ys : List Buffer) → contents (xs ++ ys) ≡ contents xs ++ contents ys
unfolding contents
contents-append [] ys = refl
contents-append (x ∷ xs) ys =
    ap (◌++◌ (Buffer.str x)) (contents-append xs ys)
    ∙ sym (append_assoc (Buffer.str x) (contents xs) (contents ys))

-- Appending a list appends its bytes, and keeps all buffers valid.
concatenate-append :
    (l other : BufferList) → concatenate (append l other) ≡ concatenate l ++ concatenate other
unfolding append
concatenate-append l other =
    rw
      (
        concatenate-contents (append l other),
        concatenate-contents l,
        concatenate-contents other,
        push_back_all-append l.buffers other.buffers,
      )
      (contents-append l.buffers other.buffers)

add_sizes-contents :
    (ret : ℕ) (bs : List Buffer)
    → ret < size_mod
    → add_sizes ret bs ≡ (ret + length (contents bs)) % size_mod
unfolding add_sizes contents size_add Buffer.size
add_sizes-contents ret [] h = omega arith
add_sizes-contents ret (b ∷ bs) h = omega (
  arith,
  add_sizes-contents (size_add ret (Buffer.size b)) bs (omega arith),
  length-append (Buffer.str b) (contents bs),
)

-- `size()` is the length of the concatenation, modulo the width of `size_t`.
size-concatenate : (l : BufferList) → size l ≡ length (concatenate l) % size_mod
unfolding size
size-concatenate l =
    omega (arith, add_sizes-contents 0 l.buffers, ap length (concatenate-contents l))

-- The front buffer holds more than `n` bytes.
shrink_front-drop :
    (b : Buffer) (bs : List Buffer) (n : ℕ)
    → Buffer.IsValid b
    → n < Buffer.size b
    → (let (outcome, bs') = shrink_front b bs n in
        (outcome ≡ ok tt)
        × (contents bs' ≡ drop n (contents (b ∷ bs)))
        × (All Buffer.IsValid bs → All Buffer.IsValid bs'))
unfolding shrink_front contents Buffer.size
shrink_front-drop b bs n v h = elim (Contents.remove_prefix_releases b n v) [
  | inl (le, done, (valid, dropped, released)) ↦
      (done, rw (dropped, drop-append_left n (Buffer.str b) (contents bs) le), λ vs. (valid, vs))
  | inr (lt, thrown, kept) ↦ absurd (omega arith)
]

-- What the loop leaves of a queue that holds at least `n` bytes.
abbrev pub Drops : List Buffer → ℕ → Result (Unit {0}) × List Buffer → Type 0
Drops bs n r = (r.0 ≡ ok tt) × (contents r.1 ≡ drop n (contents bs)) × All Buffer.IsValid r.1

contents_pop :
    (b : Buffer) (bs : List Buffer) (n : ℕ)
    → Buffer.size b ≤ n
    → drop n (contents (b ∷ bs)) ≡ drop (n - Buffer.size b) (contents bs)
unfolding contents Buffer.size
contents_pop b bs n h = drop-append_right n (Buffer.str b) (contents bs) h

pop_bound :
    (b : Buffer) (bs : List Buffer) (n : ℕ)
    → n ≤ length (contents (b ∷ bs))
    → n - Buffer.size b ≤ length (contents bs)
unfolding contents Buffer.size
pop_bound b bs n h = omega (arith, length-append (Buffer.str b) (contents bs))

-- The three ways through one round of the loop.
remove_loop-zero : (bs : List Buffer) → remove_loop bs 0 ≡ (ok tt, bs)
unfolding remove_loop
remove_loop-zero [] = refl
remove_loop-zero (b ∷ bs) = refl

module _ (b : Buffer) (bs : List Buffer) (n : ℕ) (pos : 0 < n) where
  remove_loop-front : n < Buffer.size b → remove_loop (b ∷ bs) n ≡ shrink_front b bs n
  unfolding remove_loop
  remove_loop-front h = ground arith

  remove_loop-pop :
      n < size_mod → Buffer.size b ≤ n → remove_loop (b ∷ bs) n ≡ remove_loop bs (n - Buffer.size b)
  unfolding remove_loop
  remove_loop-pop small h = ground (arith, size_sub_exact n (Buffer.size b))

remove_loop-Drops :
    (bs : List Buffer) (n : ℕ)
    → All Buffer.IsValid bs
    → n < size_mod
    → n ≤ length (contents bs)
    → Drops bs n (remove_loop bs n)
remove_loop-Drops bs zero v small h = rw (remove_loop-zero bs) (refl, refl, v)
remove_loop-Drops [] (suc n) v small h = absurd (unfold contents in omega arith)
remove_loop-Drops (b ∷ bs) (suc n) v small h = elim (ltb-cases (suc n) (Buffer.size b)) [
  | inl (lt, e) ↦
      let (done, dropped, valid) = shrink_front-drop b bs (suc n) v.0 lt in
      rw (remove_loop-front b bs (suc n) (omega arith) lt) (done, dropped, valid v.1)
  | inr (le, e) ↦
      rw (remove_loop-pop b bs (suc n) (omega arith) small le, contents_pop b bs (suc n) le)
        (remove_loop-Drops bs (suc n - Buffer.size b) v.1 (omega arith) (pop_bound b bs (suc n) h))
]

-- A queue that is too short is emptied before the exception is thrown.
remove_loop-throws :
    (bs : List Buffer) (n : ℕ)
    → All Buffer.IsValid bs
    → n < size_mod
    → length (contents bs) < n
    → remove_loop bs n ≡ (throw (out_of_range "BufferList::remove_prefix"), [])
unfolding remove_loop contents Buffer.size
remove_loop-throws [] n v small h = ground arith
remove_loop-throws (b ∷ bs) n v small h = ground (
  arith,
  length-append (Buffer.str b) (contents bs),
  size_sub_exact n (Buffer.size b),
  remove_loop-throws bs (n - Buffer.size b),
)

-- The two outcomes of `remove_prefix`.
abbrev pub RemovePrefixCases : BufferList → ℕ → Type 0
RemovePrefixCases l n =
    (let (outcome, l') = remove_prefix l n in
      ((n ≤ length (concatenate l))
        × (outcome ≡ ok tt)
        × (concatenate l' ≡ drop n (concatenate l))
        × IsValid l')
      ⊎ ((length (concatenate l) < n)
          × (outcome ≡ throw (out_of_range "BufferList::remove_prefix"))
          × (l'.buffers ≡ [])))

-- `remove_prefix(n)` on every branch. If the list holds `n` bytes they are dropped from the
-- front, over as many buffers as it takes; otherwise it throws and the list is left empty.
pub remove_prefix_over_buffers :
    (l : BufferList) (n : ℕ) → IsValid l → n < size_mod → RemovePrefixCases l n
unfolding remove_prefix
remove_prefix_over_buffers l n v small = elim (ltb-cases (length (concatenate l)) n) [
  | inl (lt, e) ↦
      let r = remove_loop-throws l.buffers n v small (omega (arith, length-concatenate l)) in
      inr (lt, ap (λ p. p.0) r, ap (λ p. p.1) r)
  | inr (le, e) ↦
      let (done, dropped, valid) =
        remove_loop-Drops l.buffers n v small (omega (arith, length-concatenate l)) in
      inl (
        le,
        done,
        concatenate-contents (record { buffers = (remove_loop l.buffers n).1 })
            ∙ dropped
            ∙ ap (drop n) (sym (concatenate-contents l)),
        valid,
      )
]

to_buffer_of :
    (bs : List Buffer)
    → ((b : Buffer) × (only_buffer bs ≡ ok b) × (Buffer.str b ≡ contents bs) × (length bs ≤ 1))
      ⊎ ((e : Exception) × (only_buffer bs ≡ throw e) × (1 < length bs))
unfolding only_buffer contents Buffer.empty Buffer.str
to_buffer_of [] = inl (Buffer.empty, refl, refl, omega arith)
to_buffer_of (b ∷ []) = inl (b, refl, sym (append-nil (Buffer.str b)), omega arith)
to_buffer_of (b ∷ c ∷ bs) = inr (_, refl, omega arith)

-- The two outcomes of `operator Buffer()`.
abbrev pub ToBufferCases : BufferList → Type 0
ToBufferCases l =
    ((b : Buffer) × (to_buffer l ≡ ok b) × (Buffer.str b ≡ concatenate l) × (length l.buffers ≤ 1))
    ⊎ ((e : Exception) × (to_buffer l ≡ throw e) × (1 < length l.buffers))

-- A list converts to a Buffer exactly if it has at most one, which then shows all its bytes.
-- With two or more the conversion throws.
pub to_buffer_cases : (l : BufferList) → ToBufferCases l
unfolding to_buffer
to_buffer_cases l = rw (concatenate-contents l) (to_buffer_of l.buffers)
