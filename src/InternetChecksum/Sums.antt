-- ===== src/InternetChecksum/Sums.antt =====
-- What `add` sums up: the 16-bit words of the data, the first byte of each the high one.
use network_project_cs.Common.{
  sym, List, ℕ, ◌+◌, ◌*◌, ◌%◌, ◌^◌, ◌≤◌, ◌<◌, ◌≡◌, refl, ap, ◌∙◌, Bool, true, false, not, [], ◌∷◌,
  ◌++◌, Bytes, IsBytes, arith, length, if◌then◌else◌,
}
use network_project_cs.InternetChecksum.{InternetChecksum, init, add_byte, add}

-- The sum of the bytes, each one at an even place counted 256 times.
unfoldable pub weighted : Bool → Bytes → ℕ
weighted odd [] = 0
weighted odd (c ∷ cs) = (if odd then c else c * 256) + weighted (not odd) cs

-- The sum of the words of RFC 1071; a last single byte is followed by a zero.
unfoldable pub word_sum : Bytes → ℕ
word_sum [] = 0
word_sum (a ∷ []) = a * 256
word_sum (a ∷ b ∷ cs) = a * 256 + b + word_sum cs

pub weighted-word_sum : (cs : Bytes) → weighted false cs ≡ word_sum cs
unfolding weighted word_sum
weighted-word_sum [] = refl
weighted-word_sum (a ∷ []) = omega arith
weighted-word_sum (a ∷ b ∷ cs) = omega (arith, weighted-word_sum cs)

-- The place, even or odd, after `cs`.
unfoldable pub flips : Bool → Bytes → Bool
flips odd [] = odd
flips odd (c ∷ cs) = flips (not odd) cs

pub flips_even : (odd : Bool) (xs : Bytes) → length xs % 2 ≡ 0 → flips odd xs ≡ odd
unfolding flips
flips_even odd [] h = refl
flips_even odd (x ∷ []) h = absurd (omega arith)
flips_even true (x ∷ y ∷ xs) h = flips_even true xs (omega arith)
flips_even false (x ∷ y ∷ xs) h = flips_even false xs (omega arith)

pub weighted-append :
    (odd : Bool) (xs ys : Bytes)
    → weighted odd (xs ++ ys) ≡ weighted odd xs + weighted (flips odd xs) ys
unfolding weighted flips
weighted-append odd [] ys = omega arith
weighted-append odd (x ∷ xs) ys = omega (arith, weighted-append (not odd) xs ys)

pub weighted-le : (odd : Bool) (cs : Bytes) → IsBytes cs → weighted odd cs ≤ 65280 * length cs
unfolding weighted
weighted-le odd [] h = omega arith
weighted-le true (c ∷ cs) h = omega (arith, weighted-le false cs h.1, h.0)
weighted-le false (c ∷ cs) h = omega (arith, weighted-le true cs h.1, h.0)

add_byte-sum :
    (k : InternetChecksum) (c : ℕ)
    → c < 256
    → ((add_byte k c).sum ≡ (k.sum + (if k.parity then c else c * 256)) % 2 ^ 32)
      × ((add_byte k c).parity ≡ not k.parity)
unfolding add_byte
add_byte-sum k c h = ground arith

-- `add` adds the words to `_sum`, modulo its width.
pub add-weighted :
    (k : InternetChecksum) (cs : Bytes)
    → IsBytes cs
    → k.sum < 2 ^ 32
    → ((add k cs).sum ≡ (k.sum + weighted k.parity cs) % 2 ^ 32)
      × ((add k cs).parity ≡ flips k.parity cs)
unfolding add weighted flips
add-weighted k [] h small = (omega arith, refl)
add-weighted k (c ∷ cs) h small =
    let (sum, parity) = add_byte-sum k c h.0 in
    let (sums, parities) = add-weighted (add_byte k c) cs h.1 (rw sum (omega arith)) in
    (
      sums ∙ ap (λ p. ((add_byte k c).sum + weighted p cs) % 2 ^ 32) parity ∙ omega (arith, sum),
      parities ∙ ap (λ p. flips p cs) parity,
    )

add-append : (k : InternetChecksum) (xs ys : Bytes) → add k (xs ++ ys) ≡ add (add k xs) ys
unfolding add
add-append k [] ys = refl
add-append k (x ∷ xs) ys = add-append (add_byte k x) xs ys

-- From an initial sum, `add` gives the sum of the data's 16-bit words in network byte order,
-- modulo the width of `_sum`.
pub add-word_sum :
    (initial_sum : ℕ) (cs : Bytes)
    → IsBytes cs
    → initial_sum < 2 ^ 32
    → (add (init initial_sum) cs).sum ≡ (initial_sum + word_sum cs) % 2 ^ 32
add-word_sum initial_sum cs h small =
    (add-weighted (init initial_sum) cs h (unfold init in small)).0 ∙ start
  where
    start :
        ((init initial_sum).sum + weighted (init initial_sum).parity cs) % 2 ^ 32
        ≡ (initial_sum + word_sum cs) % 2 ^ 32
    start = unfold init in ap (λ (w : ℕ). (initial_sum + w) % 2 ^ 32) (weighted-word_sum cs)

-- One piece of data after another, and the data as a whole.
abbrev pub add_all : InternetChecksum → List Bytes → InternetChecksum
add_all k [] = k
add_all k (piece ∷ pieces) = add_all (add k piece) pieces

abbrev pub joined : List Bytes → Bytes
joined [] = []
joined (piece ∷ pieces) = piece ++ joined pieces

add_all-joined :
    (k : InternetChecksum) (pieces : List Bytes) → add_all k pieces ≡ add k (joined pieces)
unfolding add
add_all-joined k [] = refl
add_all-joined k (piece ∷ pieces) =
    add_all-joined (add k piece) pieces ∙ sym (add-append k piece (joined pieces))

-- Data may be added in any pieces, of odd lengths too: the sum is that of the 16-bit words of the
-- data as a whole, over the initial sum and modulo the width of `_sum`.
pub add_all-word_sum :
    (initial_sum : ℕ) (pieces : List Bytes)
    → IsBytes (joined pieces)
    → initial_sum < 2 ^ 32
    → (add_all (init initial_sum) pieces).sum ≡ (initial_sum + word_sum (joined pieces)) % 2 ^ 32
add_all-word_sum initial_sum pieces h small =
    ap (λ k. k.sum) (add_all-joined (init initial_sum) pieces)
    ∙ add-word_sum initial_sum (joined pieces) h small
