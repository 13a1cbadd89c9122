-- ===== src/InternetChecksum/Verification.antt =====
-- What the class is for: a packet that carries its own checksum is recognised by the value 0.
use network_project_cs.Common.{
  ℕ, ◌+◌, ◌-◌, ◌*◌, ◌/◌, ◌%◌, ◌^◌, ◌<◌, ◌≡◌, ◌≢◌, ap, ◌∙◌, false, ◌∷◌, ◌++◌, Bytes, IsBytes, arith,
  length, All-append,
}
use network_project_cs.InternetChecksum.{init, add, value}
use network_project_cs.InternetChecksum.Sums.{
  weighted, flips_even, weighted-append, weighted-word_sum, word_sum, add-weighted,
}
use network_project_cs.InternetChecksum.Folding.{residue, value-residue}

-- The checksum of `data` over an initial sum.
abbrev pub checksum : ℕ → Bytes → ℕ
checksum initial data_bytes = value (add (init initial) data_bytes)

-- A packet with the 16-bit field `hi lo` behind `before`.
abbrev pub packet : Bytes → ℕ → ℕ → Bytes → Bytes
packet before hi lo after = before ++ hi ∷ lo ∷ after

-- The words of the packet, the field among them.
packet_words :
    (before : Bytes) (hi lo : ℕ) (after : Bytes)
    → length before % 2 ≡ 0
    → weighted false (packet before hi lo after)
      ≡ weighted false (packet before 0 0 after) + hi * 256 + lo
packet_words before hi lo after even =
    omega (arith, split before hi lo after even, split before 0 0 after even)
  where
    split :
        (xs : Bytes) (a b : ℕ) (ys : Bytes)
        → length xs % 2 ≡ 0
        → weighted false (packet xs a b ys) ≡ weighted false xs + a * 256 + b + weighted false ys
    split xs a b ys e =
        weighted-append false xs (a ∷ b ∷ ys)
        ∙ ap (λ p. weighted false xs + weighted p (a ∷ b ∷ ys)) (flips_even false xs e)
        ∙ unfold weighted in omega arith

module _ (initial : ℕ) (before after : Bytes) (even : length before % 2 ≡ 0)
    (before_bytes : IsBytes before) (after_bytes : IsBytes after)
    (room : initial + word_sum (packet before 0 0 after) + 0xffff < 2 ^ 32) where
  abbrev rest_sum : ℕ
  rest_sum = initial + weighted false (packet before 0 0 after)

  rest_bound : rest_sum + 0xffff < 2 ^ 32
  rest_bound = omega (arith, weighted-word_sum (packet before 0 0 after))

  -- With room for one more word the sum does not wrap.
  packet_sum :
      (hi lo : ℕ)
      → hi < 256
      → lo < 256
      → (add (init initial) (packet before hi lo after)).sum ≡ rest_sum + hi * 256 + lo
  packet_sum hi lo h l =
      (add-weighted (init initial) (packet before hi lo after)
        (All-append _ before (hi ∷ lo ∷ after) before_bytes (h, (l, after_bytes))) start_small).0
      ∙ exact
    where
      start_small : (init initial).sum < 2 ^ 32
      start_small = unfold init in omega arith

      exact :
          ((init initial).sum + weighted (init initial).parity (packet before hi lo after)) % 2 ^ 32
          ≡ rest_sum + hi * 256 + lo
      exact = unfold init in omega (arith, packet_words before hi lo after even, rest_bound)

  checksum-residue :
      (hi lo : ℕ)
      → hi < 256
      → lo < 256
      → checksum initial (packet before hi lo after) ≡ 65535 - residue (rest_sum + hi * 256 + lo)
  checksum-residue hi lo h l =
      (value-residue (add (init initial) (packet before hi lo after))
        (omega (arith, packet_sum hi lo h l, rest_bound))).0
      ∙ ap (λ n. 65535 - residue n) (packet_sum hi lo h l)

  field_verifies :
      (c : ℕ)
      → c ≡ 65535 - residue rest_sum
      → checksum initial (packet before (c / 256) (c % 256) after) ≡ 0
  field_verifies c e =
      checksum-residue (c / 256) (c % 256) (omega arith) (omega arith) ∙ ground arith

  -- The documented use. Compute the checksum of a packet whose checksum field, at an even place,
  -- is zero; write it into the field, high byte first: then the checksum of the packet is 0.
  -- The words and the initial sum must leave room for one more word in 32 bits.
  pub checksum_verifies :
      let c = checksum initial (packet before 0 0 after) in
      checksum initial (packet before (c / 256) (c % 256) after) ≡ 0
  checksum_verifies =
      field_verifies (checksum initial (packet before 0 0 after)) (
        checksum-residue 0 0 (omega arith) (omega arith)
        ∙ ap (λ n. 65535 - residue n) (omega arith))

  -- A packet that verifies no longer does so after one word, at an even place, was replaced by one
  -- that differs from it modulo 65535. The other words and the initial sum must leave room for one
  -- word more in 32 bits.
  pub checksum_detects :
      (hi lo hi' lo' : ℕ)
      → hi < 256
      → lo < 256
      → hi' < 256
      → lo' < 256
      → (hi * 256 + lo) % 65535 ≢ (hi' * 256 + lo') % 65535
      → checksum initial (packet before hi lo after) ≡ 0
      → checksum initial (packet before hi' lo' after) ≢ 0
  checksum_detects hi lo hi' lo' h l h' l' differ verified same =
      ground (arith, checksum-residue hi lo h l, checksum-residue hi' lo' h' l')
