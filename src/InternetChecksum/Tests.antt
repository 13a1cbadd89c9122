-- ===== src/InternetChecksum/Tests.antt =====
-- The checksum on small inputs: the header of RFC 1071 and a packet of eight bytes.
use network_project_cs.Common.{
  List, ◌+◌, ◌%◌, ◌^◌, ◌<◌, ◌+◌, ◌-◌, ◌/◌, ◌%◌, ◌^◌, ◌≡◌, ◌≢◌, ◌↔◌, refl, [], ◌∷◌, Bytes, arith,
}
use network_project_cs.InternetChecksum.{init, add, value}
use network_project_cs.InternetChecksum.Sums.{
  word_sum, add-word_sum, add_all, joined, add_all-word_sum,
}
use network_project_cs.InternetChecksum.Folding.{residue, value-residue, value-eq-zero}
use network_project_cs.InternetChecksum.Verification.{
  checksum, packet, checksum_verifies, checksum_detects,
}

abbrev octets : Bytes
octets = 0x00 ∷ 0x01 ∷ 0xf2 ∷ 0x03 ∷ 0xf4 ∷ 0xf5 ∷ 0xf6 ∷ 0xf7 ∷ []

rfc_1071 : checksum 0 octets ≡ 0x220d
unfolding init add value
rfc_1071 = refl

abbrev front : Bytes
front = 0x45 ∷ 0x00 ∷ []

abbrev back : Bytes
back = 0xc0 ∷ 0xa8 ∷ 0x01 ∷ []

add-word_sum_example : (add (init 7) octets).sum ≡ (7 + word_sum octets) % 2 ^ 32
add-word_sum_example = add-word_sum 7 octets (omega arith) (omega arith)

value-eq-zero_example :
    (value (init 65535) ≡ 0) ↔ (((init 65535).sum ≢ 0) × ((init 65535).sum % 65535 ≡ 0))
unfolding init
value-eq-zero_example = value-eq-zero (init 65535) (omega arith)

value-residue_example :
    (value (init 65535) ≡ 65535 - residue (init 65535).sum) × (value (init 65535) < 2 ^ 16)
unfolding init
value-residue_example = value-residue (init 65535) (omega arith)

checksum_verifies_example :
    let c = checksum 17 (packet front 0 0 back) in
    checksum 17 (packet front (c / 256) (c % 256) back) ≡ 0
unfolding word_sum
checksum_verifies_example =
    checksum_verifies 17 front back (omega arith) (omega arith) (omega arith) (omega arith)

checksum_of_front : checksum 17 (packet front 0xf9 0x45 back) ≡ 0
unfolding init add value
checksum_of_front = refl

checksum_detects_example : checksum 17 (packet front 0xf9 0x44 back) ≢ 0
unfolding word_sum
checksum_detects_example =
    checksum_detects 17 front back (omega arith) (omega arith) (omega arith) (omega arith) 0xf9 0x45
      0xf9 0x44 (omega arith) (omega arith) (omega arith) (omega arith) (omega arith)
      checksum_of_front

-- Pieces of one, two and one bytes.
abbrev pieces : List Bytes
pieces = (1 ∷ []) ∷ (2 ∷ 3 ∷ []) ∷ (4 ∷ []) ∷ []

add_all-word_sum_example : (add_all (init 7) pieces).sum ≡ (7 + word_sum (joined pieces)) % 2 ^ 32
add_all-word_sum_example = add_all-word_sum 7 pieces (omega arith) (omega arith)

as_words : word_sum (joined pieces) ≡ 0x0102 + 0x0304
unfolding word_sum
as_words = refl
