-- ===== src/InternetChecksum/Folding.antt =====
-- The folding loop of `value`, in closed form.
use mathlib.Core.Logic.{dif_pos, dif_neg}
use mathlib.Core.WellFounded.{Acc}
use native.Mathlib.Bridge.{le_prop}
use network_project_cs.Common.{
  ℕ, ◌+◌, ◌-◌, ◌%◌, ◌^◌, ◌≤◌, ◌<◌, ◌≡◌, ◌≢◌, ◌↔◌, ◌∙◌, arith, dec_lt, lt_wf, ◌==◌, if◌then◌else◌,
}
use network_project_cs.InternetChecksum.{InternetChecksum, fold_once, fold_acc, fold, value}

-- The representative of `n` modulo 65535 in 1 .. 65535; 0 stands for itself alone.
abbrev pub residue : ℕ → ℕ
residue n = if n == 0 then 0 else ((n - 1) % 65535 + 1)

residue_small : (n : ℕ) → n ≤ 0xffff → n ≡ residue n
residue_small n h = ground arith

residue-fold_once : (n : ℕ) → 0xffff < n → n < 2 ^ 32 → residue (fold_once n) ≡ residue n
residue-fold_once n h small = ground arith

fold_acc-residue : (n : ℕ) (w : Acc ◌<◌ n) → n < 2 ^ 32 → fold_acc n w ≡ residue n
unfolding fold_acc
fold_acc-residue n (Acc.intro _ smaller) small = elim (dec_lt 0xffff n) [
  | yes p ↦ rw (dif_pos (dec_lt 0xffff n) le_prop p) (
      fold_acc-residue (fold_once n) (smaller (fold_once n) (omega arith)) (omega arith)
      ∙ residue-fold_once n p small)
  | no p ↦ rw (dif_neg (dec_lt 0xffff n) p) (residue_small n (omega arith))
]

-- The loop ends with the number's residue modulo 65535.
pub fold-residue : (n : ℕ) → n < 2 ^ 32 → fold n ≡ residue n
unfolding fold
fold-residue n small = fold_acc-residue n (lt_wf.apply n) small

-- `value` is the complement of the residue of the sum modulo 65535, where a sum other than 0 has
-- its residue in 1 .. 65535; so it fits 16 bits.
pub value-residue :
    (k : InternetChecksum) → k.sum < 2 ^ 32 → (value k ≡ 65535 - residue k.sum) × (value k < 2 ^ 16)
unfolding value
value-residue k small = ground (arith, fold-residue k.sum small)

-- A checksum is 0 exactly when the sum is a positive multiple of 65535.
pub value-eq-zero :
    (k : InternetChecksum) → k.sum < 2 ^ 32 → (value k ≡ 0) ↔ ((k.sum ≢ 0) × (k.sum % 65535 ≡ 0))
value-eq-zero k small = ground (arith, value-residue k small)
