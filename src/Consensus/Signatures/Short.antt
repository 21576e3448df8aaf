-- ===== src/Consensus/Signatures/Short.antt =====
-- When the aggregation of signatures can be made.
use snapshot_sequencer_valid.Base.{
  ℕ, ◌+◌, ◌*◌, ◌<◌, ◌↔◌, none, some, List, [], ◌∷◌, length, length-append, length-hex_encode, ltb,
  take, ◌≡◌, refl, arith, Bool-cases, inl, inr, hex_encode,
}
use snapshot_sequencer_valid.Consensus.Types.{FinalizedBatch}
use snapshot_sequencer_valid.Consensus.Signatures.{combined_signatures, aggregate_signatures}

-- The bytes of all signatures.
abbrev pub signature_bytes : List FinalizedBatch → ℕ
signature_bytes [] = 0
signature_bytes (b ∷ bs) = length b.bls_signature + signature_bytes bs

length-combined_signatures :
    (bs : List FinalizedBatch) → length (combined_signatures bs) ≡ 2 * signature_bytes bs
unfolding combined_signatures
length-combined_signatures [] = omega arith
length-combined_signatures (b ∷ bs) = omega (
  arith,
  length-append (hex_encode b.bls_signature) (combined_signatures bs),
  length-hex_encode b.bls_signature,
  length-combined_signatures bs,
)

-- The aggregation of signatures is a slice out of bounds exactly where the signatures of the group
-- have fewer than 32 bytes together.
pub aggregate_signatures-none_iff :
    (bs : List FinalizedBatch) → (aggregate_signatures bs ≡ none) ↔ (signature_bytes bs < 32)
unfolding aggregate_signatures
aggregate_signatures-none_iff bs = elim (Bool-cases (ltb (length (combined_signatures bs)) 64)) [
  | inl short ↦ (λ h. ground (arith, length-combined_signatures bs), λ h. rw short refl)
  | inr long ↦ (
    λ h. let lost : some (take 64 (combined_signatures bs)) ≡ none = rw long at h in absurd (cc),
    λ h. absurd (ground (arith, length-combined_signatures bs)),
  )
]
