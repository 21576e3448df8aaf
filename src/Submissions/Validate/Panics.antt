-- ===== src/Submissions/Validate/Panics.antt =====
-- When the signature check of the dequeuer stops the goroutine.
use snapshot_sequencer_valid.Base.{
  ℕ, zero, suc, ◌<◌, Text, List, [], ◌∷◌, ◌≡◌, ◌≢◌, ◌↔◌, refl, arith, length, some, is_empty, ◌&&◌,
  false, nat_eqb, ltb, Bool-cases, inl, inr,
}
use snapshot_sequencer_valid.Submissions.Types.{
  signature_length, SnapshotSubmission, SnapshotRequest, Outcome, ok, err, panic, ◌>>=◌,
}
use snapshot_sequencer_valid.Submissions.Eip712.{
  Ethereum, Eip712Verifier, verify, hash_request, recover_address, byte_at,
}
use snapshot_sequencer_valid.Submissions.Validate.{verify_signature}

byte_at-some : (i : ℕ) (bs : List ℕ) → i < length bs → (b : ℕ) × (byte_at i bs ≡ some b)
unfolding byte_at
byte_at-some i [] h = absurd (omega arith)
byte_at-some zero (b ∷ bs) h = (b, refl)
byte_at-some (suc i) (b ∷ bs) h = byte_at-some i bs (omega arith)

bind-ne-panic {ℓ κ} :
    {A : Type ℓ} {B : Type κ} (m : Outcome A) (f : A → Outcome B)
    → m ≢ panic
    → ((a : A) → f a ≢ panic)
    → (m >>= f) ≢ panic
bind-ne-panic (ok a) f h k = k a
bind-ne-panic (err e) f h k = λ p. cc
bind-ne-panic panic f h k = λ p. h refl

module _ (eth : Ethereum) where
  hash_request-ne-panic : (v : Eip712Verifier) (r : SnapshotRequest) → hash_request eth v r ≢ panic
  unfolding hash_request
  hash_request-ne-panic v r = ground arith

  recover_address-ne-panic : (hash sig : List ℕ) → recover_address eth hash sig ≢ panic
  unfolding recover_address
  recover_address-ne-panic hash sig = elim (Bool-cases (nat_eqb (length sig) 65)) [
    | inl whole ↦ let (b, e) = byte_at-some 64 sig (ground arith) in ground (arith, e)
    | inr short ↦ ground arith
  ]

  verify-ne-panic : (v : Eip712Verifier) (r : SnapshotRequest) (s : Text) → verify eth v r s ≢ panic
  unfolding verify
  verify-ne-panic v r s = elim (Bool-cases (nat_eqb (length (eth.hex_to_bytes s)) 65)) [
    | inl whole ↦
        let long : ltb (length s) 20 ≡ false = ground (arith, eth.hex_to_bytes_size s) in
        rw (whole, long)
          (bind-ne-panic (hash_request eth v r) (λ h. recover_address eth h (eth.hex_to_bytes s))
            (hash_request-ne-panic v r) (λ h. recover_address-ne-panic h (eth.hex_to_bytes s)))
    | inr short ↦ rw short (λ p. cc)
  ]

  -- A text of fewer than 130 digits is no signature.
  verify_short :
      (v : Eip712Verifier) (r : SnapshotRequest) (s : Text)
      → length s < 130
      → verify eth v r s ≡ err signature_length
  unfolding verify
  verify_short v r s h = ground (arith, eth.hex_to_bytes_size s)

  panics :
      (v : Eip712Verifier) (s : SnapshotSubmission)
      → verify_signature eth v s ≡ panic
      → ((nat_eqb s.request.epoch_id 0 && is_empty s.request.snapshot_cid) ≡ false)
        × (is_empty s.signature ≡ false)
        × (length s.signature < 20)
  unfolding verify_signature
  panics v s h = ground (arith, verify-ne-panic v s.request s.signature)

  short_panics :
      (v : Eip712Verifier) (s : SnapshotSubmission)
      → (nat_eqb s.request.epoch_id 0 && is_empty s.request.snapshot_cid) ≡ false
      → is_empty s.signature ≡ false
      → length s.signature < 20
      → verify_signature eth v s ≡ panic
  unfolding verify_signature
  short_panics v s h k l = ground (arith, verify_short v s.request s.signature)

  -- The signature check stops the goroutine by a slice out of bounds exactly for a submission that is
  -- no heartbeat and whose signature is not empty and shorter than 20 bytes.
  pub verify_signature_panics_iff :
      (v : Eip712Verifier) (s : SnapshotSubmission)
      → (verify_signature eth v s ≡ panic) ↔ (
          ((nat_eqb s.request.epoch_id 0 && is_empty s.request.snapshot_cid) ≡ false)
          × (is_empty s.signature ≡ false)
          × (length s.signature < 20))
  verify_signature_panics_iff v s = (panics v s, λ h. short_panics v s h.0 h.1 h.2)
