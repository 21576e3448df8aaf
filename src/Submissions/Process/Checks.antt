-- ===== src/Submissions/Process/Checks.antt =====
-- What `ProcessSubmission` guarantees: what a failure leaves alone, whom an accepted submission comes
-- from, and the invariants of its state.
use snapshot_sequencer_valid.Base.{
  Option-cases, ℕ, Text, text_eq, true, false, not, ◌&&◌, some, ◌≡◌, ◌≢◌, refl, arith, inl, inr,
  nat_eqb, is_empty, Bool-cases,
}
use snapshot_sequencer_valid.Redis.Command.{Reply, found, missing, failed}
use snapshot_sequencer_valid.Submissions.Types.{
  bind-eq-ok, SnapshotSubmission, Address, ok, SlotInfo,
}
use snapshot_sequencer_valid.Submissions.Eip712.{verify, Ethereum}
use snapshot_sequencer_valid.Submissions.Slots.{
  check_reply, SlotValidator, validate_snapshotter_for_slot, slot_key,
}
use snapshot_sequencer_valid.Submissions.Validate.{validate_submission, verify_signature}
use snapshot_sequencer_valid.Submissions.Dequeuer.{Float64, Dequeuer}
use snapshot_sequencer_valid.Submissions.Process.{check, slot_check}

-- The signer of an accepted submission: the slot that the submission names is in the cache, active,
-- and registered to the address.
pub record IsRegistered (sv : SlotValidator) (slot : ℕ) (signer : Address) : Type 0 where
  pub stored : Text
  pub info : SlotInfo
  pub cached : sv.fetch (slot_key slot) ≡ found stored
  pub decoded : sv.decode stored ≡ some info
  pub is_active : info.active ≡ true
  pub owned : info.snapshotter_address ≡ signer

reply-IsRegistered :
    (sv : SlotValidator) (slot : ℕ) (signer : Address) (r : Reply Text)
    → sv.fetch (slot_key slot) ≡ r
    → check_reply sv signer r ≡ ok tt
    → IsRegistered sv slot signer
unfolding check_reply
reply-IsRegistered sv slot signer missing e h = cc
reply-IsRegistered sv slot signer failed e h = cc
reply-IsRegistered sv slot signer (found t) e h = elim (Option-cases (sv.decode t)) [
  | inl bad ↦ absurd (ground arith)
  | inr (info, good) ↦ record {
    stored = t;
    info = info;
    cached = e;
    decoded = good;
    is_active = ground arith;
    owned = ground arith;
  }
]

validate-IsRegistered :
    (sv : SlotValidator) (slot : ℕ) (signer : Address)
    → validate_snapshotter_for_slot sv slot signer ≡ ok tt
    → IsRegistered sv slot signer
unfolding validate_snapshotter_for_slot
validate-IsRegistered sv slot signer h =
    reply-IsRegistered sv slot signer (sv.fetch (slot_key slot)) refl h

module _ (f : Float64) (eth : Ethereum) where
  signed :
      (d : Dequeuer f) (s : SnapshotSubmission) (a : Address)
      → validate_submission s ≡ ok tt
      → verify_signature eth d.verifier s ≡ ok a
      → (is_empty s.request.snapshot_cid ≡ false)
        × (is_empty s.request.project_id ≡ false)
        × (is_empty s.data_market ≡ false)
        × (verify eth d.verifier s.request s.signature ≡ ok a)
  unfolding validate_submission verify_signature
  signed d s a v h = ground arith

  slot_check-IsRegistered :
      (d : Dequeuer f) (s : SnapshotSubmission) (a b : Address)
      → slot_check f eth d s b ≡ ok a
      → (a ≡ b)
        × (d.enable_slot_validation ≡ true
            → a ≢ 0
            → IsRegistered d.slot_validator s.request.slot_id a)
  unfolding slot_check
  slot_check-IsRegistered d s a b h =
      elim (Bool-cases (d.enable_slot_validation && not (nat_eqb b 0))) [
        | inl checked ↦
            let (_, valid, same) =
              bind-eq-ok (validate_snapshotter_for_slot d.slot_validator s.request.slot_id b)
                (λ _. ok b) (rw checked at h) in
            let e : a ≡ b = cc in
            (e, λ _ _. rw e (validate-IsRegistered d.slot_validator s.request.slot_id b valid))
        | inr unchecked ↦ let e : a ≡ b = ground arith in (e, λ on nonzero. absurd (ground arith))
      ]

  -- What passes the checks has a CID, a project and a data market, and a signer; with slot validation
  -- on, the signer holds the slot, unless the recovered address is zero.
  pub check-authentic :
      (d : Dequeuer f) (s : SnapshotSubmission) (a : Address)
      → check f eth d s ≡ ok a
      → (is_empty s.request.snapshot_cid ≡ false)
        × (is_empty s.request.project_id ≡ false)
        × (is_empty s.data_market ≡ false)
        × (verify eth d.verifier s.request s.signature ≡ ok a)
        × (d.enable_slot_validation ≡ true
            → a ≢ 0
            → IsRegistered d.slot_validator s.request.slot_id a)
  unfolding check
  check-authentic d s a h =
      let (_, valid, rest) = bind-eq-ok (validate_submission s) _ h in
      let (b, good, slot) =
        bind-eq-ok (verify_signature eth d.verifier s) (slot_check f eth d s) rest in
      let (e, registered) = slot_check-IsRegistered d s a b slot in
      let (cid, project, market, signer) = signed d s a valid (rw e good) in
      (cid, project, market, signer, registered)
