-- ===== src/Submissions/Validate.antt =====
-- `validateSubmission` and `verifySignature` of pkgs/submissions/dequeuer.go.
pub mod Panics
use snapshot_sequencer_valid.Base.{ℕ, Text, is_empty, ◌&&◌, nat_eqb, ltb, length, if◌then◌else◌}
use snapshot_sequencer_valid.Submissions.Types.{
  SnapshotSubmission, Address, Outcome, ok, err, panic, Error, heartbeat, empty_cid, empty_project,
  empty_market, empty_signature,
}
use snapshot_sequencer_valid.Submissions.Eip712.{Ethereum, Eip712Verifier, verify}

unfoldable pub validate_submission : SnapshotSubmission → Outcome (Unit {0})
validate_submission s =
    if nat_eqb s.request.epoch_id 0 && is_empty s.request.snapshot_cid
    then err heartbeat
    else if is_empty s.request.snapshot_cid
    then err empty_cid
    else if is_empty s.request.project_id
    then err empty_project
    else if is_empty s.data_market
    then err empty_market
    else ok tt

-- A failed check is logged with the first 20 bytes of the signature.
unfoldable pub report_failure : SnapshotSubmission → Outcome Address → Outcome Address
report_failure s (ok a) = ok a
report_failure s (err e) = if ltb (length s.signature) 20 then panic else err e
report_failure s panic = panic

unfoldable pub verify_signature : Ethereum → Eip712Verifier → SnapshotSubmission → Outcome Address
unfolding report_failure
verify_signature eth v s =
    if nat_eqb s.request.epoch_id 0 && is_empty s.request.snapshot_cid
    then ok 0
    else if is_empty s.signature
    then err empty_signature
    else report_failure s (verify eth v s.request s.signature)
