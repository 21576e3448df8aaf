-- ===== src/Submissions/Slots.antt =====
-- pkgs/submissions/slot_validator.go. The cache is Redis, written by another service: a function
-- from keys to replies, and `decode` is json.Unmarshal into a slot.
use snapshot_sequencer_valid.Base.{
  ℕ, Text, bytes, decimal, not, Option, none, some, ◌++◌, nat_eqb, if◌then◌else◌,
}
use snapshot_sequencer_valid.Redis.Command.{Reply, found, missing, failed}
use snapshot_sequencer_valid.Submissions.Types.{
  SlotInfo, Address, Outcome, ok, err, slot_not_found, slot_fetch_failed, slot_parse_failed,
  slot_inactive, slot_mismatch,
}

pub record SlotValidator : Type 0 where
  pub fetch : Text → Reply Text
  pub decode : Text → Option SlotInfo

pub slot_key : ℕ → Text
unfolding decimal
slot_key slot = bytes "SlotInfo." ++ decimal slot

unfoldable pub check_slot : Address → Option SlotInfo → Outcome (Unit {0})
check_slot signer none = err slot_parse_failed
check_slot signer (some slot) =
    if not slot.active
    then err slot_inactive
    else if not (nat_eqb slot.snapshotter_address signer)
    then err slot_mismatch
    else ok tt

unfoldable pub check_reply : SlotValidator → Address → Reply Text → Outcome (Unit {0})
unfolding check_slot
check_reply sv signer missing = err slot_not_found
check_reply sv signer failed = err slot_fetch_failed
check_reply sv signer (found text) = check_slot signer (sv.decode text)

unfoldable pub validate_snapshotter_for_slot : SlotValidator → ℕ → Address → Outcome (Unit {0})
unfolding check_reply
validate_snapshotter_for_slot sv slot signer = check_reply sv signer (sv.fetch (slot_key slot))

snapshotter_of : Option SlotInfo → Outcome Address
snapshotter_of none = err slot_parse_failed
snapshotter_of (some slot) = ok slot.snapshotter_address

snapshotter_of_reply : SlotValidator → Reply Text → Outcome Address
unfolding snapshotter_of
snapshotter_of_reply sv missing = err slot_not_found
snapshotter_of_reply sv failed = err slot_fetch_failed
snapshotter_of_reply sv (found text) = snapshotter_of (sv.decode text)

unfoldable pub get_slot_snapshotter : SlotValidator → ℕ → Outcome Address
unfolding snapshotter_of_reply
get_slot_snapshotter sv slot = snapshotter_of_reply sv (sv.fetch (slot_key slot))
