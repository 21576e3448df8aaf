-- ===== src/Consensus/Epochs/Broadcast.antt =====
-- What a validator's own broadcast adds to the votes of an epoch.
use snapshot_sequencer_valid.Base.{
  text_eqb, ℕ, Text, text_eq, none, [], ◌∷◌, Map, get, ◌≡◌, refl, arith, map,
}
use snapshot_sequencer_valid.Json.{Fields, num, obj, end, field, null, entries}
use snapshot_sequencer_valid.Consensus.Types.{
  FinalizedBatch, ValidatorBatch, MetaValue, decoded, whole, counts,
}
use snapshot_sequencer_valid.Consensus.Aggregate.{declared, named_cid}
use snapshot_sequencer_valid.Consensus.Aggregate.Counts.{ballots, metadata_ballots}
use snapshot_sequencer_valid.Consensus.Epochs.{own_batch}

fields_of : Map Text ℕ → Fields
fields_of [] = end
fields_of ((k, n) ∷ m) = field k (num n) (fields_of m)

-- What a peer's json.Unmarshal makes of a value that json.Marshal has written; a nil map is null.
unfoldable pub on_wire : MetaValue → MetaValue
unfolding fields_of
on_wire (decoded j) = decoded j
on_wire (whole n) = decoded (num n)
on_wire (counts []) = decoded null
on_wire (counts (e ∷ m)) = decoded (obj (fields_of (e ∷ m)))

-- The batch as a peer decodes it.
unfoldable pub received : ValidatorBatch → ValidatorBatch
unfolding on_wire
received b = record b { meta_data = map (λ e. (e.0, on_wire e.1)) b.meta_data; batch_data = none }

fields_of-ballots : (p c : Text) (m : Map Text ℕ) → metadata_ballots p c (entries (fields_of m)) ≡ 0
unfolding fields_of named_cid
fields_of-ballots p c [] = refl
fields_of-ballots p c ((k, n) ∷ m) = omega (arith, fields_of-ballots p c m)

-- A batch as BroadcastFinalizedBatch makes it names no CID for any project, neither at the validator
-- itself nor at a peer that decodes it, until the batch is loaded from IPFS: its votes are numbers.
pub own_batch-ballots :
    (sequencer peer : Text) (d : FinalizedBatch) (cid p c : Text)
    → (ballots p c (own_batch sequencer peer d cid) ≡ 0)
      × (ballots p c (received (own_batch sequencer peer d cid)) ≡ 0)
unfolding ballots declared own_batch received on_wire get text_eqb
own_batch-ballots sequencer peer d cid p c = (refl, wire d.project_votes)
  where
    wire :
        (m : Map Text ℕ)
        → ballots p c (received (own_batch sequencer peer (record d { project_votes = m }) cid)) ≡ 0
    wire [] = refl
    wire (e ∷ m) = omega (arith, fields_of-ballots p c (e ∷ m))
