-- ===== src/Identity/Check.antt =====
-- The checks of a signer who is not in the cache.
use snapshot_sequencer_valid.Base.{
  ℕ, Text, text_eq, text_eqb_iff, ◌==◌, Bool, true, false, Bool-cases, inl, inr, Option, none, some,
  ◌≡◌, refl, sym, ap,
}
use snapshot_sequencer_valid.Submissions.Types.{Address}
use snapshot_sequencer_valid.Identity.{
  Libraries, VerifiedIdentity, IdentityVerifier, SlotInfo, Store, Clock, Result, ok, err,
  check_if_flagged, get_slot_info, wrong_peer, check_signer, unflagged, against_slot, verified,
}
use snapshot_sequencer_valid.Identity.Keys.{IsFor}

module _ (lib : Libraries) where
  -- What a fresh check has found: the signer is not flagged in the data market, it owns the slot there, and the
  -- sender is not another than the slot's peer.
  pub record IsChecked (s : Store) (a : Address) (slot : ℕ) (market sender : Text) : Type 0 where
    pub unflagged_signer : check_if_flagged lib s market a ≡ some false
    pub info : SlotInfo
    pub slot_found : get_slot_info lib s market slot ≡ ok info
    pub owner : lib.address_hex a ≡ lib.address_hex info.snapshotter_address
    pub sender_expected : wrong_peer lib info.lib_p2p_peer_id sender ≡ false

  module _ (s : Store) (v : IdentityVerifier) (clock : Clock) (a : Address) (slot : ℕ)
      (market sender : Text) where
    against_slot-ok :
        (info : SlotInfo) (id : VerifiedIdentity)
        → against_slot lib v clock a slot sender (ok info) ≡ ok id
        → (lib.address_hex a ≡ lib.address_hex info.snapshotter_address)
          × (wrong_peer lib info.lib_p2p_peer_id sender ≡ false)
          × (verified lib v clock a slot sender ≡ id)
    unfolding against_slot
    against_slot-ok info id h =
        elim (Bool-cases (lib.address_hex a == lib.address_hex info.snapshotter_address)) [
          | inr other ↦ let refused : err _ ≡ ok id = rw other at h in absurd (cc)
          | inl same ↦ elim (Bool-cases (wrong_peer lib info.lib_p2p_peer_id sender)) [
            | inl wrong ↦ let refused : err _ ≡ ok id = rw (same, wrong) at h in absurd (cc)
            | inr right ↦
                let e : ok _ ≡ ok id = rw (same, right) at h in
                ((text_eqb_iff _ _).0 same, right, cc)
          ]
        ]

    slot-ok :
        (r : Result SlotInfo) (id : VerifiedIdentity)
        → get_slot_info lib s market slot ≡ r
        → check_if_flagged lib s market a ≡ some false
        → against_slot lib v clock a slot sender r ≡ ok id
        → IsChecked s a slot market sender × (verified lib v clock a slot sender ≡ id)
    unfolding against_slot
    slot-ok (err e) id found clean h = absurd (cc)
    slot-ok (ok info) id found clean h =
        let (owns, expected, e) = against_slot-ok info id h in
        (
          record {
            unflagged_signer = clean;
            info = info;
            slot_found = found;
            owner = owns;
            sender_expected = expected;
          },
          e,
        )

    unflagged-ok :
        (f : Option Bool) (id : VerifiedIdentity)
        → check_if_flagged lib s market a ≡ f
        → unflagged lib s v clock a slot market sender f ≡ ok id
        → IsChecked s a slot market sender × (verified lib v clock a slot sender ≡ id)
    unfolding unflagged
    unflagged-ok none id e h = absurd (cc)
    unflagged-ok (some true) id e h = absurd (cc)
    unflagged-ok (some false) id e h = slot-ok (get_slot_info lib s market slot) id refl e h

    -- A signer passes the checks only where it is not flagged in the data market, Redis has the slot there with the
    -- signer's address, and the sender is not another than the slot's peer.
    pub check_signer-ok :
        (id : VerifiedIdentity)
        → check_signer lib s v clock a slot market sender ≡ ok id
        → IsChecked s a slot market sender × (verified lib v clock a slot sender ≡ id)
    unfolding check_signer
    check_signer-ok id h = unflagged-ok (check_if_flagged lib s market a) id refl h

    pub check_signer-IsFor :
        (id : VerifiedIdentity)
        → check_signer lib s v clock a slot market sender ≡ ok id
        → IsFor a slot sender id
    unfolding verified
    check_signer-IsFor id h =
        let e = (check_signer-ok id h).1 in
        (
          sym (ap (λ (x : VerifiedIdentity). x.snapshotter_address) e),
          sym (ap (λ (x : VerifiedIdentity). x.slot_id) e),
          sym (ap (λ (x : VerifiedIdentity). x.lib_p2p_peer_id) e),
        )
