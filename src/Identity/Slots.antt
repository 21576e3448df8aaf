-- ===== src/Identity/Slots.antt =====
-- Slots in Redis, as they are written and read.
use snapshot_sequencer_valid.Base.{
  has, Distinct, ℕ, Text, text_eq, bytes, decimal, is_empty, Bool-cases, inl, inr, Option, none,
  some, [], ◌∷◌, Map, get, if◌then◌else◌, ◌≡◌, refl, ap, ◌∙◌,
}
use snapshot_sequencer_valid.Base.Strings.{text_eqb}
use snapshot_sequencer_valid.Votes.{or_nil}
use snapshot_sequencer_valid.Redis.Hash.{set_fields, set_fields-get}
use snapshot_sequencer_valid.Identity.{
  Libraries, SlotInfo, Store, ok, slot_fields, slot_key, parse_slot, read_slot, get_slot_info,
  field_or,
}

-- The peer's ID in the hash of a slot, empty where there is none.
abbrev pub peer_in : Map Text Text → Text
peer_in old = or_nil (get (bytes "libp2p_peer_id") old)

module _ (lib : Libraries) where
  open lib use {hex_to_address, address_hex, scan}

  parse_slot-read :
      (market name v : Text) (slot : ℕ) (fields : Map Text Text)
      → get name fields ≡ some v
      → parse_slot lib market slot (some fields) ≡ ok (read_slot lib market slot fields)
  unfolding parse_slot get
  parse_slot-read market name v slot [] h = absurd (cc)
  parse_slot-read market name v slot (f ∷ fields) h = refl

  slot_fields-Distinct : (now : ℕ) (info : SlotInfo) → Distinct (slot_fields lib now info)
  unfolding slot_fields has text_eqb
  slot_fields-Distinct now info = elim (Bool-cases (is_empty info.lib_p2p_peer_id)) [
    | inl legacy ↦ rw legacy (refl, (refl, (refl, (refl, (refl, tt)))))
    | inr peer ↦ rw peer (refl, (refl, (refl, (refl, (refl, (refl, tt))))))
  ]

  hash : ℕ → SlotInfo → Map Text Text → Map Text Text
  unfolding set_fields slot_fields
  hash now info old = set_fields (slot_fields lib now info) old

  hash-address :
      (now : ℕ) (info : SlotInfo) (old : Map Text Text)
      → get (bytes "snapshotter_address") (hash now info old)
        ≡ some (address_hex info.snapshotter_address)
  unfolding hash slot_fields get text_eqb
  hash-address now info old =
      set_fields-get _ (slot_fields lib now info) old (slot_fields-Distinct now info)

  hash-epoch :
      (now : ℕ) (info : SlotInfo) (old : Map Text Text)
      → get (bytes "epoch_id") (hash now info old) ≡ some (decimal info.epoch_id)
  unfolding hash slot_fields get text_eqb
  hash-epoch now info old =
      set_fields-get _ (slot_fields lib now info) old (slot_fields-Distinct now info)

  peer_after : SlotInfo → Map Text Text → Text
  peer_after info old = if is_empty info.lib_p2p_peer_id then peer_in old else info.lib_p2p_peer_id

  field_or-nil : (o : Option Text) → field_or lib [] (λ s. s) o ≡ or_nil o
  unfolding field_or
  field_or-nil none = refl
  field_or-nil (some t) = refl

  hash-peer :
      (now : ℕ) (info : SlotInfo) (old : Map Text Text)
      → field_or lib [] (λ s. s) (get (bytes "libp2p_peer_id") (hash now info old))
        ≡ peer_after info old
  unfolding hash slot_fields get text_eqb field_or peer_after
  hash-peer now info old =
      ap (field_or lib [] (λ s. s)) (
        set_fields-get (bytes "libp2p_peer_id") (slot_fields lib now info) old
          (slot_fields-Distinct now info))
      ∙ elim (Bool-cases (is_empty info.lib_p2p_peer_id)) [
        | inl legacy ↦ rw legacy (field_or-nil (get (bytes "libp2p_peer_id") old))
        | inr peer ↦ rw peer refl
      ]

  slot_read :
      (market : Text) (info : SlotInfo) (old h : Map Text Text)
      → hex_to_address (address_hex info.snapshotter_address) ≡ info.snapshotter_address
      → scan (decimal info.epoch_id) ≡ info.epoch_id
      → get (bytes "snapshotter_address") h ≡ some (address_hex info.snapshotter_address)
      → get (bytes "epoch_id") h ≡ some (decimal info.epoch_id)
      → field_or lib [] (λ s. s) (get (bytes "libp2p_peer_id") h) ≡ peer_after info old
      → read_slot lib market info.slot_id h
        ≡ record info { data_market = market; lib_p2p_peer_id = peer_after info old }
  unfolding read_slot field_or
  slot_read market info old h address epoch a e p = rw (a, e, address, epoch, p) refl

  -- A slot that was cached is read back, whatever its hash was before. Only a peer's ID that was there stays
  -- where the slot has none now. With a hash of Redis as it is after the HMSET, an address that is read
  -- from its text, and a number that is read from its digits.
  pub cached_slot_read :
      (s : Store) (now : ℕ) (market : Text) (info : SlotInfo) (old : Map Text Text)
      → hex_to_address (address_hex info.snapshotter_address) ≡ info.snapshotter_address
      → scan (decimal info.epoch_id) ≡ info.epoch_id
      → s.hgetall (slot_key lib market info.slot_id)
        ≡ some (set_fields (slot_fields lib now info) old)
      → get_slot_info lib s market info.slot_id
        ≡ ok (record info {
          data_market = market;
          lib_p2p_peer_id =
              if is_empty info.lib_p2p_peer_id then peer_in old else info.lib_p2p_peer_id;
        })
  unfolding get_slot_info read_slot field_or hash peer_after
  cached_slot_read s now market info old address epoch stored = rw stored (
      parse_slot-read market (bytes "snapshotter_address") _ info.slot_id (hash now info old)
        (hash-address now info old)
      ∙ ap ok (
          slot_read market info old (hash now info old) address epoch (hash-address now info old)
            (hash-epoch now info old) (hash-peer now info old)))
