-- ===== src/Identity/Keys.antt =====
-- The keys of the cache of verified identities.
use snapshot_sequencer_valid.Base.{
  ◌<◌, ◌^◌, zero, suc, ◌<◌, nat_eqb_iff, ℕ, Text, text_eq, decimal, decimal-injective,
  decimal_below, some, List, [], ◌∷◌, get, ◌≡◌, sym, ap, ◌∙◌, All, arith,
}
use snapshot_sequencer_valid.Redis.Join.{split, Plain, split-join}
use snapshot_sequencer_valid.Submissions.Types.{Address}
use snapshot_sequencer_valid.Identity.{Libraries, VerifiedIdentity, IdentityVerifier, cache_key}

-- An address is a number of 160 bits, also one that is recovered; the texts of addresses and of peers differ
-- for different ones, and have no ':'.
pub record IsLawful (lib : Libraries) : Type 0 where
  pub recovered : (h s : Text) (a : Address) → lib.recover h s ≡ some a → a < 2 ^ 160
  pub hex_back : (a : Address) → a < 2 ^ 160 → lib.hex_to_address (lib.address_hex a) ≡ a
  pub hex_plain : (a : Address) → a < 2 ^ 160 → Plain (lib.address_hex a)
  pub peer_injective : (p q : Text) → lib.encode_peer p ≡ lib.encode_peer q → p ≡ q
  pub peer_plain : (p : Text) → Plain (lib.encode_peer p)

pub below-Plain : (s : Text) → All (λ c. c < 58) s → Plain s
below-Plain [] h = tt
below-Plain (c ∷ s) h = (ground (arith, nat_eqb_iff c 58), below-Plain s h.1)

segment : ℕ → List Text → Text
segment n [] = []
segment zero (s ∷ ss) = s
segment (suc n) (s ∷ ss) = segment n ss

-- An identity of this signer, slot and sender.
abbrev pub IsFor : Address → ℕ → Text → VerifiedIdentity → Type 0
IsFor a slot sender id =
    (id.snapshotter_address ≡ a) × (id.slot_id ≡ slot) × (id.lib_p2p_peer_id ≡ sender)

module _ (lib : Libraries) where
  unfoldable pub own_key : VerifiedIdentity → Text
  unfolding cache_key
  own_key id = cache_key lib id.snapshotter_address id.slot_id id.lib_p2p_peer_id

  -- The key is that of the identity, whose address has 160 bits.
  unfoldable pub IsOwn : Text → VerifiedIdentity → Type 0
  unfolding own_key
  IsOwn key id = (key ≡ own_key id) × (id.snapshotter_address < 2 ^ 160)

  -- Each entry of the cache stands under the key of its own signer, slot and peer.
  unfoldable pub IsKeyed : IdentityVerifier → Type 0
  unfolding IsOwn
  IsKeyed v =
      (key : Text) (id : VerifiedIdentity) → get key v.verified_cache ≡ some id → IsOwn key id

  split_key :
      (a : Address) (slot : ℕ) (peer : Text)
      → IsLawful lib
      → a < 2 ^ 160
      → split (cache_key lib a slot peer)
        ≡ lib.address_hex a ∷ decimal slot ∷ lib.encode_peer peer ∷ []
  unfolding cache_key
  split_key a slot peer law small =
      split-join (lib.address_hex a) (decimal slot ∷ lib.encode_peer peer ∷ []) (
        law.hex_plain a small,
        (below-Plain (decimal slot) (decimal_below slot), (law.peer_plain peer, tt)),
      )

  pub cache_key-injective :
      (a b : Address) (slot slot' : ℕ) (p q : Text)
      → IsLawful lib
      → a < 2 ^ 160
      → b < 2 ^ 160
      → cache_key lib a slot p ≡ cache_key lib b slot' q
      → (a ≡ b) × (slot ≡ slot') × (p ≡ q)
  unfolding segment
  cache_key-injective a b slot slot' p q law small small' e =
      let same = sym (split_key a slot p law small) ∙ ap split e ∙ split_key b slot' q law small' in
      (
        sym (law.hex_back a small)
            ∙ ap lib.hex_to_address (ap (segment 0) same)
            ∙ law.hex_back b small',
        decimal-injective slot slot' (ap (segment 1) same),
        law.peer_injective p q (ap (segment 2) same),
      )
