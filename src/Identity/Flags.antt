-- ===== src/Identity/Flags.antt =====
-- What an entry of the cache does to the later calls.
use snapshot_sequencer_valid.Base.{
  ◌<◌, ltb, ℕ, Text, text_eq, text_eqb_iff, true, none, some, Map, get, get-put, put, ◌≡◌, refl, ap,
  ◌∙◌, arith,
}
use snapshot_sequencer_valid.Submissions.Types.{Address}
use snapshot_sequencer_valid.Identity.{
  unexpired, Libraries, VerifiedIdentity, IdentityVerifier, Store, Clock, Result, ok, cache_key,
  check_signer, remember, look_up, after_look_up, verify_signer,
}

module _ (lib : Libraries) where
  unexpired_entry :
      (now : ℕ) (key : Text) (v : IdentityVerifier) (id : VerifiedIdentity)
      → get key v.verified_cache ≡ some id
      → now < id.expires_at
      → look_up lib now key v ≡ (some id, v)
  unfolding look_up unexpired
  unexpired_entry now key v id e h =
      let fresh : ltb now id.expires_at ≡ true = ground arith in rw (e, fresh) refl

  not_cached :
      (now : ℕ) (key : Text) (v : IdentityVerifier)
      → get key v.verified_cache ≡ none
      → look_up lib now key v ≡ (none, v)
  unfolding look_up unexpired
  not_cached now key v e = rw e refl

  put_there :
      (key : Text) (id : VerifiedIdentity) (m : Map Text VerifiedIdentity)
      → get key (put key id m) ≡ some id
  put_there key id m = rw (get-put key key id m, (text_eqb_iff key key).1 refl) refl

  returned :
      (s : Store) (clock : Clock) (a : Address) (slot : ℕ) (market sender : Text)
      (id : VerifiedIdentity) (v : IdentityVerifier)
      → (after_look_up lib s clock a slot market sender (some id, v)).0 ≡ ok id
  unfolding after_look_up
  returned s clock a slot market sender id v = refl

  remembered :
      (s : Store) (clock : Clock) (a : Address) (slot : ℕ) (market sender : Text)
      (id : VerifiedIdentity) (v : IdentityVerifier)
      → check_signer lib s v clock a slot market sender ≡ ok id
      → after_look_up lib s clock a slot market sender (none, v) ≡ (
        ok id,
        record v { verified_cache = put (cache_key lib a slot sender) id v.verified_cache },
      )
  unfolding after_look_up remember
  remembered s clock a slot market sender id v h = rw h refl

  -- A signer who passed the checks once is let pass, until the entry expires, without being checked again:
  -- whatever Redis says by then of flags and slots, and for whatever data market.
  pub cached_ignores_flags :
      (s s' : Store) (v : IdentityVerifier) (clock clock' : Clock) (a : Address) (slot : ℕ)
      (market market' sender : Text) (id : VerifiedIdentity)
      → get (cache_key lib a slot sender) v.verified_cache ≡ none
      → check_signer lib s v clock a slot market sender ≡ ok id
      → clock'.looked_at < id.expires_at
      → (verify_signer lib s'
          (verify_signer lib s v clock (some a) slot market sender).1
          clock'
          (some a)
          slot
          market'
          sender).0
        ≡ ok id
  unfolding verify_signer
  cached_ignores_flags s s' v clock clock' a slot market market' sender id new passed early =
      let key = cache_key lib a slot sender in
      let v' = record v { verified_cache = put key id v.verified_cache } in
      let first =
        ap (after_look_up lib s clock a slot market sender) (not_cached clock.looked_at key v new)
        ∙ remembered s clock a slot market sender id v passed in
      let second =
        unexpired_entry clock'.looked_at key v' id (put_there key id v.verified_cache) early in
      ap
        (λ (w : IdentityVerifier).
          (after_look_up lib s' clock' a slot market' sender
            (look_up lib clock'.looked_at key w)).0)
        (ap (λ (r : Result VerifiedIdentity × IdentityVerifier). r.1) first)
      ∙ ap (λ l. (after_look_up lib s' clock' a slot market' sender l).0) second
      ∙ returned s' clock' a slot market' sender id v'
