-- ===== src/Identity/Cache.antt =====
-- What the verifier returns, from its cache or of a fresh check.
use snapshot_sequencer_valid.Base.{
  ◌<◌, ◌^◌, ltb, ℕ, Text, text_eq, text_eqb_iff, ◌==◌, Bool-cases, inl, inr, Option, none, some,
  List, [], ◌∷◌, get, get-put, get-del, put, del, ◌≡◌, refl, sym, ap, ◌∙◌,
}
use snapshot_sequencer_valid.Submissions.Types.{Address}
use snapshot_sequencer_valid.Identity.{
  unexpired, Libraries, VerifiedIdentity, SubmissionRequest, IdentityVerifier, Store, Clock, Result,
  ok, err, cache_key, check_signer, remember, look_up, after_look_up, verify_signer,
  verify_submission_with_p2p, recover_snapshotter_address, hash_request, new_identity_verifier,
}
use snapshot_sequencer_valid.Identity.Keys.{
  IsLawful, IsFor, own_key, IsOwn, IsKeyed, cache_key-injective,
}
use snapshot_sequencer_valid.Identity.Check.{check_signer-IsFor}

module _ (lib : Libraries) where
  put-IsKeyed :
      (key : Text) (id : VerifiedIdentity) (v : IdentityVerifier)
      → IsOwn lib key id
      → IsKeyed lib v
      → IsKeyed lib (record v { verified_cache = put key id v.verified_cache })
  unfolding IsKeyed
  put-IsKeyed key id v own keyed k found h = elim (Bool-cases (key == k)) [
    | inl same ↦
        let e : some id ≡ some found = rw (get-put key k id v.verified_cache, same) at h in
        let same_id : id ≡ found = cc in
        let same_key : key ≡ k = (text_eqb_iff key k).0 same in rw (← same_key, ← same_id) own
    | inr other ↦ keyed k found (rw (get-put key k id v.verified_cache, other) at h)
  ]

  del-IsKeyed :
      (key : Text) (v : IdentityVerifier)
      → IsKeyed lib v
      → IsKeyed lib (record v { verified_cache = del key v.verified_cache })
  unfolding IsKeyed
  del-IsKeyed key v keyed k found h = elim (Bool-cases (key == k)) [
    | inl same ↦
        let e : none ≡ some found = rw (get-del key k v.verified_cache, same) at h in absurd (cc)
    | inr other ↦ keyed k found (rw (get-del key k v.verified_cache, other) at h)
  ]

  IsKeyed-at :
      (v : IdentityVerifier)
      → IsKeyed lib v
      → (key : Text) (id : VerifiedIdentity) → get key v.verified_cache ≡ some id
      → IsOwn lib key id
  unfolding IsKeyed
  IsKeyed-at v keyed = keyed

  unexpired-IsKeyed :
      (now : ℕ) (key : Text) (v : IdentityVerifier) (entry : Option VerifiedIdentity)
      → get key v.verified_cache ≡ entry
      → IsKeyed lib v
      → ((id : VerifiedIdentity) → (unexpired lib now key v entry).0 ≡ some id → IsOwn lib key id)
        × IsKeyed lib (unexpired lib now key v entry).1
  unfolding unexpired
  unexpired-IsKeyed now key v none e keyed = (λ id h. absurd (cc), keyed)
  unexpired-IsKeyed now key v (some entry) e keyed = elim (Bool-cases (ltb now entry.expires_at)) [
    | inl fresh ↦ rw fresh (λ id h. IsKeyed-at v keyed key id (e ∙ h), keyed)
    | inr expired ↦ rw expired (λ id h. absurd (cc), del-IsKeyed key v keyed)
  ]

  remember-IsKeyed :
      (key : Text) (r : Result VerifiedIdentity) (v : IdentityVerifier)
      → ((id : VerifiedIdentity) → r ≡ ok id → IsOwn lib key id)
      → IsKeyed lib v
      → IsKeyed lib (remember lib key r v).1 × ((remember lib key r v).0 ≡ r)
  unfolding remember
  remember-IsKeyed key (err e) v own keyed = (keyed, refl)
  remember-IsKeyed key (ok id) v own keyed = (put-IsKeyed key id v (own id refl) keyed, refl)

  key_of-IsFor :
      (a : Address) (slot : ℕ) (sender : Text) (id : VerifiedIdentity)
      → IsFor a slot sender id
      → a < 2 ^ 160
      → IsOwn lib (cache_key lib a slot sender) id
  unfolding IsOwn own_key
  key_of-IsFor a slot sender id h small = (rw (h.0, h.1, h.2) refl, rw (h.0) small)

  -- What a call returns is for its own signer, slot and sender; and the cache stays keyed.
  after_look_up-own :
      (s : Store) (clock : Clock) (a : Address) (slot : ℕ) (market sender : Text)
      (l : Option VerifiedIdentity × IdentityVerifier)
      → IsLawful lib
      → a < 2 ^ 160
      → ((id : VerifiedIdentity) → l.0 ≡ some id → IsOwn lib (cache_key lib a slot sender) id)
      → IsKeyed lib l.1
      → ((id : VerifiedIdentity)
          → (after_look_up lib s clock a slot market sender l).0 ≡ ok id
          → IsFor a slot sender id)
        × IsKeyed lib (after_look_up lib s clock a slot market sender l).1
  unfolding after_look_up IsOwn own_key
  after_look_up-own s clock a slot market sender (some id, v) law small own keyed = (
    λ found h.
        let same_id : id ≡ found = cc in
        let (e, f, g) =
          cache_key-injective lib a found.snapshotter_address slot found.slot_id sender
            found.lib_p2p_peer_id law small (own found (ap some same_id)).1
            (own found (ap some same_id)).0 in
        (sym e, sym f, sym g),
    keyed,
  )
  after_look_up-own s clock a slot market sender (none, v) law small own keyed =
      let result = check_signer lib s v clock a slot market sender in
      let kept =
        remember-IsKeyed (cache_key lib a slot sender) result v
          (λ id h.
            key_of-IsFor a slot sender id
              (check_signer-IsFor lib s v clock a slot market sender id h) small)
          keyed in
      (λ id h. check_signer-IsFor lib s v clock a slot market sender id (sym kept.1 ∙ h), kept.0)

  verify_signer-own :
      (s : Store) (v : IdentityVerifier) (clock : Clock) (a : Option Address) (slot : ℕ)
      (market sender : Text)
      → IsLawful lib
      → ((b : Address) → a ≡ some b → b < 2 ^ 160)
      → IsKeyed lib v
      → ((id : VerifiedIdentity)
          → (verify_signer lib s v clock a slot market sender).0 ≡ ok id
          → (b : Address) × (a ≡ some b) × IsFor b slot sender id)
        × IsKeyed lib (verify_signer lib s v clock a slot market sender).1
  unfolding verify_signer look_up
  verify_signer-own s v clock none slot market sender law small keyed = (λ id h. absurd (cc), keyed)
  verify_signer-own s v clock (some a) slot market sender law small keyed =
      let key = cache_key lib a slot sender in
      let cached = unexpired-IsKeyed clock.looked_at key v (get key v.verified_cache) refl keyed in
      let own =
        after_look_up-own s clock a slot market sender (look_up lib clock.looked_at key v) law
          (small a refl) cached.0 cached.1 in
      (λ id h. (a, refl, own.0 id h), own.1)

  -- The arguments of a call, with what Redis answers to it and the times.
  pub record Call : Type 0 where
    pub store : Store
    pub clock : Clock
    pub request : SubmissionRequest
    pub signature : Text
    pub market : Text
    pub sender : Text

  abbrev pub verify : IdentityVerifier → Call → Result VerifiedIdentity × IdentityVerifier
  verify v c =
      verify_submission_with_p2p lib c.store v c.clock c.request c.signature c.market c.sender

  -- The verifier after some calls.
  unfoldable pub after_calls : List Call → IdentityVerifier → IdentityVerifier
  unfolding verify_submission_with_p2p
  after_calls [] v = v
  after_calls (c ∷ cs) v = after_calls cs (verify v c).1

  recovered_small :
      IsLawful lib
      → (c : Call) (a : Address) → recover_snapshotter_address lib c.request c.signature ≡ some a
      → a < 2 ^ 160
  unfolding recover_snapshotter_address
  recovered_small law c a = law.recovered (hash_request lib c.request) c.signature a

  after_calls-IsKeyed :
      (cs : List Call) (v : IdentityVerifier)
      → IsLawful lib
      → IsKeyed lib v
      → IsKeyed lib (after_calls cs v)
  unfolding after_calls verify_submission_with_p2p
  after_calls-IsKeyed [] v law keyed = keyed
  after_calls-IsKeyed (c ∷ cs) v law keyed =
      after_calls-IsKeyed cs (verify v c).1 law
        (verify_signer-own c.store v c.clock (recover_snapshotter_address lib c.request c.signature)
          c.request.slot_id c.market c.sender law (recovered_small law c) keyed).1

  empty-IsKeyed : (ttl : ℕ) (nodes : List Text) → IsKeyed lib (new_identity_verifier lib ttl nodes)
  unfolding IsKeyed new_identity_verifier get
  empty-IsKeyed ttl nodes key id h = absurd (cc)

  -- Whatever was verified before, an identity that a call returns, from the cache or not, is that of the signer of
  -- this call's request, of its slot, and of its sender; the texts of addresses and of peers being
  -- different for different ones and without ':'.
  pub verified_own :
      (ttl : ℕ) (nodes : List Text) (cs : List Call) (c : Call) (id : VerifiedIdentity)
      → IsLawful lib
      → (verify (after_calls cs (new_identity_verifier lib ttl nodes)) c).0 ≡ ok id
      → (recover_snapshotter_address lib c.request c.signature ≡ some id.snapshotter_address)
        × (id.slot_id ≡ c.request.slot_id)
        × (id.lib_p2p_peer_id ≡ c.sender)
  unfolding verify_submission_with_p2p new_identity_verifier
  verified_own ttl nodes cs c id law h =
      let v = after_calls cs (new_identity_verifier lib ttl nodes) in
      let keyed : IsKeyed lib v =
        after_calls-IsKeyed cs (new_identity_verifier lib ttl nodes) law
          (empty-IsKeyed ttl nodes) in
      let (a, recovered, own) =
        (verify_signer-own c.store v c.clock (recover_snapshotter_address lib c.request c.signature)
            c.request.slot_id c.market c.sender law (recovered_small law c) keyed).0
          id h in
      (recovered ∙ ap some (sym own.0), own.1, own.2)
