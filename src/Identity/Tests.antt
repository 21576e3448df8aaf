-- ===== src/Identity/Tests.antt =====
-- Runs of the verifier on concrete requests, and the theorems at them. The libraries are replaced by toys: a text of
-- an address is its decimal digits, a peer's text is its length in decimal digits, and the signer of
-- a signature is the number of its bytes.
use snapshot_sequencer_valid.Base.{
  ◌%◌, ◌<◌, ◌^◌, ◌∙◌, sym, del, ◌+◌, ◌-◌, ap, nat_eqb_iff, decimal_below, ℕ, ◌≡◌, refl, arith, Text,
  text_eq, text_eqb, bytes, decimal, value, value-decimal, Bool, true, false, some, [], ◌∷◌, Map,
  get, has, put, length,
}
use snapshot_sequencer_valid.Redis.Join.{Plain}
use snapshot_sequencer_valid.Redis.Hash.{set_fields}
use snapshot_sequencer_valid.Identity.{
  check_if_flagged, read_slot, wrong_peer, verified, is_full_node, look_up, hash_request,
  verify_submission_with_p2p, Libraries, IdentityVerifier, VerifiedIdentity, SubmissionRequest,
  SlotInfo, Store, Clock, ok, new_identity_verifier, get_slot_info, slot_fields, verify_signer,
  check_signer, recover_snapshotter_address,
}
use snapshot_sequencer_valid.Identity.Keys.{below-Plain, IsLawful}
use snapshot_sequencer_valid.Identity.Cache.{Call, verify, after_calls, verified_own}
use snapshot_sequencer_valid.Identity.Flags.{cached_ignores_flags}

-- Each byte as one above the colon.
abbrev encode : Text → Text
encode [] = []
encode (c ∷ s) = (c + 59) ∷ encode s

abbrev decode : Text → Text
decode [] = []
decode (c ∷ s) = (c - 59) ∷ decode s

decode-encode : (s : Text) → decode (encode s) ≡ s
decode-encode [] = refl
decode-encode (c ∷ s) = let back : c + 59 - 59 ≡ c = omega arith in rw (back, decode-encode s) refl

encode-Plain : (s : Text) → Plain (encode s)
encode-Plain [] = tt
encode-Plain (c ∷ s) = (ground (arith, nat_eqb_iff (c + 59) 58), encode-Plain s)

abbrev libraries : Libraries
libraries = record {
  keccak256 = λ s. s;
  recover = λ hash signature. some (length signature % 2 ^ 160);
  address_hex = decimal;
  hex_to_address = λ s. value 0 s;
  encode_peer = encode;
  decode_peer = λ s. some (decode s);
  to_lower = λ s. s;
  scan = λ s. value 0 s;
}

some_small : (n a : ℕ) → some (n % 2 ^ 160) ≡ some a → a < 2 ^ 160
some_small n a e = let same : n % 2 ^ 160 ≡ a = cc in rw (← same) (omega arith)

libraries-IsLawful : IsLawful libraries
libraries-IsLawful = record {
  recovered = λ h s a e. some_small (length s) a e;
  hex_back = λ a _. value-decimal a;
  hex_plain = λ a _. below-Plain (decimal a) (decimal_below a);
  peer_injective = λ p q e. sym (decode-encode p) ∙ ap decode e ∙ decode-encode q;
  peer_plain = encode-Plain;
}

abbrev request : SubmissionRequest
request = record {
  slot_id = 5;
  deadline = 9;
  snapshot_cid = bytes "bafy";
  epoch_id = 3;
  project_id = bytes "eth";
}

abbrev slot : SlotInfo
slot = record {
  slot_id = 5;
  snapshotter_address = 7;
  lib_p2p_peer_id = [];
  data_market = bytes "0xm";
  epoch_id = 3;
}

abbrev fields : Map Text Text
unfolding set_fields slot_fields decimal
fields = set_fields (slot_fields libraries 5 slot) []

abbrev store : Bool → Store
store flagged = record { is_member = λ key member. some flagged; hgetall = λ key. some fields }

abbrev clock : ℕ → Clock
clock now = record { looked_at = now; verified_at = now; added_at = now }

abbrev call : Call libraries
call = record {
  store = store false;
  clock = clock 100;
  request = request;
  signature = bytes "seven b";
  market = bytes "0xm";
  sender = bytes "p";
}

abbrev verifier : IdentityVerifier
verifier = record { verified_cache = []; cache_ttl = 60; full_node_addresses = [] }

abbrev identity : VerifiedIdentity
identity = record {
  snapshotter_address = 7;
  lib_p2p_peer_id = bytes "p";
  slot_id = 5;
  is_full_node = false;
  is_flagged = false;
  verified_at = 100;
  expires_at = 160;
}

program : Unit {0}
unfolding check_signer check_if_flagged get_slot_info read_slot wrong_peer verified is_full_node get
    has put del text_eqb verify_submission_with_p2p verify_signer look_up
    recover_snapshotter_address hash_request new_identity_verifier after_calls value
program = tt

passed :
    check_signer libraries (store false) verifier (clock 100) 7 5 (bytes "0xm") (bytes "p")
    ≡ ok identity
unfolding program fields
passed = refl

again :
    (verify libraries
      (after_calls libraries (call ∷ []) (new_identity_verifier libraries 60 []))
      (record call { clock = clock 120 })).0
    ≡ ok identity
unfolding program fields
again = refl

verified_own_example :
    (recover_snapshotter_address libraries request (bytes "seven b") ≡ some 7)
    × (5 ≡ request.slot_id)
    × (bytes "p" ≡ bytes "p")
verified_own_example =
    verified_own libraries 60 [] (call ∷ []) (record call { clock = clock 120 }) identity
      libraries-IsLawful again

cached_ignores_flags_example :
    (verify_signer libraries
      (store true)
      (verify_signer libraries
        (store false)
        verifier
        (clock 100)
        (some 7)
        5
        (bytes "0xm")
        (bytes "p")).1
      (clock 120)
      (some 7)
      5
      (bytes "0xother")
      (bytes "p")).0
    ≡ ok identity
unfolding get
cached_ignores_flags_example =
    cached_ignores_flags libraries (store false) (store true) verifier (clock 100) (clock 120) 7 5
      (bytes "0xm") (bytes "0xother") (bytes "p") identity refl passed (omega arith)
