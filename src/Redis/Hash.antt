-- ===== src/Redis/Hash.antt =====
-- A hash of Redis as a map from its fields to their texts, and what HMSET makes of it.
use snapshot_sequencer_valid.Base.{
  ◌==◌, ◌⊎◌, key-cases, text_eqb_iff, or_else, has, Distinct, Text, text_eq, true, false,
  Bool-cases, inl, inr, none, some, [], ◌∷◌, Map, get, get-put, put, if◌then◌else◌, ◌≡◌, refl,
}

-- HMSET of several fields, one after the other.
unfoldable pub set_fields : Map Text Text → Map Text Text → Map Text Text
unfolding put
set_fields [] hash = hash
set_fields ((name, value) ∷ fields) hash = set_fields fields (put name value hash)

-- What is set is read back, and the other fields stay.
pub set_fields-get :
    (k : Text) (fields old : Map Text Text)
    → Distinct fields
    → get k (set_fields fields old) ≡ or_else (get k fields) (get k old)
unfolding set_fields get has
set_fields-get k [] old d = refl
set_fields-get k ((j, v) ∷ fields) old d =
    rw (set_fields-get k fields (put j v old) d.1, get-put j k v old)
      (go (Bool-cases (j == k)) (key-cases k fields))
  where
    go :
        (j == k ≡ true) ⊎ (j == k ≡ false)
        → ((get k fields ≡ none) × (has k fields ≡ false))
          ⊎ ((w : Text) × (get k fields ≡ some w) × (has k fields ≡ true))
        → or_else (get k fields) (if j == k then some v else get k old)
          ≡ or_else (if j == k then some v else get k fields) (get k old)
    go (inr other) h = rw other refl
    go (inl same) (inl (absent, _)) = rw (same, absent) refl
    go (inl same) (inr (w, _, there)) =
        let e : j ≡ k = (text_eqb_iff j k).0 same in
        let missing : has k fields ≡ false = rw e at (d.0) in absurd (cc)
