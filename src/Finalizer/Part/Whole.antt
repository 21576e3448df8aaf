-- ===== src/Finalizer/Part/Whole.antt =====
-- The parts of an epoch, as the finalizers store them and the aggregator of cmd/aggregator merges them.
use snapshot_sequencer_valid.Base.{
  get-append, map_option, or_else, or_else-none, ◌<◌, ◌⊎◌, put-Distinct, put, ℕ, Text, text_eq,
  text_eqb_iff, bytes, Option, none, some, List, [], ◌∷◌, ◌++◌, Map, get, get-put, has, has-of-get,
  Distinct, map, false, Bool-cases, inl, inr, ◌==◌, ◌≡◌, refl, sym, ap, ◌∙◌, arith, ℤ, pos, negsuc,
  Option-cases, ◌||◌,
}
use snapshot_sequencer_valid.Json.{
  Json, Items, nil, cons, end, field, null, num, real, str, arr, obj, ◌>>=◌,
}
use snapshot_sequencer_valid.Base.Strings.{text_eqb}
use snapshot_sequencer_valid.Aggregator.Parts.Cids.{result_cid}
use snapshot_sequencer_valid.Finalizer.Part.{ProjectResult, project_result, part_results}
use snapshot_sequencer_valid.Aggregator.Parts.{merge_results, collect_parts}
use snapshot_sequencer_valid.Monitor.Batches.{split_into_batches_lem, split_into_batches, concat}

json_items : List Json → Items
json_items [] = nil
json_items (v ∷ vs) = cons v (json_items vs)

abbrev json_int : ℤ → Json
json_int (pos n) = num n
json_int (negsuc n) = real (negsuc n)

abbrev json_metadata : Option (List Json) → Json
json_metadata none = null
json_metadata (some vs) = arr (json_items vs)

-- What a result decodes to when it has been stored as JSON.
unfoldable pub result_json : ProjectResult → Json
unfolding json_items
result_json r = obj (
    field (bytes "cid") (str r.cid) (
      field (bytes "submission_metadata") (json_metadata r.submission_metadata) (
        field (bytes "total_votes") (json_int r.total_votes) (
          field (bytes "unique_cids") (num r.unique_cids)
            (field (bytes "votes") (num r.votes) end)))))

cid_of_json :
    (r : Option ProjectResult)
    → map_option result_json r >>= result_cid ≡ map_option (λ (x : ProjectResult). x.cid) r
unfolding result_json result_cid get text_eqb
cid_of_json none = refl
cid_of_json (some r) = refl

-- A part as the aggregator reads it.
unfoldable pub stored_part : Map Text ProjectResult → List (Text × Json)
unfolding result_json
stored_part [] = []
stored_part ((project, r) ∷ rest) = (project, result_json r) ∷ stored_part rest

absent {ℓ} : {A : Type ℓ} (k : Text) (m : Map Text A) → has k m ≡ false → get k m ≡ none
absent k m h = elim (Option-cases (get k m)) [
  | inl e ↦ e
  | inr (v, e) ↦ absurd (cc (has-of-get k m v e))
]

has-append {ℓ} :
    {A : Type ℓ} (k : Text) (xs ys : Map Text A) → has k (xs ++ ys) ≡ (has k xs || has k ys)
unfolding has
has-append k [] ys = refl
has-append k ((j, v) ∷ xs) ys = ground (arith, has-append k xs ys)

stored_part-get :
    (k : Text) (m : Map Text ProjectResult)
    → get k (stored_part m) ≡ map_option result_json (get k m)
unfolding stored_part get
stored_part-get k [] = refl
stored_part-get k ((j, r) ∷ m) = ground (arith, stored_part-get k m)

stored_part-has : (k : Text) (m : Map Text ProjectResult) → has k (stored_part m) ≡ has k m
unfolding stored_part has
stored_part-has k [] = refl
stored_part-has k ((j, r) ∷ m) = ground (arith, stored_part-has k m)

stored_part-Distinct : (m : Map Text ProjectResult) → Distinct m → Distinct (stored_part m)
unfolding stored_part
stored_part-Distinct [] d = tt
stored_part-Distinct ((j, r) ∷ m) d = (stored_part-has j m ∙ d.0, stored_part-Distinct m d.1)

merge_results-get :
    (k : Text) (m : List (Text × Json)) (merged : Map Text Json)
    → Distinct m
    → get k (merge_results m merged) ≡ or_else (get k m) (get k merged)
unfolding merge_results get
merge_results-get k [] merged d = refl
merge_results-get k ((j, v) ∷ m) merged d =
    rw (merge_results-get k m (put j v merged) d.1, get-put j k v merged)
      (ground (arith, text_eqb_iff j k, absent k m))

append-Distinct {ℓ} :
    {A : Type ℓ} (xs ys : Map Text A) → Distinct (xs ++ ys) → Distinct xs × Distinct ys
unfolding has
append-Distinct [] ys d = (tt, d)
append-Distinct ((j, v) ∷ xs) ys d =
    let both = append-Distinct xs ys d.1 in
    ((ground (arith, d.0, has-append j xs ys), both.0), both.1)

append_apart {ℓ} :
    {A : Type ℓ} (k : Text) (xs ys : Map Text A)
    → Distinct (xs ++ ys)
    → (get k xs ≡ none) ⊎ (get k ys ≡ none)
unfolding get
append_apart k [] ys d = inl refl
append_apart k ((j, v) ∷ xs) ys d = elim (append_apart k xs ys d.1) [
  | inr there ↦ inr there
  | inl here ↦ elim (Bool-cases (j == k)) [
    | inr other ↦ inl (rw other here)
    | inl same ↦ inr (absent k ys (ground (arith, d.0, has-append j xs ys, text_eqb_iff j k)))
  ]
]

module _ (visit : Map Text ℤ → Map Text ℤ) where
  part_results-get :
      (k : Text) (ps : List (Text × Json)) (acc : Map Text ProjectResult)
      → Distinct ps
      → get k (part_results visit ps acc) ≡ or_else (get k ps >>= project_result visit) (get k acc)
  unfolding part_results get
  part_results-get k [] acc d = refl
  part_results-get k ((j, v) ∷ ps) acc d = elim (Option-cases (project_result visit v)) [
    | inl no_cid ↦
        rw (no_cid, part_results-get k ps acc d.1)
          (ground (arith, no_cid, text_eqb_iff j k, absent k ps))
    | inr (r, some_cid) ↦
        rw (some_cid, part_results-get k ps (put j r acc) d.1, get-put j k r acc)
          (ground (arith, some_cid, text_eqb_iff j k, absent k ps))
  ]

  part_results-Distinct :
      (ps : List (Text × Json)) (acc : Map Text ProjectResult)
      → Distinct acc
      → Distinct (part_results visit ps acc)
  unfolding part_results
  part_results-Distinct [] acc d = d
  part_results-Distinct ((j, v) ∷ ps) acc d = elim (Option-cases (project_result visit v)) [
    | inl no_cid ↦ rw no_cid (part_results-Distinct ps acc d)
    | inr (r, some_cid) ↦
        rw some_cid (part_results-Distinct ps (put j r acc) (put-Distinct j r acc d))
  ]

  -- A part that a finalizer has made and stored.
  abbrev pub stored : List (Text × Json) → List (Text × Json)
  stored ps = stored_part (part_results visit ps [])

  -- What is stored for a project.
  abbrev stored_of : Option Json → Option Json
  stored_of submission = map_option result_json (submission >>= project_result visit)

  abbrev stored_for : Text → List (Text × Json) → Option Json
  stored_for k ps = stored_of (get k ps)

  -- At most one of the two stands in a part.
  either_order :
      (a b c : Option Json)
      → (a ≡ none) ⊎ (b ≡ none)
      → or_else (stored_of b) (or_else (stored_of a) c) ≡ or_else (stored_of (or_else a b)) c
  either_order none b c h = refl
  either_order (some x) none c h = refl
  either_order (some x) (some y) c h = elim h [ inl e ↦ absurd (cc) | inr e ↦ absurd (cc) ]

  stored-get :
      (k : Text) (ps : List (Text × Json)) → Distinct ps → get k (stored ps) ≡ stored_for k ps
  unfolding get
  stored-get k ps d =
      rw
        (
          stored_part-get k (part_results visit ps []),
          part_results-get k ps [] d,
          or_else-none (get k ps >>= project_result visit),
        )
        refl

  pub collect_parts-get :
      (k : Text) (parts : List (List (Text × Json))) (acc : Map Text Json)
      → Distinct (concat parts)
      → get k (collect_parts (map (λ p. some (stored p)) parts) acc)
        ≡ or_else (stored_for k (concat parts)) (get k acc)
  unfolding collect_parts get
  collect_parts-get k [] acc d = refl
  collect_parts-get k (p ∷ parts) acc d =
      let apart = append-Distinct p (concat parts) d in
      let ours : Distinct (stored p) =
        stored_part-Distinct (part_results visit p []) (part_results-Distinct p [] tt) in
      rw
        (
          collect_parts-get k parts (merge_results (stored p) acc) apart.1,
          merge_results-get k (stored p) acc ours,
          stored-get k p apart.0,
          get-append k p (concat parts),
        )
        (either_order (get k p) (get k (concat parts)) (get k acc)
          (append_apart k p (concat parts) d))

  -- For a project, the aggregator reads from the parts of an epoch what one finalizer would have stored for
  -- it, had it been given all projects of the epoch in one part: the projects being different, split into
  -- batches of any positive size, and each part made and stored by a finalizer and read.
  pub parts_as_whole :
      (size : ℕ) (projects : List (Text × Json)) (project : Text)
      → 0 < size
      → Distinct projects
      → get project
          (collect_parts (map (λ p. some (stored p)) (split_into_batches size projects)) [])
        ≡ get project (stored projects)
  unfolding get
  parts_as_whole size projects project h d =
      let split : concat (split_into_batches size projects) ≡ projects =
        (split_into_batches_lem size projects h).0 in
      collect_parts-get project (split_into_batches size projects) [] (rw split d)
      ∙ or_else-none (stored_for project (concat (split_into_batches size projects)))
      ∙ ap (stored_for project) split
      ∙ sym (stored-get project projects d)

  -- The CID that is stored for a project.
  pub stored_cid :
      (project : Text) (projects : List (Text × Json))
      → Distinct projects
      → get project (stored projects) >>= result_cid
        ≡ map_option (λ (r : ProjectResult). r.cid) (get project projects >>= project_result visit)
  stored_cid project projects d =
      ap (λ o. o >>= result_cid) (stored-get project projects d)
      ∙ cid_of_json (get project projects >>= project_result visit)
