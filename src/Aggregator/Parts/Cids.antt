-- ===== src/Aggregator/Parts/Cids.antt =====
-- The CIDs of the validator's own batch.
use mathlib.Core.List.{append-nil}
use snapshot_sequencer_valid.Base.{
  or_else_assoc, get-append, ℕ, Text, text_eq, text_eqb_iff, bytes, ◌==◌, Bool, Bool-cases, true,
  false, inl, inr, Option, none, some, List, [], ◌∷◌, ◌++◌, Map, get, has, key-cases, Distinct, map,
  or_else, or_else-none, if◌then◌else◌, ◌≡◌, refl, sym, ap, ◌∙◌, arith,
}
use snapshot_sequencer_valid.Json.{Json, as_map, as_string, member, ◌>>=◌}
use snapshot_sequencer_valid.Consensus.Visit.{IsVisit}
use snapshot_sequencer_valid.Aggregator.Merge.Consensus.{paired}
use snapshot_sequencer_valid.Aggregator.Parts.{
  add_named, Conversions, Projects, add_project, add_result, add_results,
  create_finalized_batch_from_parts,
}

-- The CID of a result, where it is an object with one.
unfoldable pub result_cid : Json → Option Text
unfolding member
result_cid result = as_map result >>= member as_string (bytes "cid")

-- A project with its CID, where it has one.
entry_of : Text → Option Text → List (Text × Text)
entry_of project none = []
entry_of project (some cid) = (project, cid) ∷ []

entry_of-get :
    (j k : Text) (cid : Option Text) → get k (entry_of j cid) ≡ (if j == k then cid else none)
unfolding entry_of get
entry_of-get j k none = ground arith
entry_of-get j k (some cid) = refl

-- A result in front of those whose keys are other.
in_front :
    (j k : Text) (cid rest : Option Text)
    → (j == k ≡ true → rest ≡ none)
    → or_else (if j == k then cid else none) rest ≡ (if j == k then cid else rest)
in_front j k cid rest apart = elim (Bool-cases (j == k)) [
  | inl same ↦ rw (same, apart same) (or_else-none cid)
  | inr other ↦ rw other refl
]

bind_if :
    (b : Bool) (result : Json) (rest : Option Json)
    → (if b then result_cid result else rest >>= result_cid)
      ≡ (if b then some result else rest) >>= result_cid
bind_if true result rest = refl
bind_if false result rest = refl

module _ (c : Conversions) (sequencer : Text) where
  named-cids :
      (project : Text) (result : List (Text × Json)) (cid : Option Text) (p : Projects c sequencer)
      → (add_named c sequencer project result cid p).cids ≡ p.cids ++ entry_of project cid
  unfolding add_named add_project entry_of
  named-cids project result none p = sym (append-nil p.cids)
  named-cids project result (some cid) p = refl

  object-cids :
      (project : Text) (result : Option (List (Text × Json))) (p : Projects c sequencer)
      → (add_result c sequencer project result p).cids
        ≡ p.cids ++ entry_of project (result >>= member as_string (bytes "cid"))
  unfolding add_result entry_of
  object-cids project none p = sym (append-nil p.cids)
  object-cids project (some result) p =
      named-cids project result (member as_string (bytes "cid") result) p

  -- The CID of a project's result.
  abbrev pub cid_in : Text → List (Text × Json) → Option Text
  cid_in k results = get k results >>= result_cid

  absent_cid :
      (k : Text) (results : List (Text × Json)) → has k results ≡ false → cid_in k results ≡ none
  absent_cid k results h = elim (key-cases k results) [
    | inl (absent, _) ↦ rw absent refl
    | inr (v, _, there) ↦ absurd (cc)
  ]

  add_results-cids :
      (k : Text) (results : List (Text × Json)) (p : Projects c sequencer)
      → Distinct results
      → get k (add_results c sequencer results p).cids ≡ or_else (get k p.cids) (cid_in k results)
  unfolding add_results get result_cid
  add_results-cids k [] p d = sym (or_else-none (get k p.cids))
  add_results-cids k ((j, result) ∷ rest) p d =
      let cid = result_cid result in
      let p' = add_result c sequencer j (as_map result) p in
      add_results-cids k rest p' d.1
      ∙ ap (λ cs. or_else (get k cs) (cid_in k rest)) (object-cids j (as_map result) p)
      ∙ ap (λ o. or_else o (cid_in k rest))
          (get-append k p.cids (entry_of j cid)
            ∙ ap (or_else (get k p.cids)) (entry_of-get j k cid))
      ∙ or_else_assoc (get k p.cids) (if j == k then cid else none) (cid_in k rest)
      ∙ ap (or_else (get k p.cids)) (
          in_front j k cid (cid_in k rest)
            (λ same. absent_cid k rest (rw (sym ((text_eqb_iff j k).0 same)) d.0))
          ∙ bind_if (j == k) result (get k rest))

paired-unzip :
    (xs : List (Text × Text))
    → paired (map {A = Text × Text} (λ e. e.0) xs) (map {A = Text × Text} (λ e. e.1) xs) ≡ xs
paired-unzip [] = refl
paired-unzip ((p, cid) ∷ xs) = ap (◌∷◌ (p, cid)) (paired-unzip xs)

-- A project of the validator's own batch is paired with the CID of its result, and a project whose result has no
-- CID is left out, in whatever order the results are visited.
pub batch_from_parts-cids :
    (sha256 : Text → List ℕ) (visit : Map Text Json → Map Text Json) (c : Conversions) (now : ℕ)
    (sequencer : Text) (epoch : ℕ) (results : Map Text Json) (k : Text)
    → IsVisit visit
    → Distinct results
    → let b = create_finalized_batch_from_parts sha256 visit c now sequencer epoch results in
      get k (paired b.project_ids b.snapshot_cids) ≡ get k results >>= result_cid
unfolding create_finalized_batch_from_parts get
batch_from_parts-cids sha256 visit c now sequencer epoch results k law d =
    ap (get k) (paired-unzip _)
    ∙ add_results-cids c sequencer k (visit results)
        (record { cids = []; votes = []; details = [] }) (law results d).0
    ∙ ap (λ o. o >>= result_cid) ((law results d).1 k)
