-- ===== src/Aggregator/Merge/Confirmations.antt =====
-- What the merge of duplicate submissions keeps: the validators that confirm a submission, and votes.
use snapshot_sequencer_valid.Base.{
  ℕ, Text, text_eq, text_eqb_iff, Option, none, some, List, [], ◌∷◌, ◌++◌, Map, get, put, get-put,
  if◌then◌else◌, ◌==◌, ◌≡◌, refl, Bool-cases, inl, inr, ap, sym, ◌∙◌,
}
use snapshot_sequencer_valid.Consensus.Types.{SubmissionMetadata}
use snapshot_sequencer_valid.Aggregator.Merge.{merge_key, confirm, merge_duplicates}

-- The validators that confirm a submission with the key, in the order of the list.
unfoldable pub confirming : Text → List SubmissionMetadata → List Text
confirming k [] = []
confirming k (s ∷ subs) =
    (if merge_key s == k then s.validators_confirming else []) ++ confirming k subs

abbrev pub confirmed : Option SubmissionMetadata → List Text
confirmed none = []
confirmed (some s) = s.validators_confirming

abbrev pub vote_count_of : Option SubmissionMetadata → ℕ
vote_count_of none = 0
vote_count_of (some s) = s.vote_count

append_assoc : (xs ys zs : List Text) → (xs ++ ys) ++ zs ≡ xs ++ (ys ++ zs)
append_assoc [] ys zs = refl
append_assoc (x ∷ xs) ys zs = ap (◌∷◌ x) (append_assoc xs ys zs)

append_nil : (xs : List Text) → xs ++ [] ≡ xs
append_nil [] = refl
append_nil (x ∷ xs) = ap (◌∷◌ x) (append_nil xs)

confirm-confirmed :
    (s : SubmissionMetadata) (o : Option SubmissionMetadata)
    → (confirm s o).validators_confirming ≡ confirmed o ++ s.validators_confirming
confirm-confirmed s none = refl
confirm-confirmed s (some e) = refl

merge_duplicates-from :
    (k : Text) (subs : List SubmissionMetadata) (merged : Map Text SubmissionMetadata)
    → confirmed (get k (merge_duplicates subs merged))
      ≡ confirmed (get k merged) ++ confirming k subs
unfolding merge_duplicates confirming
merge_duplicates-from k [] merged = sym (append_nil (confirmed (get k merged)))
merge_duplicates-from k (s ∷ subs) merged =
    let next = put (merge_key s) (confirm s (get (merge_key s) merged)) merged in
    merge_duplicates-from k subs next ∙ elim (Bool-cases (merge_key s == k)) [
      | inl same ↦
          let e : merge_key s ≡ k = (text_eqb_iff (merge_key s) k).0 same in
          rw
            (
              get-put,
              same,
              confirm-confirmed s (get (merge_key s) merged),
              e,
              append_assoc (confirmed (get k merged)) s.validators_confirming (confirming k subs),
            )
            refl
      | inr other ↦ rw (get-put, other) refl
    ]

-- The merge keeps every confirmation: the entry for a submitter and a CID names the validators of all
-- entries of the list with this submitter and CID, in the order of the list.
pub merge_duplicates-confirming :
    (k : Text) (subs : List SubmissionMetadata)
    → confirmed (get k (merge_duplicates subs [])) ≡ confirming k subs
unfolding get
merge_duplicates-confirming k subs = merge_duplicates-from k subs []
