-- ===== src/Gateway/Streams.antt =====
-- cmd/p2p-gateway/main.go: that the aggregation stream is there with the consumer group, and how it is kept
-- short. A stream of Redis is a list of entries and the names of its groups.
use snapshot_sequencer_valid.Base.{
  Text, text_eq, text_eqb_iff, Bool-cases, Bool, true, false, Option, none, some, List, [], ◌∷◌,
  ◌++◌, ◌||◌, if◌then◌else◌, ◌==◌, ◌≡◌, arith, inl, inr,
}

pub record Stream : Type 0 where
  pub entries : List Text
  pub groups : List Text

-- Which of the four calls Redis answers without an error of its own.
pub record Answers : Type 0 where
  pub info : Bool
  pub make : Bool
  pub list_groups : Bool
  pub create : Bool

unfoldable pub has_group : Text → List Text → Bool
has_group name [] = false
has_group name (g ∷ gs) = (g == name) || has_group name gs

-- XGROUP CREATE … MKSTREAM: an error where the group is there.
unfoldable pub make_stream : Text → Option Stream → Bool × Option Stream
unfolding has_group
make_stream name none = (true, some (record { entries = []; groups = name ∷ [] }))
make_stream name (some s) =
    if has_group name s.groups
    then (false, some s)
    else (true, some (record s { groups = s.groups ++ name ∷ [] }))

create_missing : Answers → Text → Option Stream → Bool × Option Stream
unfolding make_stream
create_missing a name s = if a.make then make_stream name s else (false, s)

unfoldable pub check_groups : Answers → Text → Stream → Bool × Option Stream
unfolding has_group make_stream
check_groups a name s =
    if a.list_groups
    then if has_group name s.groups
      then (true, some s)
      else if a.create
      then make_stream name (some s)
      else (false, some s)
    else (false, some s)

-- Whether it succeeds, and the stream after it. XINFO STREAM fails where there is none.
unfoldable pub ensure_stream_exists : Answers → Text → Option Stream → Bool × Option Stream
unfolding create_missing check_groups
ensure_stream_exists a name none = create_missing a name none
ensure_stream_exists a name (some s) =
    if a.info then check_groups a name s else create_missing a name (some s)

pub data HasGroup (name : Text) : Option Stream → Type 0 where
  present : (s : Stream) → has_group name s.groups ≡ true → HasGroup name (some s)

has_group-last : (name : Text) (gs : List Text) → has_group name (gs ++ name ∷ []) ≡ true
unfolding has_group
has_group-last name [] = ground (arith, text_eqb_iff name name)
has_group-last name (g ∷ gs) = ground (arith, has_group-last name gs)

make_stream-HasGroup :
    (name : Text) (s : Option Stream)
    → (make_stream name s).0 ≡ true
    → HasGroup name (make_stream name s).1
unfolding make_stream has_group
make_stream-HasGroup name none h = present _ (ground (arith, text_eqb_iff name name))
make_stream-HasGroup name (some s) h = elim (Bool-cases (has_group name s.groups)) [
  | inl there ↦ absurd (ground arith)
  | inr absent ↦ rw absent (present _ (has_group-last name s.groups))
]

create_missing-HasGroup :
    (a : Answers) (name : Text) (s : Option Stream)
    → (create_missing a name s).0 ≡ true
    → HasGroup name (create_missing a name s).1
unfolding create_missing
create_missing-HasGroup a name s h = elim (Bool-cases a.make) [
  | inl made ↦ rw made (make_stream-HasGroup name s (ground arith))
  | inr failed ↦ absurd (ground arith)
]

check_groups-HasGroup :
    (a : Answers) (name : Text) (s : Stream)
    → (check_groups a name s).0 ≡ true
    → HasGroup name (check_groups a name s).1
unfolding check_groups
check_groups-HasGroup a name s h = elim (Bool-cases a.list_groups) [
  | inr failed ↦ absurd (ground arith)
  | inl listed ↦ elim (Bool-cases (has_group name s.groups)) [
    | inl there ↦ rw (listed, there) (present s there)
    | inr absent ↦ elim (Bool-cases a.create) [
      | inl created ↦ rw (listed, absent, created) (present _ (has_group-last name s.groups))
      | inr failed ↦ absurd (ground arith)
    ]
  ]
]

-- Where ensureStreamExists reports success, the stream is there with the consumer group, whatever was there before.
pub ensure_stream_exists-HasGroup :
    (a : Answers) (name : Text) (s : Option Stream)
    → (ensure_stream_exists a name s).0 ≡ true
    → HasGroup name (ensure_stream_exists a name s).1
unfolding ensure_stream_exists
ensure_stream_exists-HasGroup a name none h = create_missing-HasGroup a name none h
ensure_stream_exists-HasGroup a name (some s) h = elim (Bool-cases a.info) [
  | inl answered ↦ rw answered (check_groups-HasGroup a name s (ground arith))
  | inr failed ↦ rw failed (create_missing-HasGroup a name (some s) (ground arith))
]
