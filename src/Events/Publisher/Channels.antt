-- ===== src/Events/Publisher/Channels.antt =====
-- What PublishBatch sends on each channel.
use snapshot_sequencer_valid.Base.{
  Text, text_eq, text_eqb_iff, Bool, Bool-cases, true, false, Option, none, some, List, [], ◌∷◌,
  ◌++◌, Map, get, has, Distinct, append-nil, append_assoc, ◌≡◌, refl, ap, ◌∙◌, sym, arith, inl, inr,
  ◌==◌, if◌then◌else◌,
}
use snapshot_sequencer_valid.Consensus.Visit.{IsVisit}
use snapshot_sequencer_valid.Redis.Command.{
  Command, publish, set, sadd, expire, zadd, incr, hincrby, hset, lpush, xadd, xack, xclaim, del,
  hset_field,
}
use snapshot_sequencer_valid.Events.{Event}
use snapshot_sequencer_valid.Events.Publisher.{Publisher, get_channel}
use snapshot_sequencer_valid.Events.Publisher.Batches.{
  add_to_group, group_by_channel, channel_commands, pipe_commands, publish_batch,
}

-- What the commands publish on a channel.
abbrev pub published_on : Text → List (Command Text) → List Text
published_on c [] = []
published_on c (publish channel message ∷ rest) =
    let others = published_on c rest in if channel == c then message ∷ others else others
published_on c (_ ∷ rest) = published_on c rest

-- The texts of the events that have the channel and a text.
abbrev pub texts_on : (Event → Option Text) → Publisher → Text → List Event → List Text
texts_on to_json p c [] = []
texts_on to_json p c (event ∷ events) =
    let others = texts_on to_json p c events in
    if get_channel p event.event_type == c
    then elim (to_json event) [ none ↦ others | some json ↦ json ∷ others ]
    else others

group_of : Text → Map Text (List Event) → List Event
group_of c [] = []
group_of c ((k, events) ∷ rest) = if k == c then events else group_of c rest

published_on-append :
    (c : Text) (xs ys : List (Command Text))
    → published_on c (xs ++ ys) ≡ published_on c xs ++ published_on c ys
published_on-append c [] ys = refl
published_on-append c (publish channel message ∷ xs) ys =
    ground (arith, published_on-append c xs ys)
published_on-append c (set k v n ∷ xs) ys = published_on-append c xs ys
published_on-append c (sadd k v ∷ xs) ys = published_on-append c xs ys
published_on-append c (expire k n ∷ xs) ys = published_on-append c xs ys
published_on-append c (zadd k n v ∷ xs) ys = published_on-append c xs ys
published_on-append c (incr k ∷ xs) ys = published_on-append c xs ys
published_on-append c (hincrby k f n ∷ xs) ys = published_on-append c xs ys
published_on-append c (hset k v ∷ xs) ys = published_on-append c xs ys
published_on-append c (lpush k v ∷ xs) ys = published_on-append c xs ys
published_on-append c (xadd k v ∷ xs) ys = published_on-append c xs ys
published_on-append c (xack k v w ∷ xs) ys = published_on-append c xs ys
published_on-append c (xclaim k v w n m ∷ xs) ys = published_on-append c xs ys
published_on-append c (del k ∷ xs) ys = published_on-append c xs ys
published_on-append c (hset_field k f v ∷ xs) ys = published_on-append c xs ys

module _ (to_json : Event → Option Text) where
  -- The texts of a list of events.
  texts : List Event → List Text
  texts [] = []
  texts (event ∷ events) =
      let others = texts events in
      elim (to_json event) [ none ↦ others | some json ↦ json ∷ others ]

  texts-append : (xs ys : List Event) → texts (xs ++ ys) ≡ texts xs ++ texts ys
  unfolding texts
  texts-append [] ys = refl
  texts-append (x ∷ xs) ys = ground (arith, texts-append xs ys)

  channel_commands-published :
      (channel c : Text) (events : List Event)
      → published_on c (channel_commands to_json channel events).0
        ≡ (if channel == c then texts events else [])
  unfolding channel_commands texts
  channel_commands-published channel c [] = ground arith
  channel_commands-published channel c (event ∷ events) =
      ground (arith, channel_commands-published channel c events)

  pipe_commands-absent :
      (c : Text) (m : Map Text (List Event))
      → has c m ≡ false
      → published_on c (pipe_commands to_json m).0 ≡ []
  unfolding pipe_commands has
  pipe_commands-absent c [] h = refl
  pipe_commands-absent c ((k, events) ∷ rest) h = ground (
    arith,
    published_on-append c (channel_commands to_json k events).0 (pipe_commands to_json rest).0,
    channel_commands-published k c events,
    pipe_commands-absent c rest,
  )

  pipe_commands-published :
      (c : Text) (m : Map Text (List Event))
      → Distinct m
      → published_on c (pipe_commands to_json m).0 ≡ texts (group_of c m)
  unfolding pipe_commands group_of texts
  pipe_commands-published c [] d = refl
  pipe_commands-published c ((k, events) ∷ rest) d = ground (
    arith,
    published_on-append c (channel_commands to_json k events).0 (pipe_commands to_json rest).0,
    channel_commands-published k c events,
    pipe_commands-published c rest d.1,
    pipe_commands-absent c rest,
    text_eqb_iff k c,
    append-nil (texts events),
  )

group_of-get :
    (c : Text) (m m' : Map Text (List Event)) → get c m ≡ get c m' → group_of c m ≡ group_of c m'
unfolding group_of get
group_of-get c m m' h = sym (of_get m) ∙ ap or_empty h ∙ of_get m'
  where
    or_empty : Option (List Event) → List Event
    or_empty none = []
    or_empty (some events) = events

    of_get : (n : Map Text (List Event)) → or_empty (get c n) ≡ group_of c n
    of_get [] = refl
    of_get ((k, events) ∷ rest) = ground (arith, of_get rest)

group_of-add_to_group :
    (channel c : Text) (event : Event) (m : Map Text (List Event))
    → group_of c (add_to_group channel event m)
      ≡ (if channel == c then group_of c m ++ event ∷ [] else group_of c m)
unfolding group_of add_to_group
group_of-add_to_group channel c event [] = ground arith
group_of-add_to_group channel c event ((k, events) ∷ rest) = ground (
  arith,
  text_eqb_iff k c,
  text_eqb_iff k channel,
  text_eqb_iff channel c,
  group_of-add_to_group channel c event rest,
)

has-add_to_group :
    (channel c : Text) (event : Event) (m : Map Text (List Event))
    → has c (add_to_group channel event m) ≡ (if channel == c then true else has c m)
unfolding has add_to_group
has-add_to_group channel c event [] = ground arith
has-add_to_group channel c event ((k, events) ∷ rest) = ground (
  arith,
  text_eqb_iff k c,
  text_eqb_iff k channel,
  text_eqb_iff channel c,
  has-add_to_group channel c event rest,
)

add_to_group-Distinct :
    (channel : Text) (event : Event) (m : Map Text (List Event))
    → Distinct m
    → Distinct (add_to_group channel event m)
unfolding has add_to_group
add_to_group-Distinct channel event [] d = ground arith
add_to_group-Distinct channel event ((k, events) ∷ rest) d = ground (
  arith,
  text_eqb_iff k channel,
  text_eqb_iff channel k,
  has-add_to_group channel k event rest,
  add_to_group-Distinct channel event rest d.1,
)

group_by_channel-Distinct :
    (p : Publisher) (events : List Event) (m : Map Text (List Event))
    → Distinct m
    → Distinct (group_by_channel p events m)
unfolding group_by_channel
group_by_channel-Distinct p [] m d = d
group_by_channel-Distinct p (event ∷ events) m d =
    let channel = get_channel p event.event_type in
    group_by_channel-Distinct p events (add_to_group channel event m)
      (add_to_group-Distinct channel event m d)

module _ (to_json : Event → Option Text) where
  texts_one :
      (event : Event) (rest : List Text)
      → texts to_json (event ∷ []) ++ rest
        ≡ elim (to_json event) [ none ↦ rest | some json ↦ json ∷ rest ]
  unfolding texts
  texts_one event rest = ground arith

  texts_of_group :
      (p : Publisher) (c : Text) (events : List Event) (m : Map Text (List Event))
      → texts to_json (group_of c (group_by_channel p events m))
        ≡ texts to_json (group_of c m) ++ texts_on to_json p c events
  unfolding group_by_channel
  texts_of_group p c [] m = sym (append-nil (texts to_json (group_of c m)))
  texts_of_group p c (event ∷ events) m =
      let channel = get_channel p event.event_type in
      rw
        (
          texts_of_group p c events (add_to_group channel event m),
          group_of-add_to_group channel c event m,
        )
        (elim (Bool-cases (channel == c)) [
          | inr other ↦ rw other refl
          | inl same ↦
              rw
                (
                  same,
                  texts-append to_json (group_of c m) (event ∷ []),
                  append_assoc,
                  texts_one event (texts_on to_json p c events),
                )
                refl
        ])

  -- On each channel a batch that is published puts the texts of its events of this channel, each once and in the
  -- order of the batch, but for those that are not serialized; in whatever order the channels are visited.
  pub publish_batch-texts :
      (accepts : Bool → List (Command Text) → Bool)
      (visit : Map Text (List Event) → Map Text (List Event)) (events : List Event)
      (p p' : Publisher) (sent : List (Command Text)) (c : Text)
      → IsVisit visit
      → publish_batch to_json accepts visit events p ≡ (none, p', sent)
      → published_on c sent ≡ texts_on to_json p c events
  unfolding publish_batch texts group_of
  publish_batch-texts accepts visit events p p' sent c visits h =
      let groups = group_by_channel p events [] in
      let order = visits groups (group_by_channel-Distinct p events [] tt) in
      let is_sent : sent ≡ (pipe_commands to_json (visit groups)).0 = ground arith in
      rw is_sent (pipe_commands-published to_json c (visit groups) order.0)
      ∙ ap (texts to_json) (group_of-get c (visit groups) groups (order.1 c))
      ∙ texts_of_group p c events []
