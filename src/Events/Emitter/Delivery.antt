-- ===== src/Events/Emitter/Delivery.antt =====
-- Whom an event is delivered to, in every state that the goroutines around an emitter reach.
use snapshot_sequencer_valid.Base.{
  true, append_assoc, append-nil, sym, ◌∙◌, All, map, ltb, List, Bool, ◌&&◌, ◌++◌, if◌then◌else◌, ℕ,
  Text, text_eq, text_eqb_iff, Bool-cases, false, Option, none, some, [], ◌∷◌, Map, get, has, put,
  del, count_if, Distinct, put-Distinct, del-Distinct, ◌≡◌, refl, arith, inl, inr, ◌==◌,
  if◌then◌else◌,
}
use snapshot_sequencer_valid.Events.{Event}
use snapshot_sequencer_valid.Events.Emitter.{
  Emitter, EmitterConfig, Subscriber, new_emitter, start, begin_stop, end_stop, begin_emit,
  try_send, drop_event, subscribe, unsubscribe, handle_event, interested, is_interested, contains,
  has_type, passes, notify,
}
use snapshot_sequencer_valid.Events.Emitter.Machine.{
  System, Step, Reach, initial, here, next, start_call, stop_call, close_channel, emit_call,
  timeout_call, send, add_subscriber, remove_subscriber,
}

-- Every subscriber stands under its own identifier.
abbrev pub Keyed : Map Text Subscriber → Type 0
Keyed [] = Unit
Keyed ((k, s) ∷ rest) = (k ≡ s.id) × Keyed rest

put-Keyed : (s : Subscriber) (m : Map Text Subscriber) → Keyed m → Keyed (put s.id s m)
unfolding put
put-Keyed s [] h = ground arith
put-Keyed s ((k, v) ∷ rest) h = elim (Bool-cases (k == s.id)) [
  | inl same ↦ rw same (ground (arith, text_eqb_iff k s.id), h.1)
  | inr other ↦ rw other (h.0, put-Keyed s rest h.1)
]

del-Keyed : (id : Text) (m : Map Text Subscriber) → Keyed m → Keyed (del id m)
unfolding del
del-Keyed id [] h = h
del-Keyed id ((k, v) ∷ rest) h = elim (Bool-cases (k == id)) [
  | inl same ↦ rw same (del-Keyed id rest h.1)
  | inr other ↦ rw other (h.0, del-Keyed id rest h.1)
]

pub record IsRegister (m : Map Text Subscriber) : Type 0 where
  pub distinct : Distinct m
  pub keyed : Keyed m

subscribe-IsRegister :
    (sub : Option Subscriber) (e : Emitter)
    → IsRegister e.subscribers
    → IsRegister (subscribe sub e).1.subscribers
unfolding subscribe
subscribe-IsRegister none e i = i
subscribe-IsRegister (some s) e i =
    ground (arith, put-Distinct s.id s e.subscribers i.distinct, put-Keyed s e.subscribers i.keyed)

unsubscribe-IsRegister :
    (id : Text) (e : Emitter)
    → IsRegister e.subscribers
    → IsRegister (unsubscribe id e).1.subscribers
unfolding unsubscribe
unsubscribe-IsRegister id e i =
    ground (arith, del-Distinct id e.subscribers i.distinct, del-Keyed id e.subscribers i.keyed)

step-subscribers :
    (s t : System) → Step s t → IsRegister s.emitter.subscribers → IsRegister t.emitter.subscribers
unfolding start begin_stop end_stop begin_emit try_send drop_event handle_event
step-subscribers s _ (start_call e h) i = ground arith
step-subscribers s _ (stop_call e h) i = ground arith
step-subscribers s _ (close_channel n e h closes) i = ground arith
step-subscribers s _ (emit_call event event' e h) i = ground arith
step-subscribers s _ (timeout_call event event' e h) i = ground arith
step-subscribers s _ (send p event xs ys e h unclosed sends) i = ground arith
step-subscribers s _ (add_subscriber sub) i = subscribe-IsRegister sub s.emitter i
step-subscribers s _ (remove_subscriber id) i = unsubscribe-IsRegister id s.emitter i
step-subscribers s _ _ i = i

Reach-IsRegister :
    (config : Option EmitterConfig) (s : System)
    → Reach (initial config) s
    → IsRegister s.emitter.subscribers
unfolding initial new_emitter
Reach-IsRegister config _ here = ground arith
Reach-IsRegister config s (next {t} r step) =
    step-subscribers t s step (Reach-IsRegister config t r)

-- What a subscriber asks for: any of its types, if it names some, and what its filter lets through, if it has
-- one.
abbrev pub asks_type : List Text → Text → Bool
asks_type [] t = true
asks_type (x ∷ xs) t = ltb 0 (count_if (λ y. y == t) (x ∷ xs))

abbrev pub asks_filter : Option (Event → Bool) → Event → Bool
asks_filter none event = true
asks_filter (some f) event = f event

abbrev pub asks_for : Event → Subscriber → Bool
asks_for event s = asks_type s.types event.event_type && asks_filter s.filter event

-- How often a subscriber that is there or not is to be notified of an event.
abbrev pub times : Event → Option Subscriber → ℕ
times event none = 0
times event (some s) = if asks_for event s then 1 else 0

contains-count : (t : Text) (ts : List Text) → contains t ts ≡ ltb 0 (count_if (λ x. x == t) ts)
unfolding contains
contains-count t [] = refl
contains-count t (x ∷ ts) = ground (arith, contains-count t ts)

has_type-asks_type : (ts : List Text) (t : Text) → has_type ts t ≡ asks_type ts t
unfolding has_type
has_type-asks_type [] t = refl
has_type-asks_type (x ∷ ts) t = contains-count t (x ∷ ts)

passes-asks_filter :
    (f : Option (Event → Bool)) (event : Event) → passes f event ≡ asks_filter f event
passes-asks_filter none event = refl
passes-asks_filter (some f) event = refl

interested-asks_for : (event : Event) (s : Subscriber) → is_interested event s ≡ asks_for event s
unfolding is_interested
interested-asks_for event s =
    rw (has_type-asks_type s.types event.event_type, passes-asks_filter s.filter event) refl

interested-absent :
    (event : Event) (id : Text) (m : Map Text Subscriber)
    → Keyed m
    → has id m ≡ false
    → count_if (λ s. s.id == id) (interested event m) ≡ 0
unfolding interested has
interested-absent event id [] k h = refl
interested-absent event id ((key, s) ∷ rest) k h =
    ground (arith, text_eqb_iff key id, text_eqb_iff s.id id, interested-absent event id rest k.1)

interested_once :
    (event : Event) (id : Text) (m : Map Text Subscriber)
    → Distinct m
    → Keyed m
    → count_if (λ s. s.id == id) (interested event m) ≡ times event (get id m)
unfolding interested get
interested_once event id [] d k = refl
interested_once event id ((key, s) ∷ rest) d k = elim (Bool-cases (key == id)) [
  | inl same ↦
      let e : key ≡ id = (text_eqb_iff key id).0 same in
      let asked = interested-asks_for event s in
      ground (arith, text_eqb_iff s.id id, interested-absent event id rest k.1)
  | inr other ↦ ground (arith, text_eqb_iff s.id id, interested_once event id rest d.1 k.1)
]

abbrev call_of : Event → Subscriber → Text × Event
call_of event s = (s.id, event)

notify-calls :
    (event : Event) (ss : List Subscriber) (errors : ℕ) (calls : List (Text × Event))
    → (notify event ss (errors, calls)).1 ≡ calls ++ map (call_of event) ss
unfolding notify
notify-calls event [] errors calls = sym (append-nil calls)
notify-calls event (s ∷ ss) errors calls =
    notify-calls event ss _ (calls ++ call_of event s ∷ [])
    ∙ append_assoc calls (call_of event s ∷ []) (map (call_of event) ss)

calls-All : (event : Event) (ss : List Subscriber) → All (λ c. c.1 ≡ event) (map (call_of event) ss)
calls-All event [] = tt
calls-All event (s ∷ ss) = (refl, calls-All event ss)

calls-count :
    (event : Event) (id : Text) (ss : List Subscriber)
    → count_if (λ c. c.0 == id) (map (call_of event) ss) ≡ count_if (λ s. s.id == id) ss
calls-count event id [] = refl
calls-count event id (s ∷ ss) = rw (calls-count event id ss) refl

-- In every state that is reached from a new emitter: the handling of an event calls handlers with this event
-- only, and that of an identifier's subscriber once, if there is one that asks for the event's type
-- and whose filter passes it, and otherwise none of this identifier.
pub Reach-notified_once :
    (config : Option EmitterConfig) (s : System)
    → Reach (initial config) s
    → (event : Event) (id : Text)
    → (calls : List (Text × Event)) × ((handle_event s.emitter event).notified
        ≡ s.emitter.notified ++ calls)
      × All (λ c. c.1 ≡ event) calls
      × (count_if (λ c. c.0 == id) calls ≡ times event (get id s.emitter.subscribers))
unfolding handle_event
Reach-notified_once config s r event id =
    let i = Reach-IsRegister config s r in
    let called = interested event s.emitter.subscribers in
    (
      map (call_of event) called,
      notify-calls event called s.emitter.processing_errors s.emitter.notified,
      calls-All event called,
      calls-count event id called
          ∙ interested_once event id s.emitter.subscribers i.distinct i.keyed,
    )
