-- ===== src/Monitor/Windows/Cycle.antt =====
-- A window of pkgs/eventmonitor/monitor.go that is opened and closed by its timer.
use snapshot_sequencer_valid.Base.{
  decimal, nat_eqb_iff, ℕ, ◌+◌, ◌-◌, ◌<◌, Text, text_eq, nat_eqb, beq_self, Bool-cases, true, false,
  ◌&&◌, Option-cases, none, some, List, [], ◌∷◌, ◌++◌, Map, get, has, has-of-get, put, del, get-put,
  length, ℤ, pos, negsuc, zero, suc, if◌then◌else◌, ◌==◌, ◌≡◌, refl, arith, inl, inr, sym, ◌∙◌, ap,
  ltb,
}
use snapshot_sequencer_valid.Redis.Command.{Command, set, lpush}
use snapshot_sequencer_valid.Redis.Keys.{KeyBuilder, epoch_window, finalization_queue}
use snapshot_sequencer_valid.Monitor.Collect.{ProjectSubmissions}
use snapshot_sequencer_valid.Monitor.Batches.{concat, split_into_batches, split_into_batches_lem}
use snapshot_sequencer_valid.Monitor.Windows.{
  WindowManager, EpochWindow, Payload, batch, status_closed, window_key, is_window_open,
  try_acquire, insert_window, remove_window, release, get_key_builder, start_submission_window,
  close_window, batch_size, trigger_finalization, queue_batches, closed_commands,
}

module _ {V : Type 0} (k : Text) where
  del-fresh : (m : Map Text V) → has k m ≡ false → del k m ≡ m
  unfolding del has
  del-fresh [] h = refl
  del-fresh ((j, v) ∷ m) h = elim (Bool-cases (j == k)) [
    | inl same ↦ let there : true ≡ false = rw same at h in absurd (cc)
    | inr other ↦ rw (other, del-fresh m (rw other at h)) refl
  ]

  del-put_fresh : (v : V) (m : Map Text V) → has k m ≡ false → del k (put k v m) ≡ m
  unfolding del put has
  del-put_fresh v [] h = rw (beq_self k) refl
  del-put_fresh v ((j, w) ∷ m) h = elim (Bool-cases (j == k)) [
    | inl same ↦ let there : true ≡ false = rw same at h in absurd (cc)
    | inr other ↦ rw (other, del-put_fresh v m (rw other at h)) (rw other refl)
  ]

-- The builder of the manager's keys for a data market.
abbrev pub own_builder : WindowManager → Text → KeyBuilder
own_builder wm market = record { protocol_state = wm.protocol_state; data_market = market }

-- A builder that is cached for the data market is the manager's own.
pub record IsCache (wm : WindowManager) (market : Text) : Type 0 where
  pub own : (kb : KeyBuilder) → get market wm.key_builders ≡ some kb → kb ≡ own_builder wm market

-- What getKeyBuilder gives and keeps.
record IsBuilt (wm : WindowManager) (market : Text) : Type 0 where
  builder : (get_key_builder wm market).0 ≡ own_builder wm market
  cached : IsCache (get_key_builder wm market).1 market
  active : (get_key_builder wm market).1.active_windows ≡ wm.active_windows
  tokens : (get_key_builder wm market).1.semaphore ≡ wm.semaphore
  state : (get_key_builder wm market).1.protocol_state ≡ wm.protocol_state

built : (wm : WindowManager) (market : Text) → IsCache wm market → IsBuilt wm market
unfolding get_key_builder
built wm market c = record {
  builder = elim (Option-cases (get market wm.key_builders)) [
    | inl absent ↦ ground arith
    | inr (kb, there) ↦ let e = c.own kb there in ground arith
  ];
  cached = record {
    own = λ kb' found. elim (Option-cases (get market wm.key_builders)) [
      | inl absent ↦
          let added = get-put market market (own_builder wm market) wm.key_builders in
          let self = beq_self market in ground arith
      | inr (kb, there) ↦ let e = c.own kb there in ground arith
    ];
  };
  active = ground arith;
  tokens = ground arith;
  state = ground arith;
}

-- The projects of an epoch and a data market in the batches that are pushed to a queue, in order.
abbrev pub queued : Text → ℕ → Text → List (Command Payload) → List (Text × ProjectSubmissions)
queued q epoch market [] = []
queued q epoch market (lpush queue (batch e i total b m) ∷ rest) =
    let others = queued q epoch market rest in
    if (queue == q) && (nat_eqb e epoch && (m == market)) then b ++ others else others
queued q epoch market (_ ∷ rest) = queued q epoch market rest

queued-append :
    (q : Text) (epoch : ℕ) (market : Text) (i total : ℕ)
    (bs : List (List (Text × ProjectSubmissions))) (rest : List (Command Payload))
    → queued q epoch market rest ≡ []
    → queued q epoch market (queue_batches q market epoch i total bs ++ rest) ≡ concat bs
unfolding queue_batches
queued-append q epoch market i total [] rest h = h
queued-append q epoch market i total (b ∷ bs) rest h =
    let same : nat_eqb epoch epoch ≡ true = ground (arith, nat_eqb_iff epoch epoch) in
    let later = queued-append q epoch market (i + 1) total bs rest h in
    rw (beq_self q, same, beq_self market) (ap (λ xs. b ++ xs) later)

batch_size_positive : (n : ℤ) → 0 < batch_size n
unfolding batch_size
batch_size_positive (pos zero) = omega arith
batch_size_positive (pos (suc n)) = omega arith
batch_size_positive (negsuc n) = omega arith

-- What a closed window sends queues its projects, each once.
sent_queued :
    (wm : WindowManager) (kb : KeyBuilder) (market : Text) (epoch now : ℕ)
    (projects : List (Text × ProjectSubmissions))
    → queued
        (finalization_queue kb)
        epoch
        market
        (trigger_finalization wm kb market epoch now projects ++ closed_commands kb epoch now)
      ≡ projects
unfolding trigger_finalization closed_commands
sent_queued wm kb market epoch now projects =
    let size = batch_size wm.finalization_batch_size in
    let bs = split_into_batches size projects in
    queued-append (finalization_queue kb) epoch market 0 (length bs) bs
      (closed_commands kb epoch now) refl
    ∙ (split_into_batches_lem size projects (batch_size_positive wm.finalization_batch_size)).0

removing :
    (wm : WindowManager) (w : EpochWindow) (market : Text) (epoch : ℕ)
    → get (window_key market epoch) wm.active_windows ≡ some w
    → remove_window market epoch wm
      ≡ some (w, record wm { active_windows = del (window_key market epoch) wm.active_windows })
unfolding remove_window
removing wm w market epoch there = ground arith

starting :
    (wm m : WindowManager) (market : Text) (epoch duration start_block now : ℕ)
    → is_window_open wm market epoch ≡ false
    → try_acquire wm ≡ some m
    → let w : EpochWindow = record {
      epoch_id = epoch;
      data_market_address = market;
      start_time = now;
      window_duration = duration;
      start_block_num = start_block;
    } in
      ((start_submission_window wm market epoch duration start_block now).0 ≡ none)
      × ((start_submission_window wm market epoch duration start_block now).1
          ≡ (get_key_builder (insert_window w m) market).1)
unfolding start_submission_window
starting wm m market epoch duration start_block now shut room =
    (rw (shut, room) refl, rw (shut, room) refl)

-- A call of closeWindow for an open window, with a token to take.
closing :
    (wm : WindowManager) (w : EpochWindow) (market : Text) (epoch now : ℕ)
    (projects : List (Text × ProjectSubmissions))
    → IsCache wm market
    → get (window_key market epoch) wm.active_windows ≡ some w
    → 0 < wm.semaphore
    → (closed : WindowManager) × (cs : List (Command Payload)) × (close_window wm market epoch now
          projects
        ≡ some (closed, cs))
      × (closed.active_windows ≡ del (window_key market epoch) wm.active_windows)
      × (closed.semaphore ≡ wm.semaphore - 1)
      × (queued (finalization_queue (own_builder wm market)) epoch market cs ≡ projects)
unfolding close_window
closing wm w market epoch now projects cache there some_token =
    let out : WindowManager = record wm {
      active_windows = del (window_key market epoch) wm.active_windows;
    } in
    let m : WindowManager = record out { semaphore = wm.semaphore - 1 } in
    let found : remove_window market epoch wm ≡ some (w, out) = removing wm w market epoch there in
    let token : ltb 0 wm.semaphore ≡ true = ground arith in
    let released : release out ≡ some m = unfold release in rw token refl in
    let b = built m market (record { own = cache.own }) in
    let kb = (get_key_builder m market).0 in
    let m' = (get_key_builder m market).1 in
    (
      m',
      set (epoch_window kb (decimal epoch)) status_closed 3600
            ∷ trigger_finalization m' kb market epoch now projects
          ++ closed_commands kb epoch now,
      rw (close_window, found, released) refl,
      b.active,
      b.tokens,
      ap
            (λ kb'. queued (finalization_queue kb') epoch market (
              trigger_finalization m' kb market epoch now projects ++ closed_commands kb epoch now))
            (sym b.builder)
          ∙ sent_queued m' kb market epoch now projects,
    )

-- Where the window of an epoch is not open, there is room for one more, and a builder cached for the data
-- market is the manager's own, StartSubmissionWindow opens it, and its timer, if nothing comes between,
-- closes it without waiting: the open windows and the tokens are then as they were before, and the
-- projects that were collected, all of them, are in the batches of the epoch on the finalization queue,
-- each once and in the order of the visit.
pub opened_then_closed :
    (wm : WindowManager) (market : Text) (epoch duration start_block now end : ℕ)
    (projects : List (Text × ProjectSubmissions))
    → IsCache wm market
    → is_window_open wm market epoch ≡ false
    → wm.semaphore < wm.max_windows
    → let (error, opened, sent) =
        start_submission_window wm market epoch duration start_block now in
      (closed : WindowManager) × (cs : List (Command Payload)) × (error ≡ none)
      × (is_window_open opened market epoch ≡ true)
      × (close_window opened market epoch end projects ≡ some (closed, cs))
      × (closed.active_windows ≡ wm.active_windows)
      × (closed.semaphore ≡ wm.semaphore)
      × (queued (finalization_queue (own_builder wm market)) epoch market cs ≡ projects)
opened_then_closed wm market epoch duration start_block now end projects cache shut room =
    let k = window_key market epoch in
    let w : EpochWindow = record {
      epoch_id = epoch;
      data_market_address = market;
      start_time = now;
      window_duration = duration;
      start_block_num = start_block;
    } in
    let taken : WindowManager = record wm { semaphore = wm.semaphore + 1 } in
    let m = insert_window w taken in
    let free : ltb wm.semaphore wm.max_windows ≡ true = ground arith in
    let acquired : try_acquire wm ≡ some taken = unfold try_acquire in rw free refl in
    let fresh : has k wm.active_windows ≡ false = unfold is_window_open in shut in
    let b = built m market (record { own = unfold insert_window in cache.own }) in
    let opened = (get_key_builder m market).1 in
    let active : opened.active_windows ≡ put k w wm.active_windows =
      unfold insert_window in b.active in
    let tokens : opened.semaphore ≡ wm.semaphore + 1 = unfold insert_window in b.tokens in
    let there : get k opened.active_windows ≡ some w =
      rw (active, get-put k k w wm.active_windows, beq_self k) refl in
    let c = closing opened w market epoch end projects b.cached there (omega arith) in
    let (error, next) = starting wm taken market epoch duration start_block now shut acquired in
    let state : opened.protocol_state ≡ wm.protocol_state = unfold insert_window in b.state in
    let still : is_window_open opened market epoch ≡ true =
      unfold is_window_open in has-of-get k opened.active_windows w there in
    (
      c.0,
      c.1,
      error,
      rw next still,
      rw next (c.2),
      c.3 ∙ ap (del k) active ∙ del-put_fresh k w wm.active_windows fresh,
      c.4 ∙ (rw tokens (omega arith)),
      ap
            (λ p.
              queued (finalization_queue (record { protocol_state = p; data_market = market }))
                epoch market (c.1))
            (sym state)
          ∙ c.5,
    )
