-- ===== src/Monitor/Windows/Interleaving.antt =====
-- The window manager under interleaving: one goroutine opens windows (`processEvents`), and any number
-- of timers close them, each step of theirs coming at any time; so may Shutdown.
use snapshot_sequencer_valid.Base.{
  ◌∙◌, ap, Option-cases, ◌-◌, ℕ, suc, ◌+◌, ◌≤◌, ◌<◌, ◌≡◌, refl, arith, Text, text_eq, Bool, true,
  false, some, has, get, del, length, Distinct, length-put, length-del, put-Distinct, del-Distinct,
  has-del, has-of-get, has_nonempty, inl, inr,
}
use snapshot_sequencer_valid.Monitor.Windows.{
  get_key_builder, WindowManager, EpochWindow, window_key, is_window_open, try_acquire,
  insert_window, remove_window, release, shutdown,
}

-- Where the goroutine that opens windows stands.
pub data Starter : Type 0 where
  idle : Starter
  looked : EpochWindow → Starter
  holding : EpochWindow → Starter

-- `closing` timers have taken their window out and not yet given their token back. `dropped` is a history:
-- how many windows Shutdown has taken out, whose tokens nobody gives back.
pub record State : Type 0 where
  pub manager : WindowManager
  pub starter : Starter
  pub closing : ℕ
  pub dropped : ℕ

pub data Step : State → State → Type 0 where
  look :
      (s : State) (w : EpochWindow)
      → s.starter ≡ idle
      → is_window_open s.manager w.data_market_address w.epoch_id ≡ false
      → Step s (record s { starter = looked w })
  refuse :
      (s : State) (w : EpochWindow) → s.starter ≡ looked w → Step s (record s { starter = idle })
  take :
      (s : State) (w : EpochWindow) (m : WindowManager)
      → s.starter ≡ looked w
      → try_acquire s.manager ≡ some m
      → Step s (record s { manager = m; starter = holding w })
  insert :
      (s : State) (w : EpochWindow)
      → s.starter ≡ holding w
      → Step s (record s { manager = insert_window w s.manager; starter = idle })
  fire :
      (s : State) (market : Text) (epoch : ℕ) (w : EpochWindow) (m : WindowManager)
      → remove_window market epoch s.manager ≡ some (w, m)
      → Step s (record s { manager = m; closing = suc s.closing })
  give :
      (s : State) (n : ℕ) (m : WindowManager)
      → s.closing ≡ suc n
      → release s.manager ≡ some m
      → Step s (record s { manager = m; closing = n })
  build :
      (s : State) (market : Text)
      → Step s (record s { manager = (get_key_builder s.manager market).1 })
  shut :
      (s : State)
      → Step s (record s {
        manager = shutdown s.manager;
        dropped = s.dropped + length s.manager.active_windows;
      })

pub data Reach (s : State) : State → Type 0 where
  here : Reach s s
  next : {t u : State} → Reach s t → Step t u → Reach s u

abbrev pub held : Starter → ℕ
held (holding w) = 1
held _ = 0

abbrev pub is_new : Starter → WindowManager → Bool
is_new idle m = true
is_new (looked w) m = elim (is_window_open m w.data_market_address w.epoch_id) [
  | true ↦ false
  | false ↦ true
]
is_new (holding w) m = elim (is_window_open m w.data_market_address w.epoch_id) [
  | true ↦ false
  | false ↦ true
]

-- Every token belongs to an open window, to the starter, to a timer that is closing or to a window that
-- Shutdown dropped; there are at most `max_windows`; and the window that is being opened is not open yet.
pub record IsBalanced (s : State) : Type 0 where
  pub distinct : Distinct s.manager.active_windows
  pub balance :
      s.manager.semaphore ≡ length s.manager.active_windows + held s.starter + s.closing + s.dropped
  pub bounded : s.manager.semaphore ≤ s.manager.max_windows
  pub new : is_new s.starter s.manager ≡ true

is_new-remove :
    (st : Starter) (market : Text) (epoch : ℕ) (m : WindowManager)
    → is_new st m ≡ true
    → is_new st (record m { active_windows = del (window_key market epoch) m.active_windows })
      ≡ true
unfolding is_window_open
is_new-remove idle market epoch m h = refl
is_new-remove (looked w) market epoch m h = ground (
  arith,
  has-del (window_key market epoch) (window_key w.data_market_address w.epoch_id) m.active_windows,
)
is_new-remove (holding w) market epoch m h = ground (
  arith,
  has-del (window_key market epoch) (window_key w.data_market_address w.epoch_id) m.active_windows,
)

acquired :
    (wm m : WindowManager)
    → try_acquire wm ≡ some m
    → (m ≡ record wm { semaphore = wm.semaphore + 1 }) × (wm.semaphore < wm.max_windows)
unfolding try_acquire
acquired wm m h = ground arith

released :
    (wm m : WindowManager)
    → release wm ≡ some m
    → (m ≡ record wm { semaphore = wm.semaphore - 1 }) × (0 < wm.semaphore)
unfolding release
released wm m h = ground arith

removed :
    (market : Text) (epoch : ℕ) (wm m : WindowManager) (w : EpochWindow)
    → remove_window market epoch wm ≡ some (w, m)
    → (m ≡ record wm { active_windows = del (window_key market epoch) wm.active_windows })
      × (has (window_key market epoch) wm.active_windows ≡ true)
unfolding remove_window
removed market epoch wm m w h =
    elim (Option-cases (get (window_key market epoch) wm.active_windows)) [
      | inl absent ↦ absurd (ground arith)
      | inr (v, present) ↦
          (ground arith, has-of-get (window_key market epoch) wm.active_windows v present)
    ]

insert-IsBalanced :
    (s : State) (w : EpochWindow)
    → s.starter ≡ holding w
    → IsBalanced s
    → IsBalanced (record s { manager = insert_window w s.manager; starter = idle })
unfolding insert_window is_window_open
insert-IsBalanced s w e b =
    let k = window_key w.data_market_address w.epoch_id in
    let fresh : has k s.manager.active_windows ≡ false =
      ground (arith, ap (λ st. is_new st s.manager) e) in
    record {
      distinct = put-Distinct k w s.manager.active_windows b.distinct;
      balance = ground (arith, length-put k w s.manager.active_windows, ap held e);
      bounded = b.bounded;
      new = refl;
    }

keep_builder :
    (wm : WindowManager) (market : Text)
    → ((get_key_builder wm market).1.active_windows ≡ wm.active_windows)
      × ((get_key_builder wm market).1.semaphore ≡ wm.semaphore)
      × ((get_key_builder wm market).1.max_windows ≡ wm.max_windows)
unfolding get_key_builder
keep_builder wm market = ground arith

is_new-active :
    (st : Starter) (m n : WindowManager)
    → m.active_windows ≡ n.active_windows
    → is_new st m ≡ is_new st n
unfolding is_window_open
is_new-active idle m n e = refl
is_new-active (looked w) m n e =
    ground (arith, ap (λ a. has (window_key w.data_market_address w.epoch_id) a) e)
is_new-active (holding w) m n e =
    ground (arith, ap (λ a. has (window_key w.data_market_address w.epoch_id) a) e)

build-IsBalanced :
    (s : State) (m : WindowManager)
    → m.active_windows ≡ s.manager.active_windows
    → m.semaphore ≡ s.manager.semaphore
    → m.max_windows ≡ s.manager.max_windows
    → IsBalanced s
    → IsBalanced (record s { manager = m })
build-IsBalanced s m a c d b = record {
  distinct = rw a b.distinct;
  balance = rw a (omega arith);
  bounded = omega arith;
  new = is_new-active s.starter m s.manager a ∙ b.new;
}

shut-new : (st : Starter) (m : WindowManager) → is_new st (shutdown m) ≡ true
unfolding shutdown is_window_open has
shut-new idle m = refl
shut-new (looked w) m = refl
shut-new (holding w) m = refl

-- Every step of the opening goroutine and of the timers keeps the account of the tokens.
pub Step-IsBalanced : {s t : State} → Step s t → IsBalanced s → IsBalanced t
Step-IsBalanced (look s w e n) b = record {
  distinct = b.distinct;
  balance = omega (arith, ap held e);
  bounded = b.bounded;
  new = rw (n, is_new);
}
Step-IsBalanced (refuse s w e) b = record {
  distinct = b.distinct;
  balance = omega (arith, ap held e);
  bounded = b.bounded;
  new = refl;
}
Step-IsBalanced (take s w m e f) b =
    let (same, room) = acquired s.manager m f in
    rw same (record {
      distinct = b.distinct;
      balance = omega (arith, ap held e);
      bounded = omega arith;
      new = unfold is_window_open in ground (arith, ap (λ st. is_new st s.manager) e);
    })
Step-IsBalanced (insert s w e) b = insert-IsBalanced s w e b
Step-IsBalanced (fire s market epoch w m e) b =
    let k = window_key market epoch in
    let (same, there) = removed market epoch s.manager m w e in
    rw same (record {
      distinct = del-Distinct k s.manager.active_windows b.distinct;
      balance = ground (
        arith,
        length-del k s.manager.active_windows b.distinct,
        has_nonempty k s.manager.active_windows,
      );
      bounded = b.bounded;
      new = is_new-remove s.starter market epoch s.manager b.new;
    })
Step-IsBalanced (build s market) b =
    let (a, c, d) = keep_builder s.manager market in
    build-IsBalanced s (get_key_builder s.manager market).1 a c d b
Step-IsBalanced (shut s) b = record {
  distinct = unfold shutdown in tt;
  balance = unfold shutdown in omega (arith, b.balance);
  bounded = unfold shutdown in b.bounded;
  new = shut-new s.starter s.manager;
}
Step-IsBalanced (give s n m e f) b =
    let (same, some_token) = released s.manager m f in
    rw same (record {
      distinct = b.distinct;
      balance = omega arith;
      bounded = omega arith;
      new = is_new-active s.starter _ s.manager refl ∙ b.new;
    })

-- However the goroutines and Shutdown interleave, every token of the semaphore belongs to an open window,
-- to the window that is being opened, to a timer that is closing one, or to a window that Shutdown dropped
-- without giving its token back; and there are at most `max_windows`.
pub Reach-IsBalanced : {s t : State} → IsBalanced s → Reach s t → IsBalanced t
Reach-IsBalanced b here = b
Reach-IsBalanced b (next r st) = Step-IsBalanced st (Reach-IsBalanced b r)

-- A timer that has taken its window out never waits for the semaphore: its token can be given back.
pub closing_never_waits :
    {s t : State}
    → IsBalanced s
    → Reach s t
    → 0 < t.closing
    → (m : WindowManager) × (release t.manager ≡ some m) × (m.semaphore + 1 ≡ t.manager.semaphore)
unfolding release
closing_never_waits {t = t} b r h =
    let b' = Reach-IsBalanced b r in
    (record t.manager { semaphore = t.manager.semaphore - 1 }, ground arith, ground arith)
