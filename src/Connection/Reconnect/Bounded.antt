-- ===== src/Connection/Reconnect/Bounded.antt =====
-- How long Run goes on, and what it leaves of the strategies that it made.
use ftpn.Connection.Reconnect.{
  ConnectionStrategy, Strategy, Runner, Turn, reconnection_window, runs_at, class_of, live,
  stop_strategy, count_attempt, create_strategy, start_strategy, clean_up, run_turn, goes_on,
  run_loop, run, stop, started_state,
}
use ftpn.Prelude.{
  ℕ, suc, ◌+◌, ◌-◌, ◌≤◌, ◌<◌, ◌≡◌, refl, ap, sym, ◌∙◌, inl, inr, Bool, true, false, Option, none,
  some, List, [], ◌∷◌, ◌++◌, arith, leb, length, All, Bool-cases,
}

-- Each of the list twice in a row.
abbrev pub twice : List Strategy → List Strategy
twice [] = []
twice (o ∷ os) = o ∷ o ∷ twice os

-- Each strategy made is the live one or was stopped, twice and in order; at most `max_reconnections` attempts
-- are counted; only a manager that is to stop has a live one.
record Inv (max_reconnections : ℕ) (s : Runner) : Type 0 where
  pub accounted : twice s.created ≡ twice (live s.strategy_connection) ++ s.stopped
  pub counted : s.reconnection_attempts ≤ max_reconnections
  pub cleaned : s.running ≡ true → s.strategy_connection ≡ none

stop_strategy-live :
    (o : Option Strategy) (s : Runner)
    → twice s.created ≡ twice (live o) ++ s.stopped
    → twice (stop_strategy o s).created ≡ twice (live none) ++ (stop_strategy o s).stopped
unfolding stop_strategy
stop_strategy-live none s h = h
stop_strategy-live (some o) s h = h

stop_strategy-none :
    (o : Option Strategy) (s : Runner)
    → s.strategy_connection ≡ o
    → (stop_strategy o s).strategy_connection ≡ none
unfolding stop_strategy
stop_strategy-none none s h = h
stop_strategy-none (some o) s h = refl

stop_strategy-kept :
    (o : Option Strategy) (s : Runner)
    → ((stop_strategy o s).reconnection_attempts ≡ s.reconnection_attempts)
      × ((stop_strategy o s).window_start_time ≡ s.window_start_time)
      × ((stop_strategy o s).created ≡ s.created)
unfolding stop_strategy
stop_strategy-kept none s = (refl, refl, refl)
stop_strategy-kept (some o) s = (refl, refl, refl)

count_attempt-kept :
    (now : ℕ) (s : Runner)
    → ((count_attempt now s).created ≡ s.created)
      × ((count_attempt now s).stopped ≡ s.stopped)
      × ((count_attempt now s).strategy_connection ≡ s.strategy_connection)
      × ((count_attempt now s).reconnection_attempts ≤ s.reconnection_attempts + 1)
unfolding count_attempt
count_attempt-kept now s = ground arith

runs_at-earlier : (o : Option ℕ) (i j : ℕ) → i ≤ j → runs_at o j ≡ true → runs_at o i ≡ true
runs_at-earlier none i j h r = refl
runs_at-earlier (some n) i j h r = ground arith

-- Behind the making and the start of an object.
record Ready (s u : Runner) : Type 0 where
  pub accounted : twice u.created ≡ twice (live u.strategy_connection) ++ u.stopped
  pub counted_attempts : u.reconnection_attempts ≡ s.reconnection_attempts
  pub window : u.window_start_time ≡ s.window_start_time
  pub one_more : length u.created ≤ suc (length s.created)

-- Behind the rest of the loop body.
record Cleaned (t : Turn) (s u : Runner) : Type 0 where
  pub accounted : twice u.created ≡ twice (live u.strategy_connection) ++ u.stopped
  pub counted_attempts : u.reconnection_attempts ≤ s.reconnection_attempts + 1
  pub cleaned : u.running ≡ true → u.strategy_connection ≡ none
  pub same_created : u.created ≡ s.created
  pub in_window :
      t.current_time < s.window_start_time + reconnection_window
      → (u.window_start_time ≡ s.window_start_time)
        × (u.reconnection_attempts ≡ s.reconnection_attempts + 1)

-- What the clean-up leaves to the counting of the attempt.
record CleanedUp (s c : Runner) : Type 0 where
  pub accounted : twice c.created ≡ twice (live c.strategy_connection) ++ c.stopped
  pub counted_attempts : c.reconnection_attempts ≡ s.reconnection_attempts
  pub window : c.window_start_time ≡ s.window_start_time
  pub same_created : c.created ≡ s.created

count_attempt-Cleaned :
    (t : Turn) (s c : Runner) (runs : Bool)
    → CleanedUp s c
    → (runs ≡ true → c.strategy_connection ≡ none)
    → Cleaned t s (record (count_attempt t.current_time c) { running = runs })
unfolding count_attempt
count_attempt-Cleaned t s c runs w h =
    elim (Bool-cases (leb reconnection_window (t.current_time - c.window_start_time))) [
      | inl e ↦ rw e (record {
        accounted = w.accounted;
        counted_attempts = omega arith;
        cleaned = h;
        same_created = w.same_created;
        in_window = λ lt. absurd (ground (arith, w.window, e, lt));
      })
      | inr e ↦ rw e (record {
        accounted = w.accounted;
        counted_attempts = omega (arith, w.counted_attempts);
        cleaned = h;
        same_created = w.same_created;
        in_window = λ lt. (w.window, omega (arith, w.counted_attempts));
      })
    ]

clean_up-Cleaned :
    (t : Turn) (s : Runner)
    → twice s.created ≡ twice (live s.strategy_connection) ++ s.stopped
    → Cleaned t s (clean_up t s)
unfolding clean_up
clean_up-Cleaned t s h = elim (Bool-cases (runs_at t.cleared_at 3)) [
  | inl a ↦
      let (counted_attempts, window, same_created) = stop_strategy-kept s.strategy_connection s in
      let gone = stop_strategy-none s.strategy_connection s refl in
      rw a (
        count_attempt-Cleaned t s (stop_strategy s.strategy_connection s) (runs_at t.cleared_at 4)
          (record {
            accounted = rw gone (stop_strategy-live s.strategy_connection s h);
            counted_attempts = counted_attempts;
            window = window;
            same_created = same_created;
          })
          (λ r. gone))
  | inr a ↦ rw a (
      count_attempt-Cleaned t s s (runs_at t.cleared_at 4)
        (record { accounted = h; counted_attempts = refl; window = refl; same_created = refl })
        (λ r. absurd (ground (arith, a, runs_at-earlier t.cleared_at 3 4 (omega arith) r))))
]

-- Whatever Run left, if it ended.
abbrev pub IfEnded : (Runner → Type 0) → Option Runner → Type 0
IfEnded P none = Unit
IfEnded P (some s) = P s

-- Run ended with at most `limit` strategies made.
abbrev pub EndsWithin : ℕ → Option Runner → Type 0
EndsWithin limit o = (s : Runner) × (o ≡ some s) × (length s.created ≤ limit)

module _ (connection_strategy_type : ConnectionStrategy) where
  create-Ready :
      (t : Turn) (s : Runner)
      → twice s.created ≡ s.stopped
      → s.strategy_connection ≡ none
      → Ready s (create_strategy connection_strategy_type t s)
  unfolding create_strategy
  create-Ready t s h e = elim (Bool-cases (runs_at t.cleared_at 0)) [
    | inl a ↦ rw a (record {
      accounted =
          ap
            (λ stopped.
              let o : Strategy = record {
                number = length s.created;
                class = class_of connection_strategy_type;
              } in
              o ∷ o ∷ stopped)
            h;
      counted_attempts = refl;
      window = refl;
      one_more = omega arith;
    })
    | inr a ↦ rw a (record {
      accounted = h ∙ sym (ap (λ (o : Option Strategy). twice (live o) ++ s.stopped) e);
      counted_attempts = refl;
      window = refl;
      one_more = omega arith;
    })
  ]

  start-Ready : (t : Turn) (s c : Runner) → Ready s c → Ready s (start_strategy t c)
  unfolding start_strategy
  start-Ready t s c r = elim (Bool-cases (runs_at t.cleared_at 1)) [
    | inl a ↦ rw a (record {
      accounted = r.accounted;
      counted_attempts = r.counted_attempts;
      window = r.window;
      one_more = r.one_more;
    })
    | inr a ↦ rw a r
  ]

  -- Behind the loop body: the strategies are accounted for, and inside the window one attempt is counted.
  record Turned (t : Turn) (s : Runner) (turn : Runner × Bool) : Type 0 where
    pub accounted : twice turn.0.created ≡ twice (live turn.0.strategy_connection) ++ turn.0.stopped
    pub counted_attempts : turn.0.reconnection_attempts ≤ s.reconnection_attempts + 1
    pub cleaned : turn.0.running ≡ true → turn.0.strategy_connection ≡ none
    pub one_more : length turn.0.created ≤ suc (length s.created)
    pub in_window :
        turn.1 ≡ false
        → t.current_time < s.window_start_time + reconnection_window
        → (turn.0.window_start_time ≡ s.window_start_time)
          × (turn.0.reconnection_attempts ≡ s.reconnection_attempts + 1)

  run_turn-Turned :
      (t : Turn) (s : Runner)
      → twice s.created ≡ s.stopped
      → s.strategy_connection ≡ none
      → Turned t s (run_turn connection_strategy_type t s)
  unfolding run_turn
  run_turn-Turned t s h e =
      let begun = start_strategy t (create_strategy connection_strategy_type t s) in
      let r =
        start-Ready t s (create_strategy connection_strategy_type t s) (create-Ready t s h e) in
      elim (Bool-cases (runs_at t.cleared_at 2)) [
        | inl a ↦
            let c = clean_up-Cleaned t begun r.accounted in
            rw a (record {
              accounted = c.accounted;
              counted_attempts = omega (arith, c.counted_attempts, r.counted_attempts);
              cleaned = c.cleaned;
              one_more = rw c.same_created r.one_more;
              in_window = λ _ lt.
                  let (w, n) = c.in_window (omega (arith, r.window, lt)) in
                  (w ∙ r.window, omega (arith, n, r.counted_attempts));
            })
        | inr a ↦ rw a (record {
          accounted = r.accounted;
          counted_attempts = omega (arith, r.counted_attempts);
          cleaned = λ no'. absurd (ground (arith, no'));
          one_more = r.one_more;
          in_window = λ no' lt. absurd (ground (arith, no'));
        })
      ]

  module _ (max_reconnections : ℕ) where
    -- At the loop's head.
    abbrev Head : Runner → Type 0
    Head s =
        (twice s.created ≡ twice (live s.strategy_connection) ++ s.stopped)
        × (s.running ≡ true → s.strategy_connection ≡ none)

    abbrev Left : Runner → Type 0
    Left s =
        (s.running ≡ false) × (twice s.created ≡ twice (live s.strategy_connection) ++ s.stopped)

    goes_on-lt :
        (s : Runner)
        → goes_on connection_strategy_type max_reconnections s ≡ true
        → s.reconnection_attempts < max_reconnections
    unfolding goes_on
    goes_on-lt s g = ground arith

    turned :
        (t : Turn) (s : Runner)
        → Head s
        → goes_on connection_strategy_type max_reconnections s ≡ true
        → Turned t s (run_turn connection_strategy_type t s)
    unfolding goes_on
    turned t s (h, c) g =
        let e = c (ground (arith, g)) in
        run_turn-Turned t s (h ∙ ap (λ (o : Option Strategy). twice (live o) ++ s.stopped) e) e

    halted-Left :
        (s : Runner)
        → twice s.created ≡ twice (live s.strategy_connection) ++ s.stopped
        → Left (record s { running = false })
    halted-Left s h = (refl, h)

    run_loop-Left :
        (ts : List Turn) (s : Runner)
        → Head s
        → IfEnded Left (run_loop connection_strategy_type max_reconnections ts s)
    unfolding run_loop
    run_loop-Left [] s h =
        elim (Bool-cases (goes_on connection_strategy_type max_reconnections s)) [
          | inl g ↦ rw g tt
          | inr g ↦ rw g (halted-Left s h.0)
        ]
    run_loop-Left (t ∷ ts) s h =
        elim (Bool-cases (goes_on connection_strategy_type max_reconnections s)) [
          | inr g ↦ rw g (halted-Left s h.0)
          | inl g ↦
              let u = turned t s h g in
              let turn = run_turn connection_strategy_type t s in
              elim (Bool-cases turn.1) [
                | inl b ↦ rw (g, b) (halted-Left turn.0 u.accounted)
                | inr b ↦ rw (g, b) (run_loop-Left ts turn.0 (u.accounted, u.cleaned))
              ]
        ]

    run_loop-EndsWithin :
        (ts : List Turn) (s : Runner) (limit : ℕ)
        → Head s
        → max_reconnections ≤ s.reconnection_attempts + length ts
        → length s.created + (max_reconnections - s.reconnection_attempts) ≤ limit
        → All (λ t. t.current_time < s.window_start_time + reconnection_window) ts
        → EndsWithin limit (run_loop connection_strategy_type max_reconnections ts s)
    unfolding run_loop
    run_loop-EndsWithin [] s limit h enough bound early =
        elim (Bool-cases (goes_on connection_strategy_type max_reconnections s)) [
          | inl g ↦ absurd (let lt = goes_on-lt s g in omega (arith, lt))
          | inr g ↦ rw g (record s { running = false }, refl, omega (arith, bound))
        ]
    run_loop-EndsWithin (t ∷ ts) s limit h enough bound early =
        elim (Bool-cases (goes_on connection_strategy_type max_reconnections s)) [
          | inr g ↦ rw g (record s { running = false }, refl, omega (arith, bound))
          | inl g ↦
              let u = turned t s h g in
              let lt = goes_on-lt s g in
              let turn = run_turn connection_strategy_type t s in
              elim (Bool-cases turn.1) [
                | inl b ↦
                    rw (g, b)
                      (
                        record turn.0 { running = false },
                        refl,
                        omega (arith, u.one_more, lt, bound),
                      )
                | inr b ↦
                    let (window, counted_attempts) = u.in_window b early.0 in
                    rw (g, b)
                      (run_loop-EndsWithin ts turn.0 limit (u.accounted, u.cleaned)
                        (omega (arith, counted_attempts, enough))
                        (omega (arith, counted_attempts, u.one_more, lt, bound))
                        (rw window early.1))
              ]
        ]

    -- If the clock stays within the window of 120 seconds, Run ends after at most as many turns as
    -- reconnections are allowed, and has made at most that many strategies.
    pub run-EndsWithin :
        (start : ℕ) (ts : List Turn)
        → All (λ t. t.current_time < start + reconnection_window) ts
        → max_reconnections ≤ length ts
        → EndsWithin max_reconnections
            (run connection_strategy_type max_reconnections start ts started_state)
    unfolding run
    run-EndsWithin start ts early enough =
        run_loop-EndsWithin ts _ max_reconnections (refl, λ _. refl) (omega arith) (omega arith)
          early

    -- However often the window starts again and wherever Stop interrupts it: when Run has ended and Stop
    -- has run behind it, Stop was called twice on each strategy that was made, once by the manager and once by
    -- its destructor, and none is left.
    pub stop-run :
        (start : ℕ) (ts : List Turn)
        → IfEnded
            (λ s.
              (s.running ≡ false)
              × ((stop s).0.stopped ≡ twice s.created)
              × ((stop s).0.strategy_connection ≡ none))
            (run connection_strategy_type max_reconnections start ts started_state)
    unfolding run stop
    stop-run start ts = weaken _ (run_loop-Left ts _ (refl, λ _. refl))
      where
        weaken :
            (o : Option Runner)
            → IfEnded Left o
            → IfEnded
                (λ s.
                  (s.running ≡ false)
                  × ((stop s).0.stopped ≡ twice s.created)
                  × ((stop s).0.strategy_connection ≡ none))
                o
        weaken none h = tt
        weaken (some s) (r, h) = (
          r,
          sym (stop_strategy-live s.strategy_connection s h)
              ∙ ap twice (stop_strategy-kept s.strategy_connection s).2,
          stop_strategy-none s.strategy_connection s refl,
        )
