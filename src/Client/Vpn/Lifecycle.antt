-- ===== src/Client/Vpn/Lifecycle.antt =====
-- The order of the calls that Start and Supervise make, and when Supervise gives up.
use ftpn.Client.Vpn.{
  Call, routes_apply, routes_clean, http_start, http_stop, tun_start, backoff, VpnManager,
  new_manager, open_loop, open_tun, start, stop, is_started,
}
use ftpn.Client.Vpn.Supervise.{
  Sight, runs_at, at_least_one, mark_reconnecting, give_up, restart, supervise_pass, supervise_loop,
  supervise,
}
use ftpn.Prelude.{
  ℕ, zero, suc, ◌+◌, ◌-◌, ◌≤◌, ◌≡◌, ◌⊎◌, refl, ap, ◌∙◌, inl, inr, Bool, true, false, not, Option,
  none, some, List, [], ◌∷◌, arith, leb, All, ◌<◌, if◌then◌else◌, Bool-cases,
}

-- Where the calls have led: nothing is set up, the routes are set, the client runs too, the client was
-- stopped, the routes were taken back under a running client.
pub data Stage : Type 0 where
  bare routed up halted abandoned : Stage

abbrev pub advance : Call → Stage → Option Stage
advance tun_start Stage.bare = some Stage.bare
advance (backoff n) Stage.bare = some Stage.bare
advance routes_apply Stage.bare = some Stage.routed
advance http_start Stage.routed = some Stage.up
advance http_stop Stage.up = some Stage.halted
advance routes_clean Stage.halted = some Stage.bare
advance routes_clean Stage.up = some Stage.abandoned
advance c s = none

-- `none` if a call came out of order: routes set twice, a client started twice or without routes, routes
-- taken back twice.
unfoldable pub stage : List Call → Option Stage
stage [] = some Stage.bare
stage (c ∷ calls) = elim (stage calls) [ none ↦ none | some s ↦ advance c s ]

unfoldable pub count_starts : List Call → ℕ
count_starts [] = 0
count_starts (http_start ∷ calls) = suc (count_starts calls)
count_starts (_ ∷ calls) = count_starts calls

-- At the head of Supervise's loop.
pub record Watching (m : VpnManager) : Type 0 where
  pub in_order : stage m.calls ≡ some Stage.up
  pub restarts : m.full_restart_count ≤ 10
  pub few_attempts : m.reconnect_attempt ≤ 10
  pub no_surrender : m.gave_up ≡ false
  pub was_connected : m.reconnecting ≡ true → m.ever_connected ≡ true

-- Behind it: it gave up behind ten restarts, with the routes taken back, or Stop ended it, with the client
-- and the routes both up or both down.
abbrev pub Over : VpnManager → Type 0
Over m =
    ((m.gave_up ≡ true)
      × (m.full_restart_count ≡ 10)
      × (m.reconnecting ≡ false)
      × (stage m.calls ≡ some Stage.abandoned))
    ⊎ ((m.gave_up ≡ false)
        × (m.running ≡ false)
        × ((stage m.calls ≡ some Stage.up) ⊎ (stage m.calls ≡ some Stage.bare)))

abbrev pub Supervised : VpnManager × Bool → Type 0
Supervised (m, ended) =
    ((ended ≡ true) × Over m) ⊎ ((ended ≡ false) × (m.running ≡ true) × Watching m)

at_least_one-le : (n : ℕ) → n ≤ 10 → at_least_one n ≤ 10
at_least_one-le zero h = omega arith
at_least_one-le (suc n) h = h

if_holds {ℓ κ} :
    {A : Type ℓ} (P : A → Type κ) (b : Bool) (x y : A)
    → (b ≡ true → P x)
    → (b ≡ false → P y)
    → P (if b then x else y)
if_holds P true x y hx hy = hx refl
if_holds P false x y hx hy = hy refl

mark-Watching : (m : VpnManager) → Watching m → Watching (mark_reconnecting m)
unfolding mark_reconnecting
mark-Watching m w =
    if_holds Watching m.ever_connected _ _
      (λ e. record {
        in_order = w.in_order;
        restarts = w.restarts;
        few_attempts = at_least_one-le m.full_restart_count w.restarts;
        no_surrender = w.no_surrender;
        was_connected = λ _. e;
      })
      (λ e. w)

mark-same : (m : VpnManager) → (mark_reconnecting m).full_restart_count ≡ m.full_restart_count
unfolding mark_reconnecting
mark-same m =
    if_holds (λ (u : VpnManager). u.full_restart_count ≡ m.full_restart_count) m.ever_connected _ _
      (λ _. refl) (λ _. refl)

-- What a pass of the loop leaves.
abbrev Passed : VpnManager × Bool → Type 0
Passed (m, left) = ((left ≡ true) × Over m) ⊎ ((left ≡ false) × Watching m)

restart-Passed :
    (o : Sight) (m : VpnManager)
    → Watching m
    → leb 10 m.full_restart_count ≡ false
    → Passed (restart o m)
unfolding restart stage
restart-Passed o m w few = elim (Bool-cases (runs_at o.cleared_at 1)) [
  | inl e ↦ rw e (
      inr (
        refl,
        record {
          in_order = rw w.in_order refl;
          restarts = ground (arith, few);
          few_attempts = ground (arith, few);
          no_surrender = w.no_surrender;
          was_connected = w.was_connected;
        },
      ))
  | inr e ↦ rw e (inl (refl, inr (w.no_surrender, refl, inr (rw w.in_order refl))))
]

give_up-Over : (m : VpnManager) → Watching m → leb 10 m.full_restart_count ≡ true → Over (give_up m)
unfolding give_up stage
give_up-Over m w many = inl (refl, ground (arith, w.restarts, many), refl, rw w.in_order refl)

supervise_pass-Passed : (o : Sight) (m : VpnManager) → Watching m → Passed (supervise_pass o m)
unfolding supervise_pass
supervise_pass-Passed o m w =
    if_holds Passed (not (runs_at o.cleared_at 0)) _ _
      (λ _. inl (refl, inr (w.no_surrender, refl, inl w.in_order)))
      λ _.
        if_holds Passed o.http_connected _ _
          (λ _. inr (
            refl,
            record {
              in_order = w.in_order;
              restarts = omega arith;
              few_attempts = omega arith;
              no_surrender = w.no_surrender;
              was_connected = λ _. refl;
            },
          ))
          λ _.
            if_holds Passed o.http_started _ _
              (λ _. inr (
                refl,
                record {
                  in_order = v.in_order;
                  restarts = v.restarts;
                  few_attempts = v.few_attempts;
                  no_surrender = v.no_surrender;
                  was_connected = v.was_connected;
                },
              ))
              λ _.
                if_holds Passed (leb 10 m.full_restart_count) _ _
                  (λ many. inl (refl, give_up-Over (mark_reconnecting m) v (rw same many)))
                  λ few. restart-Passed o (mark_reconnecting m) v (rw same few)
  where
    v : Watching (mark_reconnecting m)
    v = mark-Watching m w

    same : (mark_reconnecting m).full_restart_count ≡ m.full_restart_count
    same = mark-same m

supervise_loop-Supervised :
    (os : List Sight) (m : VpnManager) → Watching m → Supervised (supervise_loop os m)
unfolding supervise_loop
supervise_loop-Supervised [] m w = elim (Bool-cases m.running) [
  | inl e ↦ inr (ap not e, e, w)
  | inr e ↦ inl (ap not e, inr (w.no_surrender, e, inl w.in_order))
]
supervise_loop-Supervised (o ∷ os) m w =
    let pass = supervise_pass o m in
    if_holds Supervised (not m.running) _ _
      (λ e. inl (refl, inr (w.no_surrender, ground (arith, e), inl w.in_order)))
      λ _. elim (supervise_pass-Passed o m w) [
        | inl (b, over) ↦ rw b (inl (refl, over))
        | inr (b, watching) ↦ rw b (supervise_loop-Supervised os pass.0 watching)
      ]

empty-stage : stage [] ≡ some Stage.bare
unfolding stage
empty-stage = refl

-- The device opened at one of at most five attempts, or none of five succeeded.
open_loop-calls :
    (opens : ℕ → Bool) (left i : ℕ) (calls : List Call)
    → stage calls ≡ some Stage.bare
    → stage (open_loop opens left i calls).0 ≡ some Stage.bare
unfolding open_loop stage
open_loop-calls opens zero i calls h = h
open_loop-calls opens (suc left) i calls h =
    if_holds (λ (r : List Call × Bool). stage r.0 ≡ some Stage.bare) (opens i) _ _ (λ _. rw h refl)
      λ _. open_loop-calls opens left (suc i) (tun_start ∷ calls) (rw h refl)

up-stage :
    (calls : List Call)
    → stage calls ≡ some Stage.bare
    → stage (http_start ∷ routes_apply ∷ calls) ≡ some Stage.up
unfolding stage
up-stage calls h = rw h refl

start-Watching :
    (opens : ℕ → Bool)
    → (start opens (new_manager true true true)).1 ≡ true
    → Watching (start opens (new_manager true true true)).0
unfolding start
start-Watching opens opened = elim (Bool-cases (open_tun opens (new_manager true true true)).1) [
  | inl e ↦ rw e (record {
    in_order = up-stage _ (open_loop-calls opens 5 1 [] empty-stage);
    restarts = omega arith;
    few_attempts = omega arith;
    no_surrender = refl;
    was_connected = λ h. absurd (ground (arith, h));
  })
  | inr e ↦ absurd (let o = rw e at opened in ground (arith, o))
]

-- Once Start has succeeded, whatever Supervise sees and wherever Stop interrupts it: it never sets or
-- takes back the routes twice in a row, starts no client without routes or twice, makes at most ten restarts
-- between two connections, and gives up only behind ten of them, with the routes taken back; while
-- it runs the routes are set and the client was started.
pub supervise-Supervised :
    (opens : ℕ → Bool) (os : List Sight)
    → (start opens (new_manager true true true)).1 ≡ true
    → Supervised (supervise os (start opens (new_manager true true true)).0)
unfolding supervise
supervise-Supervised opens os opened =
    let w = start-Watching opens opened in
    supervise_loop-Supervised os
      (record (start opens (new_manager true true true)).0 { full_restart_count = 0 })
      (record {
        in_order = w.in_order;
        restarts = omega arith;
        few_attempts = w.few_attempts;
        no_surrender = w.no_surrender;
        was_connected = w.was_connected;
      })

-- Supervise gave up, having started the client that often.
abbrev pub GaveUp : ℕ → VpnManager × Bool → Type 0
GaveUp starts (m, ended) =
    (ended ≡ true) × (m.gave_up ≡ true) × (m.running ≡ true) × (count_starts m.calls ≡ starts)

mark-calls : (m : VpnManager) → (mark_reconnecting m).calls ≡ m.calls
unfolding mark_reconnecting
mark-calls m =
    if_holds (λ (u : VpnManager). u.calls ≡ m.calls) m.ever_connected _ _ (λ _. refl) (λ _. refl)

mark-running : (m : VpnManager) → (mark_reconnecting m).running ≡ m.running
unfolding mark_reconnecting
mark-running m =
    if_holds (λ (u : VpnManager). u.running ≡ m.running) m.ever_connected _ _ (λ _. refl)
      (λ _. refl)

-- Stop does not come in the pass and the client is not connected; it may be started.
abbrev pub NotConnected : Sight → Type 0
NotConnected o = (o.cleared_at ≡ none) × (o.http_connected ≡ false)

-- The passes that find the client not even started.
unfoldable pub count_not_started : List Sight → ℕ
count_not_started [] = 0
count_not_started (o ∷ os) =
    let rest = count_not_started os in if o.http_started then rest else suc rest

unconnected_loop-GaveUp :
    (os : List Sight) (m : VpnManager) (starts : ℕ)
    → All NotConnected os
    → m.running ≡ true
    → m.full_restart_count ≤ 10
    → 10 < m.full_restart_count + count_not_started os
    → count_starts m.calls + (10 - m.full_restart_count) ≡ starts
    → GaveUp starts (supervise_loop os m)
unfolding supervise_loop supervise_pass give_up restart count_starts count_not_started
unconnected_loop-GaveUp [] m starts h r few enough e = absurd (omega (arith, few, enough))
unconnected_loop-GaveUp (o ∷ os) m starts ((clear, conn), h) r few enough e =
    if_holds (GaveUp starts) (not m.running) _ _ (λ x. absurd (ground (arith, r, x)))
      λ _. elim (Bool-cases o.http_started) [
        | inl on ↦
            let more : 10 < m.full_restart_count + count_not_started os = rw on at enough in
            rw (clear, conn, on)
              (unconnected_loop-GaveUp os _ starts h refl (ground (arith, mark-same m, few))
                (ground (arith, mark-same m, more))
                (ground (arith, mark-same m, ap count_starts (mark-calls m), e)))
        | inr off ↦ elim (Bool-cases (leb 10 m.full_restart_count)) [
          | inl many ↦
              rw (clear, conn, off, many)
                (
                  refl,
                  refl,
                  mark-running m ∙ r,
                  ap count_starts (mark-calls m) ∙ ground (arith, many, few, e),
                )
          | inr more ↦
              let left : 10 < m.full_restart_count + suc (count_not_started os) =
                rw off at enough in
              rw (clear, conn, off, more)
                (unconnected_loop-GaveUp os _ starts h refl (ground (arith, mark-same m, more))
                  (ground (arith, mark-same m, left))
                  (ground (arith, mark-same m, ap count_starts (mark-calls m), more, e)))
        ]
      ]

open_loop-starts :
    (opens : ℕ → Bool) (left i : ℕ) (calls : List Call)
    → count_starts (open_loop opens left i calls).0 ≡ count_starts calls
unfolding open_loop count_starts
open_loop-starts opens zero i calls = refl
open_loop-starts opens (suc left) i calls =
    if_holds (λ (r : List Call × Bool). count_starts r.0 ≡ count_starts calls) (opens i) _ _
      (λ _. refl) λ _. open_loop-starts opens left (suc i) (tun_start ∷ calls)

start-once :
    (opens : ℕ → Bool)
    → (start opens (new_manager true true true)).1 ≡ true
    → ((start opens (new_manager true true true)).0.running ≡ true)
      × (count_starts (start opens (new_manager true true true)).0.calls ≡ 1)
unfolding start count_starts
start-once opens opened = elim (Bool-cases (open_tun opens (new_manager true true true)).1) [
  | inl e ↦ rw e (refl, ap suc (open_loop-starts opens 5 1 []))
  | inr e ↦ absurd (let o = rw e at opened in ground (arith, o))
]

-- If no pass finds the client connected and Stop does not come, Supervise skips the passes that find the
-- client started and gives up in the eleventh that does not, having started the client once and restarted
-- it ten times. It is still marked as running then, but IsStarted is false.
pub supervise-GaveUp :
    (opens : ℕ → Bool) (os : List Sight) (client_started : Bool)
    → (start opens (new_manager true true true)).1 ≡ true
    → All NotConnected os
    → 10 < count_not_started os
    → let r = supervise os (start opens (new_manager true true true)).0 in
      GaveUp 11 r × (is_started client_started r.0 ≡ false)
unfolding supervise is_started
supervise-GaveUp opens os client_started opened unconnected enough =
    let m = (start opens (new_manager true true true)).0 in
    let once = start-once opens opened in
    let r =
      unconnected_loop-GaveUp os (record m { full_restart_count = 0 }) 11 unconnected once.0
        (omega arith) (omega (arith, enough)) (omega (arith, once.1)) in
    (r, rw (r.1, r.2) refl)

-- If Start fails to open the device it leaves the manager marked as running: a second Start refuses and
-- changes nothing, and behind Stop, which gives the client away, Start refuses too.
pub start-refused :
    (opens opens' : ℕ → Bool) (tun routes : Bool)
    → (start opens (new_manager true tun routes)).1 ≡ false
    → let m = (start opens (new_manager true tun routes)).0 in
      (m.running ≡ true) × (start opens' m ≡ (m, false)) × ((start opens' (stop m).0).1 ≡ false)
unfolding start stop
start-refused opens opens' tun routes failed =
    elim (Bool-cases (open_tun opens (new_manager true tun routes)).1) [
      | inl e ↦ absurd (let o = rw e at failed in ground (arith, o))
      | inr e ↦ rw e (refl, refl, refl)
    ]
