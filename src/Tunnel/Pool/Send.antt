-- ===== src/Tunnel/Pool/Send.antt =====
-- Send finds a started connection if there is one.
use native.Mathlib.Nat.{mod-lt, add-mod_right, mod-add-mod, mod-eq_of_lt}
use ftpn.Packet.{IpPacket, src_port}
use ftpn.Tunnel.Pool.{
  Channel, Answers, Tunnel, size_limit, client_of, is_ready, any_ready, send_loop, by_port, send,
  is_connected,
}
use ftpn.Prelude.{
  sym, ap, ◌∙◌, leb, ◌-◌, ℕ, zero, suc, ◌+◌, ◌%◌, ◌≤◌, ◌<◌, ◌≡◌, ◌⊎◌, inl, inr, refl, true, false,
  Option, none, some, List, [], ◌∷◌, arith, length, get_elem?, ==_iff, ◌==◌, if◌then◌else◌,
  Bool-cases, Option-cases,
}

-- The loop of `n` steps from any start visits each slot.
visited : (n start j : ℕ) → j < n → (i : ℕ) × (i < n) × ((start + i) % n ≡ j)
visited n start j lt =
    let below : start % n < n = mod-lt start (omega (arith, lt)) in
    elim (Bool-cases (leb (start % n) j)) [
      | inl e ↦ (
        j - start % n,
        omega (arith, lt),
        sym (mod-add-mod start n (j - start % n)) ∙ ap (λ k. k % n) (forth e) ∙ mod-eq_of_lt lt,
      )
      | inr e ↦ (
        j + n - start % n,
        ground (arith, e, below),
        sym (mod-add-mod start n (j + n - start % n))
            ∙ ap (λ k. k % n) (round e below)
            ∙ add-mod_right j n
            ∙ mod-eq_of_lt lt,
      )
    ]
  where
    forth : leb (start % n) j ≡ true → start % n + (j - start % n) ≡ j
    forth e = ground (arith, e)

    round : leb (start % n) j ≡ false → start % n < n → start % n + (j + n - start % n) ≡ j + n
    round e below = ground (arith, e)

get_elem?-some {ℓ} :
    {A : Type ℓ} (xs : List A) (i : ℕ) → i < length xs → (x : A) × (get_elem? xs i ≡ some x)
get_elem?-some [] i lt = absurd (omega arith)
get_elem?-some (x ∷ xs) zero lt = (x, refl)
get_elem?-some (x ∷ xs) (suc i) lt = get_elem?-some xs i (omega arith)

get_elem?-below {ℓ} :
    {A : Type ℓ} (xs : List A) (i : ℕ) (x : A) → get_elem? xs i ≡ some x → i < length xs
get_elem?-below [] i x e = absurd (ground (arith, e))
get_elem?-below (y ∷ xs) zero x e = omega arith
get_elem?-below (y ∷ xs) (suc i) x e = omega (arith, get_elem?-below xs i x e)

-- Some channel of the pool has this client.
abbrev pub Stands : List (Option Channel) → ℕ → Type 0
Stands pool c =
    (j : ℕ) × (channel : Option Channel) × (get_elem? pool j ≡ some channel)
    × (client_of channel ≡ some c)

module _ (a : Answers) where
  -- Slot `j` holds a channel whose client is started.
  abbrev ReadyAt : List (Option Channel) → ℕ → Type 0
  ReadyAt pool j =
      (j < length pool)
      × ((channel : Option Channel) × (get_elem? pool j ≡ some channel)
          × (is_ready a channel ≡ true))

  any_ready-ReadyAt :
      (pool : List (Option Channel)) → any_ready a pool ≡ true → (j : ℕ) × ReadyAt pool j
  unfolding any_ready
  any_ready-ReadyAt [] h = absurd (ground (arith, h))
  any_ready-ReadyAt (c ∷ cs) h = elim (Bool-cases (is_ready a c)) [
    | inl e ↦ (0, (omega arith, (c, refl, e)))
    | inr e ↦
        let (j, (lt, (d, at, ready))) = any_ready-ReadyAt cs (ground (arith, h, e)) in
        (suc j, (omega (arith, lt), (d, at, ready)))
  ]

  ReadyAt-any_ready :
      (pool : List (Option Channel)) (j : ℕ) → ReadyAt pool j → any_ready a pool ≡ true
  unfolding any_ready
  ReadyAt-any_ready [] j r = absurd (omega (arith, r.0))
  ReadyAt-any_ready (c ∷ cs) zero (lt, (d, at, ready)) = ground (arith, at, ready)
  ReadyAt-any_ready (c ∷ cs) (suc j) (lt, (d, at, ready)) =
      ground (arith, ReadyAt-any_ready cs j (omega arith, (d, at, ready)))

  -- The client of a slot that is ready.
  ready_client :
      (channel : Option Channel)
      → is_ready a channel ≡ true
      → (c : ℕ) × (client_of channel ≡ some c) × (a.is_started c ≡ true)
  ready_client channel h = elim (Option-cases (client_of channel)) [
    | inl e ↦ absurd (ground (arith, h, e))
    | inr (c, e) ↦ (c, e, ground (arith, h, e))
  ]

  module _ (pool : List (Option Channel)) (start : ℕ) where
    abbrev slot : ℕ → ℕ
    slot i = (start + i) % size_limit % length pool

    -- A client that the loop gives is started and stands in the pool.
    abbrev Sends : Option ℕ → Type 0
    Sends none = Unit
    Sends (some c) = (a.is_started c ≡ true) × Stands pool c

    step_missing :
        (left i : ℕ) → get_elem? pool (slot i) ≡ none → send_loop a pool start (suc left) i ≡ none
    unfolding send_loop
    step_missing left i e = rw (e, send_loop) refl

    step_found :
        (left i : ℕ) (channel : Option Channel)
        → get_elem? pool (slot i) ≡ some channel
        → send_loop a pool start (suc left) i
          ≡ (if is_ready a channel then client_of channel else send_loop a pool start left (i + 1))
    unfolding send_loop
    step_found left i channel e = rw (e, send_loop) refl

    send_loop-Sends : (left i : ℕ) → Sends (send_loop a pool start left i)
    send_loop-Sends zero i = unfold send_loop in tt
    send_loop-Sends (suc left) i = elim (Option-cases (get_elem? pool (slot i))) [
      | inl e ↦ rw (step_missing left i e) tt
      | inr (channel, e) ↦
          rw (step_found left i channel e) (elim (Bool-cases (is_ready a channel)) [
            | inl r ↦
                let (c, at, started) = ready_client channel r in
                rw (r, at) (started, (slot i, channel, e, at))
            | inr r ↦ rw r (send_loop-Sends left (i + 1))
          ])
    ]

    send_loop-finds :
        (left i k : ℕ)
        → i ≤ k
        → k < i + left
        → ReadyAt pool (slot k)
        → (c : ℕ) × (send_loop a pool start left i ≡ some c)
    send_loop-finds zero i k from to r = absurd (omega arith)
    send_loop-finds (suc left) i k from to r =
        let (channel, e) = get_elem?-some pool (slot i) (mod-lt _ (omega (arith, r.0))) in
        elim (Bool-cases (is_ready a channel)) [
          | inl h ↦
              let (c, at, _) = ready_client channel h in (c, step_found left i channel e ∙ rw h at)
          | inr h ↦
              let (c, found) = send_loop-finds left (i + 1) k (later channel e h) (omega arith) r in
              (c, step_found left i channel e ∙ rw h found)
        ]
      where
        later :
            (channel : Option Channel)
            → get_elem? pool (slot i) ≡ some channel
            → is_ready a channel ≡ false
            → i + 1 ≤ k
        later channel e h = elim (Bool-cases (i == k)) [
          | inl same ↦ absurd (ground (arith, (==_iff i k).0 same, r, e, h))
          | inr other ↦ ground (arith, other)
        ]

    send_loop-ready :
        start + length pool < size_limit
        → (j : ℕ) → ReadyAt pool j
        → (c : ℕ) × (send_loop a pool start (length pool) 0 ≡ some c)
    send_loop-ready small j r =
        let (k, lt, at) = visited (length pool) start j r.0 in
        let same : slot k ≡ j =
          ap (λ n. n % length pool) (mod-eq_of_lt {n = start + k} {m = size_limit} (omega arith))
          ∙ at in
        send_loop-finds (length pool) 0 k (omega arith) (omega arith) (rw same r)

-- The number that a packet's slots are counted from.
abbrev pub flow_start : IpPacket → Tunnel → ℕ
flow_start p t = if by_port p then src_port p else t.round_robin_cursor

Stands-ReadyAt :
    (a : Answers) (pool : List (Option Channel)) (c : ℕ)
    → a.is_started c ≡ true
    → Stands pool c
    → (j : ℕ) × ReadyAt a pool j
Stands-ReadyAt a pool c started (j, channel, at, client) =
    (j, (get_elem?-below pool j channel at, (channel, at, rw client started)))

silent :
    (a : Answers) (pool : List (Option Channel)) (start : ℕ)
    → any_ready a pool ≡ false
    → {r : Option ℕ} → r ≡ send_loop a pool start (length pool) 0
    → r ≡ none
silent a pool start e same = elim (Option-cases (send_loop a pool start (length pool) 0)) [
  | inl h ↦ same ∙ h
  | inr (c, h) ↦
      let sends = rw h at (send_loop-Sends a pool start (length pool) 0) in
      let (j, r) = Stands-ReadyAt a pool c sends.0 sends.1 in
      absurd (ground (arith, e, ReadyAt-any_ready a pool j r))
]

send_loop_of :
    (a : Answers) (p : IpPacket) (t : Tunnel)
    → t.running ≡ true
    → (send a (some p) t).1 ≡ send_loop a t.connections (flow_start p t) (length t.connections) 0
unfolding send send_loop
send_loop_of a p t run = elim (Bool-cases (length t.connections == 0)) [
  | inl e ↦ rw (run, e, (==_iff (length t.connections) 0).0 e) refl
  | inr e ↦ ground (arith, run, e)
]

-- On a running tunnel Send gives a packet to a client exactly if some connection is ready, and that
-- client is started and stands in the pool, for any pool whose count, added to the packet's port or to
-- the cursor, stays below 2 ^ 64.
pub send-is_connected :
    (a : Answers) (p : IpPacket) (t : Tunnel)
    → t.running ≡ true
    → flow_start p t + length t.connections < size_limit
    → ((is_connected a t ≡ false) × ((send a (some p) t).1 ≡ none))
      ⊎ ((is_connected a t ≡ true)
          × ((c : ℕ) × ((send a (some p) t).1 ≡ some c)
              × (a.is_started c ≡ true)
              × Stands t.connections c))
send-is_connected a p t run small = elim (Bool-cases (any_ready a t.connections)) [
  | inl e ↦
      let (j, r) = any_ready-ReadyAt a t.connections e in
      let (c, found) = send_loop-ready a t.connections (flow_start p t) small j r in
      let sends =
        rw found at (send_loop-Sends a t.connections (flow_start p t) (length t.connections) 0) in
      inr (unfold is_connected in e, (c, send_loop_of a p t run ∙ found, sends.0, sends.1))
  | inr e ↦
      inl (
        unfold is_connected in e,
        silent a t.connections (flow_start p t) e (send_loop_of a p t run),
      )
]
