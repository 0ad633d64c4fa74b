-- ===== src/Tunnel/Manage/Alive.antt =====
-- A turn of the coroutine on a running tunnel leaves it something to go on with, or stops it.
use ftpn.Tunnel.Pool.{Answers, Tunnel, is_pool_empty}
use ftpn.Tunnel.Manage.{
  remove_closed_connections, Readings, start_repair_if_needed, notify_connected_once, manage,
}
use ftpn.Tunnel.Manage.Places.{Inv, remove-Inv, start_repair-Inv}
use ftpn.Tunnel.Manage.History.{Event, start_state, run, run-start_state}
use ftpn.Prelude.{
  ℕ, ◌<◌, ◌≡◌, ◌⊎◌, inl, inr, refl, ◌∙◌, true, false, not, ◌&&◌, List, arith, length, ◌==◌,
  if◌then◌else◌, Bool-cases,
}

notify_same :
    (a : Answers) (t : Tunnel)
    → ((notify_connected_once a t).connections ≡ t.connections)
      × ((notify_connected_once a t).repairs ≡ t.repairs)
      × ((notify_connected_once a t).running ≡ t.running)
unfolding notify_connected_once
notify_same a t = ground arith

remove-running :
    (a : Answers) (now : ℕ) (t : Tunnel) → (remove_closed_connections a now t).running ≡ t.running
unfolding remove_closed_connections
remove-running a now t = refl

-- What a turn does behind the start of a repair.
settle : Answers → Tunnel → Tunnel
settle a u =
    if is_pool_empty u && not u.repair_in_flight
    then record u { running = false }
    else notify_connected_once a u

abbrev pub AliveOrStopped : Tunnel → Type 0
AliveOrStopped u =
    ((u.running ≡ true) × ((0 < length u.connections) ⊎ (length u.repairs ≡ 1)))
    ⊎ ((u.running ≡ false) × (length u.connections ≡ 0) × (length u.repairs ≡ 0))

settle-AliveOrStopped :
    (a : Answers) (u : Tunnel) → u.running ≡ true → Inv u → AliveOrStopped (settle a u)
unfolding settle is_pool_empty
settle-AliveOrStopped a u on v =
    elim (Bool-cases (length u.connections == 0 && not u.repair_in_flight)) [
      | inl e ↦ rw e (inr (refl, ground (arith, e), ground (arith, e, v.one_repair)))
      | inr e ↦
          rw e (inl ((notify_same a u).2 ∙ on, ground (arith, e, v.one_repair, notify_same a u)))
    ]

module _ (connection_count lifetime_seconds stagger_seconds : ℕ) where
  start_repair-running :
      (a : Answers) (r : Readings) (t : Tunnel)
      → (start_repair_if_needed connection_count lifetime_seconds stagger_seconds a r t).running
        ≡ t.running
  unfolding start_repair_if_needed
  start_repair-running a r t = ground arith

  manage-settle :
      (a : Answers) (now : ℕ) (r : Readings) (t : Tunnel)
      → t.running ≡ true
      → manage connection_count lifetime_seconds stagger_seconds a now r t
        ≡ settle a (
            start_repair_if_needed connection_count lifetime_seconds stagger_seconds a r
              (remove_closed_connections a now t))
  unfolding manage settle
  manage-settle a now r t on = rw on refl

  -- After any history, a turn of ManageCoroutine on a running tunnel leaves it running, with a
  -- connection in the pool or a repair spawned, or stops it, with neither.
  pub manage-running :
      (es : List Event) (a : Answers) (now : ℕ) (r : Readings)
      → let t = run connection_count lifetime_seconds stagger_seconds es start_state in
        t.running ≡ true
        → AliveOrStopped (manage connection_count lifetime_seconds stagger_seconds a now r t)
  manage-running es a now r on =
      let t = run connection_count lifetime_seconds stagger_seconds es start_state in
      let c = remove_closed_connections a now t in
      rw (manage-settle a now r t on) (
        settle-AliveOrStopped a _ (start_repair-running a r c ∙ remove-running a now t ∙ on) (
          start_repair-Inv connection_count lifetime_seconds stagger_seconds a r c (
            remove-Inv a now t
              (run-start_state connection_count lifetime_seconds stagger_seconds es))))
