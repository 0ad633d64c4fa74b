-- ===== src/Tunnel/Manage/Places.antt =====
-- Where the clients of a tunnel are, and that every step keeps the account of them.
use ftpn.Packet.{IpPacket}
use ftpn.Tunnel.Pool.{Channel, Answers, Repair, Opening, Tunnel, client_of, is_pool_empty, send}
use ftpn.Tunnel.Manage.{
  stop_client, split_dead, remove_closed_connections, run_spawned, Readings, start_repair_if_needed,
  notify_connected_once, manage, Poll, PollResult, poll, create_new_connection, exchange, install,
  end_repair, repair_connection, opening_client, drop_connection, stop,
}
use ftpn.Tunnel.Manage.Counts.{
  clients, Exchanged, count-stop_client, count-stop_all, count-split_dead, count-clients-push,
  exchange-Exchanged, count_retiring, count_retiring-spawn, count_retiring-spawn_retired,
}
use ftpn.Prelude.{
  ℕ, ◌+◌, ◌≡◌, ◌⊎◌, inl, inr, refl, Bool, true, false, not, ◌&&◌, Option, none, some, List, [], ◌∷◌,
  arith, length, count, if◌then◌else◌, Bool-cases, Option-cases,
}

-- A spawned repair that has no client yet makes one.
unfoldable pub open_first : ℕ → ℕ → List Repair → Option Opening → Tunnel → Tunnel
open_first client now [] o t = t
open_first client now (r ∷ rest) none t = create_new_connection client now r.lifetime_seconds t
open_first client now (r ∷ rest) (some o) t = t

unfoldable pub poll_first : Poll → ℕ → List Repair → Option Opening → Tunnel → Tunnel
poll_first p steady [] o t = t
poll_first p steady (r ∷ rest) none t = t
poll_first p steady (r ∷ rest) (some o) t = repair_connection (poll p o.polls) steady r rest o t

unfoldable pub drop_first : ℕ → List Repair → Tunnel → Tunnel
drop_first steady [] t = t
drop_first steady (r ∷ rest) t = drop_connection steady rest t

-- How often a client stands in the pool, with the repair that opens it, with the spawned coroutines that
-- will stop it, among the stopped and among the dropped.
abbrev pub places : ℕ → Tunnel → ℕ
places k t =
    count k (clients t.connections)
    + count k (stop_client (opening_client t.opening) [])
    + count_retiring k t.retiring
    + count k t.stopped
    + count k t.lost

-- Each client is in one of the places as often as it was made; a repair is in flight exactly while
-- one is spawned, never two, and only then a client is being opened; the callback was called once if at all.
pub record Inv (t : Tunnel) : Type 0 where
  pub accounted : (k : ℕ) → count k t.created ≡ places k t
  pub one_repair : length t.repairs ≡ (if t.repair_in_flight then 1 else 0)
  pub opened_by_repair : (t.opening ≡ none) ⊎ (length t.repairs ≡ 1)
  pub notified_once : t.notifications ≡ (if t.connected_notified then 1 else 0)

Inv-if : (b : Bool) (t u : Tunnel) → Inv t → Inv u → Inv (if b then t else u)
Inv-if true t u v w = v
Inv-if false t u v w = w

pub send-Inv : (a : Answers) (p : Option IpPacket) (t : Tunnel) → Inv t → Inv (send a p t).0
unfolding send
send-Inv a none t v = v
send-Inv a (some p) t v = record {
  accounted = λ k. ground (arith, v.accounted k);
  one_repair = ground (arith, v.one_repair);
  opened_by_repair = ground (arith, v.opened_by_repair);
  notified_once = ground (arith, v.notified_once);
}

notify-Inv : (a : Answers) (t : Tunnel) → Inv t → Inv (notify_connected_once a t)
unfolding notify_connected_once
notify-Inv a t v = record {
  accounted = λ k. ground (arith, v.accounted k);
  one_repair = ground (arith, v.one_repair);
  opened_by_repair = ground (arith, v.opened_by_repair);
  notified_once = ground (arith, v.notified_once);
}

pub remove-Inv :
    (a : Answers) (now : ℕ) (t : Tunnel) → Inv t → Inv (remove_closed_connections a now t)
unfolding remove_closed_connections
remove-Inv a now t v = record {
  accounted = λ k. omega (
    arith,
    v.accounted k,
    count-split_dead k a now t.connections,
    count_retiring-spawn k (split_dead a now t.connections).1 t.retiring,
  );
  one_repair = v.one_repair;
  opened_by_repair = v.opened_by_repair;
  notified_once = v.notified_once;
}

module _ (connection_count lifetime_seconds stagger_seconds : ℕ) where
  pub start_repair-Inv :
      (a : Answers) (r : Readings) (t : Tunnel)
      → Inv t
      → Inv (start_repair_if_needed connection_count lifetime_seconds stagger_seconds a r t)
  unfolding start_repair_if_needed
  start_repair-Inv a r t v = record {
    accounted = λ k. ground (arith, v.accounted k);
    one_repair = ground (arith, v.one_repair);
    opened_by_repair = ground (arith, v.opened_by_repair, v.one_repair);
    notified_once = ground (arith, v.notified_once);
  }

  pub manage-Inv :
      (a : Answers) (now : ℕ) (r : Readings) (t : Tunnel)
      → Inv t
      → Inv (manage connection_count lifetime_seconds stagger_seconds a now r t)
  unfolding manage
  manage-Inv a now r t v =
      let u =
        start_repair_if_needed connection_count lifetime_seconds stagger_seconds a r
          (remove_closed_connections a now t) in
      let w = start_repair-Inv a r (remove_closed_connections a now t) (remove-Inv a now t v) in
      Inv-if (not t.running) t _ v (
        Inv-if (is_pool_empty u && not u.repair_in_flight) (record u { running = false }) _
          (record {
            accounted = w.accounted;
            one_repair = w.one_repair;
            opened_by_repair = w.opened_by_repair;
            notified_once = w.notified_once;
          })
          (notify-Inv a u w))

-- The clients are accounted for with one that is in none of the places.
abbrev Loose : Channel → Tunnel → Type 0
Loose channel t = (k : ℕ) → count k t.created ≡ count k (stop_client channel.client []) + places k t

-- The part of the invariant that the end of a repair leaves as it is.
abbrev Kept : Tunnel → Tunnel → Type 0
Kept t u =
    (u.opening ≡ t.opening)
    × (u.notifications ≡ t.notifications)
    × (u.connected_notified ≡ t.connected_notified)

install-Loose :
    (id : ℕ) (new : Channel) (t : Tunnel)
    → Loose new t
    → ((k : ℕ) → count k (install id new t).created ≡ places k (install id new t))
      × Kept t (install id new t)
unfolding install
install-Loose id new t h = elim (Bool-cases (not t.running)) [
  | inl e ↦
      rw e (λ k. omega (arith, h k, count-stop_client k new.client t.stopped), (refl, refl, refl))
  | inr e ↦ elim (Option-cases (exchange id new t.connections)) [
    | inl n ↦
        rw (e, n)
          ((λ k. omega (arith, h k, count-clients-push k t.connections new)), (refl, refl, refl))
    | inr ((old, pool), x) ↦
        rw (e, x)
          (
            (λ k.
                let both : Exchanged k new t.connections (some (old, pool)) =
                  rw x at (exchange-Exchanged k id new t.connections) in
                omega (
                  arith,
                  h k,
                  both,
                  count_retiring-spawn_retired k (client_of old) old t.retiring refl,
                )),
            (refl, refl, refl),
          )
  ]
]

-- The repair has ended, with no client in its hands.
ended-Inv :
    (steady : ℕ) (u : Tunnel)
    → ((k : ℕ) → count k u.created ≡ places k u)
    → u.opening ≡ none
    → u.notifications ≡ (if u.connected_notified then 1 else 0)
    → Inv (end_repair steady [] u)
unfolding end_repair
ended-Inv steady u h closed once = record {
  accounted = h;
  one_repair = refl;
  opened_by_repair = inl closed;
  notified_once = once;
}

repair-Inv :
    (result : PollResult) (steady : ℕ) (r : Repair) (o : Opening) (t : Tunnel)
    → Inv t
    → t.repairs ≡ r ∷ []
    → t.opening ≡ some o
    → Inv (repair_connection result steady r [] o t)
unfolding repair_connection
repair-Inv PollResult.ready steady r o t v e w =
    let u = record t { opening = none } in
    let loose : Loose o.channel u = λ k. omega (arith, rw w at (v.accounted k)) in
    let (accounted, kept) = install-Loose r.replaced_id o.channel u loose in
    let (closed, n, c) = kept in
    ended-Inv steady (install r.replaced_id o.channel u) accounted closed
      (ground (arith, n, c, v.notified_once))
repair-Inv PollResult.failed steady r o t v e w =
    ended-Inv steady (record t { opening = none; stopped = stop_client o.channel.client t.stopped })
      (λ k. omega (arith, rw w at (v.accounted k), count-stop_client k o.channel.client t.stopped))
      refl v.notified_once
repair-Inv PollResult.waiting steady r o t v e w = record {
  accounted = λ k. omega (arith, rw w at (v.accounted k));
  one_repair = v.one_repair;
  opened_by_repair = inr (rw e refl);
  notified_once = v.notified_once;
}

pub stop-Inv : (t : Tunnel) → Inv t → Inv (stop t)
unfolding stop clients
stop-Inv t v = record {
  accounted = λ k. omega (arith, v.accounted k, count-stop_all k t.connections t.stopped);
  one_repair = v.one_repair;
  opened_by_repair = v.opened_by_repair;
  notified_once = v.notified_once;
}

pub open_first-Inv :
    (client now : ℕ) (rs : List Repair) (o : Option Opening) (t : Tunnel)
    → Inv t
    → t.repairs ≡ rs
    → t.opening ≡ o
    → Inv (open_first client now rs o t)
unfolding open_first create_new_connection
open_first-Inv client now [] o t v e w = v
open_first-Inv client now (r ∷ rest) (some o) t v e w = v
open_first-Inv client now (r ∷ rest) none t v e w = record {
  accounted = λ k. omega (arith, rw w at (v.accounted k));
  one_repair = v.one_repair;
  opened_by_repair = inr (ground (arith, v.one_repair, e));
  notified_once = v.notified_once;
}

pub poll_first-Inv :
    (p : Poll) (steady : ℕ) (rs : List Repair) (o : Option Opening) (t : Tunnel)
    → Inv t
    → t.repairs ≡ rs
    → t.opening ≡ o
    → Inv (poll_first p steady rs o t)
unfolding poll_first
poll_first-Inv p steady [] o t v e w = v
poll_first-Inv p steady (r ∷ rest) none t v e w = v
poll_first-Inv p steady (r ∷ []) (some o) t v e w = repair-Inv (poll p o.polls) steady r o t v e w
poll_first-Inv p steady (r ∷ s ∷ rest) (some o) t v e w = absurd (ground (arith, v.one_repair, e))

pub drop_first-Inv :
    (steady : ℕ) (rs : List Repair) (t : Tunnel)
    → Inv t
    → t.repairs ≡ rs
    → Inv (drop_first steady rs t)
unfolding drop_first drop_connection
drop_first-Inv steady [] t v e = v
drop_first-Inv steady (r ∷ s ∷ rest) t v e = absurd (ground (arith, v.one_repair, e))
drop_first-Inv steady (r ∷ []) t v e =
    ended-Inv steady
      (record t { opening = none; lost = stop_client (opening_client t.opening) t.lost })
      (λ k. omega (arith, v.accounted k, count-stop_client k (opening_client t.opening) t.lost))
      refl v.notified_once

pub run_spawned-Inv :
    (rs : List (List (Option Channel))) (t : Tunnel)
    → Inv t
    → t.retiring ≡ rs
    → Inv (run_spawned rs t)
unfolding run_spawned
run_spawned-Inv [] t v e = v
run_spawned-Inv (cs ∷ rest) t v e = record {
  accounted = λ k.
      let all : count_retiring k t.retiring ≡ count k (clients cs) + count_retiring k rest =
        unfold count_retiring in rw e refl in
      omega (arith, v.accounted k, all, count-stop_all k cs t.stopped);
  one_repair = v.one_repair;
  opened_by_repair = v.opened_by_repair;
  notified_once = v.notified_once;
}
