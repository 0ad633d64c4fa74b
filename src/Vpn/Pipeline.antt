-- ===== src/Vpn/Pipeline.antt =====
-- RunToClient and RunFromClient of fptn/src/fptn-server/vpn/manager.cpp, on the packets of one turn.
-- The web server's sessions and the filters are parameters. A read out of bounds ends the turn.
use ftpn.Packet.Access.{Access, ok, ◌>>=◌}
use ftpn.Packet.{IpPacket, is_ipv4, is_ipv6, dst_ipv4, dst_ipv6}
use ftpn.Filter.Manager.{Direction, Filter}
use ftpn.TrafficShaper.{LeakyBucket, check_speed_limit}
use ftpn.Nat.Multiplexer.{Multiplexer, next_receiver_client_id}
use ftpn.Nat.Multiplexer.Rewrite.{change_ip_address_to_client_ip, change_ip_address_to_fake_ip}
use ftpn.Nat.Table.{
  Table, write, multiplexer_by_fake_ipv4, multiplexer_by_fake_ipv6, multiplexer_by_client_id,
}
use ftpn.Prelude.{
  ℕ, ◌+◌, Bool, true, not, ◌&&◌, Option, none, some, List, [], ◌∷◌, ◌++◌, length, ◌==◌,
  if◌then◌else◌, number_key,
}

-- The table, the shapers that its multiplexers name (a null pointer is none), the filters' state.
pub record World {ℓ} (S : Type ℓ) : Type ℓ where
  pub table : Table
  pub shaper : ℕ → Option LeakyBucket
  pub filters : S

unfoldable pub session_to_client : IpPacket → Table → Option ℕ
session_to_client p t =
    if is_ipv4 p
    then multiplexer_by_fake_ipv4 (dst_ipv4 p) t
    else if is_ipv6 p
    then multiplexer_by_fake_ipv6 (dst_ipv6 p) t
    else none

-- batches[client_id].push_back(packet)
unfoldable pub push_batch : ℕ → IpPacket → List (ℕ × List IpPacket) → List (ℕ × List IpPacket)
push_batch id p [] = (id, p ∷ []) ∷ []
push_batch id p ((b, batch) ∷ batches) =
    let rest = push_batch id p batches in
    if b == id then (b, batch ++ p ∷ []) ∷ batches else (b, batch) ∷ rest

module _ {ℓ} {S : Type ℓ} where
  -- `shaper && !shaper->CheckSpeedLimit(size)`, negated.
  unfoldable pub within_limit : ℕ → ℕ → ℕ → World S → World S × Bool
  within_limit now number size w = elim (w.shaper number) [
    | none ↦ (w, true)
    | some b ↦
        let (b', passed) = check_speed_limit now size b in
        (record w { shaper = λ i. if i == number then some b' else w.shaper i }, passed)
  ]

  module _ (filter : Filter S) (now : ℕ) where
    -- Behind the rewriting: the filter's verdict.
    unfoldable pub filter_to_client :
        ℕ → World S → Option IpPacket → World S × Option (ℕ × IpPacket)
    filter_to_client id w none = (w, none)
    filter_to_client id w (some q) =
        let (passed, s) = filter q Direction.to_client w.filters in
        (record w { filters = s }, elim passed [ none ↦ none | some x ↦ some (id, x) ])

    -- The part behind the speed limit, for the session of cell `r`.
    unfoldable pub deliver : ℕ → IpPacket → World S → Access (World S × Option (ℕ × IpPacket))
    deliver r p w =
        let (m, receiver) = next_receiver_client_id (w.table.cell r) p in
        let w' = record w { table = record w.table { cell = write r m w.table.cell } } in
        elim receiver [
          | none ↦ ok (w', none)
          | some id ↦ do q ← change_ip_address_to_client_ip m p id; ok (filter_to_client id w' q)
        ]

    -- The body of RunToClient's loop: the client that a packet is for, and the packet.
    unfoldable pub to_client_packet :
        Option IpPacket → World S → Access (World S × Option (ℕ × IpPacket))
    to_client_packet none w = ok (w, none)
    to_client_packet (some p) w =
        if not (is_ipv4 p) && not (is_ipv6 p)
        then ok (w, none)
        else elim (session_to_client p w.table) [
          | none ↦ ok (w, none)
          | some r ↦
              let (w', passed) =
                within_limit now (w.table.cell r).shaper_to_client (length p.bytes) w in
              if not passed then ok (w', none) else deliver r p w'
        ]

    -- Behind the filter: the rewriting.
    unfoldable pub rewrite_from_client :
        Multiplexer → World S → Option IpPacket → Access (World S × Option IpPacket)
    rewrite_from_client m w none = ok (w, none)
    rewrite_from_client m w (some p) = do q ← change_ip_address_to_fake_ip m p; ok (w, some q)

    -- The body of RunFromClient's loop.
    unfoldable pub from_client_packet :
        Option IpPacket → World S → Access (World S × Option IpPacket)
    from_client_packet none w = ok (w, none)
    from_client_packet (some p) w =
        if not (is_ipv4 p) && not (is_ipv6 p)
        then ok (w, none)
        else elim (multiplexer_by_client_id p.client_id w.table) [
          | none ↦ ok (w, none)
          | some r ↦
              let (w', passed) =
                within_limit now (w.table.cell r).shaper_from_client (length p.bytes) w in
              if not passed
              then ok (w', none)
              else let (kept, s) = filter p Direction.from_client w'.filters in
                rewrite_from_client (w'.table.cell r) (record w' { filters = s }) kept
        ]

  module _ (filter : Filter S) (time : ℕ → ℕ) where
    -- The packets of one turn of RunToClient, from number `k` on.
    unfoldable pub to_client_batches :
        ℕ
        → List (Option IpPacket)
        → World S
        → List (ℕ × List IpPacket)
        → Access (World S × List (ℕ × List IpPacket))
    unfolding push_batch
    to_client_batches k [] w batches = ok (w, batches)
    to_client_batches k (p ∷ ps) w batches = do
      r ← to_client_packet filter (time k) p w
      to_client_batches (k + 1) ps r.0
          (elim r.1 [ none ↦ batches | some x ↦ push_batch x.0 x.1 batches ])

    -- The batch that a turn of RunFromClient sends to the device.
    unfoldable pub from_client_batch :
        ℕ → List (Option IpPacket) → World S → Access (World S × List IpPacket)
    from_client_batch k [] w = ok (w, [])
    from_client_batch k (p ∷ ps) w = do
      r ← from_client_packet filter (time k) p w
      rest ← from_client_batch (k + 1) ps r.0
      ok (rest.0, elim r.1 [ none ↦ rest.1 | some q ↦ q ∷ rest.1 ])
