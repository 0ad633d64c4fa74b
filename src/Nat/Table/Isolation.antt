-- ===== src/Nat/Table/Isolation.antt =====
-- What the table promises to the server: virtual addresses are never shared or lost.
use ftpn.Address.{ipv6_generator}
use ftpn.Address.Range.{count-ipv4_pool, count-ipv6_pool}
use ftpn.Nat.Connection.{Clock}
use ftpn.Nat.Multiplexer.{Multiplexer}
use ftpn.Nat.Table.{
  Config, Table, capacity, new_table, initial_ipv4, initial_ipv6, multiplexer_by_fake_ipv4,
  multiplexer_by_fake_ipv6,
}
use ftpn.Nat.Table.Invariant.{Inv, held}
use ftpn.Nat.Table.Preserved.{Event, run, run-Inv}
use ftpn.Prelude.{
  ℕ, ◌+◌, ◌-◌, ◌%◌, ◌^◌, ◌≤◌, ◌<◌, ◌≡◌, some, String, List, count, arith, find_key, ltb, leb, not,
  ◌&&◌, ◌==◌, if◌then◌else◌, number_key, string_key, ◌↔◌,
}

-- The networks of the configuration: an aligned IPv4 block of two addresses or more, and an IPv6
-- network with an address below its highest one.
pub record IsValidConfig (c : Config) : Type 0 where
  pub wide : 2 ≤ 2 ^ (32 - c.tun_network_ipv4_mask)
  pub aligned : c.tun_ipv4_network % 2 ^ (32 - c.tun_network_ipv4_mask) ≡ 0
  pub fits4 : c.tun_ipv4_network + 2 ^ (32 - c.tun_network_ipv4_mask) ≤ 2 ^ 32
  pub above6 :
      c.tun_ipv6_network < (ipv6_generator c.tun_ipv6_network c.tun_network_ipv6_mask).last_addr
  pub fits6 : (ipv6_generator c.tun_ipv6_network c.tun_network_ipv6_mask).last_addr < 2 ^ 128

no_wrap :
    (last net : ℕ)
    → net < last
    → last < 2 ^ 128
    → (last + 2 ^ 128 - net - 1) % 2 ^ 128 ≡ last - net - 1
no_wrap last net h k = omega arith

capacity-below :
    (c : Config)
    → IsValidConfig c
    → c.tun_ipv6_network + capacity c
      < (ipv6_generator c.tun_ipv6_network c.tun_network_ipv6_mask).last_addr
unfolding capacity
capacity-below c ok = ground (
  arith,
  ok.above6,
  no_wrap (ipv6_generator c.tun_ipv6_network c.tun_network_ipv6_mask).last_addr c.tun_ipv6_network
      ok.above6 ok.fits6,
)

module _ (c : Config) (ok : IsValidConfig c) where
  pub count-initial_ipv4 :
      (a : ℕ)
      → count a (initial_ipv4 c) ≡ (
          if ltb c.tun_ipv4_network a
            && leb a (c.tun_ipv4_network + capacity c)
            && not (a == c.tun_ipv4)
          then 1
          else 0)
  unfolding initial_ipv4
  count-initial_ipv4 a =
      count-ipv4_pool c.tun_ipv4_network c.tun_network_ipv4_mask c.tun_ipv4 (capacity c) a ok.wide
        ok.aligned ok.fits4 (unfold capacity in ground arith)

  pub count-initial_ipv6 :
      (a : ℕ)
      → count a (initial_ipv6 c) ≡ (
          if ltb c.tun_ipv6_network a
            && leb a (c.tun_ipv6_network + capacity c)
            && not (a == c.tun_ipv6)
          then 1
          else 0)
  unfolding initial_ipv6
  count-initial_ipv6 a =
      count-ipv6_pool c.tun_ipv6_network c.tun_network_ipv6_mask c.tun_ipv6 (capacity c) a ok.fits6
        (capacity-below c ok)

  new_table-Inv : (blank : Multiplexer) → Inv (initial_ipv4 c) (initial_ipv6 c) (new_table blank c)
  unfolding new_table find_key
  new_table-Inv blank = record {
    once4 = λ a. ground (arith, count-initial_ipv4 a);
    once6 = λ a. ground (arith, count-initial_ipv6 a);
    conserved4 = λ a. omega arith;
    conserved6 = λ a. omega arith;
    session = λ s r h. cc;
    owner4 = λ a r h. cc;
    owner6 = λ a r h. cc;
  }

  module _ (now : Clock) (blank : Multiplexer) (es : List Event) where
    abbrev pub reached : Table
    reached = run now es (new_table blank c)

    reached-Inv : Inv (initial_ipv4 c) (initial_ipv6 c) reached
    reached-Inv = run-Inv now es _ (new_table-Inv blank)

    -- After any history of calls, in any interleaving of the two parts of the periodic sweep with the
    -- other calls, two registered sessions that hold the same virtual IPv4 address, or the same
    -- virtual IPv6 address, are one session.
    pub sessions_isolated :
        (s s' : String) (r r' : ℕ)
        → find_key s reached.session_to_mplx ≡ some r
        → find_key s' reached.session_to_mplx ≡ some r'
        → ((reached.cell r).fake_client_ipv4 ≡ (reached.cell r').fake_client_ipv4 → s ≡ s')
          × ((reached.cell r).fake_client_ipv6 ≡ (reached.cell r').fake_client_ipv6 → s ≡ s')
    sessions_isolated s s' r r' h h' =
        let v = reached-Inv.session s r h in
        let w = reached-Inv.session s' r' h' in
        (λ e. cc (v.1, w.1, v.2, w.2), λ e. cc (v.1, w.1, v.3, w.3))

    -- After any such history each address of the initial pools is either once in the free list or
    -- held by one session, and never both; no other address is in either place.
    pub addresses_conserved :
        (a : ℕ)
        → (count a reached.free_ipv4 + held a reached.ipv4_to_mplx ≡ count a (initial_ipv4 c))
          × (count a (initial_ipv4 c) ≤ 1)
          × (count a reached.free_ipv6 + held a reached.ipv6_to_mplx ≡ count a (initial_ipv6 c))
          × (count a (initial_ipv6 c) ≤ 1)
    addresses_conserved a = (
      reached-Inv.conserved4 a,
      reached-Inv.once4 a,
      reached-Inv.conserved6 a,
      reached-Inv.once6 a,
    )

    -- After any such history a lookup by a virtual IPv4 or IPv6 address returns a multiplexer exactly
    -- if that is registered under its session id and holds the address.
    pub lookup_by_address :
        (a r : ℕ)
        → (multiplexer_by_fake_ipv4 a reached ≡ some r ↔ (
            (find_key (reached.cell r).session_id reached.session_to_mplx ≡ some r)
            × ((reached.cell r).fake_client_ipv4 ≡ a)))
          × (multiplexer_by_fake_ipv6 a reached ≡ some r ↔ (
              (find_key (reached.cell r).session_id reached.session_to_mplx ≡ some r)
              × ((reached.cell r).fake_client_ipv6 ≡ a)))
    lookup_by_address a r =
        let v = reached-Inv in
        (
          (
            λ h. ((v.owner4 a r h).1, (v.owner4 a r h).0),
            λ h. cc (h.1, (v.session (reached.cell r).session_id r h.0).2),
          ),
          (
            λ h. ((v.owner6 a r h).1, (v.owner6 a r h).0),
            λ h. cc (h.1, (v.session (reached.cell r).session_id r h.0).3),
          ),
        )
