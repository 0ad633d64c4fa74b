-- ===== src/Nat/Multiplexer/Rewrite/Addresses.antt =====
-- The addresses of a rewritten packet.
use ftpn.Packet.Access.{Returns, Returns-ok, Returns-bind}
use ftpn.Packet.{IpPacket, is_ipv4}
use ftpn.Packet.Rewrite.Kept.{WholeIpv4, Rewritten, set_ipv4_address-Rewritten, compute-Rewritten}
use ftpn.Nat.Connection.{ClientConnection}
use ftpn.Nat.Multiplexer.{Multiplexer, find_by_client_id}
use ftpn.Nat.Multiplexer.Rewrite.{change_ip_address_to_client_ip, change_ip_address_to_fake_ip}
use ftpn.Prelude.{ℕ, ◌<◌, ◌≡◌, ◌≢◌, refl, true, false, some, arith, byte}

WholeIpv4-is_ipv4 : (p : IpPacket) → WholeIpv4 p.bytes → is_ipv4 p ≡ true
unfolding is_ipv4
WholeIpv4-is_ipv4 p w = ground (arith, w.version, w.long, w.fits)

-- A whole IPv4 packet that can still be forwarded, on its way to a client of the session: it comes out
-- with the client's own address as its destination, the rest of its header but for the checksum as it
-- was, a header that verifies, and the client's id.
pub change_ip_address_to_client_ip-Rewritten :
    (m : Multiplexer) (p : IpPacket) (id : ℕ) (c : ClientConnection)
    → m.disable_checksum_calculation ≡ false
    → find_by_client_id m.receiving id ≡ some c
    → WholeIpv4 p.bytes
    → byte p.bytes 8 ≢ 0
    → c.params.request.client_tun_vpn_ipv4 < 4294967296
    → Returns (change_ip_address_to_client_ip m p id) (λ o.
      (q : IpPacket) × (o ≡ some q)
      × Rewritten 16 c.params.request.client_tun_vpn_ipv4 (record p { client_id = id }) q)
unfolding change_ip_address_to_client_ip
change_ip_address_to_client_ip-Rewritten m p id c on found w ttl small =
    let p' = record p { client_id = id } in
    let address = c.params.request.client_tun_vpn_ipv4 in
    rw (on, found, WholeIpv4-is_ipv4 p' w)
      (Returns-bind _ _
        (set_ipv4_address-Rewritten 16 address p' w ttl (omega arith) (omega arith) small)
        λ q h.
          Returns-bind _ _ (compute-Rewritten 16 address p' q (omega arith) (omega arith) h)
            λ r t. Returns-ok _ (r, refl, t))

-- On its way from a client it comes out with the session's address as its source.
pub change_ip_address_to_fake_ip-Rewritten :
    (m : Multiplexer) (p : IpPacket)
    → m.disable_checksum_calculation ≡ false
    → WholeIpv4 p.bytes
    → byte p.bytes 8 ≢ 0
    → m.fake_client_ipv4 < 4294967296
    → Returns (change_ip_address_to_fake_ip m p) (Rewritten 12 m.fake_client_ipv4 p)
unfolding change_ip_address_to_fake_ip
change_ip_address_to_fake_ip-Rewritten m p on w ttl small =
    rw (on, WholeIpv4-is_ipv4 p w)
      (Returns-bind _ _
        (set_ipv4_address-Rewritten 12 m.fake_client_ipv4 p w ttl (omega arith) (omega arith) small)
        λ q h. compute-Rewritten 12 m.fake_client_ipv4 p q (omega arith) (omega arith) h)
