-- ===== src/Nat/Multiplexer/Rewrite.antt =====
-- fptn/src/fptn-server/nat/connection_multiplexer: the packet gets the client's address on its way to
-- the client and the session's address on its way out.
pub mod Addresses
mod Runs
use ftpn.Packet.Access.{Access, ok, ◌>>=◌}
use ftpn.Packet.{IpPacket, is_ipv4, is_ipv6}
use ftpn.Packet.Rewrite.{
  compute_calculate_fields, set_dst_ipv4_address, set_src_ipv4_address, set_dst_ipv6_address,
  set_src_ipv6_address, set_ipv4_address, set_ipv6_address,
}
use ftpn.Nat.Multiplexer.{Multiplexer, find_by_client_id}
use ftpn.Prelude.{ℕ, Option, none, some, if◌then◌else◌}

-- ChangeIPAddressToClientIP; `none` is the null pointer.
unfoldable pub change_ip_address_to_client_ip :
    Multiplexer → IpPacket → ℕ → Access (Option IpPacket)
change_ip_address_to_client_ip m packet client_id =
    let p = record packet { client_id = client_id } in
    if m.disable_checksum_calculation
    then ok (some p)
    else elim (find_by_client_id m.receiving client_id) [
      | none ↦ ok none
      | some connection ↦ do
        let request = connection.params.request
        q ←
            if is_ipv4 p
            then set_dst_ipv4_address request.client_tun_vpn_ipv4 p
            else if is_ipv6 p
            then set_dst_ipv6_address request.client_tun_vpn_ipv6 p
            else ok p
        r ← compute_calculate_fields q
        ok (some r)
    ]

-- ChangeIPAddressToFakeIP
unfoldable pub change_ip_address_to_fake_ip : Multiplexer → IpPacket → Access IpPacket
change_ip_address_to_fake_ip m p = if m.disable_checksum_calculation then ok p else do
  q ←
      if is_ipv4 p
      then set_src_ipv4_address m.fake_client_ipv4 p
      else if is_ipv6 p
      then set_src_ipv6_address m.fake_client_ipv6 p
      else ok p
  compute_calculate_fields q
