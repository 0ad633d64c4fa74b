-- ===== src/Filter/AntiSpam.antt =====
-- fptn/src/fptn-server/filter/filters/antispam: no mail and no abused services from the clients.
pub mod Mx
pub mod Ports
use ftpn.Packet.{IpPacket, is_tcp, is_udp, dst_port, tcp_payload}
use ftpn.Packet.Access.{value_or}
use ftpn.Packet.Dns.Answers.{is_dns_mx_query}
use ftpn.Filter.Manager.{Direction, Filter}
use ftpn.Prelude.{
  ℕ, ◌-◌, Bool, true, false, ◌&&◌, ◌||◌, Option, none, some, List, [], ◌∷◌, ltb, leb, ◌==◌,
  if◌then◌else◌,
}

unfoldable pub is_mail_port : ℕ → Bool
is_mail_port port = port == 25 || port == 465 || port == 587 || port == 2525

unfoldable pub is_abuse_tcp_port : ℕ → Bool
is_abuse_tcp_port port = port == 23 || port == 135 || (leb 137 port && leb port 139) || port == 445

unfoldable pub is_abuse_udp_port : ℕ → Bool
is_abuse_udp_port port = port == 137 || port == 138 || port == 1900 || port == 11211

unfoldable pub to_upper_ascii : ℕ → ℕ
to_upper_ascii c = if leb 97 c && leb c 122 then c - 32 else c

-- StartsWith: the payload, in upper case, begins with the command.
unfoldable pub starts_with_command : List ℕ → List ℕ → Bool
unfolding to_upper_ascii
starts_with_command payload [] = true
starts_with_command [] (c ∷ command) = false
starts_with_command (b ∷ payload) (c ∷ command) =
    to_upper_ascii b == c && starts_with_command payload command

-- "EHLO ", "HELO ", "MAIL FROM:", "RCPT TO:"
abbrev pub ehlo_command : List ℕ
ehlo_command = 69 ∷ 72 ∷ 76 ∷ 79 ∷ 32 ∷ []

abbrev pub helo_command : List ℕ
helo_command = 72 ∷ 69 ∷ 76 ∷ 79 ∷ 32 ∷ []

abbrev pub mail_from_command : List ℕ
mail_from_command = 77 ∷ 65 ∷ 73 ∷ 76 ∷ 32 ∷ 70 ∷ 82 ∷ 79 ∷ 77 ∷ 58 ∷ []

abbrev pub rcpt_to_command : List ℕ
rcpt_to_command = 82 ∷ 67 ∷ 80 ∷ 84 ∷ 32 ∷ 84 ∷ 79 ∷ 58 ∷ []

unfoldable pub is_mail_command : List ℕ → Bool
unfolding starts_with_command
is_mail_command payload =
    starts_with_command payload ehlo_command
    || starts_with_command payload helo_command
    || starts_with_command payload mail_from_command
    || starts_with_command payload rcpt_to_command

-- `payload && IsMailCommand(payload, size)`
abbrev pub when_payload : (List ℕ → Bool) → Option (List ℕ) → Bool
when_payload test none = false
when_payload test (some payload) = test payload

unfoldable pub anti_spam {ℓ} : {S : Type ℓ} → Filter S
anti_spam packet Direction.to_client s = (some packet, s)
anti_spam packet Direction.from_client s =
    let port = dst_port packet in
    if is_tcp packet
    then (if is_mail_port port
          || is_abuse_tcp_port port
          || when_payload is_mail_command (tcp_payload packet)
        then (none, s)
        else (some packet, s))
    else if is_udp packet
    then (if is_abuse_udp_port port || value_or false (is_dns_mx_query packet.bytes)
        then (none, s)
        else (some packet, s))
    else (some packet, s)
