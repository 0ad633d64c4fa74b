-- ===== src/Filter/AntiSpam/Ports.antt =====
-- What the AntiSpam filter drops, by ports and by the text of the payload.
use ftpn.Packet.{IpPacket, is_tcp, is_udp, dst_port, tcp_payload}
use ftpn.Filter.AntiSpam.Mx.{MxQuery, MxQuery-iff}
use ftpn.Filter.Manager.{Direction}
use ftpn.Filter.AntiSpam.{
  is_mail_port, is_abuse_tcp_port, is_abuse_udp_port, to_upper_ascii, starts_with_command,
  ehlo_command, helo_command, mail_from_command, rcpt_to_command, is_mail_command, when_payload,
  anti_spam,
}
use ftpn.Prelude.{
  ℕ, ◌+◌, ◌≤◌, ◌<◌, ◌≡◌, refl, ◌↔◌, ◌⊎◌, Bool, true, false, ◌&&◌, ◌||◌, Option, none, some, List,
  [], ◌∷◌, arith, ltb, ◌==◌, any, All,
}

-- A byte of a command's text: itself, or the small letter for one of the letters A to Z.
abbrev pub SameLetter : ℕ → ℕ → Type 0
SameLetter b c = (b ≡ c) ⊎ (65 ≤ c) × (c ≤ 90) × (b ≡ c + 32)

-- The payload begins with the command, in either case of its letters.
abbrev pub Begins : List ℕ → List ℕ → Type 0
Begins payload [] = Unit
Begins [] (c ∷ command) = ⊥
Begins (b ∷ payload) (c ∷ command) = SameLetter b c × Begins payload command

-- No small letter.
abbrev Capitals : List ℕ → Type 0
Capitals = All (λ c. (c < 97) ⊎ (122 < c))

SameLetter-iff : (b c : ℕ) → (c < 97) ⊎ (122 < c) → (to_upper_ascii b == c ≡ true) ↔ SameLetter b c
unfolding to_upper_ascii
SameLetter-iff b c h = ground (arith, h)

starts_with_command_iff :
    (payload command : List ℕ)
    → Capitals command
    → (starts_with_command payload command ≡ true) ↔ Begins payload command
unfolding starts_with_command
starts_with_command_iff payload [] h = ground arith
starts_with_command_iff [] (c ∷ command) h = ground arith
starts_with_command_iff (b ∷ payload) (c ∷ command) h =
    ground (arith, SameLetter-iff b c h.0, starts_with_command_iff payload command h.1)

abbrev MailCommand : List ℕ → Type 0
MailCommand payload =
    Begins payload ehlo_command
    ⊎ Begins payload helo_command
    ⊎ Begins payload mail_from_command
    ⊎ Begins payload rcpt_to_command

abbrev MailPayload : Option (List ℕ) → Type 0
MailPayload none = ⊥
MailPayload (some payload) = MailCommand payload

is_capitals : List ℕ → Bool
is_capitals [] = true
is_capitals (c ∷ command) = ltb c 97 && is_capitals command

capitals : (command : List ℕ) → is_capitals command ≡ true → Capitals command
unfolding is_capitals
capitals [] h = tt
capitals (c ∷ command) h = (ground (arith, h), capitals command (ground (arith, h)))

is_mail_command_iff :
    (payload : Option (List ℕ))
    → (when_payload is_mail_command payload ≡ true) ↔ MailPayload payload
unfolding is_mail_command is_capitals
is_mail_command_iff none = ground arith
is_mail_command_iff (some payload) = ground (
  arith,
  starts_with_command_iff payload ehlo_command (capitals ehlo_command refl),
  starts_with_command_iff payload helo_command (capitals helo_command refl),
  starts_with_command_iff payload mail_from_command (capitals mail_from_command refl),
  starts_with_command_iff payload rcpt_to_command (capitals rcpt_to_command refl),
)

abbrev spam_tcp_ports : List ℕ
spam_tcp_ports = 25 ∷ 465 ∷ 587 ∷ 2525 ∷ 23 ∷ 135 ∷ 137 ∷ 138 ∷ 139 ∷ 445 ∷ []

abbrev spam_udp_ports : List ℕ
spam_udp_ports = 137 ∷ 138 ∷ 1900 ∷ 11211 ∷ []

tcp_ports_any :
    (port : ℕ) → (is_mail_port port || is_abuse_tcp_port port) ≡ any (λ x. port == x) spam_tcp_ports
unfolding is_mail_port is_abuse_tcp_port
tcp_ports_any port = ground arith

udp_ports_any : (port : ℕ) → is_abuse_udp_port port ≡ any (λ x. port == x) spam_udp_ports
unfolding is_abuse_udp_port
udp_ports_any port = ground arith

abbrev Spam : IpPacket → Type 0
Spam p =
    (is_tcp p ≡ true)
      × ((any (λ x. dst_port p == x) spam_tcp_ports ≡ true) ⊎ MailPayload (tcp_payload p))
    ⊎ (is_tcp p ≡ false)
      × (is_udp p ≡ true)
      × ((any (λ x. dst_port p == x) spam_udp_ports ≡ true) ⊎ MxQuery p.bytes)

-- AntiSpam drops a packet exactly if it comes from a client and is a TCP packet to one of the ten
-- mail and abuse ports or with a payload that begins with an SMTP command in either case, or a UDP
-- packet to one of the four abuse ports or with a DNS query for MX records. Every other packet it
-- passes on unchanged.
pub anti_spam_iff {ℓ} :
    {S : Type ℓ} (p : IpPacket) (d : Direction) (s : S)
    → (((anti_spam p d s).0 ≡ none) ↔ ((d ≡ Direction.from_client) × Spam p))
      × (((anti_spam p d s).0 ≡ none) ⊎ ((anti_spam p d s).0 ≡ some p))
unfolding anti_spam
anti_spam_iff p Direction.to_client s = ground arith
anti_spam_iff p Direction.from_client s = ground (
  arith,
  tcp_ports_any (dst_port p),
  udp_ports_any (dst_port p),
  MxQuery-iff p.bytes,
  is_mail_command_iff (tcp_payload p),
)
