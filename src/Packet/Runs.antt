-- ===== src/Packet/Runs.antt =====
-- Example packets and records through the parsers.
use ftpn.Packet.Access.{ok, Returns, read_bytes}
use ftpn.Packet.Dns.{dns_ptr, parse_dns_name, skip_dns_name}
use ftpn.Packet.Dns.Answers.{
  get_dns_domain, get_dns_ipv4_addresses, get_dns_addresses, dns_answer_start, question_loop,
  question_pass, answer_loop, answer_pass, non_empty_name,
}
use ftpn.Packet.Dns.Answers.Safety.{dns_getters_safe}
use ftpn.Packet.Tls.{set_tls_session_id}
use ftpn.Packet.Tls.Safety.{tls_parsers_safe}
use ftpn.Prelude.{ℕ, ◌≡◌, refl, some, List, [], ◌∷◌, ◌++◌, replicate, length, All}

-- A DNS answer for "a.b": 1.2.3.4. The name of the answer is a pointer to the question.
abbrev pub dns_packet : List ℕ
dns_packet =
    0x45 ∷ replicate 8 0
    ++ 17 ∷ replicate 10 0
    ++ 0 ∷ 53 ∷ replicate 6 0
    ++ 0 ∷ 1 ∷ 0x80 ∷ 0 ∷ 0 ∷ 1 ∷ 0 ∷ 1 ∷ 0 ∷ 0 ∷ 0 ∷ 0 ∷ 1 ∷ b'a' ∷ 1 ∷ b'b' ∷ 0 ∷ 0 ∷ 1 ∷ 0 ∷ 1
      ∷ 0xC0 ∷ 12 ∷ 0 ∷ 1 ∷ 0 ∷ 1 ∷ 0 ∷ 0 ∷ 0 ∷ 60 ∷ 0 ∷ 4 ∷ 1 ∷ 2 ∷ 3 ∷ 4 ∷ []

domain_of_answer : get_dns_domain dns_packet ≡ ok (some (b'a' ∷ 46 ∷ b'b' ∷ []))
unfolding get_dns_domain dns_ptr parse_dns_name non_empty_name
domain_of_answer = refl

address_of_answer : get_dns_ipv4_addresses dns_packet ≡ ok ((1 ∷ 2 ∷ 3 ∷ 4 ∷ []) ∷ [])
unfolding get_dns_ipv4_addresses get_dns_addresses dns_ptr dns_answer_start question_loop
    question_pass skip_dns_name answer_loop answer_pass read_bytes
address_of_answer = refl

dns_getters_safe_example :
    Returns (get_dns_ipv4_addresses dns_packet) (All (λ address. length address ≡ 4))
dns_getters_safe_example = (dns_getters_safe dns_packet).3

-- A ServerHello with a session id of two bytes.
abbrev server_hello : List ℕ
server_hello = 0x16 ∷ 3 ∷ 3 ∷ replicate 40 0 ++ 2 ∷ 7 ∷ 8 ∷ 9 ∷ []

abbrev session : List ℕ
session = 70 ∷ 80 ∷ []

abbrev stamped_hello : List ℕ
stamped_hello = 0x16 ∷ 3 ∷ 3 ∷ replicate 40 0 ++ 2 ∷ 70 ∷ 80 ∷ 9 ∷ []

tls_parsers_safe_example :
    Returns (set_tls_session_id server_hello session) (λ r. length r.1 ≡ length server_hello)
tls_parsers_safe_example = (tls_parsers_safe server_hello).3 session
