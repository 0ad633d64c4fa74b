-- ===== src/Handshake/Runs.antt =====
-- Two callers, a decoy that answers and one that does not.
use ftpn.Packet.Access.{ok, Returns, Any}
use ftpn.Handshake.Hello.{is_client_hello_complete, is_server_hello_complete}
use ftpn.Handshake.Hello.Safety.Server.{hello_tests_safe}
use ftpn.Handshake.Flight.{
  TlsRecord, is_record_aligned_server_flight, is_record_aligned_server_flight_lem, has_server_hello,
  bytes_of, IsWhole,
}
use ftpn.Handshake.Cache.{
  bytes, quiet, Network, unresolved, interrupted, connected, begun, fetching, replied, resume,
}
use ftpn.Handshake.Cache.History.{
  Call, Event, opened, advanced, passed, Server, manager, answers_behind, history,
}
use ftpn.Handshake.Cache.History.Entries.{Recent}
use ftpn.Handshake.Cache.History.Replies.{resume-Recent}
use ftpn.Filter.DomainBlacklist.{same_domain, text_key}
use ftpn.Prelude.{
  ℕ, ◌≡◌, ◌↔◌, refl, true, false, some, List, [], ◌∷◌, ◌++◌, All, get_elem?, find_key,
}

abbrev flight : List ℕ
flight = 22 ∷ 3 ∷ 3 ∷ 0 ∷ 2 ∷ 2 ∷ 9 ∷ 20 ∷ 3 ∷ 3 ∷ 0 ∷ 1 ∷ 1 ∷ []

whole : is_record_aligned_server_flight flight ≡ true
unfolding is_record_aligned_server_flight
whole = refl

-- A byte of the last record is missing.
cut : is_record_aligned_server_flight (22 ∷ 3 ∷ 3 ∷ 0 ∷ 2 ∷ 2 ∷ []) ≡ false
unfolding is_record_aligned_server_flight
cut = refl

-- An empty handshake record counts as a ServerHello if a byte 2 follows it.
empty_hello : is_record_aligned_server_flight (22 ∷ 3 ∷ 3 ∷ 0 ∷ 0 ∷ 2 ∷ 3 ∷ 3 ∷ 0 ∷ 0 ∷ []) ≡ true
unfolding is_record_aligned_server_flight
empty_hello = refl

is_record_aligned_server_flight_lem_example : (is_record_aligned_server_flight flight ≡ true) ↔ (
    (rs : List TlsRecord) × (bytes_of rs ≡ flight) × All IsWhole rs × (has_server_hello rs ≡ true))
is_record_aligned_server_flight_lem_example = is_record_aligned_server_flight_lem flight

abbrev server : Server
server = record { cache_ttl = 100; default_domain = b'd' ∷ []; generate = λ domain. 1 ∷ domain }

abbrev answer : Network
answer = connected (bytes (22 ∷ 3 ∷ 3 ∷ 0 ∷ 2 ∷ 2 ∷ []) ∷ bytes (9 ∷ []) ∷ quiet ∷ [])

abbrev hello : List ℕ
hello = 22 ∷ 3 ∷ 3 ∷ 0 ∷ 2 ∷ 2 ∷ 9 ∷ []

-- The last event first: the first caller's decoy is silent, the default one answers, and 40 later a second
-- caller with the same SNI begins.
abbrev events : List Event
events =
    opened (b'a' ∷ []) (5 ∷ [])
    ∷ passed 40
    ∷ advanced 0 unresolved
    ∷ advanced 0 answer
    ∷ advanced 0 unresolved
    ∷ advanced 0 unresolved
    ∷ opened (b'a' ∷ []) (4 ∷ [])
    ∷ []

abbrev second : Call
second = record { sni = b'a' ∷ []; client_hello = 5 ∷ []; stage = begun }

second_found : get_elem? (history server events).calls 0 ≡ some second
unfolding history
second_found = refl

second_replied :
    let w = history server events in
    (resume w.now second.sni interrupted second.stage (manager server w.cache)).1
    ≡ replied (some hello)
unfolding history resume same_domain find_key is_record_aligned_server_flight
second_replied = refl

resume-Recent_example :
    let w = history server events in
    Recent server
      (answers_behind server w.now second interrupted w.answers)
      w.now
      (b'a' ∷ [])
      (some hello)
resume-Recent_example =
    resume-Recent server events 0 second interrupted hello second_found refl second_replied

-- Behind the time to live the entry is gone, and the caller waits for the decoy again.
expired :
    let w = history server (passed 60 ∷ events) in
    (resume 100 (b'a' ∷ []) interrupted begun (manager server w.cache)).1 ≡ fetching
unfolding history resume same_domain find_key is_record_aligned_server_flight
expired = refl

abbrev client_hello : List ℕ
client_hello = 22 ∷ 3 ∷ 1 ∷ 0 ∷ 6 ∷ 1 ∷ 0 ∷ 0 ∷ 2 ∷ 3 ∷ 3 ∷ []

complete : is_client_hello_complete client_hello ≡ ok true
unfolding is_client_hello_complete
complete = refl

-- A ServerHello with no ServerHelloDone behind it, and one with it.
abbrev server_hello : List ℕ
server_hello = 22 ∷ 3 ∷ 3 ∷ 0 ∷ 6 ∷ 2 ∷ 0 ∷ 0 ∷ 2 ∷ 3 ∷ 3 ∷ []

incomplete : is_server_hello_complete server_hello ≡ ok false
unfolding is_server_hello_complete
incomplete = refl

complete_flight :
    is_server_hello_complete (server_hello ++ 22 ∷ 3 ∷ 3 ∷ 0 ∷ 4 ∷ 14 ∷ 0 ∷ 0 ∷ 0 ∷ []) ≡ ok true
unfolding is_server_hello_complete
complete_flight = refl

hello_tests_safe_example :
    Returns (is_client_hello_complete client_hello) Any
    × Returns (is_server_hello_complete client_hello) Any
hello_tests_safe_example = hello_tests_safe client_hello
