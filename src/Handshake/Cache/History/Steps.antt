-- ===== src/Handshake/Cache/History/Steps.antt =====
-- One step of a call: what it stores and what it hands over.
use ftpn.Filter.DomainBlacklist.{is_empty, text_key}
use ftpn.Handshake.Flight.{is_record_aligned_server_flight}
use ftpn.Handshake.Cache.{
  HandshakeResponse, Network, unresolved, interrupted, connected, read_flight, response_of,
  fetch_forwarded_handshake, CacheEntry, HandshakeStage, begun, fetching, fetching_default, storing,
  replied, after_fetch, after_default_fetch, resume, fetch_request,
}
use ftpn.Handshake.Cache.History.{
  Answer, Call, is_storing, is_returned, noted, Server, manager, answers_behind,
}
use ftpn.Prelude.{
  ℕ, ◌≡◌, refl, inl, inr, Bool, true, false, none, some, List, [], ◌∷◌, if◌then◌else◌, Bool-cases,
}
use ftpn.Handshake.Cache.History.Entries.{
  Answered, CacheOk, Handed, Kept, CacheOk-noted, check_cache-Recent, store-CacheOk, finish-Handed,
  offer-Handed, From-default, Recent-default,
}

-- What a fetch gives is whole records.
response_of-aligned :
    (b : Bool) (read r : List ℕ)
    → is_record_aligned_server_flight read ≡ b
    → response_of (if b then read else []) ≡ some r
    → is_record_aligned_server_flight r ≡ true
unfolding response_of
response_of-aligned true [] r a h = absurd (cc h)
response_of-aligned true (x ∷ read) r a h = let e : x ∷ read ≡ r = cc h in rw e at a
response_of-aligned false read r a h = absurd (cc h)

fetch-aligned :
    (network : Network) (r : List ℕ)
    → fetch_forwarded_handshake network ≡ some r
    → is_record_aligned_server_flight r ≡ true
unfolding fetch_forwarded_handshake response_of
fetch-aligned unresolved r h = absurd (cc h)
fetch-aligned interrupted r h = absurd (cc h)
fetch-aligned (connected rs) r h = response_of-aligned _ (read_flight rs []) r refl h

module _ (server : Server) where
  -- The response is that of a fetch.
  abbrev Fetched : HandshakeResponse → Type 0
  Fetched response = (r : List ℕ) → response ≡ some r → is_record_aligned_server_flight r ≡ true

  after_fetch-Handed :
      (answers : List Answer) (now : ℕ) (c : Call) (cache : List (List ℕ × CacheEntry))
      (response : HandshakeResponse)
      → Fetched response
      → CacheOk server answers now cache
      → let (m, s) = after_fetch now c.sni response (manager server cache) in
        let answers' = noted (some (c.sni, c.client_hello)) response now answers in
        CacheOk server answers' now m.cache × Handed server answers' now c.sni s
  unfolding after_fetch noted
  after_fetch-Handed answers now c cache none aligned ok =
      let (ok', recent) = check_cache-Recent server answers now server.default_domain cache ok in
      offer-Handed server answers now c.sni _ _ fetching_default ok'
        (Recent-default server answers now c.sni _ recent) tt
  after_fetch-Handed answers now c cache (some r) aligned ok =
      let asked = some (c.sni, c.client_hello) in
      finish-Handed server (noted asked (some r) now answers) now c.sni cache (some r)
        (CacheOk-noted server asked (some r) now answers now cache ok)
        (inl (inl refl, refl, refl), aligned r refl)

  stored-Handed :
      (answers : List Answer) (now : ℕ) (sni : List ℕ) (cache : List (List ℕ × CacheEntry))
      (r : List ℕ)
      → CacheOk server answers now cache
      → Answered server answers server.default_domain now r
      → let (m, s) = after_default_fetch now sni (some r) (manager server cache) in
        CacheOk server answers now m.cache × Handed server answers now sni s
  unfolding after_default_fetch
  stored-Handed answers now sni cache r ok (here, aligned) = elim (Bool-cases (is_empty r)) [
    | inl e ↦ rw e (ok, tt)
    | inr e ↦
        let stored =
          store-CacheOk server answers now server.default_domain cache r ok (here, aligned) in
        rw e (stored, (From-default server sni now r answers here, aligned))
  ]

  after_default_fetch-Handed :
      (answers : List Answer) (now : ℕ) (c : Call) (cache : List (List ℕ × CacheEntry))
      (response : HandshakeResponse)
      → Fetched response
      → CacheOk server answers now cache
      → let (m, s) = after_default_fetch now c.sni response (manager server cache) in
        let answers' =
          noted
            (some (server.default_domain, server.generate server.default_domain))
            response
            now
            answers in
        CacheOk server answers' now m.cache × Handed server answers' now c.sni s
  unfolding after_default_fetch noted
  after_default_fetch-Handed answers now c cache none aligned ok =
      finish-Handed server answers now c.sni cache none ok tt
  after_default_fetch-Handed answers now c cache (some r) aligned ok =
      let asked = some (server.default_domain, server.generate server.default_domain) in
      stored-Handed (noted asked (some r) now answers) now c.sni cache r
        (CacheOk-noted server asked (some r) now answers now cache ok)
        (inl (inl refl, refl, refl), aligned r refl)

  -- The step of a call that has not returned.
  pub resume-Handed :
      (answers : List Answer) (now : ℕ) (c : Call) (network : Network)
      (cache : List (List ℕ × CacheEntry))
      → is_returned c.stage ≡ false
      → CacheOk server answers now cache
      → Kept server answers now c
      → let (m, s) = resume now c.sni network c.stage (manager server cache) in
        let answers' = answers_behind server now c network answers in
        CacheOk server answers' now m.cache × Handed server answers' now c.sni s
  unfolding resume fetch_request noted
  resume-Handed answers now c network cache going ok kept = by_stage c.stage going kept
    where
      by_stage :
          (s : HandshakeStage)
          → is_returned s ≡ false
          → (if is_storing s then Handed server answers now c.sni s else Unit)
          → let (m, s') = resume now c.sni network s (manager server cache) in
            let answers' =
              noted
                (fetch_request server.generate server.default_domain c.sni c.client_hello s)
                (fetch_forwarded_handshake network)
                now
                answers in
            CacheOk server answers' now m.cache × Handed server answers' now c.sni s'
      by_stage begun going kept =
          let (ok', recent) = check_cache-Recent server answers now c.sni cache ok in
          offer-Handed server answers now c.sni _ _ fetching ok' recent tt
      by_stage fetching going kept =
          after_fetch-Handed answers now c cache (fetch_forwarded_handshake network)
            (fetch-aligned network) ok
      by_stage fetching_default going kept =
          after_default_fetch-Handed answers now c cache (fetch_forwarded_handshake network)
            (fetch-aligned network) ok
      by_stage (storing r) going kept = finish-Handed server answers now c.sni cache r ok kept
      by_stage (replied r) going kept = absurd (cc going)
