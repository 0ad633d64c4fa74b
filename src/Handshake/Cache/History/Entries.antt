-- ===== src/Handshake/Cache/History/Entries.antt =====
-- The entries of the cache, each the answer of a server that is known.
use mathlib.Core.Path.{subst}
use ftpn.Filter.DomainBlacklist.{is_empty, same_domain, same_domain_iff, text_key}
use ftpn.Handshake.Flight.{is_record_aligned_server_flight}
use ftpn.Handshake.Cache.{
  HandshakeResponse, CacheEntry, HandshakeCacheManager, check_cache, store, is_present,
  HandshakeStage, begun, fetching, fetching_default, storing, replied, finish,
}
use ftpn.Handshake.Cache.History.{Answer, Somewhere, Call, is_storing, noted, Server, manager}
use ftpn.Prelude.{
  ℕ, ◌+◌, ◌-◌, ◌≤◌, ◌<◌, ◌≡◌, ◌⊎◌, refl, sym, ◌∙◌, inl, inr, true, Option, none, some, List, [],
  ◌∷◌, arith, ltb, find_key, erase_key, find_key-erase_key, find_key-assign, if◌then◌else◌,
  Bool-cases, Option-cases,
}

module _ (server : Server) where
  -- An answer of the domain or of the default one, with these bytes, from that time.
  abbrev pub From : List ℕ → ℕ → List ℕ → Answer → Type 0
  From sni time response a =
      ((a.domain ≡ sni) ⊎ (a.domain ≡ server.default_domain))
      × (a.response ≡ response)
      × (a.time ≡ time)

  abbrev pub Answered : List Answer → List ℕ → ℕ → List ℕ → Type 0
  Answered answers sni time response =
      Somewhere (From sni time response) answers × (is_record_aligned_server_flight response ≡ true)

  abbrev pub EntryOk : List Answer → ℕ → List ℕ → ℕ → HandshakeResponse → Type 0
  EntryOk answers now key timestamp none = ⊥
  EntryOk answers now key timestamp (some r) = Answered answers key timestamp r × (timestamp ≤ now)

  abbrev pub CacheOk : List Answer → ℕ → List (List ℕ × CacheEntry) → Type 0
  CacheOk answers now cache =
      (key : List ℕ) (e : CacheEntry)
      → find_key key cache ≡ some e
      → EntryOk answers now key e.timestamp e.response

  -- An answer that came just now, or less than the time to live ago.
  abbrev pub Recent : List Answer → ℕ → List ℕ → HandshakeResponse → Type 0
  Recent answers now sni none = Unit
  Recent answers now sni (some r) =
      (time : ℕ) × Answered answers sni time r
      × ((time ≡ now) ⊎ ((time ≤ now) × (now < time + server.cache_ttl)))

  abbrev Fresh : List Answer → ℕ → List ℕ → HandshakeResponse → Type 0
  Fresh answers now sni none = Unit
  Fresh answers now sni (some r) = Answered answers sni now r

  abbrev pub Handed : List Answer → ℕ → List ℕ → HandshakeStage → Type 0
  Handed answers now sni begun = Unit
  Handed answers now sni fetching = Unit
  Handed answers now sni fetching_default = Unit
  Handed answers now sni (storing r) = Fresh answers now sni r
  Handed answers now sni (replied r) = Recent answers now sni r

  abbrev pub Kept : List Answer → ℕ → Call → Type 0
  Kept answers now c = if is_storing c.stage then Handed answers now c.sni c.stage else Unit

  pub Answered-noted :
      (asked : Option (List ℕ × List ℕ)) (response : HandshakeResponse) (t : ℕ)
      (answers : List Answer) (sni : List ℕ) (time : ℕ) (r : List ℕ)
      → Answered answers sni time r
      → Answered (noted asked response t answers) sni time r
  unfolding noted
  Answered-noted none response t answers sni time r h = h
  Answered-noted (some asked) none t answers sni time r h = h
  Answered-noted (some asked) (some x) t answers sni time r h = (inr h.0, h.1)

  pub CacheOk-noted :
      (asked : Option (List ℕ × List ℕ)) (response : HandshakeResponse) (t : ℕ)
      (answers : List Answer) (now : ℕ) (cache : List (List ℕ × CacheEntry))
      → CacheOk answers now cache
      → CacheOk (noted asked response t answers) now cache
  CacheOk-noted asked response t answers now cache ok key e found =
      entry e.response (ok key e found)
    where
      entry :
          (r : HandshakeResponse)
          → EntryOk answers now key e.timestamp r
          → EntryOk (noted asked response t answers) now key e.timestamp r
      entry none h = h
      entry (some r) h = (Answered-noted asked response t answers key e.timestamp r h.0, h.1)

  CacheOk-erase_key :
      (answers : List Answer) (now : ℕ) (key : List ℕ) (cache : List (List ℕ × CacheEntry))
      → CacheOk answers now cache
      → CacheOk answers now (erase_key key cache)
  CacheOk-erase_key answers now key cache ok k e found =
      let find = find_key-erase_key key k cache in
      elim (Bool-cases (same_domain key k)) [
        | inl same ↦ let found' = rw same at (sym find ∙ found) in absurd (cc found')
        | inr other ↦ let found' = rw other at (sym find ∙ found) in ok k e found'
      ]

  pub check_cache-Recent :
      (answers : List Answer) (now : ℕ) (key : List ℕ) (cache : List (List ℕ × CacheEntry))
      → CacheOk answers now cache
      → let (m, r) = check_cache now key (manager server cache) in
        CacheOk answers now m.cache × Recent answers now key r
  unfolding check_cache
  check_cache-Recent answers now key cache ok = elim (Option-cases (find_key key cache)) [
    | inl e ↦ rw e (ok, tt)
    | inr (entry, e) ↦ elim (Bool-cases (ltb (now - entry.timestamp) server.cache_ttl)) [
      | inl young ↦ rw (e, young) (ok, recent entry young entry.response (ok key entry e))
      | inr old ↦ rw (e, old) (CacheOk-erase_key answers now key cache ok, tt)
    ]
  ]
    where
      recent :
          (entry : CacheEntry)
          → ltb (now - entry.timestamp) server.cache_ttl ≡ true
          → (r : HandshakeResponse) → EntryOk answers now key entry.timestamp r
          → Recent answers now key r
      recent entry young none h = tt
      recent entry young (some r) h = (entry.timestamp, h.0, inr (h.1, ground (arith, young, h.1)))

  pub store-CacheOk :
      (answers : List Answer) (now : ℕ) (key : List ℕ) (cache : List (List ℕ × CacheEntry))
      (r : List ℕ)
      → CacheOk answers now cache
      → Answered answers key now r
      → CacheOk answers now (store now key (some r) (manager server cache)).cache
  unfolding store
  store-CacheOk answers now key cache r ok a k e found =
      let new : CacheEntry = record { response = some r; timestamp = now } in
      let find = find_key-assign key k new cache in
      elim (Bool-cases (same_domain key k)) [
        | inl same ↦
            let found' : some new ≡ some e = rw same at (sym find ∙ found) in
            let is_new : new ≡ e = cc found' in
            let here : EntryOk answers now k now (some r) =
              subst (λ x. EntryOk answers now x now (some r)) ((same_domain_iff key k).0 same)
                (a, omega arith) in
            subst (λ (x : CacheEntry). EntryOk answers now k x.timestamp x.response) is_new here
        | inr other ↦ let found' = rw other at (sym find ∙ found) in ok k e found'
      ]

  pub finish-Handed :
      (answers : List Answer) (now : ℕ) (sni : List ℕ) (cache : List (List ℕ × CacheEntry))
      (r : HandshakeResponse)
      → CacheOk answers now cache
      → Fresh answers now sni r
      → let (m, s) = finish now sni r (manager server cache) in
        CacheOk answers now m.cache × Handed answers now sni s
  unfolding finish
  finish-Handed answers now sni cache none ok a = (ok, tt)
  finish-Handed answers now sni cache (some r) ok a = elim (Bool-cases (is_empty r)) [
    | inl e ↦ rw e (ok, tt)
    | inr e ↦ rw e (store-CacheOk answers now sni cache r ok a, (now, a, inl refl))
  ]

  -- A cached response is returned, and without one the call goes on.
  pub offer-Handed :
      (answers : List Answer) (now : ℕ) (sni : List ℕ) (m : HandshakeCacheManager)
      (r : HandshakeResponse) (next : HandshakeStage)
      → CacheOk answers now m.cache
      → Recent answers now sni r
      → Handed answers now sni next
      → let out : HandshakeCacheManager × HandshakeStage =
          if is_present r then (m, replied r) else (m, next) in
        CacheOk answers now out.0.cache × Handed answers now sni out.1
  offer-Handed answers now sni m r next ok recent h = elim (Bool-cases (is_present r)) [
    | inl e ↦ rw e (ok, recent)
    | inr e ↦ rw e (ok, h)
  ]

  pub From-default :
      (sni : List ℕ) (time : ℕ) (r : List ℕ) (answers : List Answer)
      → Somewhere (From server.default_domain time r) answers
      → Somewhere (From sni time r) answers
  From-default sni time r [] h = h
  From-default sni time r (a ∷ answers) (inl (inl e, h, t)) = inl (inr e, h, t)
  From-default sni time r (a ∷ answers) (inl (inr e, h, t)) = inl (inr e, h, t)
  From-default sni time r (a ∷ answers) (inr h) = inr (From-default sni time r answers h)

  pub Recent-default :
      (answers : List Answer) (now : ℕ) (sni : List ℕ) (r : HandshakeResponse)
      → Recent answers now server.default_domain r
      → Recent answers now sni r
  Recent-default answers now sni none h = tt
  Recent-default answers now sni (some r) (time, (here, aligned), young) =
      (time, (From-default sni time r answers here, aligned), young)
