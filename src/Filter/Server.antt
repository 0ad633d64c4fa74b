-- ===== src/Filter/Server.antt =====
-- fptn/src/fptn-server/fptn-server.cpp: the two chains of filters that the server builds.
use ftpn.Packet.{IpPacket}
use ftpn.Filter.Manager.{Direction, Filter, add, apply, PassesUnchanged, apply-passes}
use ftpn.Filter.AntiScan.{AntiScan, anti_scan}
use ftpn.Filter.AntiSpam.{anti_spam}
use ftpn.Filter.BitTorrent.{bit_torrent}
use ftpn.Filter.DomainBlacklist.{Memory, domain_blacklist}
use ftpn.Filter.DomainBlacklist.Blocking.{domain_blacklist-PassesUnchanged}
use ftpn.Filter.AntiSpam.Ports.{anti_spam_iff}
use ftpn.Filter.BitTorrent.Signatures.{bit_torrent_iff}
use ftpn.Prelude.{ℕ, ◌≡◌, refl, ◌↔◌, Bool, true, false, some, List, [], ◌∷◌, arith, if◌then◌else◌}

module _ (scan : AntiScan) (clock : ℕ → ℕ) (domains : List (List ℕ)) where
  unfoldable pub from_client_filters : Bool → Bool → List (Filter Memory)
  unfolding add
  from_client_filters torrent_filter spam_filter =
      let torrent = if torrent_filter then add bit_torrent [] else [] in
      let spam = if spam_filter then add anti_spam torrent else torrent in
      add (domain_blacklist clock domains) (add (anti_scan scan) spam)

  unfoldable pub to_client_filters : List (Filter Memory)
  unfolding add
  to_client_filters = add (domain_blacklist clock domains) []

  anti_scan-PassesUnchanged : PassesUnchanged {S = Memory} (anti_scan scan)
  unfolding anti_scan
  anti_scan-PassesUnchanged p d s = ground arith

  anti_scan_state : (p : IpPacket) (d : Direction) (m : Memory) → (anti_scan scan p d m).1 ≡ m
  unfolding anti_scan
  anti_scan_state p d m = ground arith

  anti_spam_state : (p : IpPacket) (d : Direction) (m : Memory) → (anti_spam p d m).1 ≡ m
  unfolding anti_spam
  anti_spam_state p Direction.to_client m = refl
  anti_spam_state p Direction.from_client m = ground arith

  bit_torrent_state : (p : IpPacket) (d : Direction) (m : Memory) → (bit_torrent p d m).1 ≡ m
  unfolding bit_torrent
  bit_torrent_state p Direction.to_client m = refl
  bit_torrent_state p Direction.from_client m = ground arith

  -- The filter hands on the packet when it sees it with this memory.
  abbrev Hands : Filter Memory → IpPacket → Direction → Memory → Type 0
  Hands f p d m = (f p d m).0 ≡ some p

  -- A filter without a state, in front of others.
  Hands-apply :
      (f : Filter Memory) (fs : List (Filter Memory)) (p : IpPacket) (d : Direction) (m : Memory)
      → PassesUnchanged f
      → (f p d m).1 ≡ m
      → Hands (apply (f ∷ fs)) p d m ↔ (Hands f p d m × Hands (apply fs) p d m)
  Hands-apply f fs p d m unchanged same = ground (arith, apply-passes f fs p d m unchanged, same)

  last_passes :
      (p : IpPacket) (d : Direction) (m : Memory)
      → Hands (apply (domain_blacklist clock domains ∷ [])) p d m
        ↔ Hands (domain_blacklist clock domains) p d m
  unfolding apply
  last_passes p d m = ground (
    arith,
    apply-passes (domain_blacklist clock domains) [] p d m
        (domain_blacklist-PassesUnchanged clock domains),
  )

  tail_passes :
      (p : IpPacket) (d : Direction) (m : Memory)
      → Hands (apply (anti_scan scan ∷ domain_blacklist clock domains ∷ [])) p d m
        ↔ (Hands (anti_scan scan) p d m × Hands (domain_blacklist clock domains) p d m)
  tail_passes p d m = ground (
    arith,
    Hands-apply (anti_scan scan) (domain_blacklist clock domains ∷ []) p d m
        anti_scan-PassesUnchanged (anti_scan_state p d m),
    last_passes p d m,
  )

  spam_passes :
      (fs : List (Filter Memory)) (p : IpPacket) (d : Direction) (m : Memory)
      → Hands (apply (anti_spam ∷ fs)) p d m ↔ (Hands anti_spam p d m × Hands (apply fs) p d m)
  spam_passes fs p d m =
      Hands-apply anti_spam fs p d m (λ q e n. (anti_spam_iff q e n).1) (anti_spam_state p d m)

  torrent_passes :
      (fs : List (Filter Memory)) (p : IpPacket) (d : Direction) (m : Memory)
      → Hands (apply (bit_torrent ∷ fs)) p d m ↔ (Hands bit_torrent p d m × Hands (apply fs) p d m)
  torrent_passes fs p d m =
      Hands-apply bit_torrent fs p d m (λ q e n. (bit_torrent_iff q e n).1)
        (bit_torrent_state p d m)

  -- A packet passes the server's chain for packets from the clients exactly if each of its filters, with
  -- the state that the chain was given, passes it on unchanged: the BitTorrent and the spam filter where
  -- they are configured, the scan filter and the domain blacklist always.
  pub from_client_filters_iff :
      (torrent_filter spam_filter : Bool) (p : IpPacket) (d : Direction) (m : Memory)
      → ((apply (from_client_filters torrent_filter spam_filter) p d m).0 ≡ some p) ↔ (
          (torrent_filter ≡ true → (bit_torrent p d m).0 ≡ some p)
          × (spam_filter ≡ true → (anti_spam p d m).0 ≡ some p)
          × ((anti_scan scan p d m).0 ≡ some p)
          × ((domain_blacklist clock domains p d m).0 ≡ some p))
  unfolding from_client_filters
  from_client_filters_iff false false p d m = ground (arith, tail_passes p d m)
  from_client_filters_iff false true p d m = ground (
    arith,
    tail_passes p d m,
    spam_passes (anti_scan scan ∷ domain_blacklist clock domains ∷ []) p d m,
  )
  from_client_filters_iff true false p d m = ground (
    arith,
    tail_passes p d m,
    torrent_passes (anti_scan scan ∷ domain_blacklist clock domains ∷ []) p d m,
  )
  from_client_filters_iff true true p d m = ground (
    arith,
    tail_passes p d m,
    spam_passes (anti_scan scan ∷ domain_blacklist clock domains ∷ []) p d m,
    torrent_passes (anti_spam ∷ anti_scan scan ∷ domain_blacklist clock domains ∷ []) p d m,
  )
