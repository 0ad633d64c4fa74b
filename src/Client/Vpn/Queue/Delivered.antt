-- ===== src/Client/Vpn/Queue/Delivered.antt =====
-- What a turn of ProcessWebSocketPackets with the client's two plugins sends to the device, and how long
-- the queue gets.
use mathlib.Core.List.{append-nil, append_assoc}
use ftpn.Packet.{IpPacket}
use ftpn.Packet.Access.{Returns, Returns-ok, Returns-bind, Returns-if}
use ftpn.Client.Vpn.{VpnManager}
use ftpn.Client.Vpn.Queue.{
  max_queue_size, push_all, handle_on_packets_from_web_socket, Plugins, run_plugins, push_some,
  process_batch, is_nonempty, send_batch, process_web_socket_packets, blacklist_plugin,
  split_plugin, client_plugins,
}
use ftpn.Client.Blacklist.History.{Knows, Dropped, DropsOrPasses, handle-Knows}
use ftpn.Client.Split.{RoutingPolicy, handle_packet-RoutedFor}
use ftpn.Prelude.{
  ℕ, ◌+◌, ◌≤◌, ◌<◌, ◌≡◌, ◌⊎◌, refl, sym, ◌∙◌, inl, inr, Bool, true, false, ◌&&◌, Option, none, some,
  List, [], ◌∷◌, ◌++◌, arith, leb, length, length-append, if◌then◌else◌, Bool-cases,
}

-- The history with a batch behind it, the last packet first.
abbrev pub behind : List IpPacket → List IpPacket → List IpPacket
behind ps [] = ps
behind ps (p ∷ batch) = behind (p ∷ ps) batch

-- The device took the packets, or they are counted as dropped.
abbrev pub SentOrCounted : Bool → List IpPacket → VpnManager → VpnManager → Type 0
SentOrCounted takes out m m' =
    ((m.running && m.virtual_net_interface && takes ≡ true)
      × (m'.to_tun_sent ≡ m.to_tun_sent + length out)
      × (m'.to_tun_dropped ≡ m.to_tun_dropped)
      × (m'.to_tun ≡ (if is_nonempty out then out ∷ m.to_tun else m.to_tun)))
    ⊎ ((m.running && m.virtual_net_interface && takes ≡ false)
        × (m'.to_tun_sent ≡ m.to_tun_sent)
        × (m'.to_tun_dropped ≡ m.to_tun_dropped + length out)
        × (m'.to_tun ≡ m.to_tun))

send_batch-SentOrCounted :
    (takes : Bool) (out : List IpPacket) (m : VpnManager)
    → SentOrCounted takes out m (send_batch takes out m)
unfolding send_batch
send_batch-SentOrCounted takes [] m =
    elim (Bool-cases (m.running && m.virtual_net_interface && takes)) [
      | inl e ↦ inl (e, omega arith, refl, refl)
      | inr e ↦ inr (e, refl, omega arith, refl)
    ]
send_batch-SentOrCounted takes (p ∷ out) m =
    by_test (m.running && m.virtual_net_interface && takes) refl
  where
    by_test :
        (b : Bool)
        → (m.running && m.virtual_net_interface && takes) ≡ b
        → SentOrCounted takes (p ∷ out) m (
            if b
            then record m {
              to_tun_sent = m.to_tun_sent + length (p ∷ out);
              to_tun = (p ∷ out) ∷ m.to_tun;
            }
            else record m { to_tun_dropped = m.to_tun_dropped + length (p ∷ out) })
    by_test true e = inl (e, refl, refl, refl)
    by_test false e = inr (e, refl, refl, refl)

module _ (to_text : ℕ → List ℕ) (partial_match : List ℕ → List ℕ → Bool)
    (blacklist_rules domains : List (List ℕ)) (apple : Bool) (policy : RoutingPolicy) where
  -- The packets of a batch, behind a history, but for those that the blacklist drops, in their order.
  abbrev pub Kept : List IpPacket → List IpPacket → List IpPacket → Type 0
  Kept ps [] out = out ≡ []
  Kept ps (p ∷ batch) out =
      (Dropped to_text partial_match blacklist_rules ps p × Kept (p ∷ ps) batch out)
      ⊎ (¬ Dropped to_text partial_match blacklist_rules ps p
          × ((rest : List IpPacket) × (out ≡ p ∷ rest) × Kept (p ∷ ps) batch rest))

  abbrev Handled : List IpPacket → IpPacket → Plugins × Option IpPacket → Type 0
  Handled ps p r =
      Knows to_text partial_match blacklist_rules (p ∷ ps) r.0.blacklist
      × DropsOrPasses to_text partial_match blacklist_rules ps p r.1

  -- The split tunnelling hands every packet on and leaves the blacklist alone.
  split-Handled :
      (ps : List IpPacket) (p q : IpPacket) (s : Plugins)
      → Handled ps p (s, some q)
      → Returns
          (split_plugin to_text partial_match blacklist_rules domains apple policy q s)
          λ r. Handled ps p (r.0, r.1)
  unfolding split_plugin
  split-Handled ps p q s h =
      Returns-bind _ _ (handle_packet-RoutedFor apple domains policy q.bytes) λ r _. Returns-ok _ h

  split_next :
      (ps : List IpPacket) (p : IpPacket) (o : Option IpPacket) (s : Plugins)
      → Handled ps p (s, o)
      → Returns
          (run_plugins
            (split_plugin to_text partial_match blacklist_rules domains apple policy ∷ [])
            o
            s)
          (Handled ps p)
  unfolding run_plugins
  split_next ps p none s h = Returns-ok _ h
  split_next ps p (some q) s h =
      Returns-bind _ _ (split-Handled ps p q s h)
        λ r k. Returns-if r.2 _ _ (λ _. Returns-ok _ k) λ _. after r k
    where
      after :
          (r : Plugins × Option IpPacket × Bool)
          → Handled ps p (r.0, r.1)
          → Returns (run_plugins [] r.1 r.0) (Handled ps p)
      after (s', none, t) k = Returns-ok _ k
      after (s', some q', t) k = Returns-ok _ k

  blacklist-Handled :
      (ps : List IpPacket) (p : IpPacket) (s : Plugins)
      → Knows to_text partial_match blacklist_rules ps s.blacklist
      → Returns
          (blacklist_plugin to_text partial_match blacklist_rules domains apple policy p s)
          λ r. Handled ps p (r.0, r.1)
  unfolding blacklist_plugin
  blacklist-Handled ps p s k =
      Returns-bind _ _ (handle-Knows to_text partial_match blacklist_rules ps p s.blacklist k)
        λ r h. Returns-ok _ h

  plugins-Handled :
      (ps : List IpPacket) (p : IpPacket) (s : Plugins)
      → Knows to_text partial_match blacklist_rules ps s.blacklist
      → Returns
          (run_plugins
            (client_plugins to_text partial_match blacklist_rules domains apple policy)
            (some p)
            s)
          (Handled ps p)
  unfolding run_plugins
  plugins-Handled ps p s k =
      Returns-bind _ _ (blacklist-Handled ps p s k)
        λ r h. Returns-if r.2 _ _ (λ _. Returns-ok _ h) λ _. split_next ps p r.1 r.0 h

  batch-Kept :
      (ps batch : List IpPacket) (s : Plugins)
      → Knows to_text partial_match blacklist_rules ps s.blacklist
      → Returns
          (process_batch
            (client_plugins to_text partial_match blacklist_rules domains apple policy)
            batch
            s)
          λ r.
            Knows to_text partial_match blacklist_rules (behind ps batch) r.0.blacklist
            × Kept ps batch r.1
  unfolding process_batch
  batch-Kept ps [] s k = Returns-ok _ (k, refl)
  batch-Kept ps (p ∷ batch) s k = Returns-bind _ _ (plugins-Handled ps p s k) λ r h.
      Returns-bind _ _ (batch-Kept (p ∷ ps) batch r.0 h.0)
        λ rest l. Returns-ok _ (l.0, kept r.1 rest.1 h.1 l.1)
    where
      kept :
          (o : Option IpPacket) (rest : List IpPacket)
          → DropsOrPasses to_text partial_match blacklist_rules ps p o
          → Kept (p ∷ ps) batch rest
          → Kept ps (p ∷ batch) (push_some o rest)
      kept none rest (iff, _) l = inl (iff.0 refl, l)
      kept (some q) rest (iff, inl e) l = absurd (cc)
      kept (some q) rest (iff, inr e) l =
          inr (
            λ d. absurd (let n = iff.1 d in cc),
            (rest, (let same : q ≡ p = cc in rw same refl), l),
          )

  -- A turn of ProcessWebSocketPackets behind any history of packets reads inside the packets only and
  -- empties the queue. What is left of it is the queued packets in their order but for those that the
  -- blacklist drops; the device takes all of that as one batch, or all of it is counted as dropped.
  pub process_web_socket_packets-Kept :
      (ps : List IpPacket) (takes : Bool) (s : Plugins) (m : VpnManager)
      → Knows to_text partial_match blacklist_rules ps s.blacklist
      → Returns
          (process_web_socket_packets
            (client_plugins to_text partial_match blacklist_rules domains apple policy)
            takes
            s
            m)
          λ r.
            (r.1.ws_packet_queue ≡ [])
            × Knows to_text partial_match blacklist_rules
                (behind ps m.ws_packet_queue)
                r.0.blacklist
            × ((out : List IpPacket) × Kept ps m.ws_packet_queue out
                × SentOrCounted takes out m r.1)
  unfolding process_web_socket_packets
  process_web_socket_packets-Kept ps takes s m k =
      Returns-bind _ _ (batch-Kept ps m.ws_packet_queue s k) λ r h. Returns-ok _ (
        emptied r.1,
        h.0,
        (r.1, h.1, send_batch-SentOrCounted takes r.1 (record m { ws_packet_queue = [] })),
      )
    where
      emptied :
          (out : List IpPacket)
          → (send_batch takes out (record m { ws_packet_queue = [] })).ws_packet_queue ≡ []
      emptied out = unfold send_batch in ground arith

-- The packets of a batch that are not null.
abbrev pub present : List (Option IpPacket) → List IpPacket
present [] = []
present (none ∷ packets) = present packets
present (some p ∷ packets) = p ∷ present packets

push_all-append :
    (packets : List (Option IpPacket)) (queue : List IpPacket)
    → push_all packets queue ≡ queue ++ present packets
unfolding push_all
push_all-append [] queue = sym (append-nil queue)
push_all-append (none ∷ packets) queue = push_all-append packets queue
push_all-append (some p ∷ packets) queue =
    push_all-append packets (queue ++ p ∷ []) ∙ append_assoc queue (p ∷ []) (present packets)

length-present : (packets : List (Option IpPacket)) → length (present packets) ≤ length packets
length-present [] = omega arith
length-present (none ∷ packets) = omega (arith, length-present packets)
length-present (some p ∷ packets) = omega (arith, length-present packets)

-- A running manager queues all packets of a batch that are not null behind the others, in their order,
-- or none of them if 16384 packets are waiting. If no batch has more than a number of packets then the
-- queue never gets longer than 16383 packets and that number.
handle_on_packets_from_web_socket-bounded :
    (packets : List (Option IpPacket)) (m : VpnManager) (widest : ℕ)
    → m.running ≡ true
    → length packets ≤ widest
    → length m.ws_packet_queue < max_queue_size + widest
    → let queue = (handle_on_packets_from_web_socket packets m).ws_packet_queue in
      (queue ≡ (
        if leb max_queue_size (length m.ws_packet_queue)
        then m.ws_packet_queue
        else m.ws_packet_queue ++ present packets))
      × (length queue < max_queue_size + widest)
unfolding handle_on_packets_from_web_socket
handle_on_packets_from_web_socket-bounded [] m widest r h bound =
    elim (Bool-cases (leb max_queue_size (length m.ws_packet_queue))) [
      | inl e ↦ rw e (ground arith, ground (arith, bound))
      | inr e ↦ rw e (ground (arith, append-nil m.ws_packet_queue), ground (arith, bound))
    ]
handle_on_packets_from_web_socket-bounded (p ∷ packets) m widest r h bound =
    elim (Bool-cases (leb max_queue_size (length m.ws_packet_queue))) [
      | inl e ↦ rw e (ground (arith, r), ground (arith, r, bound))
      | inr e ↦ rw e (
        ground (arith, r, push_all-append (p ∷ packets) m.ws_packet_queue),
        ground (
          arith,
          r,
          h,
          push_all-append (p ∷ packets) m.ws_packet_queue,
          length-append m.ws_packet_queue (present (p ∷ packets)),
          length-present (p ∷ packets),
        ),
      )
    ]
