-- ===== src/Vpn/Routing.antt =====
-- Whom a packet reaches, and with which address it leaves.
use ftpn.Packet.Access.{Access, ok, out_of_bounds, ◌>>=◌}
use ftpn.Packet.{IpPacket, is_ipv4, is_ipv6, dst_ipv4}
use ftpn.Packet.Rewrite.Kept.{WholeIpv4, Rewritten}
use ftpn.Filter.Manager.{Direction, Filter, PassesUnchanged}
use ftpn.TrafficShaper.{LeakyBucket}
use ftpn.Nat.Connection.{Clock}
use ftpn.Nat.Multiplexer.{Multiplexer, contains, next_receiver_client_id}
use ftpn.Nat.Multiplexer.Receiver.{next_receiver_client_id-contains}
use ftpn.Nat.Multiplexer.Rewrite.{change_ip_address_to_client_ip}
use ftpn.Nat.Multiplexer.Rewrite.Addresses.{change_ip_address_to_fake_ip-Rewritten}
use ftpn.Nat.Table.{Config, Table, write, multiplexer_by_fake_ipv4, multiplexer_by_client_id}
use ftpn.Nat.Table.Preserved.{Event}
use ftpn.Nat.Table.Isolation.{IsValidConfig, reached, lookup_by_address}
use ftpn.Vpn.Pipeline.{
  World, within_limit, session_to_client, filter_to_client, deliver, to_client_packet,
  rewrite_from_client, from_client_packet,
}
use ftpn.Prelude.{
  ℕ, ◌<◌, ◌≡◌, ◌≢◌, ◌⊎◌, inl, inr, refl, ap, sym, ◌∙◌, Bool, true, false, not, ◌&&◌, Option, none,
  some, List, length, byte, if◌then◌else◌, find_key, number_key, string_key, Option-cases,
}

-- If the step hands on a value, that satisfies `P`.
abbrev pub HandsOn {ℓ} : {S : Type ℓ} {A : Type 0} → (A → Type 0) → Access (S × Option A) → Type 0
HandsOn P (ok (w, some a)) = P a
HandsOn P (ok (w, none)) = Unit
HandsOn P out_of_bounds = Unit

HandsOn-if {ℓ} :
    {S : Type ℓ} {A : Type 0} (P : A → Type 0) (b : Bool) (x y : Access (S × Option A))
    → (b ≡ true → HandsOn P x)
    → (b ≡ false → HandsOn P y)
    → HandsOn P (if b then x else y)
HandsOn-if P true x y h k = h refl
HandsOn-if P false x y h k = k refl

-- The packet is for a connection of the session that can receive.
abbrev Receives : Table → ℕ → ℕ × IpPacket → Type 0
Receives t r x = contains (t.cell r).receiving x.0 ≡ true

-- A packet that is handed on to a client was found through its destination address.
abbrev ToSession : Table → IpPacket → ℕ × IpPacket → Type 0
ToSession t p x = (r : ℕ) × (session_to_client p t ≡ some r) × Receives t r x

HandsOn-weaken {ℓ} :
    {S : Type ℓ} {A : Type 0} (P Q : A → Type 0) (x : Access (S × Option A))
    → ((a : A) → P a → Q a)
    → HandsOn P x
    → HandsOn Q x
HandsOn-weaken P Q (ok (w, some a)) h p = h a p
HandsOn-weaken P Q (ok (w, none)) h p = tt
HandsOn-weaken P Q out_of_bounds h p = tt

module _ {ℓ} {S : Type ℓ} where
  within_limit-table :
      (now number size : ℕ) (w : World S) → (within_limit now number size w).0.table ≡ w.table
  unfolding within_limit
  within_limit-table now number size w = elim (Option-cases (w.shaper number)) [
    | inl e ↦ rw (e, within_limit) refl
    | inr (b, e) ↦ rw (e, within_limit) refl
  ]

  module _ (filter : Filter S) (now : ℕ) where
    filter_to_client-HandsOn :
        (P : ℕ × IpPacket → Type 0) (id : ℕ) (w : World S) (o : Option IpPacket)
        → ((q : IpPacket) → P (id, q))
        → HandsOn P (ok (filter_to_client filter now id w o))
    unfolding filter_to_client
    filter_to_client-HandsOn P id w none h = tt
    filter_to_client-HandsOn P id w (some q) h =
        elim (Option-cases (filter q Direction.to_client w.filters).0) [
          | inl e ↦ rw e tt
          | inr (x, e) ↦ rw e (h x)
        ]

    rewritten-HandsOn :
        (P : ℕ × IpPacket → Type 0) (id : ℕ) (w : World S) (a : Access (Option IpPacket))
        → ((q : IpPacket) → P (id, q))
        → HandsOn P (a >>= λ q. ok (filter_to_client filter now id w q))
    rewritten-HandsOn P id w (ok o) h = filter_to_client-HandsOn P id w o h
    rewritten-HandsOn P id w out_of_bounds h = tt

    -- What happens to the next receiver's packet.
    deliver_to :
        (r : ℕ) (p : IpPacket) (w : World S) (o : Option ℕ)
        → (next_receiver_client_id (w.table.cell r) p).1 ≡ o
        → let m = (next_receiver_client_id (w.table.cell r) p).0 in
          let w' = record w { table = record w.table { cell = write r m w.table.cell } } in
          deliver filter now r p w ≡ elim o [
            | none ↦ ok (w', none)
            | some id ↦ change_ip_address_to_client_ip m p id >>= λ q.
                ok (filter_to_client filter now id w' q)
          ]
    unfolding deliver
    deliver_to r p w o e = rw (e, deliver) refl

    deliver-HandsOn :
        (r : ℕ) (p : IpPacket) (w : World S)
        → HandsOn (Receives w.table r) (deliver filter now r p w)
    deliver-HandsOn r p w = elim (next_receiver_client_id-contains (w.table.cell r) p) [
      | inl (_, e) ↦ rw (deliver_to r p w none e) tt
      | inr (id, e, c) ↦
          rw (deliver_to r p w (some id) e) (rewritten-HandsOn (Receives w.table r) id _ _ λ q. c)
    ]

    to_client_packet-HandsOn :
        (p : IpPacket) (w : World S)
        → HandsOn (ToSession w.table p) (to_client_packet filter now (some p) w)
    unfolding to_client_packet
    to_client_packet-HandsOn p w =
        HandsOn-if _ (not (is_ipv4 p) && not (is_ipv6 p)) _ _ (λ _. tt)
          λ _. elim (Option-cases (session_to_client p w.table)) [
            | inl e ↦ rw e tt
            | inr (r, e) ↦
                let l = within_limit now (w.table.cell r).shaper_to_client (length p.bytes) w in
                rw e (
                  HandsOn-if _ (not l.1) _ _ (λ _. tt)
                    λ _.
                      HandsOn-weaken (Receives l.0.table r) _ (deliver filter now r p l.0)
                        (λ x c. (
                          r,
                          e,
                          ap (λ t. contains (t.cell r).receiving x.0)
                                (sym (within_limit-table now _ _ w))
                              ∙ c,
                        ))
                        (deliver-HandsOn r p l.0))
          ]

session_to_client_ipv4 :
    (p : IpPacket) (t : Table)
    → is_ipv4 p ≡ true
    → session_to_client p t ≡ multiplexer_by_fake_ipv4 (dst_ipv4 p) t
unfolding session_to_client
session_to_client_ipv4 p t v4 = rw v4 refl

-- After any history of the table, an IPv4 packet of the tunnel device that is handed on goes to a
-- connection that can receive, of the session that is registered and holds the packet's destination
-- address; whatever the shapers, the filters and the packet are.
pub to_client_packet-reached {ℓ} :
    {S : Type ℓ} (filter : Filter S) (now : ℕ) (c : Config) (valid : IsValidConfig c)
    (clock : Clock) (blank : Multiplexer) (es : List Event) (p : IpPacket)
    (shaper : ℕ → Option LeakyBucket) (s : S)
    → is_ipv4 p ≡ true
    → let t = reached c valid clock blank es in
      HandsOn
        (λ x.
          (r : ℕ) × (find_key (t.cell r).session_id t.session_to_mplx ≡ some r)
          × ((t.cell r).fake_client_ipv4 ≡ dst_ipv4 p)
          × (contains (t.cell r).receiving x.0 ≡ true))
        (to_client_packet filter now (some p) (record { table = t; shaper = shaper; filters = s }))
to_client_packet-reached filter now c valid clock blank es p shaper s v4 =
    let t = reached c valid clock blank es in
    let w : World _ = record { table = t; shaper = shaper; filters = s } in
    HandsOn-weaken (ToSession t p) _ (to_client_packet filter now (some p) w)
      (λ x (r, e, h).
        let found =
          ((lookup_by_address c valid clock blank es (dst_ipv4 p) r).0).0
            (sym (session_to_client_ipv4 p t v4) ∙ e) in
        (r, found.0, found.1, h))
      (to_client_packet-HandsOn filter now p w)

rewrite_from_client-HandsOn {ℓ} :
    {S : Type ℓ} (filter : Filter S) (now : ℕ) (m : Multiplexer) (p : IpPacket) (w : World S)
    (o : Option IpPacket)
    → (o ≡ none) ⊎ (o ≡ some p)
    → m.disable_checksum_calculation ≡ false
    → WholeIpv4 p.bytes
    → byte p.bytes 8 ≢ 0
    → m.fake_client_ipv4 < 4294967296
    → HandsOn (Rewritten 12 m.fake_client_ipv4 p) (rewrite_from_client filter now m w o)
unfolding rewrite_from_client
rewrite_from_client-HandsOn filter now m p w o same on whole ttl small = elim same [
  | inl e ↦ rw e tt
  | inr e ↦
      let r = change_ip_address_to_fake_ip-Rewritten m p on whole ttl small in
      rw (e, r.returns) r.holds
]

-- A whole IPv4 packet of a client that can still be forwarded leaves the server only with the virtual
-- address of the client's session as its source, whatever source the client wrote; the chain of
-- filters hands on the packet that it is given or none.
pub from_client_packet-Rewritten {ℓ} :
    {S : Type ℓ} (filter : Filter S) (now : ℕ) (p : IpPacket) (w : World S) (r : ℕ)
    → PassesUnchanged filter
    → multiplexer_by_client_id p.client_id w.table ≡ some r
    → (w.table.cell r).disable_checksum_calculation ≡ false
    → WholeIpv4 p.bytes
    → byte p.bytes 8 ≢ 0
    → (w.table.cell r).fake_client_ipv4 < 4294967296
    → HandsOn
        (Rewritten 12 (w.table.cell r).fake_client_ipv4 p)
        (from_client_packet filter now (some p) w)
unfolding from_client_packet
from_client_packet-Rewritten filter now p w r unchanged found on whole ttl small =
    let l = within_limit now (w.table.cell r).shaper_from_client (length p.bytes) w in
    let f = filter p Direction.from_client l.0.filters in
    let same =
      ap (λ t. t.cell r)
        (within_limit-table now (w.table.cell r).shaper_from_client (length p.bytes) w) in
    HandsOn-if _ (not (is_ipv4 p) && not (is_ipv6 p)) _ _ (λ _. tt)
      λ _. rw found (
        HandsOn-if _ (not l.1) _ _ (λ _. tt)
          λ _. rw same (
            rewrite_from_client-HandsOn filter now (w.table.cell r) p _ f.0
              (unchanged p Direction.from_client l.0.filters) on whole ttl small))
