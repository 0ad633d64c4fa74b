-- ===== src/Nat/Multiplexer/Receiver.antt =====
-- The connection that a packet to the client is sent through.
use native.Mathlib.Nat.{mod-lt}
use ftpn.Packet.{IpPacket, is_tcp, is_udp, dst_port}
use ftpn.Nat.Connection.{ClientConnection}
use ftpn.Nat.Multiplexer.{Multiplexer, contains, next_receiver_client_id}
use ftpn.Prelude.{
  ℕ, zero, suc, ◌%◌, ◌<◌, ◌≡◌, refl, ◌∙◌, ap, ◌⊎◌, inl, inr, sym, true, ◌||◌, Option, none, some,
  List, [], ◌∷◌, arith, length, get_elem?, ==_iff, if◌then◌else◌,
}

get_elem?-contains :
    (cs : List ClientConnection) (i : ℕ)
    → i < length cs
    → (c : ClientConnection) × (get_elem? cs i ≡ some c) × (contains cs c.params.client_id ≡ true)
unfolding contains
get_elem?-contains [] i lt = absurd (omega arith)
get_elem?-contains (c ∷ cs) zero lt =
    (c, refl, ground (arith, (==_iff c.params.client_id c.params.client_id).1 refl))
get_elem?-contains (c ∷ cs) (suc i) lt =
    let (d, e, h) = get_elem?-contains cs i (omega arith) in (d, e, ground (arith, h))

List-cases {ℓ} : {A : Type ℓ} (xs : List A) → (xs ≡ []) ⊎ ((x : A) × (r : List A) × (xs ≡ x ∷ r))
List-cases [] = inl refl
List-cases (x ∷ r) = inr (x, r, refl)

module _ (m : Multiplexer) (p : IpPacket) where
  abbrev start : ℕ
  start = if is_tcp p || is_udp p then dst_port p else m.round_robin_cursor

  next_none : m.receiving ≡ [] → (next_receiver_client_id m p).1 ≡ none
  unfolding next_receiver_client_id
  next_none e = rw (e, next_receiver_client_id)

  next_some :
      (c : ClientConnection) (cs : List ClientConnection) (d : ClientConnection)
      → m.receiving ≡ c ∷ cs
      → get_elem? (c ∷ cs) (start % length (c ∷ cs)) ≡ some d
      → (next_receiver_client_id m p).1 ≡ some d.params.client_id
  unfolding next_receiver_client_id
  next_some c cs d e h = ground (arith, e, h)

  -- A packet to the client has a receiver exactly if some connection can receive, and then the
  -- receiver is one of those connections.
  pub next_receiver_client_id-contains :
      ((m.receiving ≡ []) × ((next_receiver_client_id m p).1 ≡ none))
      ⊎ ((id : ℕ) × ((next_receiver_client_id m p).1 ≡ some id) × (contains m.receiving id ≡ true))
  next_receiver_client_id-contains = elim (List-cases m.receiving) [
    | inl e ↦ inl (e, next_none e)
    | inr (c, cs, e) ↦
        let (d, found, h) =
          get_elem?-contains (c ∷ cs) (start % length (c ∷ cs)) (mod-lt start (omega arith)) in
        inr (
          d.params.client_id,
          next_some c cs d e found,
          ap (λ r. contains r d.params.client_id) e ∙ h,
        )
  ]

-- The client id of the connection with this number, counted round.
receiver_at : List ClientConnection → ℕ → Option ℕ
receiver_at [] i = none
receiver_at (c ∷ cs) i = elim (get_elem? (c ∷ cs) (i % length (c ∷ cs))) [
  | none ↦ none
  | some r ↦ some r.params.client_id
]

receiver_at-next :
    (m : Multiplexer) (p : IpPacket)
    → (is_tcp p || is_udp p) ≡ true
    → (next_receiver_client_id m p).1 ≡ receiver_at m.receiving (dst_port p)
unfolding next_receiver_client_id receiver_at
receiver_at-next m p h = elim (List-cases m.receiving) [
  | inl e ↦ rw (e, next_receiver_client_id, receiver_at) refl
  | inr (c, cs, e) ↦ rw (e, h, next_receiver_client_id, receiver_at) refl
]

-- Packets of one flow keep their connection: while the receiving connections stay as they are, two TCP
-- or UDP packets to the same port have the same receiver, whatever was sent in between.
pub flow_keeps_receiver :
    (m m' : Multiplexer) (p q : IpPacket)
    → (is_tcp p || is_udp p) ≡ true
    → (is_tcp q || is_udp q) ≡ true
    → dst_port p ≡ dst_port q
    → m.receiving ≡ m'.receiving
    → (next_receiver_client_id m p).1 ≡ (next_receiver_client_id m' q).1
flow_keeps_receiver m m' p q hp hq port same =
    receiver_at-next m p hp
    ∙ ap (λ i. receiver_at m.receiving i) port
    ∙ ap (λ r. receiver_at r (dst_port q)) same
    ∙ sym (receiver_at-next m' q hq)
