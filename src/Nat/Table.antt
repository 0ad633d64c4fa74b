-- ===== src/Nat/Table.antt =====
-- fptn/src/fptn-server/nat/table: the sessions, the virtual addresses that they hold, and the free
-- ones. A `shared_ptr` to a multiplexer is the number of a cell, so that the four maps share it.
-- Allocation does not fail; an IPv6 address and its 16 bytes are one number.
pub mod Sweep
pub mod Invariant
pub mod Preserved
pub mod Isolation
pub mod Registration
pub mod Runs
use ftpn.Address.{Generator, ipv4_generator, ipv6_generator, fill_free}
use ftpn.Nat.Connection.{ConnectParams, Clock}
use ftpn.Nat.Multiplexer
use ftpn.Nat.Multiplexer.{Multiplexer, construct, add_client_connection, is_empty}
use ftpn.Prelude.{
  ◌≡◌, ap, ◌∙◌, inl, inr, Bool-cases, Option-cases, ==_iff, ℕ, suc, ◌+◌, ◌*◌, ◌^◌, Bool, true,
  false, not, ◌&&◌, Option, none, some, String, str_eq, List, [], ◌∷◌, ◌++◌, length, ltb, ◌==◌,
  if◌then◌else◌, find_key, erase_key, emplace, number_key, string_key,
}

pub record Config : Type 0 where
  pub tun_ipv4 : ℕ
  pub tun_ipv4_network : ℕ
  pub tun_network_ipv4_mask : ℕ
  pub tun_ipv6 : ℕ
  pub tun_ipv6_network : ℕ
  pub tun_network_ipv6_mask : ℕ

-- The head of a free list is the back of the vector. `cell` is the heap; a cell from `next_cell` on
-- holds no object yet.
pub record Table : Type 0 where
  pub config : Config
  pub free_ipv4 : List ℕ
  pub free_ipv6 : List ℕ
  pub session_to_mplx : List (String × ℕ)
  pub ipv4_to_mplx : List (ℕ × ℕ)
  pub ipv6_to_mplx : List (ℕ × ℕ)
  pub client_to_mplx : List (ℕ × ℕ)
  pub cell : ℕ → Multiplexer
  pub next_cell : ℕ

-- The capacity that the constructor computes from the two generators.
unfoldable pub capacity : Config → ℕ
unfolding ipv4_generator ipv6_generator
capacity c =
    let ipv4_available =
      (ipv4_generator c.tun_ipv4_network c.tun_network_ipv4_mask).num_available in
    let ipv6_available =
      (ipv6_generator c.tun_ipv6_network c.tun_network_ipv6_mask).num_available in
    if ltb ipv4_available ipv6_available then ipv4_available else ipv6_available

unfoldable pub initial_ipv4 : Config → List ℕ
unfolding capacity fill_free
initial_ipv4 c =
    fill_free (2 ^ 32) c.tun_ipv4 (capacity c)
      (ipv4_generator c.tun_ipv4_network c.tun_network_ipv4_mask) []

unfoldable pub initial_ipv6 : Config → List ℕ
unfolding capacity fill_free
initial_ipv6 c =
    fill_free (2 ^ 128) c.tun_ipv6 (capacity c)
      (ipv6_generator c.tun_ipv6_network c.tun_network_ipv6_mask) []

-- The constructor; `blank` fills the cells that hold no object.
unfoldable pub new_table : Multiplexer → Config → Table
new_table blank c = record {
  config = c;
  free_ipv4 = initial_ipv4 c;
  free_ipv6 = initial_ipv6 c;
  session_to_mplx = [];
  ipv4_to_mplx = [];
  ipv6_to_mplx = [];
  client_to_mplx = [];
  cell = λ _. blank;
  next_cell = 0;
}

-- `*mplx = m`, seen through every pointer to it
abbrev pub write : ℕ → Multiplexer → (ℕ → Multiplexer) → ℕ → Multiplexer
write r m cell q = if r == q then m else cell q

module _ (now : Clock) (k : ℕ) (params : ConnectParams) where
  -- The branch of AddConnection that joins the session of cell `r`.
  unfoldable pub join_session : ℕ → Table → Table × Option ℕ
  join_session r t =
      let (m, added) = add_client_connection now k params (t.cell r) in
      if not (str_eq (t.cell r).username params.user.username)
      then (t, none)
      else if not added
      then (t, none)
      else (
        record t {
          cell = write r m t.cell;
          client_to_mplx = emplace params.client_id r t.client_to_mplx;
        },
        some r,
      )

  module _ (to_client from_client : ℕ) where
    -- The branch that opens a session with the last free address of each kind.
    unfoldable pub open_session : List ℕ → List ℕ → Table → Table × Option ℕ
    open_session (ipv4 ∷ rest4) (ipv6 ∷ rest6) t =
        let r = t.next_cell in
        (
          record t {
            free_ipv4 = rest4;
            free_ipv6 = rest6;
            session_to_mplx = emplace params.request.session_id r t.session_to_mplx;
            ipv4_to_mplx = emplace ipv4 r t.ipv4_to_mplx;
            ipv6_to_mplx = emplace ipv6 r t.ipv6_to_mplx;
            client_to_mplx = emplace params.client_id r t.client_to_mplx;
            cell = write r (construct now k params ipv4 ipv6 to_client from_client) t.cell;
            next_cell = suc r;
          },
          some r,
        )
    open_session _ _ t = (t, none)

    unfoldable pub add_connection : Table → Table × Option ℕ
    unfolding join_session open_session
    add_connection t = elim (find_key params.request.session_id t.session_to_mplx) [
      | some r ↦ join_session r t
      | none ↦ open_session t.free_ipv4 t.free_ipv6 t
    ]

-- ReleaseSessionIfEmpty behind its tests.
abbrev pub released : ℕ → Table → Table
released r t =
    let m = t.cell r in
    record t {
      free_ipv4 = m.fake_client_ipv4 ∷ t.free_ipv4;
      free_ipv6 = m.fake_client_ipv6 ∷ t.free_ipv6;
      ipv4_to_mplx = erase_key m.fake_client_ipv4 t.ipv4_to_mplx;
      ipv6_to_mplx = erase_key m.fake_client_ipv6 t.ipv6_to_mplx;
      session_to_mplx = erase_key m.session_id t.session_to_mplx;
    }

unfoldable pub release_session_if_empty : ℕ → Table → Table
release_session_if_empty r t =
    if not (is_empty (t.cell r))
    then t
    else elim (find_key (t.cell r).session_id t.session_to_mplx) [
      | none ↦ t
      | some q ↦ if not (q == r) then t else released r t
    ]

-- It does nothing, or releases an empty multiplexer that its session is registered with.
pub release_cases {ℓ} :
    (P : Table → Type ℓ) (r : ℕ) (t : Table)
    → P t
    → (is_empty (t.cell r) ≡ true
        → find_key (t.cell r).session_id t.session_to_mplx ≡ some r
        → P (released r t))
    → P (release_session_if_empty r t)
unfolding release_session_if_empty
release_cases P r t kept done = elim (Bool-cases (is_empty (t.cell r))) [
  | inr e ↦ rw e kept
  | inl e ↦ rw e (elim (Option-cases (find_key (t.cell r).session_id t.session_to_mplx)) [
    | inl f ↦ rw f kept
    | inr (q, f) ↦ rw f (elim (Bool-cases (q == r)) [
      | inr g ↦ rw g kept
      | inl g ↦ rw g (done e (f ∙ ap some ((==_iff q r).0 g)))
    ])
  ])
]

-- The part of DelConnectionByClientId behind the lookup.
abbrev drop_client : ℕ → ℕ → Table → Table
drop_client client_id r t = record t {
  client_to_mplx = erase_key client_id t.client_to_mplx;
  cell = write r (Multiplexer.del_connection_by_client_id (t.cell r) client_id).0 t.cell;
}

unfoldable pub del_connection_by_client_id : ℕ → Table → Table × Bool
unfolding release_session_if_empty
del_connection_by_client_id client_id t = elim (find_key client_id t.client_to_mplx) [
  | none ↦ (t, false)
  | some r ↦ (release_session_if_empty r (drop_client client_id r t), true)
]

abbrev pub multiplexer_by_fake_ipv4 : ℕ → Table → Option ℕ
multiplexer_by_fake_ipv4 ip t = find_key ip t.ipv4_to_mplx

abbrev pub multiplexer_by_fake_ipv6 : ℕ → Table → Option ℕ
multiplexer_by_fake_ipv6 ip t = find_key ip t.ipv6_to_mplx

abbrev pub multiplexer_by_client_id : ℕ → Table → Option ℕ
multiplexer_by_client_id id t = find_key id t.client_to_mplx
