-- ===== src/Nat/Table/Invariant.antt =====
-- What holds between the maps of the table, and that the parts of the operations keep it.
use ftpn.Nat.Connection.{ConnectParams, Clock}
use ftpn.Nat.Multiplexer.{Multiplexer, construct}
use ftpn.Nat.Table.{Table, write, open_session, release_session_if_empty, released, release_cases}
use ftpn.Prelude.{
  ℕ, ◌+◌, ◌≤◌, ◌<◌, ◌≡◌, none, some, String, List, [], ◌∷◌, count, arith, find_key, number_key,
  string_key, find_key-erase_key, find_key-emplace, str_eq_iff,
}

-- 1 for a key that is in the map.
abbrev pub held : ℕ → List (ℕ × ℕ) → ℕ
held a m = elim (find_key a m) [ none ↦ 0 | some _ ↦ 1 ]

-- Each address of the two pools is either free or held by one session, and the session map and the
-- two address maps name the same cells. Each address stands once in its pool.
pub record Inv (pool4 pool6 : List ℕ) (t : Table) : Type 0 where
  pub once4 : (a : ℕ) → count a pool4 ≤ 1
  pub once6 : (a : ℕ) → count a pool6 ≤ 1
  pub conserved4 : (a : ℕ) → count a t.free_ipv4 + held a t.ipv4_to_mplx ≡ count a pool4
  pub conserved6 : (a : ℕ) → count a t.free_ipv6 + held a t.ipv6_to_mplx ≡ count a pool6
  pub session :
      (s : String) (r : ℕ)
      → find_key s t.session_to_mplx ≡ some r
      → (r < t.next_cell)
        × ((t.cell r).session_id ≡ s)
        × (find_key (t.cell r).fake_client_ipv4 t.ipv4_to_mplx ≡ some r)
        × (find_key (t.cell r).fake_client_ipv6 t.ipv6_to_mplx ≡ some r)
  pub owner4 :
      (a r : ℕ)
      → find_key a t.ipv4_to_mplx ≡ some r
      → ((t.cell r).fake_client_ipv4 ≡ a)
        × (find_key (t.cell r).session_id t.session_to_mplx ≡ some r)
  pub owner6 :
      (a r : ℕ)
      → find_key a t.ipv6_to_mplx ≡ some r
      → ((t.cell r).fake_client_ipv6 ≡ a)
        × (find_key (t.cell r).session_id t.session_to_mplx ≡ some r)

-- Two states of a cell that agree on what never changes in a multiplexer.
pub record SameIdentity (m n : Multiplexer) : Type 0 where
  pub username : n.username ≡ m.username
  pub session_id : n.session_id ≡ m.session_id
  pub ipv4 : n.fake_client_ipv4 ≡ m.fake_client_ipv4
  pub ipv6 : n.fake_client_ipv6 ≡ m.fake_client_ipv6

not_held :
    (a : ℕ) (rest pool : List ℕ) (m : List (ℕ × ℕ))
    → count a pool ≤ 1
    → count a (a ∷ rest) + held a m ≡ count a pool
    → find_key a m ≡ none
not_held a rest pool m once h = ground arith

module _ {pool4 pool6 : List ℕ} where
  -- A write that keeps a cell's identity, with any change of the client map, keeps the invariant.
  pub write-Inv :
      {t : Table} (r : ℕ) (m : Multiplexer) (clients : List (ℕ × ℕ))
      → SameIdentity (t.cell r) m
      → Inv pool4 pool6 t
      → Inv pool4 pool6 (record t { cell = write r m t.cell; client_to_mplx = clients })
  write-Inv {t} r m clients same v = record {
    once4 = v.once4;
    once6 = v.once6;
    conserved4 = v.conserved4;
    conserved6 = v.conserved6;
    session = λ s q h. ground (arith, v.session s q h);
    owner4 = λ a q h. ground (arith, v.owner4 a q h);
    owner6 = λ a q h. ground (arith, v.owner6 a q h);
  }

  pub open_session-Inv :
      (now : Clock) (k : ℕ) (params : ConnectParams) (to_client from_client : ℕ)
      (free4 free6 : List ℕ) (t : Table)
      → find_key params.request.session_id t.session_to_mplx ≡ none
      → t.free_ipv4 ≡ free4
      → t.free_ipv6 ≡ free6
      → Inv pool4 pool6 t
      → Inv pool4 pool6 (open_session now k params to_client from_client free4 free6 t).0
  unfolding open_session construct
  open_session-Inv now k params tc fc (ip4 ∷ rest4) (ip6 ∷ rest6) t fresh e4 e6 v =
      let new4 =
        not_held ip4 rest4 pool4 t.ipv4_to_mplx (v.once4 ip4) (rw e4 at (v.conserved4 ip4)) in
      let new6 =
        not_held ip6 rest6 pool6 t.ipv6_to_mplx (v.once6 ip6) (rw e6 at (v.conserved6 ip6)) in
      let sid = params.request.session_id in
      let q = t.next_cell in
      record {
        once4 = v.once4;
        once6 = v.once6;
        conserved4 = λ a.
            ground (arith, find_key-emplace ip4 a t.next_cell t.ipv4_to_mplx new4, v.conserved4 a);
        conserved6 = λ a.
            ground (arith, find_key-emplace ip6 a t.next_cell t.ipv6_to_mplx new6, v.conserved6 a);
        session = λ s r h. ground (
          arith,
          v.session s r,
          str_eq_iff sid s,
          find_key-emplace sid s q t.session_to_mplx fresh,
          find_key-emplace ip4 (t.cell r).fake_client_ipv4 q t.ipv4_to_mplx new4,
          find_key-emplace ip6 (t.cell r).fake_client_ipv6 q t.ipv6_to_mplx new6,
          find_key-emplace ip4 ip4 q t.ipv4_to_mplx new4,
          find_key-emplace ip6 ip6 q t.ipv6_to_mplx new6,
        );
        owner4 = λ a r h. ground (
          arith,
          v.owner4 a r,
          v.session (t.cell r).session_id r,
          str_eq_iff sid (t.cell r).session_id,
          str_eq_iff sid sid,
          find_key-emplace ip4 a q t.ipv4_to_mplx new4,
          find_key-emplace sid sid q t.session_to_mplx fresh,
          find_key-emplace sid (t.cell r).session_id q t.session_to_mplx fresh,
        );
        owner6 = λ a r h. ground (
          arith,
          v.owner6 a r,
          v.session (t.cell r).session_id r,
          str_eq_iff sid (t.cell r).session_id,
          str_eq_iff sid sid,
          find_key-emplace ip6 a q t.ipv6_to_mplx new6,
          find_key-emplace sid sid q t.session_to_mplx fresh,
          find_key-emplace sid (t.cell r).session_id q t.session_to_mplx fresh,
        );
      }
  open_session-Inv now k params tc fc [] free6 t fresh e4 e6 v = v
  open_session-Inv now k params tc fc (_ ∷ _) [] t fresh e4 e6 v = v

  released-Inv :
      (r : ℕ) (t : Table)
      → find_key (t.cell r).session_id t.session_to_mplx ≡ some r
      → Inv pool4 pool6 t
      → Inv pool4 pool6 (released r t)
  released-Inv r t reg v =
      let m = t.cell r in
      let held_here = v.session m.session_id r reg in
      record {
        once4 = v.once4;
        once6 = v.once6;
        conserved4 = λ a. ground (
          arith,
          held_here,
          v.conserved4 a,
          find_key-erase_key m.fake_client_ipv4 a t.ipv4_to_mplx,
        );
        conserved6 = λ a. ground (
          arith,
          held_here,
          v.conserved6 a,
          find_key-erase_key m.fake_client_ipv6 a t.ipv6_to_mplx,
        );
        session = λ s q h. ground (
          arith,
          v.session s q,
          v.owner4 (t.cell q).fake_client_ipv4 r,
          v.owner6 (t.cell q).fake_client_ipv6 r,
          held_here,
          str_eq_iff m.session_id s,
          find_key-erase_key m.session_id s t.session_to_mplx,
          find_key-erase_key m.fake_client_ipv4 (t.cell q).fake_client_ipv4 t.ipv4_to_mplx,
          find_key-erase_key m.fake_client_ipv6 (t.cell q).fake_client_ipv6 t.ipv6_to_mplx,
        );
        owner4 = λ a q h. ground (
          arith,
          v.owner4 a q,
          held_here,
          str_eq_iff m.session_id (t.cell q).session_id,
          find_key-erase_key m.session_id (t.cell q).session_id t.session_to_mplx,
          find_key-erase_key m.fake_client_ipv4 a t.ipv4_to_mplx,
        );
        owner6 = λ a q h. ground (
          arith,
          v.owner6 a q,
          held_here,
          str_eq_iff m.session_id (t.cell q).session_id,
          find_key-erase_key m.session_id (t.cell q).session_id t.session_to_mplx,
          find_key-erase_key m.fake_client_ipv6 a t.ipv6_to_mplx,
        );
      }

  pub release-Inv :
      (r : ℕ) (t : Table) → Inv pool4 pool6 t → Inv pool4 pool6 (release_session_if_empty r t)
  release-Inv r t v = release_cases (Inv pool4 pool6) r t v (λ _ reg. released-Inv r t reg v)
