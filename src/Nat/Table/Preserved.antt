-- ===== src/Nat/Table/Preserved.antt =====
-- Every operation of the table keeps its invariant, and so does any history of them.
use ftpn.Nat.Connection.{ConnectParams, Clock}
use ftpn.Nat.Multiplexer
use ftpn.Nat.Multiplexer.{Multiplexer, add_client_connection, update_connections_status}
use ftpn.Nat.Table.{Table, join_session, add_connection, del_connection_by_client_id}
use ftpn.Nat.Table.Sweep.{Swept, sweep, forget_clients, release_all, retire}
use ftpn.Nat.Table.Invariant.{Inv, SameIdentity, write-Inv, open_session-Inv, release-Inv}
use ftpn.Prelude.{
  inl, inr, Option-cases, ℕ, ◌+◌, ◌*◌, refl, String, List, [], ◌∷◌, arith, length, find_key,
  erase_key, emplace, number_key, string_key,
}

add_client-SameIdentity :
    (now : Clock) (k : ℕ) (params : ConnectParams) (m : Multiplexer)
    → SameIdentity m (add_client_connection now k params m).0
unfolding add_client_connection
add_client-SameIdentity now k params m = ground arith

del_connection-SameIdentity :
    (m : Multiplexer) (id : ℕ) → SameIdentity m (Multiplexer.del_connection_by_client_id m id).0
unfolding Multiplexer.del_connection_by_client_id
del_connection-SameIdentity m id = ground arith

update-SameIdentity :
    (now : Clock) (k : ℕ) (m : Multiplexer) → SameIdentity m (update_connections_status now k m).0
unfolding update_connections_status
update-SameIdentity now k m = ground arith

module _ {pool4 pool6 : List ℕ} where
  -- AddConnection keeps the invariant on every branch: a new session, one more connection of an
  -- existing session, another user's session, a client id that is there, and an empty pool.
  pub add_connection-Inv :
      (now : Clock) (k : ℕ) (params : ConnectParams) (to_client from_client : ℕ) (t : Table)
      → Inv pool4 pool6 t
      → Inv pool4 pool6 (add_connection now k params to_client from_client t).0
  unfolding add_connection join_session
  add_connection-Inv now k params tc fc t v =
      elim (Option-cases (find_key params.request.session_id t.session_to_mplx)) [
        | inl e ↦
            rw (e, add_connection)
              (open_session-Inv now k params tc fc t.free_ipv4 t.free_ipv6 t e refl refl v)
        | inr (r, e) ↦
            rw (e, add_connection)
              (ground (
                arith,
                v,
                write-Inv r (add_client_connection now k params (t.cell r)).0
                    (emplace params.client_id r t.client_to_mplx)
                    (add_client-SameIdentity now k params (t.cell r)) v,
              ))
      ]

  -- So does DelConnectionByClientId.
  pub del_connection-Inv :
      (id : ℕ) (t : Table)
      → Inv pool4 pool6 t
      → Inv pool4 pool6 (del_connection_by_client_id id t).0
  unfolding del_connection_by_client_id
  del_connection-Inv id t v = elim (Option-cases (find_key id t.client_to_mplx)) [
    | inl e ↦ rw (e, del_connection_by_client_id) v
    | inr (r, e) ↦
        rw (e, del_connection_by_client_id)
          (release-Inv r _ (
            write-Inv r (Multiplexer.del_connection_by_client_id (t.cell r) id).0
              (erase_key id t.client_to_mplx) (del_connection-SameIdentity (t.cell r) id) v))
  ]

  sweep-Inv :
      (now : Clock) (k : ℕ) (entries : List (String × ℕ)) (s : Swept)
      → Inv pool4 pool6 s.table
      → Inv pool4 pool6 (sweep now k entries s).table
  unfolding sweep
  sweep-Inv now k [] s v = v
  sweep-Inv now k ((_, r) ∷ rest) s v =
      sweep-Inv now (k + 3 * (length (s.table.cell r).sending + length (s.table.cell r).receiving))
        rest _ (write-Inv r _ s.table.client_to_mplx (update-SameIdentity now k (s.table.cell r)) v)

  forget-Inv :
      (ids : List ℕ) (t : Table) → Inv pool4 pool6 t → Inv pool4 pool6 (forget_clients ids t)
  unfolding forget_clients
  forget-Inv [] t v = v
  forget-Inv (id ∷ ids) t v = forget-Inv ids _ (record {
    once4 = v.once4;
    once6 = v.once6;
    conserved4 = v.conserved4;
    conserved6 = v.conserved6;
    session = v.session;
    owner4 = v.owner4;
    owner6 = v.owner6;
  })

  release_all-Inv :
      (rs : List ℕ) (t : Table) → Inv pool4 pool6 t → Inv pool4 pool6 (release_all rs t)
  unfolding release_all
  release_all-Inv [] t v = v
  release_all-Inv (r ∷ rs) t v = release_all-Inv rs _ (release-Inv r t v)

  -- The exclusive part keeps the invariant for any lists, so also for those of a sweep after which
  -- other threads have changed the table.
  pub retire-Inv :
      (expired emptied : List ℕ) (t : Table)
      → Inv pool4 pool6 t
      → Inv pool4 pool6 (retire expired emptied t)
  unfolding retire
  retire-Inv expired emptied t v = release_all-Inv emptied _ (forget-Inv expired t v)

-- One call of a thread while it holds the lock.
pub data Event : Type 0 where
  adds : ℕ → ConnectParams → ℕ → ℕ → Event
  dels : ℕ → Event
  sweeps : ℕ → Event
  retires : List ℕ → List ℕ → Event

unfoldable pub step : Clock → Event → Table → Table
step now (adds k params to_client from_client) t =
    (add_connection now k params to_client from_client t).0
step now (dels id) t = (del_connection_by_client_id id t).0
step now (sweeps k) t =
    (sweep now k t.session_to_mplx (record { table = t; expired = []; emptied = [] })).table
step now (retires expired emptied) t = retire expired emptied t

unfoldable pub run : Clock → List Event → Table → Table
unfolding step
run now [] t = t
run now (e ∷ es) t = run now es (step now e t)

module _ {pool4 pool6 : List ℕ} where
  step-Inv :
      (now : Clock) (e : Event) (t : Table) → Inv pool4 pool6 t → Inv pool4 pool6 (step now e t)
  unfolding step
  step-Inv now (adds k params tc fc) t v = add_connection-Inv now k params tc fc t v
  step-Inv now (dels id) t v = del_connection-Inv id t v
  step-Inv now (sweeps k) t v = sweep-Inv now k _ _ v
  step-Inv now (retires expired emptied) t v = retire-Inv expired emptied t v

  pub run-Inv :
      (now : Clock) (es : List Event) (t : Table)
      → Inv pool4 pool6 t
      → Inv pool4 pool6 (run now es t)
  unfolding run
  run-Inv now [] t v = v
  run-Inv now (e ∷ es) t v = run-Inv now es _ (step-Inv now e t v)
