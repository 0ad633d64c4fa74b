-- ===== src/Nat/Table/Sweep.antt =====
-- UpdateConnectionsStatus, UpdateStatistic and GetNumberActiveSessionByUsername of
-- fptn/src/fptn-server/nat/table.cpp: the operations that go over every session. The first runs in
-- two parts, and gives the lock up between them.
use ftpn.Nat.Connection.{Clock}
use ftpn.Nat.Multiplexer.{Multiplexer, is_empty, is_nil, update_connections_status}
use ftpn.Nat.Table.{Table, write, release_session_if_empty}
use ftpn.Prelude.{
  ℕ, ◌+◌, ◌*◌, ◌&&◌, String, str_eq, List, [], ◌∷◌, ◌++◌, length, if◌then◌else◌, erase_key,
  number_key,
}

pub record Swept : Type 0 where
  pub table : Table
  pub expired : List ℕ
  pub emptied : List ℕ

-- The part under the shared lock. A multiplexer with n places in its buckets has 3 n readings of the
-- clock to itself.
unfoldable pub sweep : Clock → ℕ → List (String × ℕ) → Swept → Swept
sweep now k [] s = s
sweep now k ((_, r) ∷ rest) s =
    let m = s.table.cell r in
    let (m', ids) = update_connections_status now k m in
    sweep now (k + 3 * (length m.sending + length m.receiving)) rest (record {
      table = record (s.table) { cell = write r m' s.table.cell };
      expired = s.expired ++ ids;
      emptied = if is_empty m' then s.emptied ++ r ∷ [] else s.emptied;
    })

unfoldable pub forget_clients : List ℕ → Table → Table
forget_clients [] t = t
forget_clients (id ∷ ids) t =
    forget_clients ids (record t { client_to_mplx = erase_key id t.client_to_mplx })

unfoldable pub release_all : List ℕ → Table → Table
unfolding release_session_if_empty
release_all [] t = t
release_all (r ∷ rs) t = release_all rs (release_session_if_empty r t)

-- The part under the exclusive lock.
unfoldable pub retire : List ℕ → List ℕ → Table → Table
unfolding forget_clients release_all
retire expired emptied t = release_all emptied (forget_clients expired t)

unfoldable pub update_connections : Clock → ℕ → Table → Table × List ℕ
unfolding sweep retire
update_connections now k t =
    let s = sweep now k t.session_to_mplx (record { table = t; expired = []; emptied = [] }) in
    if is_nil s.expired && is_nil s.emptied
    then (s.table, s.expired)
    else (retire s.expired s.emptied s.table, s.expired)

-- GetNumberActiveSessionByUsername
unfoldable pub active_sessions_of : String → (ℕ → Multiplexer) → List (String × ℕ) → ℕ
active_sessions_of username cell [] = 0
active_sessions_of username cell ((_, r) ∷ rest) =
    (if str_eq (cell r).username username then 1 else 0) + active_sessions_of username cell rest

-- UpdateStatistic: the number of sessions, and the two shapers that are read for each user.
unfoldable pub statistic : Table → ℕ × List (String × ℕ × ℕ)
statistic t = (length t.session_to_mplx, rows t.session_to_mplx)
  where
    rows : List (String × ℕ) → List (String × ℕ × ℕ)
    rows [] = []
    rows ((_, r) ∷ rest) =
        let m = t.cell r in (m.username, m.shaper_to_client, m.shaper_from_client) ∷ rows rest
