-- ===== src/Tunnel/Manage/Counts.antt =====
-- How often a client stands in a pool, before and after each step on the pool.
use ftpn.Tunnel.Pool.{Channel, Answers, client_of}
use ftpn.Tunnel.Manage.{
  stop_client, stop_all, is_dead, split_dead, id_of, exchange, spawn, spawn_retired,
}
use ftpn.Prelude.{
  ℕ, ◌+◌, ◌≡◌, inl, inr, refl, not, ◌&&◌, Option, none, some, List, [], ◌∷◌, ◌++◌, arith, count,
  ◌==◌, Bool-cases, Option-cases,
}

-- The clients of a pool.
unfoldable pub clients : List (Option Channel) → List ℕ
clients [] = []
clients (c ∷ cs) = stop_client (client_of c) (clients cs)

pub count-stop_client :
    (k : ℕ) (o : Option ℕ) (xs : List ℕ)
    → count k (stop_client o xs) ≡ count k (stop_client o []) + count k xs
count-stop_client k none xs = omega arith
count-stop_client k (some c) xs = omega arith

pub count-stop_all :
    (k : ℕ) (cs : List (Option Channel)) (stopped : List ℕ)
    → count k (stop_all cs stopped) ≡ count k (clients cs) + count k stopped
unfolding stop_all clients
count-stop_all k [] stopped = omega arith
count-stop_all k (c ∷ cs) stopped = omega (
  arith,
  count-stop_all k cs (stop_client (client_of c) stopped),
  count-stop_client k (client_of c) stopped,
  count-stop_client k (client_of c) (clients cs),
)

pub count-split_dead :
    (k : ℕ) (a : Answers) (now : ℕ) (cs : List (Option Channel))
    → count k (clients cs)
      ≡ count k (clients (split_dead a now cs).0) + count k (clients (split_dead a now cs).1)
unfolding split_dead clients
count-split_dead k a now [] = refl
count-split_dead k a now (c ∷ cs) = elim (Bool-cases (is_dead a now c)) [
  | inl e ↦ rw e (
      omega (
        arith,
        count-split_dead k a now cs,
        count-stop_client k (client_of c) (clients cs),
        count-stop_client k (client_of c) (clients (split_dead a now cs).1),
      ))
  | inr e ↦ rw e (
      omega (
        arith,
        count-split_dead k a now cs,
        count-stop_client k (client_of c) (clients cs),
        count-stop_client k (client_of c) (clients (split_dead a now cs).0),
      ))
]

pub count-clients-append :
    (k : ℕ) (xs ys : List (Option Channel))
    → count k (clients (xs ++ ys)) ≡ count k (clients xs) + count k (clients ys)
unfolding clients
count-clients-append k [] ys = omega arith
count-clients-append k (c ∷ xs) ys = omega (
  arith,
  count-clients-append k xs ys,
  count-stop_client k (client_of c) (clients xs),
  count-stop_client k (client_of c) (clients (xs ++ ys)),
)

pub count-clients-push :
    (k : ℕ) (cs : List (Option Channel)) (new : Channel)
    → count k (clients (cs ++ some new ∷ []))
      ≡ count k (clients cs) + count k (stop_client new.client [])
count-clients-push k cs new = unfold clients in count-clients-append k cs (some new ∷ [])

-- The new channel's client comes in and the old one's goes out.
abbrev pub Exchanged :
    ℕ → Channel → List (Option Channel) → Option (Option Channel × List (Option Channel)) → Type 0
Exchanged k new cs none = Unit
Exchanged k new cs (some (old, pool)) =
    count k (clients cs) + count k (stop_client new.client [])
    ≡ count k (clients pool) + count k (stop_client (client_of old) [])

pub exchange-Exchanged :
    (k id : ℕ) (new : Channel) (cs : List (Option Channel))
    → Exchanged k new cs (exchange id new cs)
unfolding exchange clients
exchange-Exchanged k id new [] = tt
exchange-Exchanged k id new (c ∷ cs) = elim (Bool-cases (not (id == 0) && id_of c == id)) [
  | inl e ↦ rw e (
      omega (
        arith,
        count-stop_client k (client_of c) (clients cs),
        count-stop_client k new.client (clients cs),
      ))
  | inr e ↦ rw e (elim (Option-cases (exchange id new cs)) [
    | inl n ↦ rw n tt
    | inr ((old, pool), h) ↦ rw h (
        let rest : Exchanged k new cs (some (old, pool)) =
          rw h at (exchange-Exchanged k id new cs) in
        omega (
          arith,
          rest,
          count-stop_client k (client_of c) (clients cs),
          count-stop_client k (client_of c) (clients pool),
        ))
  ])
]

-- How often a client stands in the channels that spawned coroutines will stop.
unfoldable pub count_retiring : ℕ → List (List (Option Channel)) → ℕ
unfolding clients
count_retiring k [] = 0
count_retiring k (cs ∷ rest) = count k (clients cs) + count_retiring k rest

pub count_retiring-append :
    (k : ℕ) (xs : List (List (Option Channel))) (cs : List (Option Channel))
    → count_retiring k (xs ++ cs ∷ []) ≡ count_retiring k xs + count k (clients cs)
unfolding count_retiring
count_retiring-append k [] cs = omega arith
count_retiring-append k (x ∷ xs) cs = omega (arith, count_retiring-append k xs cs)

pub count_retiring-spawn :
    (k : ℕ) (cs : List (Option Channel)) (xs : List (List (Option Channel)))
    → count_retiring k (spawn cs xs) ≡ count_retiring k xs + count k (clients cs)
unfolding spawn clients
count_retiring-spawn k [] xs = omega arith
count_retiring-spawn k (c ∷ cs) xs = count_retiring-append k xs (c ∷ cs)

pub count_retiring-spawn_retired :
    (k : ℕ) (o : Option ℕ) (old : Option Channel) (xs : List (List (Option Channel)))
    → client_of old ≡ o
    → count_retiring k (spawn_retired o old xs)
      ≡ count_retiring k xs + count k (stop_client (client_of old) [])
unfolding clients
count_retiring-spawn_retired k none old xs h = rw h (omega arith)
count_retiring-spawn_retired k (some c) old xs h = count_retiring-append k xs (old ∷ [])
