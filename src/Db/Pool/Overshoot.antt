-- ===== src/Db/Pool/Overshoot.antt =====
-- The pool can exceed `pool_max`: the room for a new connection is checked under the lock, and the
-- connection is recorded under it only after it was made, in another locked block.
use mcp_sql_server.Common.{
  List, [], ap, append_assoc, arith, false, get_elem?, length, length-append, refl, replicate, set,
  some, suc, true, zero, ℕ, ℤ, ◌++◌, ◌+◌, ◌∷◌, ◌≡◌,
}
use mcp_sql_server.Db.Pool.Threads.{
  Event, Pc, Reach, System, act, ask, asked, asking, connect, enter, here, holding, move, next,
  opening, outside, record_it, registering,
}
use mcp_sql_server.Db.Pool.{Pool, empty, register, take_available}

get_elem?-middle : (xs ys : List Pc) (x : Pc) → get_elem? (xs ++ x ∷ ys) (length xs) ≡ some x
get_elem?-middle [] ys x = refl
get_elem?-middle (z ∷ xs) ys x = get_elem?-middle xs ys x

set-middle : (xs ys : List Pc) (x y : Pc) → set (xs ++ x ∷ ys) (length xs) y ≡ xs ++ y ∷ ys
set-middle [] ys x y = refl
set-middle (z ∷ xs) ys x y = ap (◌∷◌ z) (set-middle xs ys x y)

-- One step of the thread at a place.
step_at :
    {m : ℤ} {k : ℕ} (xs ys : List Pc) (pc pc' : Pc) (e : Event) (p p' : Pool) (n n' : ℕ)
    → act m p n pc e ≡ some (p', n', pc')
    → Reach m k (record { pool = p; threads = xs ++ pc ∷ ys; next_conn = n })
    → Reach m k (record { pool = p'; threads = xs ++ pc' ∷ ys; next_conn = n' })
step_at {m} {k} xs ys pc pc' e p p' n n' did r =
    rw (set-middle xs ys pc pc') at
      (next r (move (length xs) pc e p' n' pc' (get_elem?-middle xs ys pc) did))

-- Every thread finds the empty pool to have room.
open_all :
    {m : ℤ} {k : ℕ} (xs : List Pc) (j : ℕ)
    → Reach m k (record { pool = empty; threads = xs ++ replicate j outside; next_conn = 0 })
    → Reach m k (record { pool = empty; threads = xs ++ replicate j opening; next_conn = 0 })
unfolding act take_available asked
open_all xs zero r = r
open_all {m} xs (suc j) r =
    let ys = replicate j outside in
    let asks = step_at xs ys outside asking enter empty empty 0 0 refl r in
    let opens = step_at xs ys asking opening (ask false) empty empty 0 0 (ground arith) asks in
    let regrouped = rw (← append_assoc xs (opening ∷ []) ys) at opens in
    rw (append_assoc xs (opening ∷ []) (replicate j opening)) at
      (open_all (xs ++ opening ∷ []) j regrouped)

-- And every thread records the connection that it makes.
fill_all :
    {m : ℤ} {k : ℕ} (xs : List Pc) (j : ℕ) (p : Pool) (n : ℕ)
    → Reach m k (record { pool = p; threads = xs ++ replicate j opening; next_conn = n })
    → (s : System) × Reach m k s × (length s.pool.in_use ≡ length p.in_use + j)
unfolding act register
fill_all xs zero p n r = (_, r, omega arith)
fill_all {m} xs (suc j) p n r =
    let ys = replicate j opening in
    let made = step_at xs ys opening (registering n) (connect true) p p n (suc n) refl r in
    let q = register p n in
    let kept = step_at xs ys (registering n) (holding n) record_it p q (suc n) (suc n) refl made in
    let regrouped = rw (← append_assoc xs (holding n ∷ []) ys) at kept in
    let (s, reached, size) = fill_all (xs ++ holding n ∷ []) j q (suc n) regrouped in
    (s, reached, omega (arith, size, length-append p.in_use (n ∷ [])))

-- Whatever `pool_max` is, `k` threads that start together can bring the pool to `k` connections in
-- use: each finds room before any of the others has recorded its connection.
pub overshoot : (m : ℤ) (k : ℕ) → (s : System) × Reach m k s × (length s.pool.in_use ≡ k)
overshoot m k =
    let (s, r, size) = fill_all [] k empty 0 (open_all [] k here) in (s, r, omega (arith, size))
