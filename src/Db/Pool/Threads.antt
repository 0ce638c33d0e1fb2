-- ===== src/Db/Pool/Threads.antt =====
-- Threads that take connections from one pool and give them back. What runs under the lock is one
-- step, and so is each call outside it; steps of the threads interleave in any order.
use mcp_sql_server.Common.{
  Bool, List, Option, get_elem?, if◌then◌else◌, none, not, replicate, set, some, suc, ℕ, ℤ, ◌||◌,
  ◌≡◌,
}
use mcp_sql_server.Db.Pool.{
  Found, Pool, create_new, discard, empty, full, give_back, register, reuse, take_available,
}

-- Where a thread stands in `connect`.
pub data Pc : Type 0 where
  outside : Pc  -- before `_acquire_connection`, or after the context manager
  asking : Pc  -- at the head of the loop
  probing : ℕ → Pc  -- in `_is_connection_usable`, with the connection taken
  dropping : ℕ → Pc  -- before the locked block that discards it
  opening : Pc  -- in `_connect_new`, with `create_new` set
  registering : ℕ → Pc  -- before the locked block that records the new connection
  holding : ℕ → Pc  -- in the body of the `with`
  returning : ℕ → Bool → Pc  -- in `_release_connection`, with `had_error`
  storing : ℕ → Bool → Pc  -- before its locked block, with `should_discard`

-- What the thread, the clock or the database does at a step.
pub data Event : Type 0 where
  enter : Event
  ask : Bool → Event  -- whether the deadline has passed
  probe : Bool → Event  -- whether the connection answers
  drop_it : Event
  connect : Bool → Event  -- whether the connection is made
  record_it : Event
  leave : Bool → Event  -- whether the body raised
  check : Bool → Event
  store : Bool → Event  -- whether autocommit could be set

-- The pool, the threads, and the number of the next new connection: new objects are new.
pub record System : Type 0 where
  pub pool : Pool
  pub threads : List Pc
  pub next_conn : ℕ

abbrev pub Moved : Type 0
Moved = Option (Pool × ℕ × Pc)

unfoldable pub asked : Bool → Pool → ℕ → Found → Moved
asked late p n (reuse conn) = some (p, n, probing conn)
asked late p n create_new = some (p, n, opening)
asked late p n full = some (p, n, if late then outside else asking)

-- One step of a thread: `none` where the event does not fit.
unfoldable pub act : ℤ → Pool → ℕ → Pc → Event → Moved
unfolding asked take_available discard register give_back
act pool_max p n outside enter = some (p, n, asking)
act pool_max p n asking (ask late) =
    let (found, p') = take_available pool_max p in asked late p' n found
act pool_max p n (probing conn) (probe usable) =
    some (p, n, if usable then holding conn else dropping conn)
act pool_max p n (dropping conn) drop_it = some (discard p conn, n, asking)
act pool_max p n opening (connect made) =
    if made then some (p, suc n, registering n) else some (p, n, outside)
act pool_max p n (registering conn) record_it = some (register p conn, n, holding conn)
act pool_max p n (holding conn) (leave raised) = some (p, n, returning conn raised)
act pool_max p n (returning conn had_error) (check usable) =
    some (p, n, storing conn (had_error || not usable))
act pool_max p n (storing conn should_discard) (store autocommit_set) =
    some ((give_back pool_max p conn should_discard autocommit_set).1, n, outside)
act pool_max p n _ _ = none

pub data Step (pool_max : ℤ) (s : System) : System → Type 0 where
  move :
      (i : ℕ) (pc : Pc) (e : Event) (p : Pool) (n : ℕ) (pc' : Pc)
      → get_elem? s.threads i ≡ some pc
      → act pool_max s.pool s.next_conn pc e ≡ some (p, n, pc')
      → Step pool_max s (record { pool = p; threads = set s.threads i pc'; next_conn = n })

-- `k` threads that have not begun, over an empty pool.
abbrev pub start : ℕ → System
start k = record { pool = empty; threads = replicate k outside; next_conn = 0 }

pub data Reach (pool_max : ℤ) (k : ℕ) : System → Type 0 where
  here : Reach pool_max k (start k)
  next : {s t : System} → Reach pool_max k s → Step pool_max s t → Reach pool_max k t
