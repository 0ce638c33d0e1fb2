-- ===== src/Db/Pool.antt =====
-- db/connection_manager.py: the pool of one instance, and the parts of `_acquire_connection` and
-- `_release_connection` that run under the lock. A connection is the number of its object.
pub mod Sequential
pub mod Threads
pub mod Ownership
pub mod Capacity
pub mod Overshoot
pub mod Alone
pub mod Ends
use mcp_sql_server.Common.{
  Bool, List, [], false, if◌then◌else◌, length, ltb, max_ℕ, not, true, ℕ, ℤ, ◌++◌, ◌+◌, ◌==◌, ◌∷◌,
}

-- `available` is kept from its right end, where `pop` and `append` work; `in_use` from its left.
pub record Pool : Type 0 where
  pub available : List ℕ
  pub in_use : List ℕ
  pub created_total : ℕ
  pub reused_total : ℕ
  pub discarded_total : ℕ

abbrev pub empty : Pool
empty = record {
  available = [];
  in_use = [];
  created_total = 0;
  reused_total = 0;
  discarded_total = 0;
}

-- `max(1, instance.pool_max)`
abbrev pub pool_cap : ℤ → ℕ
pool_cap pool_max = max_ℕ 1 pool_max

abbrev pub pool_size : Pool → ℕ
pool_size p = length p.available + length p.in_use

-- `_remove_in_use_connection`: the first entry that is the connection.
unfoldable pub remove_first : ℕ → List ℕ → List ℕ
remove_first conn [] = []
remove_first conn (item ∷ rest) = if item == conn then rest else item ∷ remove_first conn rest

unfoldable pub remove_in_use_connection : Pool → ℕ → Pool
unfolding remove_first
remove_in_use_connection p conn = record p { in_use = remove_first conn p.in_use }

-- What the first locked block of the loop finds: a connection to reuse, room for a new one, or a
-- full pool.
pub data Found : Type 0 where
  reuse : ℕ → Found
  create_new : Found
  full : Found

unfoldable pub take_available : ℤ → Pool → Found × Pool
take_available pool_max p = elim p.available [
  | conn ∷ rest ↦ (
    reuse conn,
    record p {
      available = rest;
      in_use = p.in_use ++ conn ∷ [];
      reused_total = p.reused_total + 1;
    },
  )
  | [] ↦ (if ltb (pool_size p) (pool_cap pool_max) then create_new else full, p)
]

-- The locked block after a connection that was found unusable.
unfoldable pub discard : Pool → ℕ → Pool
unfolding remove_in_use_connection
discard p conn =
    let p' = remove_in_use_connection p conn in
    record p' { discarded_total = p.discarded_total + 1 }

-- The locked block after a new connection.
unfoldable pub register : Pool → ℕ → Pool
register p conn = record p { in_use = p.in_use ++ conn ∷ []; created_total = p.created_total + 1 }

-- The locked block of `_release_connection`; `autocommit_set` says that `conn.autocommit = False`
-- did not raise. The result says whether to close the connection.
unfoldable pub give_back : ℤ → Pool → ℕ → Bool → Bool → Bool × Pool
unfolding remove_in_use_connection
give_back pool_max p conn should_discard autocommit_set =
    let p' = remove_in_use_connection p conn in
    let dropped = record p' { discarded_total = p.discarded_total + 1 } in
    if should_discard
    then (true, dropped)
    else if not autocommit_set
    then (true, dropped)
    else if ltb (length p'.available) (pool_cap pool_max)
    then (false, record p' { available = conn ∷ p'.available })
    else (true, dropped)

-- `close_all_pools`, for one pool: the connections to close, and the emptied pool.
unfoldable pub close_all : Pool → List ℕ × Pool
close_all p = (p.available ++ p.in_use, record p { available = []; in_use = [] })
