-- ===== src/Middleware/Redis/Sets.antt =====
-- What the commands on sorted sets are documented to do, and what it means for one key.
use mcp_sql_server.Middleware.Redis.{Redis}
use mcp_sql_server.Common.{
  Bool, List, Text, [], count, false, keep, leb, leb_ℤ, length, not, pos, text_eq, ℕ, ℤ, ◌&&◌, ◌*◌,
  ◌+◌, ◌∷◌, ◌≡◌, ◌≤◌, ◌⊎◌,
}

-- A member with its score.
abbrev pub Entry : Type 0
Entry = ℕ × Text

abbrev pub in_range : ℕ → ℤ → Entry → Bool
in_range low high (score, _) = leb low score && leb_ℤ (pos score) high

abbrev pub is_member : Text → Entry → Bool
is_member m (_, n) = text_eq m n

-- The server between two calls: its clock, the sets under the keys, the time when a key is due to
-- be deleted, and the passing of time.
pub record View {D : Type 0} (redis : Redis D) : Type 0 where
  pub clock : D → ℕ
  pub set_of : Text → D → List Entry
  pub deadline : Text → D → ℕ
  pub elapse : ℕ → D → D

-- Documented: the cardinality is that of the set; a range is removed by score; a new member is
-- added with its score; a key that `EXPIRE` has set is deleted when its time is over, and not
-- earlier. A command changes the key it names and no other. A set that becomes empty is deleted with
-- its key.
pub record IsDocumented {D : Type 0} (redis : Redis D) (v : View redis) : Type 0 where
  pub cardinality : (k : Text) (d : D) → redis.zcard k d ≡ length (v.set_of k d)
  pub removed :
      (k : Text) (low : ℕ) (high : ℤ) (d : D)
      → v.set_of k (redis.zremrangebyscore k low high d)
        ≡ keep (λ e. not (in_range low high e)) (v.set_of k d)
  pub removed_deadline :
      (k : Text) (low : ℕ) (high : ℤ) (d : D)
      → (v.deadline k (redis.zremrangebyscore k low high d) ≡ v.deadline k d)
        ⊎ (v.set_of k (redis.zremrangebyscore k low high d) ≡ [])
  pub added :
      (k : Text) (score : ℕ) (m : Text) (d : D) (p : Entry → Bool)
      → count (is_member m) (v.set_of k d) ≡ 0
      → count p (v.set_of k (redis.zadd k score m d)) ≡ count p ((score, m) ∷ v.set_of k d)
  pub expires :
      (k : Text) (ttl : ℕ) (d : D) → v.deadline k (redis.expire k ttl d) ≡ v.clock d + ttl * 1000
  pub expire_set : (k j : Text) (ttl : ℕ) (d : D) → v.set_of j (redis.expire k ttl d) ≡ v.set_of j d
  pub elapsed :
      (k : Text) (now : ℕ) (d : D)
      → (v.set_of k (v.elapse now d) ≡ v.set_of k d)
          × (v.deadline k (v.elapse now d) ≡ v.deadline k d)
        ⊎ (v.set_of k (v.elapse now d) ≡ []) × (v.deadline k d ≤ now)
  pub elapse_clock : (now : ℕ) (d : D) → v.clock (v.elapse now d) ≡ now
  pub remove_clock :
      (k : Text) (low : ℕ) (high : ℤ) (d : D)
      → v.clock (redis.zremrangebyscore k low high d) ≡ v.clock d
  pub add_clock :
      (k : Text) (score : ℕ) (m : Text) (d : D) → v.clock (redis.zadd k score m d) ≡ v.clock d
  pub expire_clock : (k : Text) (ttl : ℕ) (d : D) → v.clock (redis.expire k ttl d) ≡ v.clock d
  pub remove_frame :
      (k j : Text) (low : ℕ) (high : ℤ) (d : D)
      → text_eq k j ≡ false
      → (v.set_of j (redis.zremrangebyscore k low high d) ≡ v.set_of j d)
        × (v.deadline j (redis.zremrangebyscore k low high d) ≡ v.deadline j d)
  pub add_frame :
      (k j : Text) (score : ℕ) (m : Text) (d : D)
      → text_eq k j ≡ false
      → (v.set_of j (redis.zadd k score m d) ≡ v.set_of j d)
        × (v.deadline j (redis.zadd k score m d) ≡ v.deadline j d)
  pub expire_frame :
      (k j : Text) (ttl : ℕ) (d : D)
      → text_eq k j ≡ false
      → v.deadline j (redis.expire k ttl d) ≡ v.deadline j d
