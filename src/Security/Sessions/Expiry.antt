-- ===== src/Security/Sessions/Expiry.antt =====
-- What the clean-up keeps, and how long a session lives.
use mcp_sql_server.Common.{
  ℕ, ◌≡◌, refl, Bool, true, none, [], ◌∷◌, arith, is_empty, Text, text_eq_iff, Dict, lookup,
  or_default, keep_items, IsDict, keep_items-IsDict,
}
use mcp_sql_server.Security.Sessions.{SessionManager, live, cleanup_actors, cleanup, sessions_of}

-- The keys of both levels are distinct.
abbrev pub IsTable : Dict (Dict ℕ) → Type 0
IsTable [] = Unit {0}
IsTable ((actor, sessions) ∷ rest) = (lookup actor rest ≡ none) × IsDict sessions × IsTable rest

cleanup_absent :
    (p : Text → ℕ → Bool) (a : Text) (d : Dict (Dict ℕ))
    → lookup a d ≡ none
    → lookup a (cleanup_actors p d) ≡ none
unfolding cleanup_actors lookup
cleanup_absent p a [] h = refl
cleanup_absent p a ((b, s) ∷ d) h = ground (arith, cleanup_absent p a d)

empty_or : (d : Dict ℕ) → is_empty d ≡ true → d ≡ []
empty_or [] h = refl
empty_or (x ∷ d) h = cc

pub cleanup-IsTable :
    (p : Text → ℕ → Bool) (d : Dict (Dict ℕ)) → IsTable d → IsTable (cleanup_actors p d)
unfolding cleanup_actors
cleanup-IsTable p [] h = tt
cleanup-IsTable p ((b, s) ∷ d) h =
    ground (arith, cleanup-IsTable p d, cleanup_absent p b d, keep_items-IsDict p s h.1)

lookup-cleanup :
    (p : Text → ℕ → Bool) (a : Text) (d : Dict (Dict ℕ))
    → IsTable d
    → or_default (lookup a (cleanup_actors p d)) [] ≡ keep_items p (or_default (lookup a d) [])
unfolding cleanup_actors lookup keep_items
lookup-cleanup p a [] h = refl
lookup-cleanup p a ((b, s) ∷ d) h = ground (
  arith,
  lookup-cleanup p a d h.2,
  cleanup_absent p b d,
  text_eq_iff b a,
  empty_or (keep_items p s),
)

-- After a clean-up an actor has those of its sessions whose last touch is neither older than the
-- TTL nor older than the inactivity timeout, in their old order, and no others.
pub sessions_of-cleanup :
    (m : SessionManager) (now : ℕ) (actor : Text)
    → IsTable m.sessions
    → sessions_of (cleanup m now) actor ≡ keep_items (live m now) (sessions_of m actor)
unfolding sessions_of cleanup
sessions_of-cleanup m now actor h = lookup-cleanup (live m now) actor m.sessions h
