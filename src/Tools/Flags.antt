-- ===== src/Tools/Flags.antt =====
-- tools/tool_flags.py and tools/tool_registry.py, and the names that `register_sql_tools` registers.
pub mod Registered
use mcp_sql_server.Db.Columns.{decimal, show}
use mcp_sql_server.Common.{
  Bool, Dict, In, In-append, In-append_left, In-append_right, In-keep, In-map, List, Option-cases,
  Text, [], ap, arith, codes, inl, inr, keep, keep-In, kept, lookup, map, map-In, none, or_default,
  refl, some, sym, true, ℕ, ◌++◌, ◌+◌, ◌↔◌, ◌∙◌, ◌∷◌, ◌≡◌, ◌⊎◌,
}
use mcp_sql_server.Models.{RuntimePolicy}

-- `is_tool_enabled`
unfoldable pub is_tool_enabled : RuntimePolicy → Text → Text → Bool
unfolding lookup
is_tool_enabled policy instance_id toolname =
    let per_instance = or_default (lookup instance_id policy.instance_tool_enable_flags) [] in
    elim (lookup toolname per_instance) [
      | some flag ↦ flag
      | none ↦ elim (lookup toolname policy.tool_enable_flags) [ some flag ↦ flag | none ↦ true ]
    ]

pub record ToolSpec : Type 0 where
  pub instance_id : Text
  pub toolname : Text

unfoldable pub full_name : ToolSpec → Text
full_name s = codes "db_" ++ s.instance_id ++ codes "_sql2019_" ++ s.toolname

abbrev pub toolnames : List Text
toolnames =
    codes "select"
    ∷ codes "exec_proc"
    ∷ codes "latency_report"
    ∷ codes "block_report"
    ∷ codes "top_queries_report"
    ∷ codes "active_sessions_report"
    ∷ codes "index_health_report"
    ∷ codes "analyze_tab_health"
    ∷ codes "analyze_db_data_model"
    ∷ codes "analyze_sec_config"
    ∷ codes "sessions_dashboard"
    ∷ codes "top_statements"
    ∷ []

unfoldable pub generate_tool_specs : List Text → List ToolSpec
generate_tool_specs [] = []
generate_tool_specs (i ∷ instances) =
    map (λ t. record { instance_id = i; toolname = t }) toolnames ++ generate_tool_specs instances

-- The names that `register_sql_tools` notes as registered for the specifications, also those for
-- which this loop has no tool.
unfoldable pub registered_names : RuntimePolicy → List Text → List Text
unfolding is_tool_enabled generate_tool_specs full_name keep
registered_names policy instances =
    map full_name
      (keep (λ s. is_tool_enabled policy s.instance_id s.toolname) (generate_tool_specs instances))

abbrev pub always_tools : List Text
always_tools = codes "ping" ∷ codes "list_tools" ∷ codes "list_object" ∷ codes "execute_query" ∷ []

abbrev pub flagged_tools : List Text
flagged_tools =
    codes "analyze_tab_health"
    ∷ codes "analyze_db_data_model"
    ∷ codes "analyze_sec_config"
    ∷ codes "sessions_dashboard"
    ∷ codes "top_statements"
    ∷ []

-- The tools of an instance under its number.
unfoldable pub numbered_tools : RuntimePolicy → Text → List Text
unfolding is_tool_enabled keep
numbered_tools policy instance_id =
    always_tools ++ keep (is_tool_enabled policy instance_id) flagged_tools

-- The second loop. The instances are numbered from 1; their ids are the keys of a dictionary, each
-- of them once.
unfoldable pub numbered_names : RuntimePolicy → ℕ → List Text → List Text
unfolding numbered_tools full_name decimal
numbered_names policy number [] = []
numbered_names policy number (i ∷ instances) =
    map (λ t. full_name (record { instance_id = show number; toolname = t }))
      (numbered_tools policy i)
    ++ numbered_names policy (number + 1) instances

-- What `register_sql_tools` returns.
unfoldable pub registered_tools : RuntimePolicy → List Text → List Text
unfolding registered_names numbered_names
registered_tools policy instances =
    registered_names policy instances ++ numbered_names policy 1 instances

-- The documented precedence: a flag of the instance decides, then a global flag, and without either
-- the tool is enabled.
abbrev pub Decides : RuntimePolicy → Text → Text → Bool → Type 0
Decides policy instance_id toolname b =
    ((flags : Dict Bool) × (lookup instance_id policy.instance_tool_enable_flags ≡ some flags)
      × (lookup toolname flags ≡ some b))
    ⊎ (((flags : Dict Bool)
          → lookup instance_id policy.instance_tool_enable_flags ≡ some flags
          → lookup toolname flags ≡ none)
        × ((lookup toolname policy.tool_enable_flags ≡ some b)
            ⊎ (lookup toolname policy.tool_enable_flags ≡ none) × (b ≡ true)))

-- `is_tool_enabled` follows its documented precedence.
pub enabled_Decides :
    (policy : RuntimePolicy) (instance_id toolname : Text)
    → Decides policy instance_id toolname (is_tool_enabled policy instance_id toolname)
unfolding is_tool_enabled
enabled_Decides policy i t = elim (Option-cases (lookup i policy.instance_tool_enable_flags)) [
  | inl absent ↦ inr ((λ flags e. absurd (ground arith)), fall_back (ground arith))
  | inr (flags, found) ↦ elim (Option-cases (lookup t flags)) [
    | inr (b, flag) ↦ inl (flags, found, ground arith)
    | inl unset ↦ inr ((λ others e. ground arith), fall_back (ground arith))
  ]
]
  where
    per_instance : Dict Bool
    per_instance = or_default (lookup i policy.instance_tool_enable_flags) []

    fall_back :
        lookup t per_instance ≡ none
        → (lookup t policy.tool_enable_flags ≡ some (is_tool_enabled policy i t))
          ⊎ (lookup t policy.tool_enable_flags ≡ none) × (is_tool_enabled policy i t ≡ true)
    fall_back e = elim (Option-cases (lookup t policy.tool_enable_flags)) [
      | inr (b, flag) ↦ inl (ground arith)
      | inl unset ↦ inr (unset, ground arith)
    ]
