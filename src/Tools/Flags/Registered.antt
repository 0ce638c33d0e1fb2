-- ===== src/Tools/Flags/Registered.antt =====
-- tools/sql_tools.py: which names `register_sql_tools` returns.
use mcp_sql_server.Common.{In, List, Text, [], true, ℕ, ◌+◌, ◌∷◌, ◌≡◌, ◌⊎◌}
use mcp_sql_server.Tools.Flags.{always_tools, flagged_tools, full_name, is_tool_enabled, toolnames}
use mcp_sql_server.Models.{RuntimePolicy}
use mcp_sql_server.Db.Columns.{show}

-- The name of a specification: db_<instance>_sql2019_<tool>.
abbrev pub FromSpec : RuntimePolicy → List Text → Text → Type 0
FromSpec policy instances name =
    (i : Text) × (t : Text) × In i instances
    × In t toolnames
    × (is_tool_enabled policy i t ≡ true)
    × (full_name (record { instance_id = i; toolname = t }) ≡ name)

-- The instance has this number in a list that is numbered from `start`.
abbrev pub IsNumbered : ℕ → Text → ℕ → List Text → Type 0
IsNumbered n i start [] = ⊥
IsNumbered n i start (j ∷ instances) =
    ((n ≡ start) × (i ≡ j)) ⊎ IsNumbered n i (start + 1) instances

-- The name of a numbered tool: db_<number>_sql2019_<tool>.
abbrev pub FromNumber : RuntimePolicy → ℕ → List Text → Text → Type 0
FromNumber policy start instances name =
    (n : ℕ) × (i : Text) × (t : Text) × IsNumbered n i start instances
    × (In t always_tools ⊎ (In t flagged_tools × (is_tool_enabled policy i t ≡ true)))
    × (full_name (record { instance_id = show n; toolname = t }) ≡ name)

abbrev named : ℕ → Text → Text
named n t = full_name (record { instance_id = show n; toolname = t })
