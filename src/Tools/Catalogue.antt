-- ===== src/Tools/Catalogue.antt =====
-- tools/query_catalog.py: the checks of its parameters, and how its statements are put together. The
-- children have the statements.
pub mod Server
pub mod Locks
pub mod Tables
pub mod Statistics
pub mod Indexes
pub mod Columns
pub mod Statements
pub mod Allowed
pub mod Literals
use mcp_sql_server.Common.{
  List, Outcome, Text, [], if◌then◌else◌, ltb_ℤ, ok, pos, raise, text_of, value_error, ℤ, ◌++◌,
  ◌==◌, ◌||◌, ◌∷◌,
}

-- `_validate_top_n`, of a number
unfoldable pub validate_top_n : ℤ → Outcome ℤ
validate_top_n value =
    if ltb_ℤ value (pos 1) || ltb_ℤ (pos 10000) value
    then raise (value_error (text_of "top_n must be between 1 and 10000"))
    else ok value

-- `_validate_lookback_minutes`, of a number
unfoldable pub validate_lookback_minutes : ℤ → Outcome ℤ
validate_lookback_minutes value =
    if ltb_ℤ value (pos 1) || ltb_ℤ (pos 10080) value
    then raise (value_error (text_of "lookback_minutes must be between 1 and 10080"))
    else ok value

-- `s.replace("'", "''")`
unfoldable pub escaped : Text → Text
escaped [] = []
escaped (c ∷ s) = if c == 39 then 39 ∷ 39 ∷ escaped s else c ∷ escaped s
