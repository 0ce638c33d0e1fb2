-- ===== src/Tests/Stores.antt =====
-- tools/input_validation.py, tools/security_redaction.py and tools/dashboard_page_store.py at
-- concrete values.
use mcp_sql_server.Tools.Inputs.Names.{IsClean, database_name_exact}
use mcp_sql_server.Tools.Pages.Expiry.{get-register}
use mcp_sql_server.Tools.Pages.{
  Entry, check_page, get_dashboard_page, id_char, id_matches, id_pattern, register_dashboard_page,
  second, validate_html, validate_request_id, validate_ttl_seconds,
}
use mcp_sql_server.Tools.Inputs.{clean_row, is_sensitive, validate_database_name}
use mcp_sql_server.Common.{
  Dict, [], all, any, codes, contains, if◌then◌else◌, insert, is_space, leb, lookup, lower_char,
  lstrip, none, ok, pos, refl, rstrip, some, starts_with, strip, text_eq, ℕ, ◌*◌, ◌+◌, ◌↔◌, ◌∷◌,
  ◌≡◌,
}

-- A row with a secret in it.
abbrev row : Dict ℕ
row = (codes "User", 1) ∷ (codes "PassWord_Hash", 2) ∷ []

hides_password : lookup (codes "PassWord_Hash") (clean_row 0 [] row) ≡ some 0
unfolding lookup text_eq clean_row insert is_sensitive any contains starts_with lower_char
hides_password = refl

database_name_exact_example :
    ((validate_database_name (codes " sales ") ≡ ok (codes "sales")) ↔ (
      (¬ (codes "sales" ≡ []))
      × IsClean (codes "sales")
      × (strip (codes " sales ") ≡ codes "sales")))
    × (validate_database_name (codes " sales ") ≡ ok (codes "sales")
        → validate_database_name (codes "sales") ≡ ok (codes "sales"))
database_name_exact_example = database_name_exact (codes " sales ") (codes "sales")

-- A page of ten seconds, with its id and its text.
abbrev page : Dict (Entry ℕ) → Dict (Entry ℕ)
page pages =
    (register_dashboard_page 5000000 (codes "http://h") (codes "a-1") (codes "<p>") (pos 10) none
      pages).1

get-register_example :
    (get_dashboard_page 14999999 (codes "a-1") (page [])).0
    ≡ ok (if leb (5000000 + 10 * second) 14999999 then none else some (codes "<p>"))
unfolding check_page validate_request_id validate_html validate_ttl_seconds id_matches id_pattern
    all id_char strip lstrip rstrip is_space
get-register_example =
    get-register 5000000 14999999 (codes "http://h") (codes "a-1") (codes "<p>") 10 none [] tt refl
