-- ===== src/Tests/Guards.antt =====
-- middleware/write_guard.py at concrete statements and names.
use mcp_sql_server.Middleware.WriteGuard.Lead.{
  Lead, block_comment, line_comment, nothing, space, word_char,
}
use mcp_sql_server.Common.{
  Text, [], all, any, codes, contains, elem, is_space, lower_char, lstrip, ok, raise, refl, rstrip,
  split, split_first, starts_with, text_eq, upper_char, ◌++◌, ◌↔◌, ◌∷◌, ◌≡◌,
}
use mcp_sql_server.Middleware.WriteGuard.Procedures.{IsListed, validate_exact}
use mcp_sql_server.Middleware.WriteGuard.Comments.{AllChars-of, block, line}
use mcp_sql_server.Middleware.WriteGuard.Verbs.{comment_hides_verb, write_refused}
use mcp_sql_server.Middleware.WriteGuard.{
  WriteGuard, blocked_by_policy, enforce, validate_procedure,
}
use mcp_sql_server.Models.{default_policy}

-- The shipped policy, with a search that finds nothing.
abbrev guard : WriteGuard
guard = record {
  policy = record default_policy {
    allowed_write_tools = codes "db_primary_sql2019_exec_proc" ∷ [];
    allowed_tools =
        (
          codes "db_primary_sql2019_exec_proc",
          (codes "allowed_procedures", codes "dbo.usp_Run" ∷ []) ∷ [],
        )
        ∷ [];
  };
  blocked = [];
}

abbrev select_tool : Text
select_tool = codes "db_primary_sql2019_select"

abbrev exec_tool : Text
exec_tool = codes "db_primary_sql2019_exec_proc"

-- `/* x */ -- y` and a line break before `Exec dbo.p`.
before : Lead (block (codes " x ") ++ 32 ∷ line (codes " y") ++ [])
unfolding is_space contains starts_with
before =
    block_comment (codes " x ") _ refl
      (space 32 _ refl (line_comment (codes " y") [] (refl, (refl, tt)) refl nothing))

write_refused_example :
    enforce guard select_tool
      ((block (codes " x ") ++ 32 ∷ line (codes " y") ++ []) ++ (codes "Exec" ++ codes " dbo.p"))
    ≡ raise (blocked_by_policy select_tool)
unfolding any elem text_eq upper_char is_space
write_refused_example =
    write_refused guard select_tool before b'E' (codes "xec") (codes " dbo.p") refl refl refl refl

-- `EXEC/**/dbo.usp_Wipe 1` passes for a tool that may not write.
comment_hides_verb_example :
    enforce guard select_tool (codes "EXEC" ++ (block [] ++ (codes "dbo.usp_Wipe" ++ codes " 1")))
    ≡ ok tt
unfolding any elem text_eq upper_char is_space all
comment_hides_verb_example =
    comment_hides_verb guard select_tool b'E' (codes "XEC") [] (codes "dbo.usp_Wipe") (codes " 1")
      (AllChars-of word_char (codes "EXEC") refl)
      (AllChars-of word_char (codes "dbo.usp_Wipe") refl) tt refl refl refl

validate_exact_example :
    (validate_procedure guard exec_tool (codes "[DBO].usp_run") ≡ ok tt)
    ↔ IsListed guard exec_tool (codes "[DBO].usp_run")
validate_exact_example = validate_exact guard exec_tool (codes "[DBO].usp_run")

prefix_passes :
    validate_procedure guard exec_tool (codes "dbo.usp_Wipe; EXEC x.dbo.usp_Run") ≡ ok tt
unfolding validate_procedure split split_first elem text_eq lower_char
prefix_passes = refl

-- A `/*` in a line comment hides all lines up to the next `*/`, and with them the write verb that the
-- server runs; a comment within a comment, which the server skips as a whole, ends too early.
line_comment_hides :
    (enforce guard select_tool (codes "-- /*" ++ 10 ∷ codes "DELETE FROM t -- */") ≡ ok tt)
    × (enforce guard select_tool (codes "/* /* */ */ DELETE FROM t") ≡ ok tt)
unfolding enforce any elem text_eq upper_char is_space starts_with lstrip rstrip
line_comment_hides = (refl, refl)
