-- ===== src/Tools/Catalogue/Allowed.antt =====
-- The queries of the catalogue and the write guard.
use mcp_sql_server.Tools.Catalogue.{validate_lookback_minutes, validate_top_n}
use mcp_sql_server.Db.Reads.{rendered}
use mcp_sql_server.Middleware.WriteGuard.Lead.{first_verb-Lead, nothing, word_char}
use mcp_sql_server.Middleware.WriteGuard.Comments.{AllChars, AllChars-of}
use mcp_sql_server.Tools.Catalogue.Server.{
  backup_recency_query, elevated_roles_query, excessive_permissions_query, guest_access_query,
  orphan_user_query, server_config_flags_query, trustworthy_databases_query,
}
use mcp_sql_server.Tools.Catalogue.Locks.{
  active_sessions_query, blocking_chain_query, lock_chain_query, tran_locks_query,
  waiting_tasks_query,
}
use mcp_sql_server.Tools.Catalogue.Tables.{
  disabled_indexes_query, fk_graph_query, fragmented_indexes_query, heap_tables_query,
  missing_pk_query, nullable_fk_columns_query, table_size_query, tables_without_fk_query,
}
use mcp_sql_server.Tools.Catalogue.Statistics.{
  database_statistics_settings_query, low_sampled_statistics_query,
  missing_statistics_coverage_candidate_query, stale_statistics_query, statistics_histogram_query,
  statistics_never_updated_query,
}
use mcp_sql_server.Tools.Catalogue.Indexes.{
  duplicate_key_candidate_query, missing_fk_index_query, missing_index_dmv_query,
  redundant_indexes_query, unused_indexes_query,
}
use mcp_sql_server.Tools.Catalogue.Columns.{
  datatype_inconsistency_query, normalization_column_overlap_query, soft_delete_columns_query,
  update_heavy_tables_query,
}
use mcp_sql_server.Tools.Catalogue.Statements.{
  top_statements_dmv_fallback_query, top_statements_object_pressure_query,
  top_statements_query_store_query,
}
use mcp_sql_server.Middleware.WriteGuard.{WriteGuard, enforce, first_verb, is_write, write_verbs}
use mcp_sql_server.Common.{
  Bool, Bool-cases, Each, Error, List, Outcome, Text, [], all, any, ap, append_assoc, arith, codes,
  elem, false, inl, inr, is_space, ltb_ℤ, map, ok, pos, raise, refl, starts_with, text_eq, text_of,
  true, upper, upper_char, value_error, ℕ, ℤ, ◌++◌, ◌||◌, ◌∙◌, ◌∷◌, ◌≡◌, ◌≤ℤ◌,
}

-- The queries that take a number of rows, the one that takes minutes too, and the others.
abbrev pub sized_queries : List (ℤ → Outcome Text)
sized_queries =
    excessive_permissions_query ∷ active_sessions_query ∷ lock_chain_query ∷ blocking_chain_query
    ∷ tran_locks_query ∷ waiting_tasks_query ∷ table_size_query ∷ fragmented_indexes_query
    ∷ stale_statistics_query ∷ statistics_never_updated_query ∷ low_sampled_statistics_query
    ∷ missing_statistics_coverage_candidate_query ∷ missing_index_dmv_query ∷ unused_indexes_query
    ∷ redundant_indexes_query ∷ duplicate_key_candidate_query ∷ datatype_inconsistency_query
    ∷ update_heavy_tables_query ∷ top_statements_dmv_fallback_query
    ∷ top_statements_object_pressure_query ∷ []

abbrev pub fixed_queries : List (Outcome Text)
fixed_queries =
    orphan_user_query ∷ elevated_roles_query ∷ backup_recency_query ∷ server_config_flags_query
    ∷ trustworthy_databases_query ∷ guest_access_query ∷ missing_pk_query ∷ fk_graph_query
    ∷ heap_tables_query ∷ disabled_indexes_query ∷ tables_without_fk_query
    ∷ nullable_fk_columns_query ∷ database_statistics_settings_query ∷ missing_fk_index_query
    ∷ soft_delete_columns_query ∷ normalization_column_overlap_query ∷ []

-- The text begins with SELECT or WITH and a space.
reads : Text → Bool
reads s = starts_with (codes "SELECT ") s || starts_with (codes "WITH ") s

starts_with-split : (p s : Text) → starts_with p s ≡ true → (rest : Text) × (s ≡ p ++ rest)
unfolding starts_with
starts_with-split [] s h = (s, refl)
starts_with-split (c ∷ p) [] h = cc
starts_with-split (c ∷ p) (d ∷ s) h =
    let (rest, e) = starts_with-split p s (ground arith) in
    let same : d ≡ c = ground arith in (rest, rw same (ap (◌∷◌ c) e))

is_write-word :
    (c : ℕ) (v s : Text)
    → AllChars word_char (c ∷ v)
    → elem (upper (c ∷ v)) write_verbs ≡ false
    → starts_with (c ∷ v ++ 32 ∷ []) s ≡ true
    → is_write s ≡ false
unfolding is_write is_space
is_write-word c v s word no_verb h =
    let (rest, e) = starts_with-split (c ∷ v ++ 32 ∷ []) s h in
    let whole : s ≡ (c ∷ v) ++ 32 ∷ rest = e ∙ append_assoc (c ∷ v) (32 ∷ []) rest in
    let first : first_verb s ≡ upper (c ∷ v) =
      rw whole (first_verb-Lead nothing c v (32 ∷ rest) word refl) in
    rw first no_verb

is_write-reads : (s : Text) → reads s ≡ true → is_write s ≡ false
unfolding reads elem text_eq upper_char is_space all
is_write-reads s h = elim (Bool-cases (starts_with (codes "SELECT ") s)) [
  | inl select ↦
      is_write-word b'S' (codes "ELECT") s (AllChars-of word_char (codes "SELECT") refl) refl select
  | inr other_word ↦
      is_write-word b'W' (codes "ITH") s (AllChars-of word_char (codes "WITH") refl) refl
        (ground arith)
]

-- The query gives a statement, and the guard lets it through, in any mode and for any tool, where the
-- denylist does not match it.
abbrev pub Passes : Outcome Text → Type 0
Passes o =
    (sql : Text) × (o ≡ ok sql)
    × ((g : WriteGuard) (tool_name : Text)
        → any (λ pattern. pattern sql) g.blocked ≡ false
        → enforce g tool_name sql ≡ ok tt)

reads_outcome : Outcome Text → Bool
reads_outcome (ok sql) = reads sql
reads_outcome (raise e) = false

outcome-Passes : (o : Outcome Text) → reads_outcome o ≡ true → Passes o
unfolding reads_outcome enforce
outcome-Passes (ok sql) h =
    let harmless = is_write-reads sql h in
    (sql, refl, λ g tool_name clear. ground (arith, harmless, clear))
outcome-Passes (raise e) h = cc

all-Passes : (os : List (Outcome Text)) → all reads_outcome os ≡ true → Each Passes os
unfolding all
all-Passes [] h = tt
all-Passes (o ∷ os) h = (outcome-Passes o (ground arith), all-Passes os (ground arith))

fixed_read : all reads_outcome fixed_queries ≡ true
unfolding all reads_outcome reads starts_with rendered orphan_user_query elevated_roles_query
    backup_recency_query server_config_flags_query trustworthy_databases_query guest_access_query
    excessive_permissions_query active_sessions_query lock_chain_query blocking_chain_query
    tran_locks_query waiting_tasks_query table_size_query fragmented_indexes_query missing_pk_query
    fk_graph_query heap_tables_query disabled_indexes_query tables_without_fk_query
    nullable_fk_columns_query stale_statistics_query statistics_never_updated_query
    low_sampled_statistics_query database_statistics_settings_query
    missing_statistics_coverage_candidate_query missing_fk_index_query missing_index_dmv_query
    unused_indexes_query redundant_indexes_query duplicate_key_candidate_query
    datatype_inconsistency_query soft_delete_columns_query update_heavy_tables_query
    normalization_column_overlap_query top_statements_query_store_query
    top_statements_dmv_fallback_query top_statements_object_pressure_query
fixed_read = refl

abbrev pub sized : ℤ → List (Outcome Text)
sized top_n = map (λ query. query top_n) sized_queries

sized_read : (top_n : ℤ) → validate_top_n top_n ≡ ok top_n → all reads_outcome (sized top_n) ≡ true
unfolding all reads_outcome reads starts_with rendered excessive_permissions_query
    active_sessions_query lock_chain_query blocking_chain_query tran_locks_query waiting_tasks_query
    table_size_query fragmented_indexes_query stale_statistics_query statistics_never_updated_query
    low_sampled_statistics_query missing_statistics_coverage_candidate_query missing_index_dmv_query
    unused_indexes_query redundant_indexes_query duplicate_key_candidate_query
    datatype_inconsistency_query update_heavy_tables_query top_statements_dmv_fallback_query
    top_statements_object_pressure_query
sized_read top_n h = rw h refl

store_read :
    (top_n minutes : ℤ)
    → validate_top_n top_n ≡ ok top_n
    → validate_lookback_minutes minutes ≡ ok minutes
    → reads_outcome (top_statements_query_store_query top_n minutes) ≡ true
unfolding reads_outcome reads starts_with rendered top_statements_query_store_query
store_read top_n minutes h k = rw (h, k) refl

validate_top_n_in_range :
    (top_n : ℤ) → pos 1 ≤ℤ top_n → top_n ≤ℤ pos 10000 → validate_top_n top_n ≡ ok top_n
unfolding validate_top_n
validate_top_n_in_range top_n low high = ground arith

validate_lookback_minutes_in_range :
    (minutes : ℤ)
    → pos 1 ≤ℤ minutes
    → minutes ≤ℤ pos 10080
    → validate_lookback_minutes minutes ≡ ok minutes
unfolding validate_lookback_minutes
validate_lookback_minutes_in_range minutes low high = ground arith

abbrev pub out_of_range : Error
out_of_range = value_error (text_of "top_n must be between 1 and 10000")

validate_top_n_out :
    (top_n : ℤ)
    → ltb_ℤ top_n (pos 1) || ltb_ℤ (pos 10000) top_n ≡ true
    → validate_top_n top_n ≡ raise out_of_range
unfolding validate_top_n
validate_top_n_out top_n h = rw h refl

-- Every query of the catalogue, with a number of rows from 1 to 10000 and minutes from 1 to 10080
-- where it takes them, and with any names, is a statement that the write guard lets through: in deny
-- mode too, for a tool that may not write, unless a pattern of the denylist matches it.
pub catalogue-Passes :
    (top_n minutes : ℤ) (schema_name table_name stat_name : Text)
    → pos 1 ≤ℤ top_n
    → top_n ≤ℤ pos 10000
    → pos 1 ≤ℤ minutes
    → minutes ≤ℤ pos 10080
    → Each Passes (sized top_n)
      × Passes (top_statements_query_store_query top_n minutes)
      × Each Passes fixed_queries
      × Passes (ok (statistics_histogram_query schema_name table_name stat_name))
unfolding reads_outcome reads starts_with rendered statistics_histogram_query
catalogue-Passes top_n minutes schema_name table_name stat_name low high low' high' =
    let good = validate_top_n_in_range top_n low high in
    let recent = validate_lookback_minutes_in_range minutes low' high' in
    (
      all-Passes (sized top_n) (sized_read top_n good),
      outcome-Passes (top_statements_query_store_query top_n minutes)
          (store_read top_n minutes good recent),
      all-Passes fixed_queries fixed_read,
      outcome-Passes (ok (statistics_histogram_query schema_name table_name stat_name)) refl,
    )

-- With a number of rows out of range no query that takes one gives a statement.
pub sized_refused :
    (top_n : ℤ)
    → ltb_ℤ top_n (pos 1) || ltb_ℤ (pos 10000) top_n ≡ true
    → Each (λ o. o ≡ raise out_of_range) (sized top_n)
unfolding excessive_permissions_query active_sessions_query lock_chain_query blocking_chain_query
    tran_locks_query waiting_tasks_query table_size_query fragmented_indexes_query
    stale_statistics_query statistics_never_updated_query low_sampled_statistics_query
    missing_statistics_coverage_candidate_query missing_index_dmv_query unused_indexes_query
    redundant_indexes_query duplicate_key_candidate_query datatype_inconsistency_query
    update_heavy_tables_query top_statements_dmv_fallback_query top_statements_object_pressure_query
sized_refused top_n h = rw (validate_top_n_out top_n h) (
  refl,
  (
    refl,
    (
      refl,
      (
        refl,
        (
          refl,
          (
            refl,
            (
              refl,
              (
                refl,
                (
                  refl,
                  (
                    refl,
                    (
                      refl,
                      (refl, (refl, (refl, (refl, (refl, (refl, (refl, (refl, (refl, tt))))))))),
                    ),
                  ),
                ),
              ),
            ),
          ),
        ),
      ),
    ),
  ),
)
