-- ===== src/Tools/Pages.antt =====
-- tools/dashboard_page_store.py: the pages by request id. Times are microseconds; `M` is the type of
-- the metadata, which the store copies and never reads.
pub mod Expiry
use mathlib.Core.Option
use mcp_sql_server.Common.{
  Bool, Dict, Option, Outcome, Text, [], all, codes, delete, if◌then◌else◌, insert, int, is_empty,
  keep_items, leb, length, lit, lookup, ltb_ℤ, map, none, not, ok, or_default, pos, pos_part, raise,
  raise_if, some, strip, text_of, value_error, ℕ, ℤ, ◌&&◌, ◌*◌, ◌++◌, ◌+◌, ◌==◌, ◌>>=◌, ◌>>◌, ◌||◌,
  ◌∷◌,
}

abbrev pub second : ℕ
second = 1000000

abbrev pub max_ttl_seconds : ℕ
max_ttl_seconds = 7 * 24 * 60 * 60

-- [a-zA-Z0-9_-]
unfoldable pub id_char : ℕ → Bool
id_char c =
    leb b'a' c && leb c b'z'
    || leb b'A' c && leb c b'Z'
    || leb b'0' c && leb c b'9'
    || c == b'_'
    || c == b'-'

-- The pattern ^[a-zA-Z0-9_-]{1,255}$, whose `$` also matches before a line break at the end.
unfoldable pub id_pattern : Text → Bool
unfolding all id_char
id_pattern s = all id_char s && leb 1 (length s) && leb (length s) 255

unfoldable pub drop_final_newline : Text → Text
drop_final_newline [] = []
drop_final_newline (c ∷ []) = if c == b'\n' then [] else c ∷ []
drop_final_newline (c ∷ d ∷ s) = c ∷ drop_final_newline (d ∷ s)

unfoldable pub id_matches : Text → Bool
unfolding id_pattern drop_final_newline
id_matches s = id_pattern s || id_pattern (drop_final_newline s)

unfoldable pub validate_request_id : Text → Outcome (Unit {0})
unfolding strip id_matches
validate_request_id request_id = do
  raise_if (is_empty (strip request_id))
      (value_error (text_of "request_id must be a non-empty string"))
  raise_if (not (id_matches request_id))
      (value_error (text_of "request_id contains invalid characters"))

unfoldable pub validate_html : Text → Outcome Text
unfolding strip
validate_html html = do
  raise_if (is_empty (strip html)) (value_error (text_of "html must be a non-empty string"))
  ok html

unfoldable pub validate_ttl_seconds : ℤ → Outcome ℤ
validate_ttl_seconds ttl = do
  raise_if (ltb_ℤ ttl (pos 1)) (value_error (text_of "ttl_seconds must be >= 1"))
  raise_if (ltb_ℤ (pos max_ttl_seconds) ttl)
      (value_error (lit "ttl_seconds must be <= " ∷ int (pos max_ttl_seconds) ∷ []))
  ok ttl

-- `rstrip("/")`
unfoldable pub strip_slashes : Text → Text
strip_slashes [] = []
strip_slashes (c ∷ s) =
    let rest = strip_slashes s in if is_empty rest && c == b'/' then [] else c ∷ rest

-- `_public_base_url`, for the value of FASTMCP_PUBLIC_BASE_URL
unfoldable pub public_base_url : Option Text → Text
unfolding strip strip_slashes
public_base_url env = strip_slashes (strip (or_default env (codes "http://localhost:8080")))

pub record Entry (M : Type 0) : Type 0 where
  pub html : Text
  pub expires_epoch : ℕ
  pub metadata : Option M

abbrev pub page_url : Text → Text → Text
page_url base request_id = base ++ codes "/diagnostics/dashboards/" ++ request_id

-- The checks of a registration, in their order.
unfoldable pub check_page : Text → Text → ℤ → Outcome (Text × ℤ)
unfolding validate_html validate_ttl_seconds validate_request_id
check_page request_id html ttl_seconds = do
  html' ← validate_html html
  ttl ← validate_ttl_seconds ttl_seconds
  validate_request_id request_id
  ok (html', ttl)

module _ {M : Type 0} where
  abbrev pub not_expired : ℕ → Text → Entry M → Bool
  not_expired now_epoch request_id entry = not (leb entry.expires_epoch now_epoch)

  -- `_cleanup_expired`: it takes the expired ids and pops them.
  unfoldable pub cleanup_expired : ℕ → Dict (Entry M) → Dict (Entry M)
  unfolding keep_items
  cleanup_expired now_epoch pages = keep_items (not_expired now_epoch) pages

  unfoldable pub store_page :
      ℕ
      → Text
      → Text
      → Option M
      → Dict (Entry M)
      → Outcome (Text × ℤ)
      → Outcome Text × Dict (Entry M)
  unfolding cleanup_expired insert
  store_page now_epoch base request_id metadata pages (raise e) = (raise e, pages)
  store_page now_epoch base request_id metadata pages (ok (html, ttl)) =
      let entry : Entry M = record {
        html = html;
        expires_epoch = now_epoch + pos_part ttl * second;
        metadata = metadata;
      } in
      (ok (page_url base request_id), insert request_id entry (cleanup_expired now_epoch pages))

  -- `register_dashboard_page_with_metadata`
  unfoldable pub register_dashboard_page :
      ℕ → Text → Text → Text → ℤ → Option M → Dict (Entry M) → Outcome Text × Dict (Entry M)
  unfolding check_page store_page
  register_dashboard_page now_epoch base request_id html ttl_seconds metadata pages =
      store_page now_epoch base request_id metadata pages (check_page request_id html ttl_seconds)

  unfoldable pub find_entry :
      ℕ → Text → Dict (Entry M) → Option (Entry M) → Option (Entry M) × Dict (Entry M)
  unfolding delete
  find_entry now_epoch request_id pages none = (none, pages)
  find_entry now_epoch request_id pages (some entry) =
      if leb entry.expires_epoch now_epoch
      then (none, delete request_id pages)
      else (some entry, pages)

  -- `_get_valid_entry`
  unfoldable pub get_valid_entry :
      ℕ → Text → Dict (Entry M) → Outcome (Option (Entry M)) × Dict (Entry M)
  unfolding validate_request_id cleanup_expired find_entry lookup
  get_valid_entry now_epoch request_id pages = elim (validate_request_id request_id) [
    | raise e ↦ (raise e, pages)
    | ok _ ↦
        let cleaned = cleanup_expired now_epoch pages in
        let (entry, left) = find_entry now_epoch request_id cleaned (lookup request_id cleaned) in
        (ok entry, left)
  ]

  -- `get_dashboard_page`, `get_dashboard_page_metadata` and the expiry that
  -- `get_dashboard_page_expiry_utc` formats.
  unfoldable pub get_dashboard_page :
      ℕ → Text → Dict (Entry M) → Outcome (Option Text) × Dict (Entry M)
  unfolding get_valid_entry
  get_dashboard_page now_epoch request_id pages =
      let (r, left) = get_valid_entry now_epoch request_id pages in
      (r >>= (λ entry. ok (Option.map (λ e. e.html) entry)), left)

  unfoldable pub get_dashboard_page_metadata :
      ℕ → Text → Dict (Entry M) → Outcome (Option M) × Dict (Entry M)
  unfolding get_valid_entry
  get_dashboard_page_metadata now_epoch request_id pages =
      let (r, left) = get_valid_entry now_epoch request_id pages in
      (r >>= (λ entry. ok (Option.bind entry (λ e. e.metadata))), left)

  unfoldable pub get_dashboard_page_expiry :
      ℕ → Text → Dict (Entry M) → Outcome (Option ℕ) × Dict (Entry M)
  unfolding get_valid_entry
  get_dashboard_page_expiry now_epoch request_id pages =
      let (r, left) = get_valid_entry now_epoch request_id pages in
      (r >>= (λ entry. ok (Option.map (λ e. e.expires_epoch) entry)), left)

-- `register_dashboard_page`: fifteen minutes if not said otherwise, and no metadata.
abbrev pub default_ttl_seconds : ℤ
default_ttl_seconds = pos 900

-- `clear_dashboard_pages`
abbrev pub no_pages : {M : Type 0} → Dict (Entry M)
no_pages = []
