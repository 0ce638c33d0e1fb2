-- ===== src/Tools/Pages/Expiry.antt =====
-- What a registered page shows, and for how long.
use mcp_sql_server.Common.{
  Dict, IsDict, Option, Outcome, Text, [], all, ap, arith, false, if◌then◌else◌, insert,
  insert-IsDict, is_empty, is_space, keep_items-IsDict, leb, lookup, lookup-insert,
  lookup-keep_items, lstrip_cons, none, ok, pos, pos_part, raise, refl, rstrip_cons, some, strip,
  text_eq, text_eq_refl, true, ℕ, ℤ, ◌*◌, ◌++◌, ◌+◌, ◌>>=◌, ◌>>◌, ◌∷◌, ◌≡◌,
}
use mcp_sql_server.Tools.Pages.{
  Entry, check_page, cleanup_expired, drop_final_newline, find_entry, get_dashboard_page,
  get_valid_entry, id_char, id_matches, id_pattern, not_expired, register_dashboard_page, second,
  store_page, validate_html, validate_request_id, validate_ttl_seconds,
}

check_page-id :
    (request_id html : Text) (ttl : ℤ) (r : Text × ℤ)
    → check_page request_id html ttl ≡ ok r
    → validate_request_id request_id ≡ ok tt
unfolding check_page
check_page-id request_id html ttl r h =
    all_checks (validate_html html) (validate_ttl_seconds ttl) (validate_request_id request_id) h
  where
    all_checks :
        (a : Outcome Text) (b : Outcome ℤ) (c : Outcome (Unit {0}))
        → (do html' ← a; ttl' ← b; c; ok (html', ttl')) ≡ ok r
        → c ≡ ok tt
    all_checks (ok a) (ok b) (ok tt) h = refl
    all_checks (ok a) (ok b) (raise e) h = cc
    all_checks (ok a) (raise e) c h = cc
    all_checks (raise e) b c h = cc

module _ {M : Type 0} where
  -- The entry that a reader sees at a time.
  abbrev pub visible : ℕ → Option (Entry M) → Option (Entry M)
  visible now none = none
  visible now (some entry) = if leb entry.expires_epoch now then none else some entry

  lookup-cleanup :
      (now : ℕ) (request_id : Text) (pages : Dict (Entry M))
      → IsDict pages
      → lookup request_id (cleanup_expired now pages) ≡ visible now (lookup request_id pages)
  unfolding cleanup_expired
  lookup-cleanup now request_id pages h =
      ground (arith, lookup-keep_items (not_expired now) request_id pages h)

  found :
      (now : ℕ) (request_id : Text) (pages : Dict (Entry M)) (o : Option (Entry M))
      → (find_entry now request_id pages o).0 ≡ visible now o
  unfolding find_entry
  found now request_id pages none = refl
  found now request_id pages (some e) = ground arith

  visible_idem : (now : ℕ) (o : Option (Entry M)) → visible now (visible now o) ≡ visible now o
  visible_idem now none = refl
  visible_idem now (some e) = ground arith

  valid_entry :
      (now : ℕ) (request_id : Text) (pages : Dict (Entry M))
      → IsDict pages
      → validate_request_id request_id ≡ ok tt
      → (get_valid_entry now request_id pages).0 ≡ ok (visible now (lookup request_id pages))
  unfolding get_valid_entry
  valid_entry now request_id pages h ok_id =
      let cleaned = cleanup_expired now pages in
      ground (
        arith,
        found now request_id cleaned (lookup request_id cleaned),
        lookup-cleanup now request_id pages h,
        visible_idem now (lookup request_id pages),
      )

  cleanup-IsDict :
      (now : ℕ) (pages : Dict (Entry M)) → IsDict pages → IsDict (cleanup_expired now pages)
  unfolding cleanup_expired
  cleanup-IsDict now pages h = keep_items-IsDict (not_expired now) pages h

  -- A page is shown exactly until its time to live has passed: a page that was registered without an
  -- error is returned, as it was given, at every later time before `ttl_seconds` have passed, and
  -- from then on there is none.
  pub get-register :
      (then_epoch now_epoch : ℕ) (base request_id html : Text) (ttl : ℕ) (metadata : Option M)
      (pages : Dict (Entry M))
      → IsDict pages
      → check_page request_id html (pos ttl) ≡ ok (html, pos ttl)
      → let stored =
          (register_dashboard_page then_epoch base request_id html (pos ttl) metadata pages).1 in
        (get_dashboard_page now_epoch request_id stored).0
        ≡ ok (if leb (then_epoch + ttl * second) now_epoch then none else some html)
  unfolding register_dashboard_page store_page get_dashboard_page
  get-register then_epoch now_epoch base request_id html ttl metadata pages h checked =
      let cleaned = cleanup_expired then_epoch pages in
      let entry : Entry M = record {
        html = html;
        expires_epoch = then_epoch + ttl * second;
        metadata = metadata;
      } in
      let stored = insert request_id entry cleaned in
      let distinct = insert-IsDict request_id entry cleaned (cleanup-IsDict then_epoch pages h) in
      ground (
        arith,
        checked,
        valid_entry now_epoch request_id stored distinct
            (check_page-id request_id html (pos ttl) _ checked),
        lookup-insert request_id request_id entry cleaned,
        text_eq_refl request_id,
      )

  -- To register a page drops the pages that have expired by then, and leaves every other page as it
  -- was; a registration that raises leaves all.
  pub lookup-register :
      (now : ℕ) (base request_id other html : Text) (ttl : ℤ) (metadata : Option M)
      (pages : Dict (Entry M))
      → IsDict pages
      → text_eq request_id other ≡ false
      → lookup other (register_dashboard_page now base request_id html ttl metadata pages).1
        ≡ (elim (check_page request_id html ttl) [
          | ok _ ↦ visible now (lookup other pages)
          | raise _ ↦ lookup other pages
        ])
  unfolding register_dashboard_page
  lookup-register now base request_id other html ttl metadata pages h ne =
      stored (check_page request_id html ttl)
    where
      stored :
          (o : Outcome (Text × ℤ))
          → lookup other (store_page now base request_id metadata pages o).1
            ≡ (elim o [ ok _ ↦ visible now (lookup other pages) | raise _ ↦ lookup other pages ])
      stored (raise e) = unfold store_page in refl
      stored (ok (html', ttl')) =
          let entry : Entry M = record {
            html = html';
            expires_epoch = now + pos_part ttl' * second;
            metadata = metadata;
          } in
          unfold store_page in
          (rw (lookup-insert request_id other entry (cleanup_expired now pages), ne)
            (lookup-cleanup now other pages h))

id_char_solid : (c : ℕ) → id_char c ≡ true → is_space c ≡ false
unfolding id_char is_space
id_char_solid c h = ground arith

drop_newline : (s : Text) → drop_final_newline (s ++ b'\n' ∷ []) ≡ s
unfolding drop_final_newline
drop_newline [] = refl
drop_newline (c ∷ []) = refl
drop_newline (c ∷ d ∷ s) = ap (c ∷◌) (drop_newline (d ∷ s))

starts_solid : (c : ℕ) (s : Text) → is_space c ≡ false → is_empty (strip (c ∷ s)) ≡ false
unfolding strip
starts_solid c s h = rw (lstrip_cons c s h, rstrip_cons c s h) refl

head_char : (c : ℕ) (s : Text) → id_pattern (c ∷ s) ≡ true → id_char c ≡ true
unfolding id_pattern all
head_char c s h = ground arith

-- Beyond the documented format, which has alphanumerics, hyphens and underscores only, an id passes
-- that is followed by one line break.
pub newline_accepted :
    (request_id : Text)
    → id_pattern request_id ≡ true
    → validate_request_id (request_id ++ b'\n' ∷ []) ≡ ok tt
unfolding validate_request_id id_matches
newline_accepted [] h = absurd (unfold id_pattern all in cc)
newline_accepted (c ∷ s) h =
    rw
      (
        starts_solid c (s ++ b'\n' ∷ []) (id_char_solid c (head_char c s h)),
        drop_newline (c ∷ s),
        h,
      )
      (ground arith)
