-- ===== src/Server/Redirect/Guards.antt =====
-- Whom the handler of short codes sends on, and with what.
use shortr.Base.{
  ℕ, ◌≡◌, refl, sym, ap, ◌∙◌, true, false, not, ◌&&◌, ◌||◌, List, Option, none, some, ltb, leb,
  Bool-cases, Option-cases, ◌⊎◌, inl, inr, arith,
}
use shortr.Base.Bytes.{Bytes, codes, bytes_eq, to_lower, trim_prefix}
use shortr.Store.{Link, Res, ok, err, not_found, conflict, db_error, has_password}
use shortr.Store.Rows.{row_of}
use shortr.Link.Service.{Service, resolve_for_redirect, consume_click}
use shortr.Link.Service.Coherent.{
  strip, Coherent, Answers, same-Coherent, resolve_for_redirect-Resolved,
}
use shortr.Auth.SignedCookie.{seal_value}
use shortr.Server.Redirect.{
  Request, Web, Site, Answer, redirected, unlocked, unavailable, build_target_url,
  link_cookie_payload, cookie_name, has_valid_password_cookie, send, reserve_click, visit,
  handle_lookup,
}

abbrev pub code_of : Request → Bytes
code_of req = trim_prefix (codes "/") req.path

-- A click that is reserved changes neither the rows nor the cache.
reserve_click-Coherent :
    (web : Web) (now : ℕ) (req : Request) (l : Link) (s : Service)
    → Coherent s
    → Coherent (reserve_click web now req l s).1
      × ((reserve_click web now req l s).1.store.links ≡ s.store.links)
unfolding reserve_click consume_click
reserve_click-Coherent web now req l s co =
    let rows : (reserve_click web now req l s).1.store.links ≡ s.store.links = ground arith in
    let cache : (reserve_click web now req l s).1.cache ≡ s.cache = ground arith in
    (same-Coherent s (reserve_click web now req l s).1 rows cache co, rows)

module _ (web : Web) (now : ℕ) (req : Request) where
  -- The link of the requested code in the table, up to its click counters.
  pub record IsLinkOf (rows : List Link) (l : Link) : Type 0 where
    pub row : Link
    pub in_table : row_of (to_lower (code_of req)) rows ≡ some row
    pub same : strip l ≡ strip row
    pub not_deleted : l.deleted_at ≡ none
    pub enabled : bytes_eq l.status (codes "disabled") ≡ false

  -- The resolution of the requested code.
  abbrev pub resolved : Service → Res (Option Link) × Service
  resolved s = resolve_for_redirect now (code_of req) s

  -- What a redirect to the target of a link takes. The click counter that is compared is that of the
  -- link which the resolution of the code returns.
  pub record IsServed (s : Service) (status : ℕ) (target : Bytes) : Type 0 where
    pub link : Link
    pub answered_with : (resolved s).0 ≡ ok (some link)
    pub found : IsLinkOf s.store.links link
    pub not_expired : (elim link.expires_at [ none ↦ false | some t ↦ ltb t now ]) ≡ false
    pub has_clicks :
        (elim link.max_clicks [ none ↦ false | some m ↦ leb m link.click_count ]) ≡ false
    pub cookie : (not (has_password link) || has_valid_password_cookie web now req link) ≡ true
    pub answer :
        (status ≡ link.redirect_status) × (target ≡ build_target_url web link req.raw_query)

  -- What an unlocking cookie takes.
  pub record IsUnlocked (rows : List Link) (name token : Bytes) : Type 0 where
    pub link : Link
    pub found : IsLinkOf rows link
    pub password : Bytes
    pub hash : Bytes
    pub sent : req.form_password ≡ some password
    pub stored : link.password_hash ≡ some hash
    pub verified : web.verify_password password hash ≡ some true
    pub answer :
        (name ≡ cookie_name web link)
        × (token ≡ seal_value web.codec web.secret (link_cookie_payload web link) 3600000000000 now)

  abbrev pub Justified : Service → Answer → Type 0
  Justified s (redirected status target) = IsServed s status target
  Justified s (unlocked path name token) = IsUnlocked s.store.links name token
  Justified s _ = Unit

  abbrev pub Guarded : Site → Answer × Site → Type 0
  Guarded site r = Coherent r.1.links × Justified site.links r.0

  send-links : (l : Link) (site : Site) → (send web now req l site).1.links ≡ site.links
  unfolding send
  send-links l site = ground arith

  send-answer :
      (l : Link) (site : Site)
      → (send web now req l site).0
        ≡ redirected l.redirect_status (build_target_url web l req.raw_query)
  unfolding send
  send-answer l site = ground arith

  available :
      (l : Link)
      → unavailable now l ≡ none
      → (l.deleted_at ≡ none)
        × (bytes_eq l.status (codes "disabled") ≡ false)
        × ((elim l.expires_at [ none ↦ false | some t ↦ ltb t now ]) ≡ false)
        × ((elim l.max_clicks [ none ↦ false | some m ↦ leb m l.click_count ]) ≡ false)
  unfolding unavailable
  available l h = (ground arith, ground arith, ground arith, ground arith)

  visit-Guarded :
      (l row : Link) (s : Service) (site : Site)
      → (resolved s).0 ≡ ok (some l)
      → row_of (to_lower (code_of req)) s.store.links ≡ some row
      → strip l ≡ strip row
      → Coherent site.links
      → Coherent (visit web now req l site).1.links × Justified s (visit web now req l site).0
  unfolding visit
  visit-Guarded l row s site answer here same co = elim (Option-cases (unavailable now l)) [
    | inr ((status, name, label), gone) ↦ rw (gone, visit) (co, tt)
    | inl fine ↦
        elim (Bool-cases (has_password l && not (has_valid_password_cookie web now req l))) [
          | inl locked ↦ rw (fine, locked, visit) (co, tt)
          | inr free ↦
              let (kept, _) = reserve_click-Coherent web now req l site.links co in
              let s' = record site { links = (reserve_click web now req l site.links).1 } in
              elim (Bool-cases (reserve_click web now req l site.links).0) [
                | inr spent ↦ rw (fine, free, spent, visit) (kept, tt)
                | inl granted ↦
                    let (alive, enabled, fresh, clicks) = available l fine in
                    rw (fine, free, granted, visit, send-links l s', send-answer l s')
                      (
                        kept,
                        record {
                          link = l;
                          answered_with = answer;
                          found = record {
                            row = row;
                            in_table = here;
                            same = same;
                            not_deleted = alive;
                            enabled = enabled;
                          };
                          not_expired = fresh;
                          has_clicks = clicks;
                          cookie = ground (arith, free);
                          answer = (refl, refl);
                        },
                      )
              ]
        ]
  ]

  answered :
      (res : Res (Option Link)) (row : Option Link) (l : Link)
      → res ≡ ok (some l)
      → (res ≡ err db_error) ⊎ Answers res row
      → (r : Link) × (row ≡ some r) × (strip l ≡ strip r)
  answered (ok (some x)) (some r) l e (inr same) =
      let this : x ≡ l = ground arith in (r, refl, ap strip (sym this) ∙ same)
  answered (ok (some x)) none l e (inr none_here) = absurd none_here
  answered (ok (some x)) row l e (inl fault) = absurd (ground arith)
  answered (ok none) row l e h = absurd (ground arith)
  answered (err x) row l e h = absurd (ground arith)

  pub resolved_link :
      (s : Service) (l : Link)
      → Coherent s
      → (resolved s).0 ≡ ok (some l)
      → (r : Link) × (row_of (to_lower (code_of req)) s.store.links ≡ some r) × (strip l ≡ strip r)
  resolved_link s l co e =
      let (_, _, answer) = resolve_for_redirect-Resolved now (code_of req) s co in
      answered (resolved s).0 _ l e answer

  pub handle_lookup-Guarded :
      (site : Site)
      → Coherent site.links
      → Guarded site (handle_lookup web now (code_of req) req site)
  unfolding handle_lookup
  handle_lookup-Guarded site co = cases (resolved site.links).0 refl
    where
      kept : Coherent (resolved site.links).1
      kept = (resolve_for_redirect-Resolved now (code_of req) site.links co).0

      cases :
          (a : Res (Option Link))
          → (resolved site.links).0 ≡ a
          → Guarded site (handle_lookup web now (code_of req) req site)
      cases (ok (some l)) e =
          let (r, here, same) = resolved_link site.links l co e in
          rw (e, handle_lookup)
            (visit-Guarded l r site.links (record site { links = (resolved site.links).1 }) e here
              same kept)
      cases (ok none) e = rw (e, handle_lookup) (kept, tt)
      cases (err not_found) e = rw (e, handle_lookup) (kept, tt)
      cases (err conflict) e = rw (e, handle_lookup) (kept, tt)
      cases (err db_error) e = rw (e, handle_lookup) (kept, tt)
