-- ===== src/Server/Redirect/Password.antt =====
-- The password of a link, and the handler of short codes as a whole.
use shortr.Base.{
  ℕ, ◌≡◌, refl, sym, subst, ap, ◌∙◌, Bool, true, false, ◌||◌, ◌∷◌, ◌++◌, Option, none, some,
  is_some, Bool-cases, Option-cases, inl, inr, arith,
}
use shortr.Base.Bytes.{codes, bytes_eq, has_suffix}
use shortr.Store.{Link, Res, ok, err, has_password}
use shortr.Link.Code.{valid_code_path_segment}
use shortr.Link.Service.{Service}
use shortr.Link.Service.Coherent.{Coherent, resolve_for_redirect-Resolved}
use shortr.RateLimit.{allow}
use shortr.Auth.SignedCookie.{seal_value}
use shortr.Server.Redirect.{
  Method, get, head, post, options, other_method, Request, Web, Site, Answer, unlocked,
  link_cookie_payload, cookie_name, handle_lookup, check_password, handle_password_submit,
  handle_redirect, ip_text,
}
use shortr.Server.Redirect.Guards.{
  code_of, IsLinkOf, Justified, Guarded, resolved, resolved_link, handle_lookup-Guarded,
}

module _ (web : Web) (now : ℕ) (req : Request) where
  check_password-Justified :
      (s : Service) (l : Link)
      → IsLinkOf web now req s.store.links l
      → Justified web now req s (check_password web now (code_of req) req l)
  unfolding check_password
  check_password-Justified s l found = elim (Option-cases req.form_password) [
    | inl bad ↦ rw (bad, check_password) tt
    | inr (pw, sent) ↦ elim (Option-cases l.password_hash) [
      | inl unset ↦ rw (sent, unset, check_password) tt
      | inr (hash, stored) ↦ elim (Option-cases (web.verify_password pw hash)) [
        | inl broken ↦ rw (sent, stored, broken, check_password) tt
        | inr (good, checked) ↦ elim (Bool-cases good) [
          | inr wrong ↦ rw (sent, stored, checked, wrong, check_password) tt
          | inl right ↦
              let e : check_password web now (code_of req) req l
                  ≡ unlocked (b'/' ∷ code_of req) (cookie_name web l) (
                      seal_value web.codec web.secret (link_cookie_payload web l) 3600000000000
                        now) =
                simp (sent, stored, checked, right, check_password) in
              subst (Justified web now req s) (sym e) (record {
                link = l;
                found = found;
                password = pw;
                hash = hash;
                sent = sent;
                stored = stored;
                verified = checked ∙ ap some right;
                answer = (refl, refl);
              })
        ]
      ]
    ]
  ]

  -- The request after the limiter.
  abbrev limited : Site → Bool × Site
  limited site =
      let (allowed, limit) =
        allow now (codes "pwlink:" ++ (code_of req ++ b':' ∷ ip_text web req.client_ip))
          site.password_limit in
      (allowed, record site { password_limit = limit })

  handle_password_submit-Guarded :
      (site : Site)
      → Coherent site.links
      → Guarded web now req site (handle_password_submit web now (code_of req) req site)
  unfolding handle_password_submit
  handle_password_submit-Guarded site co = elim (Bool-cases (limited site).0) [
    | inr refused ↦ rw (refused, handle_password_submit) (co, tt)
    | inl allowed ↦ cases allowed (resolved web now req site.links).0 refl
  ]
    where
      out : Answer × Site
      out = handle_password_submit web now (code_of req) req site

      kept : Coherent (resolved web now req site.links).1
      kept = (resolve_for_redirect-Resolved now (code_of req) site.links co).0

      cases :
          (limited site).0 ≡ true
          → (a : Res (Option Link)) → (resolved web now req site.links).0 ≡ a
          → Guarded web now req site out
      cases allowed (err x) e = rw (allowed, e, handle_password_submit) (kept, tt)
      cases allowed (ok none) e = rw (allowed, e, handle_password_submit) (kept, tt)
      cases allowed (ok (some l)) e =
          elim (Bool-cases (is_some l.deleted_at || bytes_eq l.status (codes "disabled"))) [
            | inl hidden ↦ rw (allowed, e, hidden, handle_password_submit) (kept, tt)
            | inr shown ↦ elim (Bool-cases (has_password l)) [
              | inr unset ↦ rw (allowed, e, shown, unset, handle_password_submit) (kept, tt)
              | inl set ↦
                  let (r, here, same) = resolved_link web now req site.links l co e in
                  rw (allowed, e, shown, set, handle_password_submit)
                    (
                      kept,
                      check_password-Justified site.links l (record {
                        row = r;
                        in_table = here;
                        same = same;
                        not_deleted = ground arith;
                        enabled = ground arith;
                      }),
                    )
            ]
          ]

  -- If the cache is coherent with the table, it is so after any request for a short code. A visitor is
  -- sent to a target only if ResolveForRedirect answers the code with a link whose own click counter,
  -- which may be older than the table's, is below its limit, and which has no password or the request
  -- has a valid cookie for it; the table then has the code, up to the case of its letters, its row is
  -- that link but for the click counters, and is not deleted, disabled or expired; and the status and
  -- the target are those of the link. A cookie that unlocks a link is issued only for the link of the
  -- code, if it is not deleted or disabled and the password that was sent matches the link's.
  pub handle_redirect-Guarded :
      (site : Site)
      → Coherent site.links
      → Guarded web now req site (handle_redirect web now req site)
  unfolding handle_redirect
  handle_redirect-Guarded site co = elim (Bool-cases (has_suffix (codes "/") (code_of req))) [
    | inl slash ↦ rw (slash, handle_redirect) (co, tt)
    | inr plain ↦ elim (Bool-cases (valid_code_path_segment (code_of req))) [
      | inr bad ↦ rw (plain, bad, handle_redirect) (co, tt)
      | inl good ↦ cases plain good req.method refl
    ]
  ]
    where
      cases :
          has_suffix (codes "/") (code_of req) ≡ false
          → valid_code_path_segment (code_of req) ≡ true
          → (m : Method) → req.method ≡ m
          → Guarded web now req site (handle_redirect web now req site)
      cases plain good get e =
          let same : handle_redirect web now req site
              ≡ handle_lookup web now (code_of req) req site =
            simp (plain, good, e, handle_redirect) in
          subst (Guarded web now req site) (sym same) (handle_lookup-Guarded web now req site co)
      cases plain good head e =
          let same : handle_redirect web now req site
              ≡ handle_lookup web now (code_of req) req site =
            simp (plain, good, e, handle_redirect) in
          subst (Guarded web now req site) (sym same) (handle_lookup-Guarded web now req site co)
      cases plain good post e =
          let same : handle_redirect web now req site
              ≡ handle_password_submit web now (code_of req) req site =
            simp (plain, good, e, handle_redirect) in
          subst (Guarded web now req site) (sym same) (handle_password_submit-Guarded site co)
      cases plain good options e = rw (plain, good, e, handle_redirect) (co, tt)
      cases plain good other_method e = rw (plain, good, e, handle_redirect) (co, tt)
