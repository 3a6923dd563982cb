-- ===== src/Click/Enrich/Bounds.antt =====
-- The size of what a visitor's headers leave in a row.
use shortr.Base.{ℕ, ◌≤◌, ◌≡◌, length, length-take-le, Bool-cases, inl, inr, arith, some, refl}
use shortr.Base.Bytes.{Bytes}
use shortr.Click.{Event, Click}
use shortr.Click.Agent.{first_lang_tag, before}
use shortr.Click.Enrich.{Sources, truncate, enrich, safe_enrich}
use shortr.Validate.{trim_space}

length-truncate-le : (s : Bytes) (n : ℕ) → length (truncate s n) ≤ n
unfolding truncate
length-truncate-le s n = ground (arith, length-take-le n s)

length-first_lang_tag-le : (s : Bytes) → length (first_lang_tag s) ≤ 35
unfolding first_lang_tag
length-first_lang_tag-le s =
    ground (arith, length-take-le 35 (trim_space (before b';' (before b',' (trim_space s)))))

-- Whatever headers and query a visitor sends, the row of an event that enriches without a panic has at
-- most 512 bytes in the column of the referrer and in that of the user agent, 256 in that of the whole
-- query and 35 in that of the language, and the link and the time of the event. The columns that are
-- taken out of the referrer and of the query, its host and the campaign parameters, are not bounded
-- here.
pub safe_enrich_bounds :
    (src : Sources) (ev : Event) (c : Click)
    → safe_enrich src ev ≡ some c
    → (length c.referrer ≤ 512)
      × (length c.user_agent ≤ 512)
      × (length c.qs ≤ 256)
      × (length c.lang ≤ 35)
      × (c.link_id ≡ ev.link_id)
      × (c.ts ≡ ev.ts)
unfolding safe_enrich enrich
safe_enrich_bounds src ev c e = elim (Bool-cases (src.panics ev)) [
  | inl lost ↦ absurd (ground arith)
  | inr fine ↦
      let same : enrich src ev ≡ c = ground arith in
      rw (← same) (
        length-truncate-le ev.referrer 512,
        length-truncate-le ev.user_agent 512,
        length-truncate-le ev.query_string 256,
        length-first_lang_tag-le ev.accept_language,
        refl,
        refl,
      )
]
