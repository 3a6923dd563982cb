-- ===== src/Link/Service/Clicks.antt =====
-- The click counters: a limit on clicks is kept exactly.
use Prim.Native.Nat.{min}
use shortr.Base.{
  ℕ, ◌+◌, ◌-◌, ◌≡◌, true, false, ◌&&◌, List, [], ◌∷◌, some, All, ltb, if◌then◌else◌, Bool-cases,
  inl, inr, arith,
}
use shortr.Base.Bytes.{Bytes, bytes_eq, bytes_eq_refl}
use shortr.Base.Map.{lookup-insert}
use shortr.Store.{Link, has_id}
use shortr.Link.Service.{Service, HitCounter, counter_of, consume_click}

-- Calls of ConsumeClick, each with its time; and how many of those for a link were let through.
unfoldable pub granted : Bytes → List (Link × ℕ) → Service → ℕ
granted id [] s = 0
granted id ((l, now) ∷ calls) s =
    (if has_id id l && (consume_click now l s).0 then 1 else 0)
    + granted id calls (consume_click now l s).1

unfoldable pub calls_for : Bytes → List (Link × ℕ) → ℕ
calls_for id [] = 0
calls_for id ((l, now) ∷ calls) = (if has_id id l then 1 else 0) + calls_for id calls

module _ (l : Link) (m : ℕ) (limited : l.max_clicks ≡ some m) (now : ℕ) (s : Service) where
  consumed :
      ((consume_click now l s).0 ≡ ltb (counter_of l s.hits).n m)
      × ((counter_of l (consume_click now l s).1.hits).n ≡ (
          if ltb (counter_of l s.hits).n m
          then (counter_of l s.hits).n + 1
          else (counter_of l s.hits).n))
  unfolding consume_click
  consumed =
      let n = (counter_of l s.hits).n in
      let held : HitCounter = record { n = n; last = now } in
      let counted : HitCounter = record { n = n + 1; last = now } in
      let law = λ (v : HitCounter). lookup-insert l.id l.id v s.hits in
      (ground arith, ground (arith, law held, law counted, bytes_eq_refl l.id))

consumed_other :
    (l c : Link) (now : ℕ) (s : Service)
    → bytes_eq c.id l.id ≡ false
    → counter_of l (consume_click now c s).1.hits ≡ counter_of l s.hits
unfolding consume_click
consumed_other l c now s other =
    let n = (counter_of c s.hits).n in
    let held : HitCounter = record { n = n; last = now } in
    let counted : HitCounter = record { n = n + 1; last = now } in
    let law = λ (v : HitCounter). lookup-insert c.id l.id v s.hits in
    ground (arith, law held, law counted)

-- However the calls of ConsumeClick for a link with a click limit are mixed with those for other
-- links, exactly as many are let through as the limit leaves from where the link's counter stood,
-- which is the stored click count if it has none; and all of them, if there are fewer.
pub granted-eq-min :
    (l : Link) (m : ℕ) (calls : List (Link × ℕ)) (s : Service)
    → l.max_clicks ≡ some m
    → All (λ c. has_id l.id c.0 ≡ true → c.0 ≡ l) calls
    → granted l.id calls s ≡ min (calls_for l.id calls) (m - (counter_of l s.hits).n)
unfolding granted calls_for
granted-eq-min l m [] s limited same = omega arith
granted-eq-min l m ((c, now) ∷ calls) s limited (here, same) = elim (Bool-cases (has_id l.id c)) [
  | inr other ↦
      let ih = granted-eq-min l m calls (consume_click now c s).1 limited same in
      ground (arith, ih, consumed_other l c now s other)
  | inl this ↦
      let ih = granted-eq-min l m calls (consume_click now l s).1 limited same in
      let (let_through, counter) = consumed l m limited now s in
      rw (here this, bytes_eq_refl) (ground (arith, ih))
]
