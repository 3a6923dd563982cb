-- ===== src/Click/Writer/Ledger.antt =====
-- Every event that enters the queue is accounted for.
use shortr.Base.{
  ℕ, zero, suc, ◌+◌, ◌≤◌, ◌≡◌, refl, ap, ◌∙◌, Bool, true, false, List, [], ◌∷◌, map, length,
  length-append, ◌==◌, if◌then◌else◌, Bool-cases, Option-cases, inl, inr, arith,
}
use shortr.Click.{Event, Click}
use shortr.Click.Enrich.{Sources, safe_enrich}
use shortr.Click.Batch.{Db, insert_clicks_batch, round_click}
use shortr.Click.Batch.Counts.{Inserted, insert_clicks_batch-Inserted}
use shortr.Click.Writer.{Writer, spool_batch, flush_attempts, flush, flush_batch, add_event, drain}

length-map {ℓ κ} :
    {A : Type ℓ} {B : Type κ} (f : A → B) (xs : List A) → length (map f xs) ≡ length xs
length-map f [] = refl
length-map f (x ∷ xs) = ap suc (length-map f xs)

-- What the writer still holds.
abbrev pub held : Writer → ℕ
held w = length w.queue + length w.batch

-- What has left it, by its own counters.
abbrev pub gone : Writer → ℕ
gone w = w.written + w.dropped + w.spooled

abbrev pub rows_in : List (List Click) → ℕ
rows_in [] = 0
rows_in (f ∷ fs) = length f + rows_in fs

-- From `w` to `w'`, `n` clicks were handed to the database or the disk, or dropped.
record Handed (n : ℕ) (w w' : Writer) : Type 0 where
  queue : w'.queue ≡ w.queue
  batch : w'.batch ≡ w.batch
  cfg : w'.cfg ≡ w.cfg
  out : gone w' ≡ gone w + n
  table : length w'.db.clicks + w.written ≡ length w.db.clicks + w'.written

insert_rows :
    (cs : List Click) (bots : Bool) (db : Db)
    → length (insert_clicks_batch cs bots db).1.clicks
      ≡ length db.clicks + (if (insert_clicks_batch cs bots db).0 then length cs else 0)
insert_rows cs bots db =
    cases (insert_clicks_batch cs bots db) (insert_clicks_batch-Inserted cs bots db)
  where
    cases :
        (r : Bool × Db)
        → Inserted cs bots db r
        → length r.1.clicks ≡ length db.clicks + (if r.0 then length cs else 0)
    cases (false, db') (same, _) = omega (arith, ap length same)
    cases (true, db') (more, _) = omega (
      arith,
      ap length more,
      length-append db.clicks (map round_click cs),
      length-map round_click cs,
    )

attempts-Handed :
    (left : ℕ) (cs : List Click) (w : Writer)
    → Handed (if (flush_attempts left cs w).0 then length cs else 0) w (flush_attempts left cs w).1
unfolding flush_attempts
attempts-Handed zero cs w = record {
  queue = refl;
  batch = refl;
  cfg = refl;
  out = omega arith;
  table = omega arith;
}
attempts-Handed (suc left) cs w =
    elim (Bool-cases (insert_clicks_batch cs w.cfg.count_bots w.db).0) [
      | inl good ↦
          let rows = insert_rows cs w.cfg.count_bots w.db in
          rw (good, flush_attempts)
            (record {
              queue = refl;
              batch = refl;
              cfg = refl;
              out = omega arith;
              table = ground (arith, rows);
            })
      | inr bad ↦
          let rows = insert_rows cs w.cfg.count_bots w.db in
          let w' = record w {
            db = (insert_clicks_batch cs w.cfg.count_bots w.db).1;
            db_errors = w.db_errors + 1;
          } in
          let h = attempts-Handed left cs w' in
          rw (bad, flush_attempts)
            (record {
              queue = h.queue;
              batch = h.batch;
              cfg = h.cfg;
              out = h.out;
              table = ground (arith, rows, h.table);
            })
    ]

spool_batch-Handed : (cs : List Click) (w : Writer) → Handed (length cs) w (spool_batch cs w)
unfolding spool_batch
spool_batch-Handed cs w = record {
  queue = ground arith;
  batch = ground arith;
  cfg = ground arith;
  out = ground arith;
  table = ground arith;
}

flush-Handed : (cs : List Click) (w : Writer) → Handed (length cs) w (flush cs w)
unfolding flush
flush-Handed cs w =
    let h = attempts-Handed 4 cs w in
    let g = spool_batch-Handed cs (flush_attempts 4 cs w).1 in
    elim (Bool-cases (flush_attempts 4 cs w).0) [
      | inl good ↦ rw (good, flush) (rw good at h)
      | inr bad ↦
          let h' = rw bad at h in
          rw (bad, flush)
            (record {
              queue = g.queue ∙ h'.queue;
              batch = g.batch ∙ h'.batch;
              cfg = g.cfg ∙ h'.cfg;
              out = omega (arith, g.out, h'.out);
              table = omega (arith, g.table, h'.table);
            })
    ]

-- From `w` to `w'`, `n` events came in, and each is held, written, spooled or dropped.
pub record Balanced (n : ℕ) (w w' : Writer) : Type 0 where
  pub cfg : w'.cfg ≡ w.cfg
  pub sum : held w' + gone w' ≡ held w + gone w + n
  pub table : length w'.db.clicks + w.written ≡ length w.db.clicks + w'.written

pub flush_batch-Balanced :
    (w : Writer)
    → Balanced 0 w (flush_batch w)
      × (length (flush_batch w).batch ≡ 0)
      × ((flush_batch w).queue ≡ w.queue)
unfolding flush_batch
flush_batch-Balanced w = elim (Bool-cases (length w.batch == 0)) [
  | inl empty ↦
      rw (empty, flush_batch)
        (record { cfg = refl; sum = omega arith; table = omega arith }, ground arith, refl)
  | inr some_clicks ↦
      let h = flush-Handed w.batch w in
      let q = ap length h.queue in
      rw (some_clicks, flush_batch)
        (record { cfg = h.cfg; sum = omega (arith, h.out, q); table = h.table }, refl, h.queue)
]

module _ (src : Sources) where
  pub add_event-Balanced :
      (ev : Event) (w : Writer)
      → Balanced 1 w (add_event src ev w)
        × ((add_event src ev w).queue ≡ w.queue)
        × (length (add_event src ev w).batch ≤ length w.batch + 1)
  unfolding add_event
  add_event-Balanced ev w = elim (Option-cases (safe_enrich src ev)) [
    | inl lost ↦
        rw (lost, add_event)
          (record { cfg = refl; sum = omega arith; table = omega arith }, refl, omega arith)
    | inr (c, made) ↦
        let more = length-append w.batch (c ∷ []) in
        rw (made, add_event)
          (
            record { cfg = refl; sum = omega (arith, more); table = omega arith },
            refl,
            omega (arith, more),
          )
  ]

  pub drain-Balanced :
      (evs : List Event) (w : Writer)
      → Balanced (length evs) w (drain src evs w) × ((drain src evs w).queue ≡ w.queue)
  unfolding drain
  drain-Balanced [] w = (record { cfg = refl; sum = omega arith; table = omega arith }, refl)
  drain-Balanced (ev ∷ evs) w =
      let (a, q, _) = add_event-Balanced ev w in
      let (d, r) = drain-Balanced evs (add_event src ev w) in
      (
        record {
          cfg = d.cfg ∙ a.cfg;
          sum = omega (arith, a.sum, d.sum);
          table = omega (arith, a.table, d.table);
        },
        r ∙ q,
      )
