-- ===== src/Click/Writer/Runs.antt =====
-- The writer over any sequence of actions: no event is lost unnoticed, and the memory is bounded.
use shortr.Base.{
  ℕ, ◌+◌, ◌≤◌, ◌<◌, ◌≡◌, refl, ap, ◌∙◌, Bool, true, false, List, [], ◌∷◌, length, length-append,
  leb, if◌then◌else◌, arith,
}
use shortr.Click.{Event}
use shortr.Click.Enrich.{Sources}
use shortr.Click.Batch.{Db}
use shortr.Click.Writer.{
  WriterConfig, Writer, set_defaults, new_writer, enqueue, flush_batch, add_event, receive_from,
  receive, drain, cancelled, Action, enqueue_event, receive_event, tick, cancel, close_queue, step,
  run,
}
use shortr.Click.Writer.Ledger.{
  held, gone, Balanced, flush_batch-Balanced, add_event-Balanced, drain-Balanced,
}

-- The bounds on the queue and on the batch.
pub record InBounds (w : Writer) : Type 0 where
  pub queue : length w.queue ≤ w.cfg.queue_size
  pub batch : length w.batch < w.cfg.batch_size

abbrev Fine : ℕ → Writer → Writer → Type 0
Fine n w w' = Balanced n w w' × (InBounds w → InBounds w')

same-Fine :
    (w w' : Writer)
    → w'.cfg ≡ w.cfg
    → w'.queue ≡ w.queue
    → w'.batch ≡ w.batch
    → w'.db ≡ w.db
    → gone w' ≡ gone w
    → w'.written ≡ w.written
    → Fine 0 w w'
same-Fine w w' c q b d g n =
    let lq = ap length q in
    let lb = ap length b in
    let ld = ap (λ x. length x.clicks) d in
    (
      record { cfg = c; sum = omega (arith, lq, lb, g); table = omega (arith, ld, n) },
      λ i. record { queue = rw (c, q) i.queue; batch = rw (c, b) i.batch },
    )

flush_batch-Fine : (w : Writer) → Fine 0 w (flush_batch w)
flush_batch-Fine w =
    let (b, empty, q) = flush_batch-Balanced w in
    (
      b,
      λ i. record {
        queue = rw (b.cfg, q) i.queue;
        batch = rw b.cfg (omega (arith, empty, i.batch));
      },
    )

-- With `running` reset.
stop-Fine : (n : ℕ) (w w' : Writer) → Fine n w w' → Fine n w (record w' { running = false })
stop-Fine n w w' (b, f) = (
  record { cfg = b.cfg; sum = b.sum; table = b.table },
  λ i. record { queue = (f i).queue; batch = (f i).batch },
)

if-Fine :
    (n : ℕ) (w x y : Writer) (b : Bool)
    → (b ≡ true → Fine n w x)
    → (b ≡ false → Fine n w y)
    → Fine n w (if b then x else y)
if-Fine n w x y true f g = f refl
if-Fine n w x y false f g = g refl

module _ (src : Sources) where
  receive_from-Fine : (q : List Event) (w : Writer) → w.queue ≡ q → Fine 0 w (receive_from src q w)
  unfolding receive_from
  receive_from-Fine [] w e =
      if-Fine 0 w _ _ w.closed (λ h. stop-Fine 0 w (flush_batch w) (flush_batch-Fine w))
        (λ h. same-Fine w w refl refl refl refl refl refl)
  receive_from-Fine (ev ∷ evs) w e =
      let w' = add_event src ev (record w { queue = evs }) in
      let (a, q, one) = add_event-Balanced src ev (record w { queue = evs }) in
      let (b, empty, q') = flush_batch-Balanced w' in
      let lq = ap length e in
      let lq' = ap length q in
      let lq'' = ap length q' in
      if-Fine 0 w (flush_batch w') w' (leb w'.cfg.batch_size (length w'.batch))
        (λ h. (
          record {
            cfg = b.cfg ∙ a.cfg;
            sum = omega (arith, a.sum, b.sum, lq);
            table = omega (arith, a.table, b.table);
          },
          λ i. record {
            queue = rw (b.cfg ∙ a.cfg) (omega (arith, i.queue, lq, lq', lq''));
            batch = rw (b.cfg ∙ a.cfg) (omega (arith, empty, i.batch));
          },
        ))
        (λ h. (
          record { cfg = a.cfg; sum = omega (arith, a.sum, lq); table = a.table },
          λ i. record {
            queue = rw a.cfg (omega (arith, i.queue, lq, lq'));
            batch = ground (arith, h);
          },
        ))

  cancelled-Fine : (w : Writer) → Fine 0 w (cancelled src w)
  unfolding cancelled
  cancelled-Fine w =
      let w0 = record w { queue = [] } in
      let (d, q) = drain-Balanced src w.queue w0 in
      let (b, empty, q') = flush_batch-Balanced (drain src w.queue w0) in
      let none_left = ap length (q' ∙ q) in
      stop-Fine 0 w (flush_batch (drain src w.queue w0)) (
        record {
          cfg = b.cfg ∙ d.cfg;
          sum = omega (arith, b.sum, d.sum);
          table = omega (arith, b.table, d.table);
        },
        λ i. record {
          queue = rw (b.cfg ∙ d.cfg) (omega (arith, none_left));
          batch = rw (b.cfg ∙ d.cfg) (omega (arith, empty, i.batch));
        },
      )

  -- How many of the events of one action are offered.
  offered_by : Action src → Writer → ℕ
  offered_by (enqueue_event ev) w = if w.closed then 0 else 1
  offered_by _ w = 0

  enqueue-Fine : (ev : Event) (w : Writer) → Fine (if w.closed then 0 else 1) w (enqueue ev w).1
  unfolding enqueue
  enqueue-Fine ev w =
      let more = length-append w.queue (ev ∷ []) in
      (
        record { cfg = ground arith; sum = ground (arith, more); table = ground arith },
        λ i. record { queue = ground (arith, more, i.queue); batch = ground (arith, i.batch) },
      )

  step-Fine : (a : Action src) (w : Writer) → Fine (offered_by a w) w (step src a w)
  unfolding step offered_by receive receive_from
  step-Fine (enqueue_event ev) w = enqueue-Fine ev w
  step-Fine receive_event w =
      if-Fine 0 w _ _ w.running (λ h. receive_from-Fine w.queue w refl)
        (λ h. same-Fine w w refl refl refl refl refl refl)
  step-Fine tick w =
      if-Fine 0 w _ _ w.running (λ h. flush_batch-Fine w)
        (λ h. same-Fine w w refl refl refl refl refl refl)
  step-Fine cancel w =
      if-Fine 0 w _ _ w.running (λ h. cancelled-Fine w)
        (λ h. same-Fine w w refl refl refl refl refl refl)
  step-Fine close_queue w = same-Fine w _ refl refl refl refl refl refl

  -- How many events a sequence of actions hands to Enqueue before the queue is closed.
  unfoldable pub offered : List (Action src) → Writer → ℕ
  unfolding offered_by
  offered [] w = 0
  offered (a ∷ actions) w = offered_by a w + offered actions (step src a w)

  run-Fine :
      (actions : List (Action src)) (w : Writer) → Fine (offered actions w) w (run src actions w)
  unfolding run offered
  run-Fine [] w = same-Fine w w refl refl refl refl refl refl
  run-Fine (a ∷ actions) w =
      let (b, f) = step-Fine a w in
      let (c, g) = run-Fine actions (step src a w) in
      (
        record {
          cfg = c.cfg ∙ b.cfg;
          sum = omega (arith, b.sum, c.sum);
          table = omega (arith, b.table, c.table);
        },
        λ i. g (f i),
      )

  -- Whatever sequence of enqueued events, received events, ticks, cancellation and closing a new writer
  -- goes through, and whichever database and disk calls fail: every event that was offered is still
  -- held in the queue or the batch, or counted once as written, dropped or spooled; the clicks in the
  -- table are exactly the written ones more; the queue keeps its capacity, and the batch stays below
  -- its size.
  pub run-accounts :
      (cfg : WriterConfig) (db : Db) (disk_faults : ℕ → Bool) (actions : List (Action src))
      (w : Writer)
      → run src actions (new_writer cfg db disk_faults) ≡ w
      → (held w + gone w ≡ offered actions (new_writer cfg db disk_faults))
        × (length w.db.clicks ≡ length db.clicks + w.written)
        × (length w.queue ≤ (set_defaults cfg).queue_size)
        × (length w.batch < (set_defaults cfg).batch_size)
  unfolding new_writer set_defaults
  run-accounts cfg db disk_faults actions w e =
      let (b, f) = run-Fine actions (new_writer cfg db disk_faults) in
      let start : InBounds (new_writer cfg db disk_faults) = record {
        queue = omega arith;
        batch = ground arith;
      } in
      let i = f start in
      rw (← e)
        (omega (arith, b.sum), omega (arith, b.table), rw b.cfg at i.queue, rw b.cfg at i.batch)
