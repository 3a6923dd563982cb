-- ===== src/Click/Writer.antt =====
-- internal/click/writer.go: the queue between the redirects and the database. The writer's loop is a
-- function on its state for each case of its `select`; `Action` says which case comes next. The disk
-- may fail at any call, as the database may. JSON and file names are not modelled.
pub mod Ledger
pub mod Runs
use shortr.Base.{
  ℕ, zero, suc, ◌+◌, Bool, true, false, not, List, [], ◌∷◌, ◌++◌, Option, none, some, length, ltb,
  leb, ◌==◌, if◌then◌else◌,
}
use shortr.Click.{Event, Click}
use shortr.Click.Enrich.{Sources, safe_enrich}
use shortr.Click.Batch.{Db, insert_clicks_batch}

pub record WriterConfig : Type 0 where
  pub batch_size : ℕ
  pub queue_size : ℕ
  pub has_spool_dir : Bool
  pub count_bots : Bool

-- A size below 1 is the number 0.
unfoldable pub set_defaults : WriterConfig → WriterConfig
set_defaults cfg = record cfg {
  batch_size = if cfg.batch_size == 0 then 500 else cfg.batch_size;
  queue_size = if cfg.queue_size == 0 then 10000 else cfg.queue_size;
}

-- `spool` holds the files; `running` says that `Run` has not returned.
pub record Writer : Type 0 where
  pub cfg : WriterConfig
  pub queue : List Event
  pub closed : Bool
  pub running : Bool
  pub batch : List Click
  pub db : Db
  pub disk_calls : ℕ
  pub disk_faults : ℕ → Bool
  pub spool : List (List Click)
  pub written : ℕ
  pub dropped : ℕ
  pub spooled : ℕ
  pub db_errors : ℕ

unfoldable pub new_writer : WriterConfig → Db → (ℕ → Bool) → Writer
unfolding set_defaults
new_writer cfg db disk_faults = record {
  cfg = set_defaults cfg;
  queue = [];
  closed = false;
  running = true;
  batch = [];
  db = db;
  disk_calls = 0;
  disk_faults = disk_faults;
  spool = [];
  written = 0;
  dropped = 0;
  spooled = 0;
  db_errors = 0;
}

pub data Enqueued : Type 0 where
  queued full panicked : Enqueued

-- A send on a closed channel panics.
unfoldable pub enqueue : Event → Writer → Enqueued × Writer
enqueue ev w =
    if w.closed
    then (panicked, w)
    else if ltb (length w.queue) w.cfg.queue_size
    then (queued, record w { queue = w.queue ++ ev ∷ [] })
    else (full, record w { dropped = w.dropped + 1 })

-- The loop that encodes a batch: an error is logged, and the next click is tried.
unfoldable pub encode_all : (ℕ → Bool) → ℕ → List Click → List Click
encode_all faults n [] = []
encode_all faults n (c ∷ cs) =
    let rest = encode_all faults (n + 1) cs in if faults n then rest else c ∷ rest

unfoldable pub spool_batch : List Click → Writer → Writer
unfolding encode_all
spool_batch cs w =
    let n = w.disk_calls in
    if not w.cfg.has_spool_dir
    then record w { dropped = w.dropped + length cs }
    else if w.disk_faults n
    then record w { disk_calls = n + 1; dropped = w.dropped + length cs }
    else if w.disk_faults (n + 1)
    then record w { disk_calls = n + 2; dropped = w.dropped + length cs }
    else record w {
      disk_calls = n + 2 + length cs;
      spool = w.spool ++ encode_all w.disk_faults (n + 2) cs ∷ [];
      spooled = w.spooled + length cs;
    }

-- The attempts that are left; the result says whether one succeeded.
unfoldable pub flush_attempts : ℕ → List Click → Writer → Bool × Writer
flush_attempts zero cs w = (false, w)
flush_attempts (suc left) cs w = elim (insert_clicks_batch cs w.cfg.count_bots w.db).0 [
  | true ↦ (
    true,
    record w {
      db = (insert_clicks_batch cs w.cfg.count_bots w.db).1;
      written = w.written + length cs;
    },
  )
  | false ↦ flush_attempts left cs (record w {
    db = (insert_clicks_batch cs w.cfg.count_bots w.db).1;
    db_errors = w.db_errors + 1;
  })
]

unfoldable pub flush : List Click → Writer → Writer
flush cs w = let (done, w') = flush_attempts 4 cs w in if done then w' else spool_batch cs w'

-- The closure `flush` of `Run`, which skips an empty batch.
unfoldable pub flush_batch : Writer → Writer
flush_batch w = if length w.batch == 0 then w else record (flush w.batch w) { batch = [] }

module _ (src : Sources) where
  -- An event that was taken from the queue.
  unfoldable pub add_event : Event → Writer → Writer
  add_event ev w = elim (safe_enrich src ev) [
    | none ↦ record w { dropped = w.dropped + 1 }
    | some c ↦ record w { batch = w.batch ++ c ∷ [] }
  ]

  -- The case of the queue, whose events are given.
  unfoldable pub receive_from : List Event → Writer → Writer
  receive_from [] w = if w.closed then record (flush_batch w) { running = false } else w
  receive_from (ev ∷ evs) w =
      let w' = add_event ev (record w { queue = evs }) in
      if leb w'.cfg.batch_size (length w'.batch) then flush_batch w' else w'

  unfoldable pub receive : Writer → Writer
  unfolding receive_from
  receive w = receive_from w.queue w

  unfoldable pub drain : List Event → Writer → Writer
  drain [] w = w
  drain (ev ∷ evs) w = drain evs (add_event ev w)

  -- The case of the cancelled context.
  unfoldable pub cancelled : Writer → Writer
  cancelled w = record (flush_batch (drain w.queue (record w { queue = [] }))) { running = false }

  pub data Action : Type 0 where
    enqueue_event : Event → Action
    receive_event tick cancel close_queue : Action

  unfoldable pub step : Action → Writer → Writer
  step (enqueue_event ev) w = (enqueue ev w).1
  step receive_event w = if w.running then receive w else w
  step tick w = if w.running then flush_batch w else w
  step cancel w = if w.running then cancelled w else w
  step close_queue w = record w { closed = true }

  unfoldable pub run : List Action → Writer → Writer
  run [] w = w
  run (a ∷ actions) w = run actions (step a w)
