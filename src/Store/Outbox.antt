-- ===== src/Store/Outbox.antt =====
-- `Postgres.PublishOutbox` of internal/store/postgres.go: a batch of unpublished rows is claimed,
-- published and marked in one database transaction.
--
-- `B` is the state of the broker that `publish` writes to. `locked` are the rows that the
-- transaction of another replica holds, which FOR UPDATE SKIP LOCKED leaves out.
pub mod Batch
pub mod Delivery
pub mod Progress
pub mod Keeps
use learn_go_project.Prelude.{
  ℕ, suc, ◌+◌, String, Bool, true, false, not, ◌&&◌, Option, none, some, List, [], ◌∷◌, map, keep,
  take, leb, eqb, if◌then◌else◌,
}
use learn_go_project.Errors.{Error, Result, ok, err, wrap}
use learn_go_project.Exec.{Commit, committed, aborted, unanswered}
use learn_go_project.Platform.{Bytes}
use learn_go_project.Store.Tables.{OutboxRow, Tables}

pub record OutboxEvent : Type 0 where
  pub id : ℕ
  pub event_id : String
  pub topic : String
  pub key : String
  pub payload : Bytes

-- rows.Scan
abbrev pub scan_event : OutboxRow → OutboxEvent
scan_event r = record {
  id = r.id;
  event_id = r.event_id;
  topic = r.topic;
  key = r.event_key;
  payload = r.payload;
}

-- ORDER BY id
unfoldable pub insert_by_id : OutboxRow → List OutboxRow → List OutboxRow
insert_by_id r [] = r ∷ []
insert_by_id r (s ∷ rs) = if leb r.id s.id then r ∷ s ∷ rs else s ∷ insert_by_id r rs

unfoldable pub order_by_id : List OutboxRow → List OutboxRow
unfolding insert_by_id
order_by_id [] = []
order_by_id (r ∷ rs) = insert_by_id r (order_by_id rs)

-- SELECT … WHERE published_at IS NULL ORDER BY id LIMIT $1 FOR UPDATE SKIP LOCKED
unfoldable pub claim : (ℕ → Bool) → ℕ → List OutboxRow → List OutboxEvent
unfolding order_by_id
claim locked limit rows =
    map scan_event
      (take limit (order_by_id (keep (λ r. not r.is_published && not (locked r.id)) rows)))

-- UPDATE outbox SET published_at = now() WHERE id = $1
unfoldable pub mark_row : ℕ → OutboxRow → OutboxRow
mark_row id r = if eqb r.id id then record r { is_published = true } else r

unfoldable pub mark : ℕ → List OutboxRow → List OutboxRow
unfolding mark_row
mark id rows = map (mark_row id) rows

-- How each call on the database fails, if it does; `mark` by the id of the row.
pub record OutboxFaults : Type 0 where
  pub begin : Option Error
  pub claim : Option Error
  -- the Scan of a claimed row, and the iteration over the rows
  pub scan : Option Error
  pub iterate : Option Error
  pub mark : ℕ → Option Error
  pub commit : Commit

-- How the loop over the claimed rows ends.
pub data LoopEnd : Type 0 where
  finished : LoopEnd
  publish_failed : Error → LoopEnd
  mark_failed : Error → LoopEnd

-- The loop's variables: the count, the broker, and the outbox as the transaction sees it.
pub record Loop (B : Type 0) : Type 0 where
  pub published : ℕ
  pub broker : B
  pub rows : List OutboxRow

module _ {B : Type 0} where
  -- One round: what publishing the event came to, what its UPDATE comes to, and the rest of the loop.
  unfoldable pub round :
      OutboxEvent
      → Option Error × B
      → Option Error
      → (Loop B → LoopEnd × Loop B)
      → Loop B
      → LoopEnd × Loop B
  round e (some x, b) marking rest s =
      (publish_failed (wrap "publish outbox event" x), record s { broker = b })
  round e (none, b) (some x) rest s =
      (mark_failed (wrap "mark outbox published" x), record s { broker = b })
  round e (none, b) none rest s =
      rest (record { published = s.published + 1; broker = b; rows = mark e.id s.rows })

  unfoldable pub publish_loop :
      (OutboxEvent → B → Option Error × B)
      → (ℕ → Option Error)
      → List OutboxEvent
      → Loop B
      → LoopEnd × Loop B
  unfolding round
  publish_loop publish mark_fault [] s = (finished, s)
  publish_loop publish mark_fault (e ∷ es) s =
      round e (publish e s.broker) (mark_fault e.id) (publish_loop publish mark_fault es) s

-- What Go returns beside the changed states: the count and the error.
pub record Published (F : Type 0) (B : Type 0) : Type 0 where
  pub count : ℕ
  pub error : Option Error
  pub broker : B
  pub tables : Tables F

abbrev pub with_rows : {F : Type 0} → Tables F → List OutboxRow → Tables F
with_rows db rows = record db { outbox = rows }

module _ {F B : Type 0} where
  -- COMMIT after the loop
  unfoldable pub commit_batch : Commit → Tables F → Option Error → Loop B → Published F B
  commit_batch committed db x s = record {
    count = s.published;
    error = x;
    broker = s.broker;
    tables = with_rows db s.rows;
  }
  commit_batch (aborted e) db x s = record {
    count = 0;
    error = some (wrap "commit outbox batch" e);
    broker = s.broker;
    tables = db;
  }
  commit_batch (unanswered e) db x s = record {
    count = 0;
    error = some (wrap "commit outbox batch" e);
    broker = s.broker;
    tables = with_rows db s.rows;
  }

  -- A failed UPDATE returns at once, and the deferred rollback undoes the marks of the batch.
  unfoldable pub end_batch : Commit → Tables F → LoopEnd × Loop B → Published F B
  unfolding commit_batch
  end_batch c db (finished, s) = commit_batch c db none s
  end_batch c db (publish_failed x, s) = commit_batch c db (some x) s
  end_batch c db (mark_failed x, s) = record {
    count = s.published;
    error = some x;
    broker = s.broker;
    tables = db;
  }

  -- A call that returns its error at once, and what follows it.
  unfoldable pub unless_failed :
      String → Option Error → B → Tables F → Published F B → Published F B
  unless_failed prefix none b db next = next
  unless_failed prefix (some x) b db next = record {
    count = 0;
    error = some (wrap prefix x);
    broker = b;
    tables = db;
  }

  -- The batch, once the claim was answered.
  unfoldable pub run_batch :
      (OutboxEvent → B → Option Error × B)
      → (ℕ → Bool)
      → OutboxFaults
      → ℕ
      → B
      → Tables F
      → Published F B
  unfolding publish_loop end_batch claim
  run_batch publish locked faults limit b db = end_batch faults.commit db (
      publish_loop publish faults.mark (claim locked limit db.outbox)
        (record { published = 0; broker = b; rows = db.outbox }))

  -- `PublishOutbox`
  unfoldable pub publish_outbox :
      (OutboxEvent → B → Option Error × B)
      → (ℕ → Bool)
      → OutboxFaults
      → ℕ
      → B
      → Tables F
      → Published F B
  unfolding run_batch unless_failed
  publish_outbox publish locked faults limit b db =
      unless_failed "begin outbox transaction" faults.begin b db (
        unless_failed "claim outbox rows" faults.claim b db (
          unless_failed "scan outbox" faults.scan b db (
            unless_failed "iterate outbox" faults.iterate b db
              (run_batch publish locked faults limit b db))))
