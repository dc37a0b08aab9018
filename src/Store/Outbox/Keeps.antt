-- ===== src/Store/Outbox/Keeps.antt =====
-- What a batch does not touch: the ids and the messages of the rows, and the other tables.
use learn_go_project.Prelude.{
  ℕ, ◌<◌, String, ◌≡◌, refl, ◌∙◌, Bool, Option, none, some, List, [], ◌∷◌, count_key, All, arith,
}
use learn_go_project.Errors.{Error}
use learn_go_project.Exec.{Commit, committed, aborted, unanswered}
use learn_go_project.Store.Tables.{OutboxRow, Tables, outbox_key}
use learn_go_project.Store.Consistency.{IsAscending, IsConsistent}
use learn_go_project.Store.Outbox.{
  OutboxEvent, OutboxFaults, LoopEnd, finished, publish_failed, mark_failed, Loop, Published,
  mark_row, mark, round, publish_loop, with_rows, commit_batch, end_batch, unless_failed, run_batch,
  publish_outbox,
}

module _ {F B : Type 0} (db : Tables F) (Q : Tables F → Type 0)
    (step : (id : ℕ) (rows : List OutboxRow)
      → Q (with_rows db rows)
      → Q (with_rows db (mark id rows))) where
  round_keeps :
      (e : OutboxEvent) (sent : Option Error × B) (marking : Option Error)
      (rest : Loop B → LoopEnd × Loop B) (s : Loop B)
      → ((t : Loop B) → Q (with_rows db t.rows) → Q (with_rows db (rest t).1.rows))
      → Q (with_rows db s.rows)
      → Q (with_rows db (round e sent marking rest s).1.rows)
  unfolding round
  round_keeps e (some x, b) marking rest s next q = q
  round_keeps e (none, b) (some x) rest s next q = q
  round_keeps e (none, b) none rest s next q = next _ (step e.id s.rows q)

  publish_loop_keeps :
      (publish : OutboxEvent → B → Option Error × B) (faults : ℕ → Option Error)
      (es : List OutboxEvent) (s : Loop B)
      → Q (with_rows db s.rows)
      → Q (with_rows db (publish_loop publish faults es s).1.rows)
  unfolding publish_loop
  publish_loop_keeps publish faults [] s q = q
  publish_loop_keeps publish faults (e ∷ es) s q =
      round_keeps e (publish e s.broker) (faults e.id) (publish_loop publish faults es) s
        (publish_loop_keeps publish faults es) q

  commit_batch_keeps :
      (c : Commit) (x : Option Error) (s : Loop B)
      → Q db
      → Q (with_rows db s.rows)
      → Q (commit_batch c db x s).tables
  unfolding commit_batch
  commit_batch_keeps committed x s q q' = q'
  commit_batch_keeps (aborted e) x s q q' = q
  commit_batch_keeps (unanswered e) x s q q' = q'

  end_batch_keeps :
      (c : Commit) (out : LoopEnd × Loop B)
      → Q db
      → Q (with_rows db out.1.rows)
      → Q (end_batch c db out).tables
  unfolding end_batch
  end_batch_keeps c (finished, s) q q' = commit_batch_keeps c none s q q'
  end_batch_keeps c (publish_failed x, s) q q' = commit_batch_keeps c (some x) s q q'
  end_batch_keeps c (mark_failed x, s) q q' = q

  unless_failed_keeps :
      (prefix : String) (x : Option Error) (b : B) (next : Published F B)
      → Q db
      → Q next.tables
      → Q (unless_failed prefix x b db next).tables
  unfolding unless_failed
  unless_failed_keeps prefix none b next q q' = q'
  unless_failed_keeps prefix (some x) b next q q' = q

  -- What marks keep, a batch keeps.
  pub publish_outbox_keeps :
      (publish : OutboxEvent → B → Option Error × B) (locked : ℕ → Bool) (faults : OutboxFaults)
      (limit : ℕ) (b : B)
      → Q db
      → Q (publish_outbox publish locked faults limit b db).tables
  unfolding publish_outbox run_batch
  publish_outbox_keeps publish locked faults limit b q = unless_failed_keeps _ faults.begin b _ q (
      unless_failed_keeps _ faults.claim b _ q (
        unless_failed_keeps _ faults.scan b _ q (
          unless_failed_keeps _ faults.iterate b _ q
            (end_batch_keeps faults.commit _ q (publish_loop_keeps publish faults.mark _ _ q)))))

mark_row-key :
    (id : ℕ) (r : OutboxRow)
    → ((mark_row id r).id ≡ r.id) × (outbox_key (mark_row id r) ≡ outbox_key r)
unfolding mark_row
mark_row-key id r = ground arith

count_key-mark :
    (k : String) (id : ℕ) (rows : List OutboxRow)
    → count_key outbox_key k (mark id rows) ≡ count_key outbox_key k rows
unfolding mark count_key
count_key-mark k id [] = refl
count_key-mark k id (r ∷ rows) = rw ((mark_row-key id r).1, count_key-mark k id rows) refl

All-mark :
    (P : ℕ → Type 0) (id : ℕ) (rows : List OutboxRow)
    → All (λ r. P r.id) rows
    → All (λ r. P r.id) (mark id rows)
unfolding mark
All-mark P id [] h = tt
All-mark P id (r ∷ rows) h = (rw ((mark_row-key id r).0) h.0, All-mark P id rows h.1)

IsAscending-mark : (id : ℕ) (rows : List OutboxRow) → IsAscending rows → IsAscending (mark id rows)
unfolding mark
IsAscending-mark id [] h = tt
IsAscending-mark id (r ∷ rows) h = (
  rw ((mark_row-key id r).0) (All-mark (λ n. r.id < n) id rows h.0),
  IsAscending-mark id rows h.1,
)

module _ {F B : Type 0} where
  -- A batch keeps the tables consistent, whatever fails.
  pub publish_outbox-IsConsistent :
      (db : Tables F) (publish : OutboxEvent → B → Option Error × B) (locked : ℕ → Bool)
      (faults : OutboxFaults) (limit : ℕ) (b : B)
      → IsConsistent db
      → IsConsistent (publish_outbox publish locked faults limit b db).tables
  publish_outbox-IsConsistent db = publish_outbox_keeps db IsConsistent λ id rows c. record {
    one_transaction = c.one_transaction;
    one_event = c.one_event;
    assessed = c.assessed;
    queued = λ k. count_key-mark k id rows ∙ c.queued k;
    ids_below = All-mark (λ n. n < db.next_id) id rows c.ids_below;
    ids_ascending = IsAscending-mark id rows c.ids_ascending;
  }
