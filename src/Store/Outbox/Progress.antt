-- ===== src/Store/Outbox/Progress.antt =====
-- What a batch does when nothing fails: the oldest rows that are waiting are sent, in the order in
-- which they were queued.
use mathlib.Core.List.{append_assoc, append-nil}
use learn_go_project.Prelude.{
  ℕ, ◌+◌, ◌<◌, ◌≡◌, refl, sym, ◌∙◌, ap, Bool, Bool-cases, inl, inr, true, false, not, ◌&&◌, ◌||◌,
  none, List, [], ◌∷◌, ◌++◌, map, keep, take, length, All-keep, eqb, if◌then◌else◌, arith,
}
use learn_go_project.Exec.{committed}
use learn_go_project.Store.Tables.{OutboxRow, Tables}
use learn_go_project.Store.Consistency.{IsAscending}
use learn_go_project.Stream.Producer.{Broker, Network, delivered, publish}
use learn_go_project.Store.Outbox.{
  OutboxFaults, finished, Loop, scan_event, insert_by_id, order_by_id, claim, mark, mark_row, round,
  publish_loop, with_rows, commit_batch, end_batch, unless_failed, run_batch, publish_outbox,
}
use learn_go_project.Store.Outbox.Batch.{send_event, row_message}

-- A network that answers every send, and a database that does every call.
abbrev pub steady : Network
steady m b = delivered

abbrev pub no_outbox_faults : OutboxFaults
no_outbox_faults = record {
  begin = none;
  claim = none;
  scan = none;
  iterate = none;
  mark = λ _. none;
  commit = committed;
}

is_among : ℕ → List OutboxRow → Bool
is_among id [] = false
is_among id (q ∷ batch) = eqb id q.id || is_among id batch

-- The rows with those of a batch published, and the others as they were.
pub with_published : List OutboxRow → List OutboxRow → List OutboxRow
unfolding is_among
with_published batch [] = []
with_published batch (r ∷ rows) =
    let rest = with_published batch rows in
    if is_among r.id batch then record r { is_published = true } ∷ rest else r ∷ rest

with_published_none : (rows : List OutboxRow) → with_published [] rows ≡ rows
unfolding with_published is_among
with_published_none [] = refl
with_published_none (r ∷ rows) = ap (λ (l : List OutboxRow). r ∷ l) (with_published_none rows)

-- To mark a row and then the rest of a batch is to publish the batch.
with_published-mark :
    (q : OutboxRow) (batch rows : List OutboxRow)
    → with_published batch (mark q.id rows) ≡ with_published (q ∷ batch) rows
unfolding with_published is_among mark mark_row
with_published-mark q batch [] = refl
with_published-mark q batch (r ∷ rows) = ground (arith, with_published-mark q batch rows)

publish_loop-steady :
    (batch : List OutboxRow) (s : Loop Broker)
    → publish_loop (send_event steady) (λ _. none) (map scan_event batch) s ≡ (
      finished,
      record {
        published = s.published + length batch;
        broker = s.broker ++ map row_message batch;
        rows = with_published batch s.rows;
      },
    )
unfolding publish_loop publish round
publish_loop-steady [] s =
    ap (λ c. (finished, record s { broker = c })) (sym (append-nil s.broker))
    ∙ ground (arith, with_published_none s.rows)
publish_loop-steady (q ∷ batch) s =
    publish_loop-steady batch (record {
      published = s.published + 1;
      broker = s.broker ++ row_message q ∷ [];
      rows = mark q.id s.rows;
    })
    ∙ ground (
      arith,
      append_assoc s.broker (row_message q ∷ []) (map row_message batch),
      with_published-mark q batch s.rows,
    )

order_by_id-IsAscending : (rows : List OutboxRow) → IsAscending rows → order_by_id rows ≡ rows
unfolding order_by_id insert_by_id
order_by_id-IsAscending [] h = refl
order_by_id-IsAscending (r ∷ []) h = refl
order_by_id-IsAscending (r ∷ q ∷ rows) h = ground (arith, order_by_id-IsAscending (q ∷ rows) h.1)

IsAscending-keep :
    (test : OutboxRow → Bool) (rows : List OutboxRow)
    → IsAscending rows
    → IsAscending (keep test rows)
IsAscending-keep test [] h = tt
IsAscending-keep test (r ∷ rows) h = elim (Bool-cases (test r)) [
  | inl t ↦ rw t (All-keep (λ q. r.id < q.id) test rows h.0, IsAscending-keep test rows h.1)
  | inr t ↦ rw t (IsAscending-keep test rows h.1)
]

-- The rows that a batch takes up: the first ones that are not published and that no other replica
-- holds.
pub waiting : (ℕ → Bool) → ℕ → List OutboxRow → List OutboxRow
waiting locked limit rows = take limit (keep (λ r. not r.is_published && not (locked r.id)) rows)

claim-waiting :
    (locked : ℕ → Bool) (limit : ℕ) (rows : List OutboxRow)
    → IsAscending rows
    → claim locked limit rows ≡ map scan_event (waiting locked limit rows)
unfolding claim waiting
claim-waiting locked limit rows h =
    rw
      (order_by_id-IsAscending _
        (IsAscending-keep (λ r. not r.is_published && not (locked r.id)) rows h))
      refl

module _ {F : Type 0} (locked : ℕ → Bool) (limit : ℕ) (b : Broker) (db : Tables F)
    (ascending : IsAscending db.outbox) where
  -- If the ids of the outbox ascend and no call fails, a batch sends the messages of the first `limit` rows that are neither published
  -- nor held by another replica, in the order of the outbox, returns their number and no error, and
  -- leaves the rows with their ids published and the other rows as they were.
  pub publish_outbox-delivers :
      publish_outbox (send_event steady) locked no_outbox_faults limit b db ≡ record {
        count = length (waiting locked limit db.outbox);
        error = none;
        broker = b ++ map row_message (waiting locked limit db.outbox);
        tables = with_rows db (with_published (waiting locked limit db.outbox) db.outbox);
      }
  unfolding publish_outbox run_batch unless_failed end_batch commit_batch
  publish_outbox-delivers = rw (claim-waiting locked limit db.outbox ascending) (
      rw
        (publish_loop-steady (waiting locked limit db.outbox)
          (record { published = 0; broker = b; rows = db.outbox }))
        (ground arith))
