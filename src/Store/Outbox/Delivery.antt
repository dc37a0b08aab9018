-- ===== src/Store/Outbox/Delivery.antt =====
-- Publication is at least once: no row is marked whose message the broker does not have.
use learn_go_project.Prelude.{
  ℕ, String, ◌<◌, ◌≡◌, refl, Bool, Bool-cases, inl, inr, Option, none, some, List, [], ◌∷◌, map,
  leb, All, All-keep, All-take, arith,
}
use learn_go_project.Errors.{Error}
use learn_go_project.Exec.{Commit, committed, aborted, unanswered}
use learn_go_project.Store.Tables.{OutboxRow, Tables}
use learn_go_project.Store.Consistency.{IsAscending}
use learn_go_project.Stream.Producer.{Broker, Network}
use learn_go_project.Store.Outbox.{
  OutboxEvent, OutboxFaults, LoopEnd, finished, publish_failed, mark_failed, Loop, Published,
  scan_event, insert_by_id, order_by_id, claim, end_batch, unless_failed, run_batch, publish_outbox,
}
use learn_go_project.Store.Outbox.Batch.{
  row_message, send_event, IsCovered, Owns, Covers, publish_loop-Covers,
}

-- Of two rows one id makes one message.
abbrev SameIds : List OutboxRow → OutboxRow → Type 0
SameIds rows q = All (λ r. r.id ≡ q.id → row_message r ≡ row_message q) rows

above : (r : OutboxRow) (rs : List OutboxRow) → All (λ s. r.id < s.id) rs → SameIds rs r
above r [] h = tt
above r (s ∷ rs) h = (λ e. absurd (omega (arith, e, h.0)), above r rs h.1)

below :
    (r : OutboxRow) (rs qs : List OutboxRow)
    → All (λ s. r.id < s.id) qs
    → All (SameIds rs) qs
    → All (SameIds (r ∷ rs)) qs
below r rs [] h k = tt
below r rs (q ∷ qs) h k = ((λ e. absurd (omega (arith, e, h.0)), k.0), below r rs qs h.1 k.1)

SameIds-IsAscending : (rows : List OutboxRow) → IsAscending rows → All (SameIds rows) rows
SameIds-IsAscending [] h = tt
SameIds-IsAscending (r ∷ rs) h =
    ((λ _. refl, above r rs h.0), below r rs rs h.0 (SameIds-IsAscending rs h.1))

module _ (P : OutboxRow → Type 0) where
  All-insert_by_id :
      (r : OutboxRow) (rs : List OutboxRow) → P r → All P rs → All P (insert_by_id r rs)
  unfolding insert_by_id
  All-insert_by_id r [] h k = (h, tt)
  All-insert_by_id r (s ∷ rs) h k = elim (Bool-cases (leb r.id s.id)) [
    | inl t ↦ rw t (h, k)
    | inr t ↦ rw t (k.0, All-insert_by_id r rs h k.1)
  ]

  All-order_by_id : (rs : List OutboxRow) → All P rs → All P (order_by_id rs)
  unfolding order_by_id
  All-order_by_id [] h = tt
  All-order_by_id (r ∷ rs) h = All-insert_by_id r (order_by_id rs) h.0 (All-order_by_id rs h.1)

All-scan :
    (P : OutboxEvent → Type 0) (rs : List OutboxRow)
    → All (λ r. P (scan_event r)) rs
    → All P (map scan_event rs)
All-scan P [] h = tt
All-scan P (r ∷ rs) h = (h.0, All-scan P rs h.1)

-- Each claimed event was read from the only row with its id.
Owns-claim :
    (locked : ℕ → Bool) (limit : ℕ) (rows : List OutboxRow)
    → IsAscending rows
    → All (Owns rows) (claim locked limit rows)
unfolding claim
Owns-claim locked limit rows h = All-scan (Owns rows) _ (
    All-take (SameIds rows) limit _ (
      All-order_by_id (SameIds rows) _
        (All-keep (SameIds rows) _ rows (SameIds-IsAscending rows h))))

module _ {F : Type 0} (db : Tables F) where
  end_batch-IsCovered :
      (c : Commit) (out : LoopEnd × Loop Broker)
      → Covers db.outbox out.1
      → All (IsCovered (end_batch c db out).broker) (end_batch c db out).tables.outbox
  unfolding end_batch
  end_batch-IsCovered committed (finished, s) h = h.1
  end_batch-IsCovered (aborted x) (finished, s) h = h.0
  end_batch-IsCovered (unanswered x) (finished, s) h = h.1
  end_batch-IsCovered committed (publish_failed y, s) h = h.1
  end_batch-IsCovered (aborted x) (publish_failed y, s) h = h.0
  end_batch-IsCovered (unanswered x) (publish_failed y, s) h = h.1
  end_batch-IsCovered c (mark_failed y, s) h = h.0

  unless_failed-IsCovered :
      (prefix : String) (x : Option Error) (b : Broker) (next : Published F Broker)
      → All (IsCovered b) db.outbox
      → All (IsCovered next.broker) next.tables.outbox
      → All
          (IsCovered (unless_failed prefix x b db next).broker)
          (unless_failed prefix x b db next).tables.outbox
  unfolding unless_failed
  unless_failed-IsCovered prefix none b next h k = k
  unless_failed-IsCovered prefix (some x) b next h k = h

  module _ (net : Network) (locked : ℕ → Bool) (faults : OutboxFaults) (limit : ℕ)
      (b : Broker) where
    run_batch-IsCovered :
        IsAscending db.outbox
        → All (IsCovered b) db.outbox
        → let out = run_batch (send_event net) locked faults limit b db in
          All (IsCovered out.broker) out.tables.outbox
    unfolding run_batch
    run_batch-IsCovered ascending h = end_batch-IsCovered faults.commit _ (
        publish_loop-Covers db.outbox net faults.mark (claim locked limit db.outbox) _
          (Owns-claim locked limit db.outbox ascending) (h, h))

    -- If the ids of the outbox ascend and every marked row has its message in the broker, every marked
    -- row has it after a batch too, whatever rows
    -- other replicas hold and whatever fails: the claim, a send, an answer, an UPDATE or the COMMIT.
    pub publish_outbox-IsCovered :
        IsAscending db.outbox
        → All (IsCovered b) db.outbox
        → let out = publish_outbox (send_event net) locked faults limit b db in
          All (IsCovered out.broker) out.tables.outbox
    unfolding publish_outbox
    publish_outbox-IsCovered ascending h = unless_failed-IsCovered _ faults.begin b _ h (
        unless_failed-IsCovered _ faults.claim b _ h (
          unless_failed-IsCovered _ faults.scan b _ h
            (unless_failed-IsCovered _ faults.iterate b _ h (run_batch-IsCovered ascending h))))
