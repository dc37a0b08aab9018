-- ===== src/Store/Consistency.antt =====
-- What holds of the tables between two calls of `Evaluate`, by which every event has one
-- transaction, one assessment and one outbox row, or none of them.
use learn_go_project.Prelude.{
  ℕ, ◌+◌, ◌≤◌, ◌<◌, String, ◌≡◌, refl, subst, false, List, [], ◌∷◌, ◌++◌, count_key, has_key,
  count_key-snoc, count_key-snoc_le_one, All, All-append, All-map, arith,
}
use learn_go_project.Errors.{Result, ok}
use learn_go_project.Float.{Float64}
use learn_go_project.Domain.{TransactionCreated, History, Assessment}
use learn_go_project.Platform.{Platform, Bytes}
use learn_go_project.Store.Tables.{
  OutboxRow, Tables, no_tables, transaction_key, transaction_event, assessment_key, outbox_key,
}
use learn_go_project.Store.Evaluate.{Faults, evaluate_event}
use learn_go_project.Store.Evaluate.Outcome.{extended}
use learn_go_project.Store.Evaluate.Atomic.{Effect, undone, stored, evaluate_event-Effect}

-- Each outbox id is below the ids of the rows behind it.
abbrev pub IsAscending : List OutboxRow → Type 0
IsAscending [] = Unit
IsAscending (r ∷ rs) = All (λ s. r.id < s.id) rs × IsAscending rs

IsAscending-snoc :
    (rs : List OutboxRow) (new : OutboxRow)
    → IsAscending rs
    → All (λ r. r.id < new.id) rs
    → IsAscending (rs ++ new ∷ [])
IsAscending-snoc [] new h below = (tt, tt)
IsAscending-snoc (r ∷ rs) new h below = (
  All-append (λ s. r.id < s.id) rs (new ∷ []) h.0 (below.0, tt),
  IsAscending-snoc rs new h.1 below.1,
)

module _ {F : Type 0} where
  pub record IsConsistent (db : Tables F) : Type 0 where
    pub one_transaction : (k : String) → count_key transaction_key k db.transactions ≤ 1
    pub one_event : (k : String) → count_key transaction_event k db.transactions ≤ 1
    pub assessed :
        (k : String)
        → count_key assessment_key k db.assessments ≡ count_key transaction_key k db.transactions
    pub queued :
        (k : String) → count_key outbox_key k db.outbox ≡ count_key assessment_key k db.assessments
    pub ids_below : All (λ r. r.id < db.next_id) db.outbox
    pub ids_ascending : IsAscending db.outbox

  -- Empty tables are consistent.
  pub no_tables-IsConsistent : IsConsistent (no_tables {F = F})
  unfolding count_key
  no_tables-IsConsistent = record {
    one_transaction = λ k. omega arith;
    one_event = λ k. omega arith;
    assessed = λ k. refl;
    queued = λ k. refl;
    ids_below = tt;
    ids_ascending = tt;
  }

  gap-IsConsistent :
      (db : Tables F) (n : ℕ)
      → db.next_id ≤ n
      → IsConsistent db
      → IsConsistent (record db { next_id = n })
  gap-IsConsistent db n h c = record {
    one_transaction = c.one_transaction;
    one_event = c.one_event;
    assessed = c.assessed;
    queued = c.queued;
    ids_below =
        All-map (λ r. r.id < db.next_id) (λ r. r.id < n) (λ r k. omega arith) db.outbox c.ids_below;
    ids_ascending = c.ids_ascending;
  }

  module _ (p : Platform F) (e : TransactionCreated) where
    extended-IsConsistent :
        (raw : Bytes) (a : Assessment F) (signals payload : Bytes) (db : Tables F)
        → a.transaction_id ≡ e.transaction_id
        → has_key transaction_key e.transaction_id db.transactions ≡ false
        → has_key transaction_event e.event_id db.transactions ≡ false
        → IsConsistent db
        → IsConsistent (extended p e raw a signals payload db)
    extended-IsConsistent raw a signals payload db own new_key new_event c = record {
      one_transaction = λ k.
          count_key-snoc_le_one transaction_key k db.transactions _ new_key (c.one_transaction k);
      one_event = λ k.
          count_key-snoc_le_one transaction_event k db.transactions _ new_event (c.one_event k);
      assessed = λ k. simp (count_key-snoc, own) (rw (c.assessed k));
      queued = λ k. simp count_key-snoc (rw (c.queued k));
      ids_below =
          All-append (λ r. r.id < db.next_id + 1) db.outbox (_ ∷ [])
            (All-map (λ r. r.id < db.next_id) (λ r. r.id < db.next_id + 1) (λ r k. omega arith)
              db.outbox c.ids_below)
            (omega arith, tt);
      ids_ascending = IsAscending-snoc db.outbox _ c.ids_ascending c.ids_below;
    }

    Effect-IsConsistent :
        (evaluate : History → Result (Assessment F)) (db db' : Tables F)
        → ((h : History) (a : Assessment F)
            → evaluate h ≡ ok a
            → a.transaction_id ≡ e.transaction_id)
        → Effect p e evaluate db db'
        → IsConsistent db
        → IsConsistent db'
    Effect-IsConsistent evaluate db db' own (undone n h same) c =
        subst IsConsistent same (gap-IsConsistent db n h c)
    Effect-IsConsistent evaluate db db' own (stored a new) c = subst IsConsistent new.after (
        extended-IsConsistent new.raw a new.signals new.payload db (own new.history a new.scored)
          new.new_key new.new_event c)

module _ {F : Type 0} ⦃f : Float64 F⦄ where
  -- Whatever fails, a call of `Evaluate` keeps the tables consistent, if the evaluator names the
  -- event's transaction in its assessment.
  pub evaluate_event-IsConsistent :
      (p : Platform F) (faults : Faults) (e : TransactionCreated)
      (evaluate : History → Result (Assessment F)) (db : Tables F)
      → ((h : History) (a : Assessment F) → evaluate h ≡ ok a → a.transaction_id ≡ e.transaction_id)
      → IsConsistent db
      → IsConsistent (evaluate_event p faults e evaluate db).1
  evaluate_event-IsConsistent p faults e evaluate db own c =
      Effect-IsConsistent p e evaluate db (evaluate_event p faults e evaluate db).1 own
        (evaluate_event-Effect p faults e evaluate db) c
