-- ===== src/Store/Evaluate/Atomic.antt =====
-- `Evaluate` is all or nothing: whatever fails, the rows are those of before, or the event's three
-- rows are there.
use learn_go_project.Prelude.{
  ℕ, ◌≤◌, ◌≡◌, ◌⊎◌, inl, inr, refl, Bool, true, false, Bool-cases, Option, none, some, eqb, arith,
}
use learn_go_project.Errors.{Error, Result, ok, err}
use learn_go_project.Exec.{Exec, Commit, committed, aborted, unanswered, ◌>>=◌, map_error, call}
use learn_go_project.Exec.Keeps.{
  Relates, Relates-lift, Relates-call, Relates-map_error, Relates-bind,
}
use learn_go_project.Float.{Float64}
use learn_go_project.Domain.{TransactionCreated, History, Assessment}
use learn_go_project.Platform.{Platform, Bytes}
use learn_go_project.Store.Tables.{
  Tables, insert_transaction, insert_assessment, insert_outbox, roll_back,
}
use learn_go_project.Store.Evaluate.{
  Faults, transaction_row, assessment_row, encode_event, record_event, load_duplicate, load_history,
  score, encode_signals, encode_payload, enqueue, store_assessment, duplicate, fresh, branch, body,
  end_transaction, in_transaction, evaluate_event,
}
use learn_go_project.Store.Evaluate.Outcome.{Created, Found, body-ok}

module _ {F : Type 0} where
  -- The sequence does not go back.
  abbrev Grows : Tables F → Tables F → Type 0
  Grows s t = s.next_id ≤ t.next_id

  Grows-refl : (s : Tables F) → Grows s s
  Grows-refl s = omega arith

  Grows-trans : (s t u : Tables F) → Grows s t → Grows t u → Grows s u
  Grows-trans s t u h k = omega arith

  module _ {A B : Type 0} where
    Grows-bind :
        (m : Exec (Tables F) A) (f : A → Exec (Tables F) B)
        → Relates Grows m
        → ((a : A) → Relates Grows (f a))
        → Relates Grows (◌>>=◌ m f)
    Grows-bind m f h k = Relates-bind Grows-refl Grows-trans m f h k

module _ {F : Type 0} where
  Grows-step :
      {A : Type 0} (g : Error → Error) (o : Option Error) (m : Exec (Tables F) A)
      → Relates Grows m
      → Relates Grows (map_error g (call o m))
  Grows-step g o m h = Relates-map_error g (call o m) (Relates-call Grows-refl o m h)

  Grows-read : {A : Type 0} (r : Tables F → Result A) → Relates Grows (λ db. (r db, db))
  Grows-read r = record { at = Grows-refl }

module _ {F : Type 0} ⦃f : Float64 F⦄ (p : Platform F) (faults : Faults)
    (e : TransactionCreated) where
  record_event-Grows : (raw : Bytes) → Relates Grows (record_event p faults e raw)
  unfolding record_event insert_transaction
  record_event-Grows raw =
      Grows-step _ faults.insert (insert_transaction (transaction_row p e raw))
        (record { at = λ s. ground arith })

  store_assessment-Grows :
      (a : Assessment F) (signals : Bytes) → Relates Grows (store_assessment p faults e a signals)
  unfolding store_assessment insert_assessment
  store_assessment-Grows a signals =
      Grows-step _ faults.assess (insert_assessment (assessment_row p a signals))
        (record { at = λ s. ground arith })

  enqueue-Grows :
      (a : Assessment F) (payload : Bytes) → Relates Grows (enqueue p faults e a payload)
  unfolding enqueue insert_outbox
  enqueue-Grows a payload =
      Grows-step _ faults.enqueue
        (insert_outbox a.event_id "fraud.assessments.v1" a.transaction_id payload)
        (record { at = λ s. ground arith })

  fresh-Grows :
      (evaluate : History → Result (Assessment F)) → Relates Grows (fresh p faults e evaluate)
  unfolding fresh load_history score encode_signals encode_payload
  fresh-Grows evaluate = Grows-bind _ _ (Grows-step _ faults.history _ (Grows-read _)) λ history.
      Grows-bind _ _ (Relates-map_error _ _ (Relates-lift Grows-refl (evaluate history))) λ a.
        Grows-bind _ _
          (Relates-map_error _ _ (Relates-lift Grows-refl (p.encode_signals a.signals)))
          λ signals. Grows-bind _ _ (store_assessment-Grows a signals) λ _.
            Grows-bind _ _ (Relates-map_error _ _ (Relates-lift Grows-refl (p.encode_assessment a)))
              λ payload. Grows-bind _ _ (enqueue-Grows a payload) λ _. record { at = Grows-refl }

  branch-Grows :
      (n : ℕ) (evaluate : History → Result (Assessment F))
      → Relates Grows (branch p faults e n evaluate)
  unfolding duplicate load_duplicate
  branch-Grows n evaluate = elim (Bool-cases (eqb n 0)) [
    | inl zero_rows ↦ rw zero_rows (
        Grows-bind _ _ (Grows-step _ faults.select _ (Grows-read _))
          λ a. record { at = Grows-refl })
    | inr rows ↦ rw rows (fresh-Grows evaluate)
  ]

  body-Grows :
      (evaluate : History → Result (Assessment F)) → Relates Grows (body p faults e evaluate)
  unfolding body encode_event
  body-Grows evaluate =
      Grows-bind _ _ (Relates-map_error _ _ (Relates-lift Grows-refl (p.encode_transaction e)))
        λ raw. Grows-bind _ _ (record_event-Grows raw) λ n. branch-Grows n evaluate

module _ {F : Type 0} (p : Platform F) where
  -- What a call leaves of the tables: nothing but a gap in the sequence, or the three rows.
  pub data Effect (e : TransactionCreated) (evaluate : History → Result (Assessment F))
      (db db' : Tables F) : Type 0 where
    undone : (n : ℕ) → db.next_id ≤ n → record db { next_id = n } ≡ db' → Effect e evaluate db db'
    stored : (a : Assessment F) → Created p e evaluate a db db' → Effect e evaluate db db'

module _ {F : Type 0} ⦃f : Float64 F⦄ (p : Platform F) (faults : Faults) (e : TransactionCreated)
    (evaluate : History → Result (Assessment F)) where
  rolled_back :
      (db after : Tables F)
      → db.next_id ≤ after.next_id
      → Effect p e evaluate db (roll_back db after)
  unfolding roll_back
  rolled_back db after h = undone after.next_id h refl

  Effect-of_body :
      (db : Tables F) (r : Assessment F × Bool) (after : Tables F)
      → body p faults e evaluate db ≡ (ok r, after)
      → Effect p e evaluate db after
  Effect-of_body db r after h = elim (body-ok p faults e evaluate db h) [
    | inl (found, _) ↦ undone db.next_id (omega arith) found.unchanged
    | inr (c, _) ↦ stored r.0 c
  ]

  end_transaction-Effect :
      (c : Commit) (db : Tables F) (out : Result (Assessment F × Bool) × Tables F)
      → body p faults e evaluate db ≡ out
      → db.next_id ≤ out.1.next_id
      → Effect p e evaluate db (end_transaction c db out).1
  unfolding end_transaction
  end_transaction-Effect c db (err x, after) h grown = rolled_back db after grown
  end_transaction-Effect committed db (ok r, after) h grown = Effect-of_body db r after h
  end_transaction-Effect (aborted x) db (ok r, after) h grown = rolled_back db after grown
  end_transaction-Effect (unanswered x) db (ok r, after) h grown = Effect-of_body db r after h

  in_transaction-Effect :
      (begin : Option Error) (c : Commit) (db : Tables F)
      → Effect p e evaluate db (in_transaction begin c (body p faults e evaluate) db).1
  unfolding in_transaction
  in_transaction-Effect none c db =
      end_transaction-Effect c db (body p faults e evaluate db) refl
        ((body-Grows p faults e evaluate).at db)
  in_transaction-Effect (some x) c db = undone db.next_id (omega arith) refl

  -- Whatever fails, a call leaves the rows as they were, or it has added the event's transaction,
  -- assessment and outbox row together.
  pub evaluate_event-Effect :
      (db : Tables F) → Effect p e evaluate db (evaluate_event p faults e evaluate db).1
  unfolding evaluate_event
  evaluate_event-Effect db = in_transaction-Effect faults.begin faults.commit db

  end_transaction-ok :
      (c : Commit) (db : Tables F) (out : Result (Assessment F × Bool) × Tables F)
      {r : Assessment F × Bool} {db' : Tables F}
      → end_transaction c db out ≡ (ok r, db')
      → out ≡ (ok r, db')
  unfolding end_transaction
  end_transaction-ok c db (err x, after) h = ground arith
  end_transaction-ok committed db (ok r, after) h = h
  end_transaction-ok (aborted x) db (ok r, after) h = ground arith
  end_transaction-ok (unanswered x) db (ok r, after) h = ground arith

  in_transaction-ok :
      (begin : Option Error) (c : Commit) (db : Tables F) {r : Assessment F × Bool} {db' : Tables F}
      → in_transaction begin c (body p faults e evaluate) db ≡ (ok r, db')
      → body p faults e evaluate db ≡ (ok r, db')
  unfolding in_transaction
  in_transaction-ok none c db h = end_transaction-ok c db (body p faults e evaluate db) h
  in_transaction-ok (some x) c db h = ground arith

  -- A call that succeeds says which it did: it returns the stored assessment of an event seen
  -- before and changes nothing, or it stores the assessment that it returns.
  pub evaluate_event-ok :
      (db : Tables F) {a : Assessment F} {created : Bool} {db' : Tables F}
      → evaluate_event p faults e evaluate db ≡ (ok (a, created), db')
      → (Found p e a db db' × (created ≡ false))
        ⊎ (Created p e evaluate a db db' × (created ≡ true))
  unfolding evaluate_event
  evaluate_event-ok db h =
      body-ok p faults e evaluate db (in_transaction-ok faults.begin faults.commit db h)
