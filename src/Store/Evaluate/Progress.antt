-- ===== src/Store/Evaluate/Progress.antt =====
-- A new event is stored when nothing fails.
use learn_go_project.Prelude.{
  ◌≡◌, refl, ◌∙◌, has_key-of_zero, count_key-zero, eq_refl, true, false, has_key, has_key-snoc_self,
}
use learn_go_project.Errors.{Result, ok}
use learn_go_project.Float.{Float64, ◌≼◌}
use learn_go_project.Domain.{TransactionCreated, History, Assessment}
use learn_go_project.Platform.{Platform, Bytes}
use learn_go_project.Prelude.{pos}
use learn_go_project.Store.Consistency.{IsConsistent}
use learn_go_project.Store.History.{select_history, scan_int64}
use learn_go_project.Store.History.Window.{expected, select_history-eq-expected}
use learn_go_project.Store.Tables.{
  Tables, transaction_key, transaction_event, assessment_key, assessment_event, outbox_event,
  with_transaction, insert_transaction, insert_assessment, insert_outbox,
}
use learn_go_project.Store.Evaluate.{
  no_faults, transaction_row, subject, encode_event, record_event, load_history, score,
  encode_signals, encode_payload, enqueue, store_assessment, fresh, body, end_transaction,
  in_transaction, evaluate_event,
}
use learn_go_project.Store.Evaluate.Outcome.{extended}

module _ {F : Type 0} ⦃f : Float64 F⦄ (p : Platform F) (e : TransactionCreated)
    (evaluate : History → Result (Assessment F)) where
  -- The history of the account: the transactions strictly before the event.
  abbrev pub history_before : Tables F → History
  history_before db = expected p.amount_minor (subject p e) db.transactions

  -- An event that can be stored: it has new ids, the evaluator scores its history, what is stored can
  -- be encoded, and the assessment's event id is new.
  pub record IsStorable (a : Assessment F) (raw signals payload : Bytes) (db : Tables F)
      : Type 0 where
    pub encoded : p.encode_transaction e ≡ ok raw
    pub new_key : has_key transaction_key e.transaction_id db.transactions ≡ false
    pub new_event : has_key transaction_event e.event_id db.transactions ≡ false
    pub fits : scan_int64 (history_before db).spend_minor_1h ≡ ok (history_before db).spend_minor_1h
    pub scored : evaluate (history_before db) ≡ ok a
    pub own : a.transaction_id ≡ e.transaction_id
    pub at_least_zero : f.of_int (pos 0) ≼ a.risk_score
    pub at_most_one : a.risk_score ≼ f.of_int (pos 1)
    pub encoded_signals : p.encode_signals a.signals ≡ ok signals
    pub encoded_payload : p.encode_assessment a ≡ ok payload
    pub new_assessment_event : has_key assessment_event a.event_id db.assessments ≡ false
    pub new_outbox_event : has_key outbox_event a.event_id db.outbox ≡ false

  module _ {a : Assessment F} {raw signals payload : Bytes} (db : Tables F) (c : IsConsistent db)
      (s : IsStorable a raw signals payload db) where
    own_key :
        has_key transaction_key a.transaction_id
          (with_transaction (transaction_row p e raw) db).transactions
        ≡ true
    own_key =
        simp s.own (has_key-snoc_self transaction_key db.transactions (transaction_row p e raw))

    -- A new transaction has no assessment.
    new_assessment : has_key assessment_key a.transaction_id db.assessments ≡ false
    new_assessment = rw s.own (
        has_key-of_zero assessment_key e.transaction_id db.assessments (
          c.assessed e.transaction_id
          ∙ count_key-zero transaction_key e.transaction_id db.transactions s.new_key))

    loaded :
        select_history p.amount_minor
          (subject p e)
          (with_transaction (transaction_row p e raw) db).transactions
        ≡ ok (history_before db)
    loaded =
        select_history-eq-expected (subject p e) (transaction_row p e raw) (eq_refl e.account_id)
          refl p.amount_minor db.transactions s.fits

    fresh-new :
        fresh p no_faults e evaluate (with_transaction (transaction_row p e raw) db)
        ≡ (ok (a, true), extended p e raw a signals payload db)
    unfolding fresh load_history score encode_signals store_assessment encode_payload enqueue
        insert_assessment insert_outbox
    fresh-new =
        simp
          (
            loaded, s.scored, s.encoded_signals, s.at_least_zero, s.at_most_one, new_assessment,
            s.new_assessment_event, own_key, s.encoded_payload, s.new_outbox_event,
          )
          refl

    -- If no call fails, the tables are consistent, the ids of the event and of its assessment are new,
    -- and the account's spending of an hour is an int64, an event is stored with the assessment that
    -- the evaluator makes of the transactions strictly before it, whose score lies between 0 and 1:
    -- the call returns that assessment as new, and the tables have the event's three rows more.
    pub evaluate_event-IsStorable :
        evaluate_event p no_faults e evaluate db
        ≡ (ok (a, true), extended p e raw a signals payload db)
    unfolding evaluate_event in_transaction end_transaction body encode_event record_event
        insert_transaction
    evaluate_event-IsStorable = simp (s.encoded, s.new_key, s.new_event, fresh-new) refl
