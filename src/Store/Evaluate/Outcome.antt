-- ===== src/Store/Evaluate/Outcome.antt =====
-- What `Evaluate` did when it succeeded: it found the event's assessment, or stored one.
use learn_go_project.Prelude.{
  ℕ, ◌≡◌, ◌⊎◌, inl, inr, sym, ◌∙◌, ap, subst, Bool, true, false, has_key, arith,
}
use learn_go_project.Errors.{Result, ok}
use learn_go_project.Exec.{pure}
use learn_go_project.Exec.Invert.{>>=-ok}
use learn_go_project.Float.{Float64}
use learn_go_project.Domain.{TransactionCreated, History, Assessment}
use learn_go_project.Platform.{Platform, Bytes}
use learn_go_project.Store.History.{select_history}
use learn_go_project.Store.Tables.{
  Tables, transaction_key, transaction_event, assessment_key, assessment_event, outbox_event,
  outbox_row, with_transaction, with_assessment, with_outbox, insert_transaction, insert_assessment,
  insert_outbox,
}
use learn_go_project.Store.Tables.Inserts.{
  insert_transaction-ok, insert_outbox-ok, insert_assessment-ok,
}
use learn_go_project.Store.Evaluate.{
  Faults, transaction_row, assessment_row, subject, get_assessment, encode_event, record_event,
  load_duplicate, load_history, score, encode_signals, encode_payload, enqueue, store_assessment,
  duplicate, fresh, branch, body,
}

module _ {F : Type 0} (p : Platform F) where
  -- The tables with the three rows of a new event.
  abbrev pub extended :
      TransactionCreated → Bytes → Assessment F → Bytes → Bytes → Tables F → Tables F
  extended e raw a signals payload db =
      with_outbox (outbox_row db.next_id a.event_id "fraud.assessments.v1" a.transaction_id payload)
        (with_assessment (assessment_row p a signals)
          (with_transaction (transaction_row p e raw) db))

  -- A new event: what held before, and the tables after.
  pub record Created (e : TransactionCreated) (evaluate : History → Result (Assessment F))
      (a : Assessment F) (db db' : Tables F) : Type 0 where
    pub raw : Bytes
    pub signals : Bytes
    pub payload : Bytes
    pub history : History
    pub encoded : p.encode_transaction e ≡ ok raw
    pub new_key : has_key transaction_key e.transaction_id db.transactions ≡ false
    pub new_event : has_key transaction_event e.event_id db.transactions ≡ false
    pub loaded :
        select_history p.amount_minor
          (subject p e)
          (with_transaction (transaction_row p e raw) db).transactions
        ≡ ok history
    pub scored : evaluate history ≡ ok a
    pub encoded_signals : p.encode_signals a.signals ≡ ok signals
    pub encoded_payload : p.encode_assessment a ≡ ok payload
    pub new_assessment : has_key assessment_key a.transaction_id db.assessments ≡ false
    pub new_assessment_event : has_key assessment_event a.event_id db.assessments ≡ false
    pub new_outbox_event : has_key outbox_event a.event_id db.outbox ≡ false
    pub after : extended e raw a signals payload db ≡ db'

  -- An event that was seen before: its stored assessment, and nothing changed.
  pub record Found (e : TransactionCreated) (a : Assessment F) (db db' : Tables F) : Type 0 where
    pub old_key : has_key transaction_key e.transaction_id db.transactions ≡ true
    pub stored : get_assessment p e.transaction_id db ≡ ok a
    pub unchanged : db ≡ db'

module _ {F : Type 0} ⦃f : Float64 F⦄ (p : Platform F) (faults : Faults)
    (e : TransactionCreated) where
  encode_event-ok :
      (db : Tables F) {raw : Bytes} {db' : Tables F}
      → encode_event p faults e db ≡ (ok raw, db')
      → (p.encode_transaction e ≡ ok raw) × (db ≡ db')
  unfolding encode_event
  encode_event-ok db h = ground arith

  load_duplicate-ok :
      (db : Tables F) {a : Assessment F} {db' : Tables F}
      → load_duplicate p faults e db ≡ (ok a, db')
      → (get_assessment p e.transaction_id db ≡ ok a) × (db ≡ db')
  unfolding load_duplicate
  load_duplicate-ok db h = ground arith

  load_history-ok :
      (db : Tables F) {history : History} {db' : Tables F}
      → load_history p faults e db ≡ (ok history, db')
      → (select_history p.amount_minor (subject p e) db.transactions ≡ ok history) × (db ≡ db')
  unfolding load_history
  load_history-ok db h = ground arith

  score-ok :
      (evaluate : History → Result (Assessment F)) (history : History) (db : Tables F)
      {a : Assessment F} {db' : Tables F}
      → score p faults e evaluate history db ≡ (ok a, db')
      → (evaluate history ≡ ok a) × (db ≡ db')
  unfolding score
  score-ok evaluate history db h = ground arith

  encode_signals-ok :
      (a : Assessment F) (db : Tables F) {raw : Bytes} {db' : Tables F}
      → encode_signals p faults e a db ≡ (ok raw, db')
      → (p.encode_signals a.signals ≡ ok raw) × (db ≡ db')
  unfolding encode_signals
  encode_signals-ok a db h = ground arith

  encode_payload-ok :
      (a : Assessment F) (db : Tables F) {raw : Bytes} {db' : Tables F}
      → encode_payload p faults e a db ≡ (ok raw, db')
      → (p.encode_assessment a ≡ ok raw) × (db ≡ db')
  unfolding encode_payload
  encode_payload-ok a db h = ground arith

  record_event-ok :
      (raw : Bytes) (db : Tables F) {n : ℕ} {db' : Tables F}
      → record_event p faults e raw db ≡ (ok n, db')
      → insert_transaction (transaction_row p e raw) db ≡ (ok n, db')
  unfolding record_event
  record_event-ok raw db h = ground arith

  store_assessment-ok :
      (a : Assessment F) (signals : Bytes) (db : Tables F) {r : Unit {0}} {db' : Tables F}
      → store_assessment p faults e a signals db ≡ (ok r, db')
      → insert_assessment (assessment_row p a signals) db ≡ (ok r, db')
  unfolding store_assessment
  store_assessment-ok a signals db h = ground arith

  enqueue-ok :
      (a : Assessment F) (payload : Bytes) (db : Tables F) {r : Unit {0}} {db' : Tables F}
      → enqueue p faults e a payload db ≡ (ok r, db')
      → insert_outbox a.event_id "fraud.assessments.v1" a.transaction_id payload db ≡ (ok r, db')
  unfolding enqueue
  enqueue-ok a payload db h = ground arith

  -- A new event's scoring that succeeded, over the tables that hold the event's row.
  record Scored (evaluate : History → Result (Assessment F)) (r : Assessment F × Bool)
      (db db' : Tables F) : Type 0 where
    signals : Bytes
    payload : Bytes
    history : History
    loaded : select_history p.amount_minor (subject p e) db.transactions ≡ ok history
    scored : evaluate history ≡ ok r.0
    encoded_signals : p.encode_signals r.0.signals ≡ ok signals
    encoded_payload : p.encode_assessment r.0 ≡ ok payload
    new_assessment : has_key assessment_key r.0.transaction_id db.assessments ≡ false
    new_assessment_event : has_key assessment_event r.0.event_id db.assessments ≡ false
    new_outbox_event : has_key outbox_event r.0.event_id db.outbox ≡ false
    after :
        with_outbox
          (outbox_row db.next_id r.0.event_id "fraud.assessments.v1" r.0.transaction_id payload)
          (with_assessment (assessment_row p r.0 signals) db)
        ≡ db'
    is_new : r.1 ≡ true

  Scored-of_steps :
      (evaluate : History → Result (Assessment F)) (history : History) (a : Assessment F)
      (signals payload : Bytes) (t₁ t₂ : Unit {0}) (db s₁ s₂ s₃ s₄ s₅ s₆ : Tables F)
      {r : Assessment F × Bool} {db' : Tables F}
      → load_history p faults e db ≡ (ok history, s₁)
      → score p faults e evaluate history s₁ ≡ (ok a, s₂)
      → encode_signals p faults e a s₂ ≡ (ok signals, s₃)
      → store_assessment p faults e a signals s₃ ≡ (ok t₁, s₄)
      → encode_payload p faults e a s₄ ≡ (ok payload, s₅)
      → enqueue p faults e a payload s₅ ≡ (ok t₂, s₆)
      → pure (a, true) s₆ ≡ (ok r, db')
      → Scored evaluate r db db'
  Scored-of_steps evaluate history a signals payload t₁ t₂ db s₁ s₂ s₃ s₄ s₅ s₆ {r} d₁ d₂ d₃ d₄ d₅
        d₆ last =
      let (loaded, e₁) = load_history-ok db d₁ in
      let (scored, e₂) = score-ok evaluate history s₁ d₂ in
      let (encoded, e₃) = encode_signals-ok a s₂ d₃ in
      let e₀ : db ≡ s₃ = e₁ ∙ e₂ ∙ e₃ in
      let (e₄, new_key, new_event, _, _) =
        insert_assessment-ok (assessment_row p a signals) s₃
          (store_assessment-ok a signals s₃ d₄) in
      let (sent, e₅) = encode_payload-ok a s₄ d₅ in
      let (e₆, new_outbox) =
        insert_outbox-ok a.event_id "fraud.assessments.v1" a.transaction_id payload s₅
          (enqueue-ok a payload s₅ d₆) in
      let same : a ≡ r.0 = ground (arith, last) in
      record {
        signals = signals;
        payload = payload;
        history = history;
        loaded = loaded;
        scored = scored ∙ ap ok same;
        encoded_signals = rw (← same) encoded;
        encoded_payload = rw (← same) sent;
        new_assessment = ground (arith, same, e₀, new_key);
        new_assessment_event = ground (arith, same, e₀, new_event);
        new_outbox_event = ground (arith, same, e₀, e₄, e₅, new_outbox);
        after = ground (arith, same, e₀, e₄, e₅, e₆, last);
        is_new = ground (arith, last);
      }

  fresh-ok :
      (evaluate : History → Result (Assessment F)) (db : Tables F) {r : Assessment F × Bool}
      {db' : Tables F}
      → fresh p faults e evaluate db ≡ (ok r, db')
      → Scored evaluate r db db'
  unfolding fresh
  fresh-ok evaluate db h =
      let (history, s₁, d₁, h₁) = >>=-ok (load_history p faults e) _ db h in
      let (a, s₂, d₂, h₂) = >>=-ok (score p faults e evaluate history) _ s₁ h₁ in
      let (signals, s₃, d₃, h₃) = >>=-ok (encode_signals p faults e a) _ s₂ h₂ in
      let (t₁, s₄, d₄, h₄) = >>=-ok (store_assessment p faults e a signals) _ s₃ h₃ in
      let (payload, s₅, d₅, h₅) = >>=-ok (encode_payload p faults e a) _ s₄ h₄ in
      let (t₂, s₆, d₆, h₆) = >>=-ok (enqueue p faults e a payload) _ s₅ h₅ in
      Scored-of_steps evaluate history a signals payload t₁ t₂ db s₁ s₂ s₃ s₄ s₅ s₆ d₁ d₂ d₃ d₄ d₅
        d₆ h₆

  duplicate-ok :
      (db : Tables F) {r : Assessment F × Bool} {db' : Tables F}
      → duplicate p faults e db ≡ (ok r, db')
      → (get_assessment p e.transaction_id db ≡ ok r.0) × (db ≡ db') × (r.1 ≡ false)
  unfolding duplicate
  duplicate-ok db h =
      let (a, s₁, d₁, h₁) = >>=-ok (load_duplicate p faults e) (λ a. pure (a, false)) db h in
      let (found, same) = load_duplicate-ok db d₁ in ground (arith, found, same, h₁)

  Created-of_Scored :
      (evaluate : History → Result (Assessment F)) (raw : Bytes) (db : Tables F)
      {r : Assessment F × Bool} {db' : Tables F}
      → p.encode_transaction e ≡ ok raw
      → has_key transaction_key e.transaction_id db.transactions ≡ false
      → has_key transaction_event e.event_id db.transactions ≡ false
      → Scored evaluate r (with_transaction (transaction_row p e raw) db) db'
      → Created p e evaluate r.0 db db'
  Created-of_Scored evaluate raw db encoded new_key new_event c = record {
    raw = raw;
    signals = c.signals;
    payload = c.payload;
    history = c.history;
    encoded = encoded;
    encoded_signals = c.encoded_signals;
    encoded_payload = c.encoded_payload;
    new_key = new_key;
    new_event = new_event;
    loaded = c.loaded;
    scored = c.scored;
    new_assessment = c.new_assessment;
    new_assessment_event = c.new_assessment_event;
    new_outbox_event = c.new_outbox_event;
    after = c.after;
  }

  branch-ok :
      (evaluate : History → Result (Assessment F)) (raw : Bytes) (n : ℕ) (db s : Tables F)
      {r : Assessment F × Bool} {db' : Tables F}
      → p.encode_transaction e ≡ ok raw
      → record_event p faults e raw db ≡ (ok n, s)
      → branch p faults e n evaluate s ≡ (ok r, db')
      → (Found p e r.0 db db' × (r.1 ≡ false)) ⊎ (Created p e evaluate r.0 db db' × (r.1 ≡ true))
  branch-ok evaluate raw n db s {r} {db'} encoded d h =
      elim (insert_transaction-ok (transaction_row p e raw) db (record_event-ok raw db d)) [
        | inl (zero_rows, same, old) ↦
            let (stored, kept, is_old) = duplicate-ok s (rw zero_rows at h) in
            inl (record { old_key = old; stored = rw same stored; unchanged = same ∙ kept }, is_old)
        | inr (one_row, added, new_key, new_event) ↦
            let c = fresh-ok evaluate s (rw one_row at h) in
            inr (
              Created-of_Scored evaluate raw db encoded new_key new_event
                  (subst (λ t. Scored evaluate r t db') (sym added) c),
              c.is_new,
            )
      ]

  -- A run of the transaction's body that succeeds has found the event's assessment or stored one.
  pub body-ok :
      (evaluate : History → Result (Assessment F)) (db : Tables F) {r : Assessment F × Bool}
      {db' : Tables F}
      → body p faults e evaluate db ≡ (ok r, db')
      → (Found p e r.0 db db' × (r.1 ≡ false)) ⊎ (Created p e evaluate r.0 db db' × (r.1 ≡ true))
  unfolding body
  body-ok evaluate db h =
      let (raw, s₁, d₁, h₁) = >>=-ok (encode_event p faults e) _ db h in
      let (n, s₂, d₂, h₂) = >>=-ok (record_event p faults e raw) _ s₁ h₁ in
      let (encoded, same) = encode_event-ok db d₁ in
      branch-ok evaluate raw n db s₂ encoded
        (subst (λ t. record_event p faults e raw t ≡ (ok n, s₂)) (sym same) d₂) h₂
