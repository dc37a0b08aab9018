-- ===== src/Store/Labels.antt =====
-- `Postgres.StoreLabel` of internal/store/postgres.go, and what it promises: the first label of a
-- transaction stays, and a label is never dropped in silence.
use learn_go_project.Prelude.{
  ◌≤◌, String, ◌≡◌, refl, ◌∙◌, Bool-cases, ◌⊎◌, inl, inr, Bool, true, false, some, has_key,
  find_key, count_key, count_key-snoc_le_one, find_key-append_some, find_key-snoc, eqb, eq_refl, [],
  ◌∷◌, arith,
}
use learn_go_project.Errors.{
  Error, pg_error, wrap, wrap_both, unprocessable_event, ok, err, is_unprocessable, sqlstate,
}
use learn_go_project.Exec.{Exec, Commit, committed, map_error, send, ◌>>=◌, pure}
use learn_go_project.Domain.{FraudLabel}
use learn_go_project.Platform.{Platform}
use learn_go_project.Store.Tables.{
  LabelRow, Tables, label_key, label_event, unique_violation, unprocessable, with_label,
  insert_label,
}

-- The error for a label whose event id is taken.
abbrev refused : Error
refused = wrap "store fraud label" (wrap_both unprocessable_event (pg_error unique_violation))

module _ {F : Type 0} (p : Platform F) where
  abbrev pub label_row : FraudLabel → LabelRow
  label_row l = record {
    transaction_id = l.transaction_id;
    event_id = l.event_id;
    labelled_at = p.timestamptz l.labelled_at;
    is_fraud = l.is_fraud;
    fraud_type = l.fraud_type;
  }

  -- `StoreLabel`: whether this call stored the label
  unfoldable pub store_label : Commit → FraudLabel → Exec (Tables F) Bool
  unfolding send
  store_label c l = do
    affected ←
        map_error (λ e. wrap "store fraud label" (unprocessable e))
          (send c (insert_label (label_row l)))
    pure (eqb affected 1)

  -- What a call does if the statement is answered: a transaction that has a label keeps it; else a
  -- label whose event id another label holds is refused as one that no retry repairs and changes
  -- nothing; and else, where no label has the transaction or the event id, it is stored and is then
  -- the label of its transaction.
  pub store_label_cases :
      (l : FraudLabel) (db : Tables F)
      → ((has_key label_key l.transaction_id db.labels ≡ true)
          × (store_label committed l db ≡ (ok false, db)))
        ⊎ (((e : Error) × (store_label committed l db ≡ (err e, db))
              × (is_unprocessable e ≡ true)
              × (has_key label_key l.transaction_id db.labels ≡ false)
              × (has_key label_event l.event_id db.labels ≡ true))
            ⊎ ((has_key label_key l.transaction_id db.labels ≡ false)
                × (has_key label_event l.event_id db.labels ≡ false)
                × (store_label committed l db ≡ (ok true, with_label (label_row l) db))
                × (find_key label_key l.transaction_id (with_label (label_row l) db).labels
                    ≡ some (label_row l))))
  unfolding store_label insert_label unprocessable is_unprocessable sqlstate
  store_label_cases l db = elim (Bool-cases (has_key label_key l.transaction_id db.labels)) [
    | inl old ↦ inl (old, ground (arith, old))
    | inr new ↦ elim (Bool-cases (has_key label_event l.event_id db.labels)) [
      | inl taken ↦ inr (inl (refused, ground (arith, new, taken), refl, new, taken))
      | inr free ↦ inr (
          inr (
            new,
            free,
            ground (arith, new, free),
            find_key-snoc label_key l.transaction_id db.labels (label_row l) new
                ∙ rw (eq_refl l.transaction_id) refl,
          ))
    ]
  ]

  -- A label that is stored stays the label of its transaction through a call for whatever label and
  -- whatever fails.
  find_label-store_label :
      (c : Commit) (l : FraudLabel) (k : String) (r : LabelRow) (db : Tables F)
      → find_key label_key k db.labels ≡ some r
      → find_key label_key k (store_label c l db).1.labels ≡ some r
  unfolding store_label insert_label
  find_label-store_label c l k r db h =
      ground (arith, find_key-append_some label_key k db.labels (label_row l ∷ []) r h)

  -- If every transaction has one label at most, it is so after a call too, whatever fails.
  pub one_label-store_label :
      (c : Commit) (l : FraudLabel) (db : Tables F)
      → ((k : String) → count_key label_key k db.labels ≤ 1)
      → (k : String) → count_key label_key k (store_label c l db).1.labels ≤ 1
  unfolding store_label insert_label
  one_label-store_label c l db h k =
      ground (arith, h k, count_key-snoc_le_one label_key k db.labels (label_row l))
