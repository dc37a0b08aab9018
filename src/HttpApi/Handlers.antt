-- ===== src/HttpApi/Handlers.antt =====
-- The endpoints of internal/httpapi/server.go and ui.go, as functions from a request to a response.
use learn_go_project.Prelude.{
  ℕ, String, not, ◌&&◌, ◌||◌, ◌==◌, Option, none, some, List, has_char, ℤ, pos, ltb_ℤ,
  if◌then◌else◌,
}
use learn_go_project.Errors.{Error, Result, ok, err, is_no_rows}
use learn_go_project.Domain.{TransactionRecord, action_none, action_review, action_escalate}
use learn_go_project.Store.Metrics.{ModelMetrics}
use learn_go_project.Store.Records.{Cursor}
use learn_go_project.Store.Listing.{ListFilter, Page}
use learn_go_project.Service.Snapshot.{PipelineMetrics}
use learn_go_project.HttpApi.Wire.{Wire}
use learn_go_project.HttpApi.Cursor.{encode_cursor, decode_cursor}

-- `Repository`; `ping` is its error, if any
pub record Repository (F : Type 0) : Type 0 where
  pub ping : Option Error
  pub list_transactions : ListFilter → Result (Page F)
  pub get_transaction : String → Result (TransactionRecord F)
  pub model_metrics : String → Result (ModelMetrics F)

-- What the endpoints read of a request: Query().Get of the parameters, "" for one that is missing,
-- and PathValue("id").
pub record Request : Type 0 where
  pub limit : String
  pub action : String
  pub cursor : String
  pub model_version : String
  pub id : String

-- What is written as the body: the JSON of a value, or the dashboard's page.
pub data Body (F : Type 0) : Type 0 where
  status : String → Body F
  error : String → Body F
  transactions : List (TransactionRecord F) → String → Body F
  transaction : TransactionRecord F → Body F
  model_metrics : ModelMetrics F → Body F
  pipeline_metrics : PipelineMetrics F → Body F
  html : String → Body F

pub record Response (F : Type 0) : Type 0 where
  pub code : ℕ
  pub body : Body F

module _ {F : Type 0} where
  -- `writeJSON`
  abbrev pub write_json : ℕ → Body F → Response F
  write_json code body = record { code = code; body = body }

  -- `writeError`
  abbrev pub write_error : ℕ → String → Response F
  write_error code message = write_json code (error message)

  -- `health`
  abbrev pub health : Response F
  health = write_json 200 (status "ok")

  -- `ready`
  unfoldable pub ready : Repository F → Response F
  ready repository = elim repository.ping [
    | some e ↦ write_error 503 "database unavailable"
    | none ↦ write_json 200 (status "ready")
  ]

  -- `dashboard`, of the embedded file
  unfoldable pub dashboard : Result String → Response F
  dashboard (err e) = write_error 500 "dashboard unavailable"
  dashboard (ok page) = write_json 200 (html page)

-- A value that the request gives, or the message that refuses it.
pub data Checked (A : Type 0) : Type 0 where
  refused : String → Checked A
  accepted : A → Checked A

-- The limit of `listTransactions`.
unfoldable pub checked_limit : Wire → String → Checked ℤ
checked_limit w raw = if raw == "" then accepted (pos 20) else elim (w.atoi raw) [
  | err e ↦ refused "limit must be between 1 and 100"
  | ok parsed ↦
      if ltb_ℤ parsed (pos 1) || ltb_ℤ (pos 100) parsed
      then refused "limit must be between 1 and 100"
      else accepted parsed
]

-- Its action.
unfoldable pub checked_action : String → Checked String
checked_action action =
    if not (action == "")
      && not (action == action_none)
      && not (action == action_review)
      && not (action == action_escalate)
    then refused "invalid action filter"
    else accepted action

-- Its cursor.
unfoldable pub checked_cursor : Wire → String → Checked (Option Cursor)
unfolding decode_cursor
checked_cursor w cursor = if cursor == "" then accepted none else elim (decode_cursor w cursor) [
  | err e ↦ refused "invalid cursor"
  | ok (when, id) ↦ accepted (some (record { occurred_at = when; transaction_id = id }))
]

-- The filter of `listTransactions`, or the message of the first check that refuses.
unfoldable pub filter_of : Checked ℤ → Checked String → Checked (Option Cursor) → Checked ListFilter
filter_of (refused m) action before = refused m
filter_of (accepted limit) (refused m) before = refused m
filter_of (accepted limit) (accepted action) (refused m) = refused m
filter_of (accepted limit) (accepted action) (accepted before) =
    accepted (record { limit = limit; action = action; before = before })

unfoldable pub checked_filter : Wire → Request → Checked ListFilter
unfolding checked_limit checked_action checked_cursor filter_of
checked_filter w r =
    filter_of (checked_limit w r.limit) (checked_action r.action) (checked_cursor w r.cursor)

module _ (w : Wire) where
  -- next_cursor
  unfoldable pub next_cursor : Option Cursor → String
  unfolding encode_cursor
  next_cursor none = ""
  next_cursor (some c) = encode_cursor w c.occurred_at c.transaction_id

  module _ {F : Type 0} where
    -- The response to a page.
    unfoldable pub write_page : Result (Page F) → Response F
    unfolding next_cursor
    write_page (err e) = write_error 500 "could not list transactions"
    write_page (ok page) = write_json 200 (transactions page.records (next_cursor page.next))

    unfoldable pub list_checked : Repository F → Checked ListFilter → Response F
    unfolding write_page
    list_checked repository (refused m) = write_error 400 m
    list_checked repository (accepted filter) = write_page (repository.list_transactions filter)

    -- `listTransactions`
    unfoldable pub list_transactions : Repository F → Request → Response F
    unfolding checked_filter list_checked
    list_transactions repository r = list_checked repository (checked_filter w r)

module _ {F : Type 0} where
  -- The response to a record; `store.IsNotFound`
  unfoldable pub write_record : Result (TransactionRecord F) → Response F
  unfolding is_no_rows
  write_record (err e) =
      if is_no_rows e
      then write_error 404 "transaction not found"
      else write_error 500 "could not get transaction"
  write_record (ok found) = write_json 200 (transaction found)

  -- `getTransaction`
  unfoldable pub get_transaction : Repository F → Request → Response F
  unfolding has_char write_record
  get_transaction repository r =
      if r.id == "" || has_char b'/' r.id
      then write_error 400 "invalid transaction id"
      else write_record (repository.get_transaction r.id)

  unfoldable pub write_model_metrics : Result (ModelMetrics F) → Response F
  write_model_metrics (err e) = write_error 500 "could not calculate model metrics"
  write_model_metrics (ok metrics) = write_json 200 (Body.model_metrics metrics)

  -- `modelMetrics`
  unfoldable pub model_metrics_handler : Repository F → Request → Response F
  unfolding write_model_metrics
  model_metrics_handler repository r =
      write_model_metrics (repository.model_metrics r.model_version)

  -- `pipelineMetricsHandler`, of what `PipelineSnapshot` returns
  unfoldable pub pipeline_metrics_handler : Result (PipelineMetrics F) → Response F
  pipeline_metrics_handler (err e) = write_error 500 "could not calculate pipeline metrics"
  pipeline_metrics_handler (ok metrics) = write_json 200 (Body.pipeline_metrics metrics)
