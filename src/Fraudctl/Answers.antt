-- ===== src/Fraudctl/Answers.antt =====
-- What fraudctl prints of a transaction, over the server and the store.
use learn_go_project.Prelude.{
  ◌≤◌, String, ◌≡◌, refl, ◌∙◌, ap, Bool-cases, inl, inr, false, ◌||◌, ◌==◌, Option, none, some,
  List, [], ◌∷◌, has_char, count_key, concat, trim_slashes, arith,
}
use learn_go_project.Errors.{Result, ok, err, is_no_rows, ◌>>=◌}
use learn_go_project.Float.{Float64}
use learn_go_project.Domain.{TransactionRecord}
use learn_go_project.Platform.{Platform}
use learn_go_project.Store.Tables.{Tables, label_key}
use learn_go_project.Store.Consistency.{IsConsistent}
use learn_go_project.Store.Records.{Cursor, JoinedRow, scan_record}
use learn_go_project.Store.Records.Lookup.{look_up}
use learn_go_project.HttpApi.Handlers.{Body, Response, write_record, write_error, get_transaction}
use learn_go_project.HttpApi.Routes.{
  on_get, IsHttp, Server, respond, handle, handle_routed, route, serve, is_cleaned,
}
use learn_go_project.HttpApi.Pages.{repository, no_outage, get_transaction_response}
use learn_go_project.Fraudctl.{
  FlagSet, text_flag, global_flags, Reply, Packages, service_returned, lay_out, read_reply,
  run_command, run,
}
use learn_go_project.Fraudctl.Paths.{no_parameters, asks_show, command_path-route}

module _ {F V : Type 0} (json : Body F → String) (packages : Packages V) where
  -- A response, as the client has it.
  abbrev pub reply_of : Response F → Reply
  reply_of response = record { code = response.code; body = ok (json response.body) }

  -- What fraudctl makes of a record that the store reads.
  abbrev pub printed : Result (TransactionRecord F × Cursor) → Result String
  printed (ok found) = lay_out packages (json (Body.transaction found.0))
  printed (err e) = err service_returned

  abbrev pub printed_row : Platform F → Option (JoinedRow F) → Result String
  printed_row p none = err service_returned
  printed_row p (some row) = printed (scan_record p row)

  read_reply-write_record :
      (r : Result (TransactionRecord F × Cursor))
      → read_reply packages (reply_of (write_record (r >>= λ s. ok s.0))) ≡ printed r
  unfolding read_reply write_record
  read_reply-write_record (ok found) = refl
  read_reply-write_record (err e) = elim (Bool-cases (is_no_rows e)) [
    | inl missing ↦ rw missing refl
    | inr other ↦ rw other refl
  ]

  -- The server answers at the URL: what it responds to a GET of a path, the client gets.
  abbrev pub Reaches : Server F → String → Type 0
  Reaches s url =
      (path : String) (response : Response F)
      → serve s packages.http "GET" path ≡ respond response
      → packages.get (concat (trim_slashes url) path) ≡ ok (reply_of response)

  module _ ⦃f : Float64 F⦄ (p : Platform F) (laws : IsHttp packages.http) (db : Tables F)
      (c : IsConsistent db) (one : (k : String) → count_key label_key k db.labels ≤ 1)
      (s : Server F) (stored : s.repository ≡ repository p no_outage db) where
    -- The server's answer to the path of `show`.
    serve-show :
        (id path : String)
        → (id == "" || has_char b'/' id) ≡ false
        → route packages.http "GET" path ≡ some (on_get, record no_parameters { id = id })
        → serve s packages.http "GET" path
          ≡ respond (elim (look_up id db) [
            | none ↦ write_error 404 "transaction not found"
            | some row ↦ write_record (scan_record p row >>= λ found. ok found.0)
          ])
    unfolding serve handle
    serve-show id path valid h =
        ap (handle_routed s) h
        ∙ ap (λ (r : _). respond (get_transaction r (record no_parameters { id = id }))) stored
        ∙ ap respond (get_transaction_response p db (record no_parameters { id = id }) c one valid)

    shown :
        (id : String)
        → read_reply packages (
            reply_of (elim (look_up id db) [
              | none ↦ write_error 404 "transaction not found"
              | some row ↦ write_record (scan_record p row >>= λ found. ok found.0)
            ]))
          ≡ printed_row p (look_up id db)
    unfolding read_reply
    shown id =
        elim (look_up id db)
          as (λ o.
            read_reply packages (
              reply_of (elim o [
                | none ↦ write_error 404 "transaction not found"
                | some row ↦ write_record (scan_record p row >>= λ found. ok found.0)
              ]))
            ≡ printed_row p o) [
              | none ↦ refl
              | some row ↦ read_reply-write_record (scan_record p row)
            ]

    -- `fraudctl show`, to a server over a consistent database with one label for a transaction at
    -- most: if a transaction and its assessment are stored for the id and their JSON can be read, the
    -- record's JSON is laid out and printed, or the error of decoding it is returned; else the
    -- error that the service refused. Conditions: the flags are parsed, the id is not empty, "." or
    -- ".." and holds no slash, the server answers at the URL, and the query is answered.
    pub run-show :
        (arguments : List String) (globals : FlagSet) (id : String)
        → packages.parse_flags global_flags arguments ≡ ok (globals, "show" ∷ id ∷ [])
        → is_cleaned id ≡ false
        → has_char b'/' id ≡ false
        → Reaches s (text_flag "url" globals.texts)
        → run packages arguments ≡ printed_row p (look_up id db)
    unfolding run run_command
    run-show arguments globals id parsed cleaned no_slash reaches =
        let (path, asked, routed) =
          command_path-route packages laws ("show" ∷ id ∷ []) on_get
            (record no_parameters { id = id }) (asks_show id cleaned) in
        let valid : (id == "" || has_char b'/' id) ≡ false = ground (arith, cleaned, no_slash) in
        let url = trim_slashes (text_flag "url" globals.texts) in
        ap (λ (r : Result (FlagSet × List String)). r >>= run_command packages) parsed
        ∙ ap
            (λ (r : Result String).
              r >>= λ target. packages.get (concat url target) >>= read_reply packages)
            asked
        ∙ ap (λ (r : Result Reply). r >>= read_reply packages)
            (reaches path _ (serve-show id path valid routed))
        ∙ shown id
