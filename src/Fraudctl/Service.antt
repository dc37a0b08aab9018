-- ===== src/Fraudctl/Service.antt =====
-- `fraudctl show`, in every state that the service reaches.
use learn_go_project.Prelude.{
  String, ◌≡◌, refl, ◌∙◌, ap, subst, Bool-cases, true, false, ◌⊎◌, inl, inr, ◌==◌, eq_iff, none,
  some, List, [], ◌∷◌, has_char, find_key, has_key, find_key-of_has, find_key-of_not_has,
  count_key-pos, has_key-of_pos, All, arith,
}
use learn_go_project.Errors.{ok, err}
use learn_go_project.Float.{Float64}
use learn_go_project.Domain.{TransactionRecord}
use learn_go_project.Platform.{Platform, IsPlatform}
use learn_go_project.Store.Tables.{Tables, transaction_key, assessment_key, label_key}
use learn_go_project.Store.Consistency.{IsConsistent}
use learn_go_project.Store.Records.{JoinedRow, Cursor, scan_record, scanned_assessment, scan_label}
use learn_go_project.Store.Records.Lookup.{look_up}
use learn_go_project.Service.Processor.{Processor}
use learn_go_project.Service.Outbox.{Site}
use learn_go_project.Service.System.{Reachable}
use learn_go_project.Service.System.Soundness.{Reachable-IsSound}
use learn_go_project.Service.System.Readable.{IsEvent, HasSignals, IsReadable, Reachable-IsReadable}
use learn_go_project.HttpApi.Handlers.{Body}
use learn_go_project.HttpApi.Routes.{IsHttp, Server, is_cleaned}
use learn_go_project.HttpApi.Pages.{repository, no_outage}
use learn_go_project.Fraudctl.{
  FlagSet, text_flag, global_flags, Packages, service_returned, lay_out, run,
}
use learn_go_project.Fraudctl.Answers.{printed, printed_row, Reaches, run-show}

All-find_key :
    {A : Type 0} (column : A → String) (P : A → Type 0) (k : String) (xs : List A) (x : A)
    → All P xs
    → find_key column k xs ≡ some x
    → P x
unfolding find_key
All-find_key column P k [] x h found = absurd (ground (arith, found))
All-find_key column P k (y ∷ ys) x h found = elim (Bool-cases (column y == k)) [
  | inl same ↦ subst P (ground (arith, same, found)) h.0
  | inr other ↦ All-find_key column P k ys x h.1 (ground (arith, other, found))
]

module _ {F : Type 0} (p : Platform F) (db : Tables F) where
  -- A record that the tables hold of an id, and what `scanRecord` reads of it.
  pub record IsStored (id : String) (found : TransactionRecord F) : Type 0 where
    pub row : JoinedRow F
    pub cursor : Cursor
    pub held : look_up id db ≡ some row
    pub scanned : scan_record p row ≡ ok (found, cursor)
    pub of_transaction : found.transaction.transaction_id ≡ id
    pub of_assessment : found.assessment.transaction_id ≡ id

  look_up-missing :
      (id : String) → has_key transaction_key id db.transactions ≡ false → look_up id db ≡ none
  unfolding look_up
  look_up-missing id absent =
      rw (find_key-of_not_has transaction_key id db.transactions absent) refl

  look_up-IsStored :
      IsConsistent db
      → IsReadable p db
      → (id : String) → has_key transaction_key id db.transactions ≡ true
      → (found : TransactionRecord F) × IsStored id found
  unfolding look_up scan_record scanned_assessment
  look_up-IsStored c readable id present =
      let (t, found, same) = find_key-of_has transaction_key id db.transactions present in
      let assessed : has_key assessment_key id db.assessments ≡ true =
        has_key-of_pos assessment_key id db.assessments (
          omega (arith, c.assessed id, count_key-pos transaction_key id db.transactions present)) in
      let (a, kept, _) = find_key-of_has assessment_key id db.assessments assessed in
      let event =
        All-find_key transaction_key (IsEvent p) id db.transactions t readable.events found in
      let read =
        All-find_key assessment_key (HasSignals p) id db.assessments a readable.assessments kept in
      let own : event.event.transaction_id ≡ id =
        event.named ∙ (eq_iff t.transaction_id id).0 same in
      let l = find_key label_key id db.labels in
      (
        record {
          transaction = event.event;
          assessment = scanned_assessment p event.event a read.signals;
          label = scan_label p event.event l;
        },
        record {
          row = record { transaction = t; assessment = a; label = l };
          cursor = record {
            occurred_at = p.from_timestamptz t.occurred_at;
            transaction_id = t.transaction_id;
          };
          held = rw (found, kept) refl;
          scanned = rw (event.decoded, read.decoded) refl;
          of_transaction = own;
          of_assessment = own;
        },
      )

module _ {F V : Type 0} ⦃f : Float64 F⦄ (P : Processor F) (laws : IsPlatform P.platform)
    (json : Body F → String) (packages : Packages V) (http : IsHttp packages.http) where
  -- In every state that the service reaches, whatever failed before: `fraudctl show` of a transaction
  -- that is stored prints the JSON of its record, laid out, with its assessment, and of any other id
  -- returns the error that the service refused. Conditions: the server reads the database of that
  -- state and answers at the URL, the query is answered, the flags are parsed, and the id is not
  -- empty, "." or ".." and holds no slash.
  pub Reachable-show :
      (s : Site F)
      → Reachable P s
      → (server : Server F) → server.repository ≡ repository P.platform no_outage s.world.tables
      → (arguments : List String) (globals : FlagSet) (id : String)
      → packages.parse_flags global_flags arguments ≡ ok (globals, "show" ∷ id ∷ [])
      → is_cleaned id ≡ false
      → has_char b'/' id ≡ false
      → Reaches json packages server (text_flag "url" globals.texts)
      → ((has_key transaction_key id s.world.tables.transactions ≡ false)
          × (run packages arguments ≡ err service_returned))
        ⊎ ((has_key transaction_key id s.world.tables.transactions ≡ true)
            × ((found : TransactionRecord F) × IsStored P.platform s.world.tables id found
                × (run packages arguments ≡ lay_out packages (json (Body.transaction found)))))
  Reachable-show s r server stored arguments globals id parsed cleaned no_slash reaches =
      let db = s.world.tables in
      let sound = Reachable-IsSound P s r in
      let shown =
        run-show json packages P.platform http db sound.consistent sound.labelled server stored
          arguments globals id parsed cleaned no_slash reaches in
      elim (Bool-cases (has_key transaction_key id db.transactions)) [
        | inl present ↦
            let (found, is_stored) =
              look_up-IsStored P.platform db sound.consistent (Reachable-IsReadable P laws s r) id
                present in
            inr (
              present,
              (
                found,
                is_stored,
                shown
                    ∙ ap (printed_row json packages P.platform) is_stored.held
                    ∙ ap (printed json packages) is_stored.scanned,
              ),
            )
        | inr absent ↦ inl (
          absent,
          shown
              ∙ ap (printed_row json packages P.platform) (look_up-missing P.platform db id absent),
        )
      ]
