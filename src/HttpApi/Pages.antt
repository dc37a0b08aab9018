-- ===== src/HttpApi/Pages.antt =====
-- The endpoints over the database: how much a page holds, and what is found by an id.
use learn_go_project.Prelude.{
  ℕ, suc, ap, subst, ◌+◌, ◌≤◌, String, ◌≡◌, refl, ◌∙◌, ◌||◌, ◌==◌, Option, none, some, List, [],
  ◌∷◌, length, length-take_le, map, take, has_char, count_key, ℤ, pos, negsuc, pos_part, false, leb,
  if◌then◌else◌, arith,
}
use learn_go_project.Errors.{Error, wrap, no_rows, Result, ok, err, is_no_rows, ◌>>=◌}
use learn_go_project.Float.{Float64}
use learn_go_project.Domain.{TransactionRecord}
use learn_go_project.Platform.{Platform}
use learn_go_project.Store.Tables.{Tables, label_key}
use learn_go_project.Store.Consistency.{IsConsistent}
use learn_go_project.Store.Metrics.{model_metrics}
use learn_go_project.Store.Records.{scan_record, Cursor, get_transaction as stored_transaction}
use learn_go_project.Store.Records.Lookup.{look_up, get_transaction-look_up}
use learn_go_project.Store.Listing.{
  list_transactions as stored_transactions, ListFilter, page_limit, scan_rows, select_rows,
  cut_page,
}
use learn_go_project.HttpApi.Wire.{Wire}
use learn_go_project.HttpApi.Handlers.{
  Repository, Request, Body, Checked, refused, accepted, checked_limit, checked_action,
  checked_cursor, filter_of, checked_filter, write_page, list_checked, list_transactions,
  write_record, get_transaction, write_error,
}

-- The errors that the queries meet, if any.
pub record Outage : Type 0 where
  pub ping : Option Error
  pub list : Option Error
  pub iterate : Option (ℕ × Error)
  pub get : Option Error
  pub metrics : Option Error

abbrev pub no_outage : Outage
no_outage = record { ping = none; list = none; iterate = none; get = none; metrics = none }

module _ {F : Type 0} ⦃f : Float64 F⦄ (p : Platform F) where
  -- The store as the repository of the endpoints.
  abbrev pub repository : Outage → Tables F → Repository F
  repository o db = record {
    ping = o.ping;
    list_transactions = λ filter. stored_transactions p o.list o.iterate filter db;
    get_transaction = λ id. stored_transaction p o.get id db;
    model_metrics = λ version. model_metrics o.metrics version db;
  }

-- The records of a body.
abbrev pub records_of : {F : Type 0} → Body F → List (TransactionRecord F)
records_of (Body.transactions records next) = records
records_of _ = []

-- The number that a limit stands for: 0 for one that is no number from 1 to 100.
abbrev number_of : Result ℤ → ℕ
number_of (err e) = 0
number_of (ok (negsuc n)) = 0
number_of (ok (pos n)) = if leb n 100 then n else 0

-- The number of records that a request asks for.
unfoldable pub requested : Wire → Request → ℕ
requested w r = if r.limit == "" then 20 else number_of (w.atoi r.limit)

requested_le : (w : Wire) (r : Request) → requested w r ≤ 100
unfolding requested
requested_le w r = ground arith

-- What is accepted is what was asked for.
checked_limit-requested :
    (w : Wire) (r : Request) (limit : ℤ)
    → checked_limit w r.limit ≡ accepted limit
    → pos_part limit ≡ requested w r
unfolding requested checked_limit
checked_limit-requested w r limit h = ground (arith, h)

filter_of-limit :
    (limit : Checked ℤ) (action : Checked String) (before : Checked (Option Cursor))
    (f : ListFilter)
    → filter_of limit action before ≡ accepted f
    → limit ≡ accepted f.limit
unfolding filter_of
filter_of-limit (refused m) action before f h = absurd (ground arith)
filter_of-limit (accepted l) (refused m) before f h = absurd (ground arith)
filter_of-limit (accepted l) (accepted a) (refused m) f h = absurd (ground arith)
filter_of-limit (accepted l) (accepted a) (accepted b) f h = ground arith

-- The store's limit is the one that was checked.
page_limit-checked_limit :
    (w : Wire) (raw : String) (limit : ℤ)
    → checked_limit w raw ≡ accepted limit
    → page_limit limit ≡ pos_part limit
unfolding checked_limit page_limit
page_limit-checked_limit w raw (pos n) h = ground (arith, h)
page_limit-checked_limit w raw (negsuc n) h = absurd (ground (arith, h))

checked_filter-limit :
    (w : Wire) (r : Request) (f : ListFilter)
    → checked_filter w r ≡ accepted f
    → page_limit f.limit ≡ requested w r
unfolding checked_filter
checked_filter-limit w r f h =
    let limit =
      filter_of-limit (checked_limit w r.limit) (checked_action r.action)
        (checked_cursor w r.cursor) f h in
    page_limit-checked_limit w r.limit f.limit limit ∙ checked_limit-requested w r f.limit limit

module _ {F : Type 0} where
  length-map :
      (read : List (TransactionRecord F × Cursor)) → length (map (λ s. s.0) read) ≡ length read
  length-map [] = refl
  length-map (s ∷ read) = ap suc (length-map read)

  length-cut_page :
      (n : ℕ) (read : List (TransactionRecord F × Cursor)) → length (cut_page n read).records ≤ n
  unfolding cut_page
  length-cut_page n read = rw (length-map (take n read)) (length-take_le n read)

  length-write_page :
      (w : Wire) (p : Platform F) (list : Option Error) (iterate : Option (ℕ × Error))
      (f : ListFilter) (db : Tables F)
      → length (records_of (write_page w (stored_transactions p list iterate f db)).body)
        ≤ page_limit f.limit
  unfolding write_page stored_transactions
  length-write_page w p (some e) iterate f db = omega arith
  length-write_page w p none (some (n, e)) f db =
      fails (scan_rows p (take n (take (page_limit f.limit + 1) (select_rows p f db))))
    where
      fails :
          (read : Result (List (TransactionRecord F × Cursor)))
          → length (
              records_of {F = F}
                (write_page w (read >>= λ read. err (wrap "iterate transactions" e))).body)
            ≤ page_limit f.limit
      fails (err x) = omega arith
      fails (ok read) = omega arith
  length-write_page w p none none f db =
      cuts (scan_rows p (take (page_limit f.limit + 1) (select_rows p f db)))
    where
      cuts :
          (read : Result (List (TransactionRecord F × Cursor)))
          → length (
              records_of {F = F}
                (write_page w (read >>= λ read. ok (cut_page (page_limit f.limit) read))).body)
            ≤ page_limit f.limit
      cuts (err x) = omega arith
      cuts (ok read) = length-cut_page (page_limit f.limit) read

module _ {F : Type 0} ⦃f : Float64 F⦄ (w : Wire) (p : Platform F) where
  -- Whatever the request and whatever fails, a response lists as many transactions as were asked for
  -- at most, and no more than 100: 20 if no limit was given, and none if the limit is no number from
  -- 1 to 100.
  pub list_transactions-length_le :
      (o : Outage) (db : Tables F) (r : Request)
      → let listed = length (records_of (list_transactions w (repository p o db) r).body) in
        (listed ≤ requested w r) × (requested w r ≤ 100)
  unfolding list_transactions list_checked
  list_transactions-length_le o db r = (step (checked_filter w r) refl, requested_le w r)
    where
      step :
          (c : Checked ListFilter)
          → checked_filter w r ≡ c
          → length (records_of (list_checked w (repository p o db) c).body) ≤ requested w r
      step (refused m) h = omega arith
      step (accepted filter) h =
          subst
            (λ (n : ℕ).
              length
                (records_of (write_page w (stored_transactions p o.list o.iterate filter db)).body)
              ≤ n)
            (checked_filter-limit w r filter h) (length-write_page w p o.list o.iterate filter db)

module _ {F : Type 0} ⦃f : Float64 F⦄ (p : Platform F) where
  -- A request for an id that is neither empty nor holds a slash, to a consistent database with one
  -- label for a transaction at most that answers the query, is answered with 404 if no transaction
  -- and assessment are stored for the id; if they are, with 200 and their record where the stored
  -- JSON can be read, or else with an error.
  pub get_transaction_response :
      (db : Tables F) (r : Request)
      → IsConsistent db
      → ((k : String) → count_key label_key k db.labels ≤ 1)
      → (r.id == "" || has_char b'/' r.id) ≡ false
      → get_transaction (repository p no_outage db) r ≡ elim (look_up r.id db) [
        | none ↦ write_error 404 "transaction not found"
        | some row ↦ write_record (scan_record p row >>= λ s. ok s.0)
      ]
  unfolding get_transaction write_record is_no_rows
  get_transaction_response db r c one valid = rw valid (
      rw (get_transaction-look_up p r.id db c one)
        (elim (look_up r.id db)
          as (λ o.
            write_record
              (elim o [ none ↦ err no_rows | some row ↦ scan_record p row >>= λ s. ok s.0 ])
            ≡ elim o [
              | none ↦ write_error 404 "transaction not found"
              | some row ↦ write_record (scan_record p row >>= λ s. ok s.0)
            ]) [ none ↦ refl | some row ↦ refl ]))
