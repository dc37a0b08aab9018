-- ===== src/HttpApi/Walk.antt =====
-- A client that takes up `next_cursor` until there is none gets every transaction.
use learn_go_project.Prelude.{
  ℕ, zero, suc, String, ◌≡◌, true, false, ◌==◌, Option, none, some, List, ◌++◌, if◌then◌else◌,
}
use learn_go_project.Errors.{Result, ok, err}
use learn_go_project.Domain.{TransactionRecord}
use learn_go_project.Platform.{Platform}
use learn_go_project.Store.Tables.{Tables}
use learn_go_project.Store.Records.{JoinedRow, Cursor, row_id}
use learn_go_project.Store.Listing.{list_transactions as stored_transactions, Page}
use learn_go_project.Store.Listing.Reads.{Reads}
use learn_go_project.HttpApi.Wire.{Wire, is_writable}
use learn_go_project.HttpApi.Handlers.{Repository, Request, Body, list_transactions}
use learn_go_project.HttpApi.Pages.{repository}

module _ {F : Type 0} where
  -- The transactions of a body and, if it has a cursor, those that follow.
  abbrev pub read_body :
      Body F → (String → Option (List (TransactionRecord F))) → Option (List (TransactionRecord F))
  read_body (Body.transactions records cursor) next =
      if cursor == ""
      then some records
      else elim (next cursor) [ none ↦ none | some rest ↦ some (records ++ rest) ]
  read_body _ next = none

module _ {F : Type 0} (w : Wire) where
  -- What a client gets that asks for one page after the other, at most so many; `none` if a
  -- response is an error or more are left.
  unfoldable pub walk : ℕ → Repository F → Request → Option (List (TransactionRecord F))
  unfolding list_transactions
  walk zero repository r = none
  walk (suc n) repository r =
      read_body (list_transactions w repository r).body
        (λ cursor. walk n repository (record r { cursor = cursor }))

-- A cursor that can be encoded.
abbrev IsEncodable : Cursor → Type 0
IsEncodable c = (is_writable c.occurred_at ≡ true) × ((c.transaction_id == "") ≡ false)

module _ {F : Type 0} (p : Platform F) where
  -- A row whose cursor can be encoded: its time is of a year from 0 to 9999, and its id not empty.
  abbrev pub IsListed : JoinedRow F → Type 0
  IsListed r =
      (is_writable (p.from_timestamptz r.transaction.occurred_at) ≡ true)
      × ((row_id r == "") ≡ false)

module _ {F : Type 0} where
  abbrev next_of : Result (Page F) → Option Cursor
  next_of (err e) = none
  next_of (ok page) = page.next
