-- ===== src/Store/Listing/Reads.antt =====
-- The records that a list of joined rows reads as.
use learn_go_project.Prelude.{
  ℕ, zero, suc, ◌<◌, ◌≡◌, refl, ◌∙◌, ap, List, [], ◌∷◌, ◌++◌, take, length, arith,
}
use learn_go_project.Errors.{Result, ok, err, with_prefix, ◌>>=◌}
use learn_go_project.Domain.{TransactionRecord}
use learn_go_project.Platform.{Platform, IsPlatform}
use learn_go_project.Store.Records.{JoinedRow, Cursor, row_id, scan_record}
use learn_go_project.Store.Listing.{Key, row_key, scan_rows}

module _ {F : Type 0} (p : Platform F) where
  -- Each row reads as the record at its place.
  abbrev pub Reads : List (JoinedRow F) → List (TransactionRecord F × Cursor) → Type 0
  Reads [] [] = Unit
  Reads (r ∷ rows) (s ∷ read) = (scan_record p r ≡ ok s) × Reads rows read
  Reads [] (s ∷ read) = ⊥
  Reads (r ∷ rows) [] = ⊥

  pub Reads-of_scan :
      (rows : List (JoinedRow F)) (read : List (TransactionRecord F × Cursor))
      → scan_rows p rows ≡ ok read
      → Reads rows read
  unfolding scan_rows
  Reads-of_scan [] [] h = tt
  Reads-of_scan [] (s ∷ read) h = ground arith
  Reads-of_scan (r ∷ rows) read h =
      step (Reads-of_scan rows) (scan_record p r) refl (scan_rows p rows) refl read h
    where
      step :
          ((t : List (TransactionRecord F × Cursor)) → scan_rows p rows ≡ ok t → Reads rows t)
          → (first : Result (TransactionRecord F × Cursor)) → scan_record p r ≡ first
          → (rest : Result (List (TransactionRecord F × Cursor))) → scan_rows p rows ≡ rest
          → (read : List (TransactionRecord F × Cursor))
          → (first >>= λ s. rest >>= λ t. ok (s ∷ t)) ≡ ok read
          → Reads (r ∷ rows) read
      step again (err x) e rest e' read h = absurd (ground arith)
      step again (ok s) e (err x) e' read h = absurd (ground arith)
      step again (ok s) e (ok t) e' [] h = absurd (ground arith)
      step again (ok s) e (ok t) e' (s' ∷ t') h = (e ∙ ground arith, again t' (e' ∙ ground arith))

  pub scan-of_Reads :
      (rows : List (JoinedRow F)) (read : List (TransactionRecord F × Cursor))
      → Reads rows read
      → scan_rows p rows ≡ ok read
  unfolding scan_rows
  scan-of_Reads [] [] h = refl
  scan-of_Reads [] (s ∷ read) h = absurd h
  scan-of_Reads (r ∷ rows) [] h = absurd h
  scan-of_Reads (r ∷ rows) (s ∷ read) h = rw h.0 (rw (scan-of_Reads rows read h.1) refl)

  pub Reads-take :
      (k : ℕ) (rows : List (JoinedRow F)) (read : List (TransactionRecord F × Cursor))
      → Reads rows read
      → Reads (take k rows) (take k read)
  Reads-take zero rows read h = tt
  Reads-take (suc k) [] [] h = tt
  Reads-take (suc k) [] (s ∷ read) h = h
  Reads-take (suc k) (r ∷ rows) [] h = h
  Reads-take (suc k) (r ∷ rows) (s ∷ read) h = (h.0, Reads-take k rows read h.1)

  pub length-Reads :
      (rows : List (JoinedRow F)) (read : List (TransactionRecord F × Cursor))
      → Reads rows read
      → length read ≡ length rows
  length-Reads [] [] h = refl
  length-Reads [] (s ∷ read) h = absurd h
  length-Reads (r ∷ rows) [] h = absurd h
  length-Reads (r ∷ rows) (s ∷ read) h = omega (arith, length-Reads rows read h.1)

  abbrev pub stored_key : Cursor → Key
  stored_key c = (p.timestamptz c.occurred_at, c.transaction_id)

  -- A record's cursor is read off the columns of its row.
  pub scan_record-cursor :
      (r : JoinedRow F) (s : TransactionRecord F × Cursor)
      → scan_record p r ≡ ok s
      → s.1 ≡ record {
        occurred_at = p.from_timestamptz r.transaction.occurred_at;
        transaction_id = row_id r;
      }
  unfolding scan_record
  scan_record-cursor r s =
      pairs (with_prefix "decode stored transaction" (p.decode_transaction r.transaction.raw_event))
        (with_prefix "decode stored signals" (p.decode_signals r.assessment.signals)) _ _ s
    where
      pairs :
          {A B : Type 0} (a : Result A) (b : Result B) (f : A → B → TransactionRecord F)
          (c : Cursor) (s : TransactionRecord F × Cursor)
          → (a >>= λ x. b >>= λ y. ok (f x y, c)) ≡ ok s
          → s.1 ≡ c
      pairs (err e) b f c s h = absurd (ground arith)
      pairs (ok x) (err e) f c s h = absurd (ground arith)
      pairs (ok x) (ok y) f c s h = ground arith

  -- Stored, the cursor is the key of the row.
  pub scan_record-key :
      IsPlatform p
      → (r : JoinedRow F) (s : TransactionRecord F × Cursor) → scan_record p r ≡ ok s
      → stored_key s.1 ≡ row_key r
  scan_record-key laws r s h =
      simp (scan_record-cursor r s h, laws.keeps_times r.transaction.occurred_at)

  -- Rows and their records, split behind the k-th one.
  pub record Split (k : ℕ) (rows : List (JoinedRow F)) (read : List (TransactionRecord F × Cursor))
      : Type 0 where
    pub front : List (JoinedRow F)
    pub last : JoinedRow F
    pub back : List (JoinedRow F)
    pub read_front : List (TransactionRecord F × Cursor)
    pub read_last : TransactionRecord F × Cursor
    pub read_back : List (TransactionRecord F × Cursor)
    pub rows_split : rows ≡ front ++ last ∷ back
    pub read_split : read ≡ (read_front ++ read_last ∷ []) ++ read_back
    pub taken : take (suc k) read ≡ read_front ++ read_last ∷ []
    pub shorter : length back < length rows
    pub reads_last : scan_record p last ≡ ok read_last
    pub reads_back : Reads back read_back

  pub Split-of_Reads :
      (k : ℕ) (rows : List (JoinedRow F)) (read : List (TransactionRecord F × Cursor))
      → Reads rows read
      → k < length rows
      → Split k rows read
  Split-of_Reads k [] read h short = absurd (omega arith)
  Split-of_Reads k (r ∷ rows) [] h short = absurd h
  Split-of_Reads zero (r ∷ rows) (s ∷ read) h short = record {
    front = [];
    last = r;
    back = rows;
    read_front = [];
    read_last = s;
    read_back = read;
    rows_split = refl;
    read_split = refl;
    taken = refl;
    shorter = omega arith;
    reads_last = h.0;
    reads_back = h.1;
  }
  Split-of_Reads (suc k) (r ∷ rows) (s ∷ read) h short =
      let rest = Split-of_Reads k rows read h.1 (omega arith) in
      record {
        front = r ∷ rest.front;
        last = rest.last;
        back = rest.back;
        read_front = s ∷ rest.read_front;
        read_last = rest.read_last;
        read_back = rest.read_back;
        rows_split = ap (λ (xs : List (JoinedRow F)). r ∷ xs) rest.rows_split;
        read_split = ap (λ (xs : List (TransactionRecord F × Cursor)). s ∷ xs) rest.read_split;
        taken = ap (λ (xs : List (TransactionRecord F × Cursor)). s ∷ xs) rest.taken;
        shorter = omega (arith, rest.shorter);
        reads_last = rest.reads_last;
        reads_back = rest.reads_back;
      }
