-- ===== src/Errors.antt =====
-- Go's errors as values, and the results of functions that return one.
--
-- An error is a chain, as `fmt.Errorf` builds it: a leaf, or a message wrapped round one error
-- (`%w`) or two (`%w: %w`). `errors.Is` and `errors.As` walk the chain.
use learn_go_project.Prelude.{String, Bool, true, false, ◌||◌, Option, none, some, ℤ}

pub data Error : Type 0 where
  -- errors.New, and the errors of drivers that the code only passes on
  text : String → Error
  -- the three messages of `Validate` that show a value
  unsupported_schema_version : ℤ → Error
  unsupported_currency : String → Error
  unsupported_entry_mode : String → Error
  -- *pgconn.PgError with its SQLSTATE
  pg_error : String → Error
  -- pgx.ErrNoRows
  no_rows : Error
  -- store.ErrUnprocessable
  unprocessable_event : Error
  -- stream.permanentError
  permanent_error : Error → Error
  -- fmt.Errorf("…: %w", err)
  wrap : String → Error → Error
  -- fmt.Errorf("%w: %w", a, b)
  wrap_both : Error → Error → Error

-- A value and a nil error, or an error.
pub data Result {ℓ} (A : Type ℓ) : Type ℓ where
  err : Error → Result A
  ok : A → Result A

infixl 5 ◌>>=◌ ◌>>◌
-- `if err != nil { return err }`, and the rest of the function.
abbrev pub ◌>>=◌ {ℓ κ} : {A : Type ℓ} {B : Type κ} → Result A → (A → Result B) → Result B
err e >>= rest = err e
ok a >>= rest = rest a

abbrev pub ◌>>◌ {κ} : {B : Type κ} → Result (Unit {0}) → Result B → Result B
err e >> rest = err e
ok _ >> rest = rest

-- `if cond { return e }`
abbrev pub refuse_if : Bool → Error → Result (Unit {0})
refuse_if true e = err e
refuse_if false e = ok tt

abbrev pub is_ok {ℓ} : {A : Type ℓ} → Result A → Bool
is_ok (ok a) = true
is_ok (err e) = false

-- Puts a prefix before the error of a result.
abbrev pub with_prefix {ℓ} : {A : Type ℓ} → String → Result A → Result A
with_prefix prefix (ok a) = ok a
with_prefix prefix (err e) = err (wrap prefix e)

-- errors.Is(err, pgx.ErrNoRows) and errors.Is(err, store.ErrUnprocessable)
unfoldable pub is_no_rows : Error → Bool
is_no_rows no_rows = true
is_no_rows (permanent_error e) = is_no_rows e
is_no_rows (wrap prefix e) = is_no_rows e
is_no_rows (wrap_both e e') = is_no_rows e || is_no_rows e'
is_no_rows _ = false

unfoldable pub is_unprocessable : Error → Bool
is_unprocessable unprocessable_event = true
is_unprocessable (permanent_error e) = is_unprocessable e
is_unprocessable (wrap prefix e) = is_unprocessable e
is_unprocessable (wrap_both e e') = is_unprocessable e || is_unprocessable e'
is_unprocessable _ = false

-- errors.As(err, &permanent)
unfoldable pub is_permanent : Error → Bool
is_permanent (permanent_error e) = true
is_permanent (wrap prefix e) = is_permanent e
is_permanent (wrap_both e e') = is_permanent e || is_permanent e'
is_permanent _ = false

-- errors.As(err, &pgErr): the SQLSTATE of the first PgError in the chain
unfoldable pub sqlstate : Error → Option String
sqlstate (pg_error code) = some code
sqlstate (permanent_error e) = sqlstate e
sqlstate (wrap prefix e) = sqlstate e
sqlstate (wrap_both e e') =
    let second = sqlstate e' in elim (sqlstate e) [ some code ↦ some code | none ↦ second ]
sqlstate _ = none
