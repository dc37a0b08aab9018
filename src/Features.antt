-- ===== src/Features.antt =====
-- internal/features/features.go: the features of a transaction, by name. The map of features is a
-- list of pairs with distinct names, of which the model reads one name at a time.
use learn_go_project.Prelude.{
  ℕ, ◌-◌, ◌/◌, ◌%◌, String, Bool, not, ◌||◌, ◌==◌, [], ◌∷◌, pos, negsuc, ltb, leb, if◌then◌else◌,
}
use learn_go_project.Float.{Float64}
use learn_go_project.Domain.{TransactionCreated, History, FeatureVector, Time, entry_mode_ecommerce}

-- the map `riskyCategories`
unfoldable pub is_risky : String → Bool
is_risky c = c == "crypto" || c == "gambling" || c == "money_transfer"

abbrev pub nanos_per_hour : ℕ
nanos_per_hour = 3_600_000_000_000

-- `UTC().Hour()`: the zero time is a midnight, and a time before it counts back from there.
unfoldable pub hour : Time → ℕ
hour (pos n) = n / nanos_per_hour % 24
hour (negsuc n) = 23 - n / nanos_per_hour % 24

-- from 23:00 to 05:59
unfoldable pub is_night : ℕ → Bool
is_night h = ltb h 6 || leb 23 h

module _ {F : Type 0} ⦃f : Float64 F⦄ where
  abbrev pub int : ℕ → F
  int n = f.of_int (pos n)

  -- 1 or 0
  abbrev pub indicator : Bool → F
  indicator b = if b then int 1 else int 0

  -- math.Min(x, cap) / cap
  abbrev pub capped : F → ℕ → F
  capped x cap = f.div (f.min x (int cap)) (int cap)

  -- `Extract`
  unfoldable pub extract : TransactionCreated → History → FeatureVector F
  unfolding is_risky hour is_night
  extract tx history =
      ("log_amount", f.log1p (f.div (f.of_int tx.amount_minor) (int 100)))
      ∷ ("foreign", indicator (not (tx.merchant.country == "GB")))
      ∷ ("card_not_present", indicator (tx.entry_mode == entry_mode_ecommerce))
      ∷ ("risky_merchant", indicator (is_risky tx.merchant.category))
      ∷ ("nighttime", indicator (is_night (hour tx.occurred_at)))
      ∷ ("tx_count_10m", capped (f.of_int history.transaction_count_10m) 10)
      ∷ ("spend_1h", capped (f.div (f.of_int history.spend_minor_1h) (int 100)) 2000)
      ∷ ("new_merchant", indicator (not history.seen_merchant))
      ∷ ("new_country", indicator (not history.seen_country))
      ∷ []
