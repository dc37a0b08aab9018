-- ===== src/Simulator.antt =====
-- internal/simulator/generator.go: made-up transactions with their labels.
--
-- The random source is a parameter, a state `G` with the draws of math/rand, and so are the texts
-- that `fmt.Sprintf` prints of numbers.
pub mod Generated
pub mod Command
pub mod Joint
pub mod Run
use learn_go_project.Prelude.{
  ℕ, zero, suc, ◌+◌, ◌<◌, String, Bool, true, false, ◌||◌, Option, none, some, List, [], ◌∷◌, ℤ,
  pos, negsuc, ◌+ℤ◌, ltb, eqb, if◌then◌else◌,
}
use Prim.Native.String.{◌++◌}
use learn_go_project.Errors.{text, Result, ok, err}
use learn_go_project.Float.{Float64}
use learn_go_project.Domain.{
  Merchant, TransactionCreated, FraudLabel, Time, schema_version, entry_mode_chip,
  entry_mode_contactless, entry_mode_ecommerce,
}

-- rand.Rand: `Intn(n)` and `Float64()`, with the source behind the draw
pub record Rand (F G : Type 0) : Type 0 where
  pub intn : ℕ → G → ℕ × G
  pub float64 : G → F × G

-- `Intn(n)` lies below a positive n.
pub record IsRand {F G : Type 0} (rng : Rand F G) : Type 0 where
  pub intn_below : (n : ℕ) (g : G) → 0 < n → (rng.intn n g).0 < n

-- Sprintf at "%d-%09d" and at "%04d"
pub record Printer : Type 0 where
  pub sequence : ℤ → ℕ → String
  pub padded : ℕ → String

abbrev shop : String → String → String → Merchant
shop id category country = record { id = id; category = category; country = country }

abbrev pub normal_merchants : List Merchant
normal_merchants =
    shop "merchant-grocer" "groceries" "GB"
    ∷ shop "merchant-coffee" "eating_out" "GB"
    ∷ shop "merchant-rail" "transport" "GB"
    ∷ shop "merchant-books" "retail" "GB"
    ∷ shop "merchant-streaming" "entertainment" "GB"
    ∷ []

abbrev pub fraud_merchants : List Merchant
fraud_merchants =
    shop "merchant-crypto" "crypto" "LT"
    ∷ shop "merchant-casino" "gambling" "MT"
    ∷ shop "merchant-transfer" "money_transfer" "RO"
    ∷ []

-- An index out of range panics.
abbrev pub at {ℓ} : {A : Type ℓ} → List A → ℕ → Option A
at [] i = none
at (x ∷ xs) zero = some x
at (x ∷ xs) (suc i) = at xs i

pub record Generator (F G : Type 0) : Type 0 where
  pub rng : G
  pub seed : ℤ
  pub next : ℕ
  pub accounts : ℕ
  pub fraud_rate : F

-- The draws of one call that depend on whether it is fraud.
pub record Choice : Type 0 where
  pub merchant : Option Merchant
  pub entry_mode : Option String
  pub amount_minor : ℕ
  pub fraud_type : String

module _ {F G : Type 0} ⦃f : Float64 F⦄ where
  -- `New`, at the random source of the seed
  unfoldable pub new : (ℤ → G) → ℤ → ℤ → F → Result (Generator F G)
  new source seed (pos accounts) fraud_rate =
      if ltb accounts 1
      then err (text "accounts must be positive")
      else if f.lt fraud_rate (f.of_int (pos 0)) || f.lt (f.of_int (pos 1)) fraud_rate
      then err (text "fraud rate must be between 0 and 1")
      else ok (record {
        rng = source seed;
        seed = seed;
        next = 0;
        accounts = accounts;
        fraud_rate = fraud_rate;
      })
  new source seed (negsuc accounts) fraud_rate = err (text "accounts must be positive")

module _ {F G : Type 0} (rand : Rand F G) where
  -- the draws for any transaction
  unfoldable pub normal_choice : G → Choice × G
  normal_choice g =
      let (m, g₁) = rand.intn 5 g in
      let (e, g₂) = rand.intn 2 g₁ in
      let (n, g₃) = rand.intn 15_000 g₂ in
      (
        record {
          merchant = at normal_merchants m;
          entry_mode = at (entry_mode_chip ∷ entry_mode_contactless ∷ []) e;
          amount_minor = 250 + n;
          fraud_type = "";
        },
        g₃,
      )

  -- what fraud replaces
  unfoldable pub fraud_choice : G → Choice × G
  fraud_choice g =
      let (m, g₁) = rand.intn 3 g in
      let (n, g₂) = rand.intn 150_000 g₁ in
      (
        record {
          merchant = at fraud_merchants m;
          entry_mode = some entry_mode_ecommerce;
          amount_minor = 50_000 + n;
          fraud_type = "card_not_present";
        },
        g₂,
      )

  unfoldable pub choose : Bool → G → Choice × G
  unfolding normal_choice fraud_choice
  choose is_fraud g =
      let (normal, g') = normal_choice g in
      let fraud = fraud_choice g' in elim is_fraud [ true ↦ fraud | false ↦ (normal, g') ]

-- The two events around what was drawn; `id` is the printed seed and number.
module _ (print : Printer) (id : String) (account : ℕ) (is_fraud : Bool) (occurred_at : Time)
    (delay : ℤ) where
  abbrev pub events : Merchant → String → ℕ → String → TransactionCreated × FraudLabel
  events merchant entry_mode amount fraud_type = (
    record {
      schema_version = schema_version;
      event_id = "transaction-" ++ id;
      transaction_id = "tx-" ++ id;
      occurred_at = occurred_at;
      account_id = "account-" ++ print.padded account;
      card_id = "card-" ++ print.padded account;
      amount_minor = pos amount;
      currency = "GBP";
      merchant = merchant;
      entry_mode = entry_mode;
    },
    record {
      schema_version = schema_version;
      event_id = "label-" ++ id;
      transaction_id = "tx-" ++ id;
      labelled_at = occurred_at +ℤ delay;
      is_fraud = is_fraud;
      fraud_type = fraud_type;
    },
  )

  unfoldable pub join :
      Option Merchant → Option String → ℕ → String → Option (TransactionCreated × FraudLabel)
  join (some merchant) (some entry_mode) amount fraud_type =
      some (events merchant entry_mode amount fraud_type)
  join (some merchant) none amount fraud_type = none
  join none entry_mode amount fraud_type = none

  unfoldable pub build : Choice → Option (TransactionCreated × FraudLabel)
  unfolding join
  build c = join c.merchant c.entry_mode c.amount_minor c.fraud_type

module _ {F G : Type 0} ⦃f : Float64 F⦄ (rand : Rand F G) (print : Printer) where
  -- the draws of `Next`; no events where an index is out of range
  unfoldable pub draw :
      Time → ℤ → Generator F G → Option (TransactionCreated × FraudLabel) × Generator F G
  unfolding build choose
  draw occurred_at delay g =
      let sequence = g.next + 1 in
      let (account, g₁) = rand.intn g.accounts g.rng in
      let (x, g₂) = rand.float64 g₁ in
      let is_fraud = f.lt x g.fraud_rate in
      let (c, g₃) = choose rand is_fraud g₂ in
      (
        build print (print.sequence g.seed sequence) (account + 1) is_fraud occurred_at delay c,
        record g { rng = g₃; next = sequence },
      )

  -- `Next`; without accounts `Intn` panics
  unfoldable pub generate :
      Time → ℤ → Generator F G → Option (TransactionCreated × FraudLabel) × Generator F G
  unfolding draw
  generate occurred_at delay g =
      if eqb g.accounts 0 then (none, record g { next = g.next + 1 }) else draw occurred_at delay g
