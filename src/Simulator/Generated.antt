-- ===== src/Simulator/Generated.antt =====
-- What the simulator makes up meets the contracts of the service.
use Prim.Native.String.{◌++◌}
use text.Mathlib.TextPositions.{len-append}
use learn_go_project.Prelude.{
  ℕ, zero, suc, ◌+◌, ◌<◌, String, len, ◌≡◌, ◌≢◌, ◌⊎◌, refl, ap, false≢true, inl, inr, Bool, true,
  false, Bool-cases, eqb, Option, some, List, [], ◌∷◌, All, length, ℤ, pos, negsuc, ◌+ℤ◌, arith,
}
use learn_go_project.Errors.{ok}
use learn_go_project.Float.{Float64}
use learn_go_project.Domain.{
  Merchant, TransactionCreated, FraudLabel, Time, entry_mode_chip, entry_mode_contactless,
}
use learn_go_project.Domain.Validation.{IsValid, IsValidLabel}
use learn_go_project.Simulator.{
  Rand, IsRand, Printer, normal_merchants, fraud_merchants, at, Generator, Choice, normal_choice,
  fraud_choice, choose, events, join, build, draw, generate, new,
}

-- A text that is known to differ from the empty one by its length.
nonempty : (s : String) → 0 < len s → s ≢ ""
nonempty s h e = absurd (omega (arith, h, ap len e))

prefix-nonempty : (s t : String) → 0 < len s → s ++ t ≢ ""
prefix-nonempty s t h = nonempty (s ++ t) (omega (arith, h, len-append s t))

record IsShop (m : Merchant) : Type 0 where
  id : m.id ≢ ""
  category : m.category ≢ ""
  country : len m.country ≡ 2

IsMode : String → Type 0
IsMode e = (e ≡ "chip") ⊎ ((e ≡ "contactless") ⊎ (e ≡ "ecommerce"))

at-All :
    {A : Type 0} (P : A → Type 0) (xs : List A) (i : ℕ)
    → i < length xs
    → All P xs
    → (a : A) × (at xs i ≡ some a) × P a
at-All P [] i h k = absurd (omega (arith, h))
at-All P (x ∷ xs) zero h k = (x, refl, k.0)
at-All P (x ∷ xs) (suc i) h k = at-All P xs i (omega (arith, h)) k.1

IsShop-of_lengths :
    (id category country : String)
    → 0 < len id
    → 0 < len category
    → len country ≡ 2
    → IsShop (record { id = id; category = category; country = country })
IsShop-of_lengths id category country h k l = record {
  id = nonempty id h;
  category = nonempty category k;
  country = l;
}

normal_merchants-IsShop : All IsShop normal_merchants
normal_merchants-IsShop = (
  IsShop-of_lengths _ _ _ (omega arith) (omega arith) refl,
  (
    IsShop-of_lengths _ _ _ (omega arith) (omega arith) refl,
    (
      IsShop-of_lengths _ _ _ (omega arith) (omega arith) refl,
      (
        IsShop-of_lengths _ _ _ (omega arith) (omega arith) refl,
        (IsShop-of_lengths _ _ _ (omega arith) (omega arith) refl, tt),
      ),
    ),
  ),
)

fraud_merchants-IsShop : All IsShop fraud_merchants
fraud_merchants-IsShop = (
  IsShop-of_lengths _ _ _ (omega arith) (omega arith) refl,
  (
    IsShop-of_lengths _ _ _ (omega arith) (omega arith) refl,
    (IsShop-of_lengths _ _ _ (omega arith) (omega arith) refl, tt),
  ),
)

-- What was drawn makes valid events.
record IsFit (is_fraud : Bool) (c : Choice) : Type 0 where
  merchant : Merchant
  entry_mode : String
  has_merchant : c.merchant ≡ some merchant
  has_entry_mode : c.entry_mode ≡ some entry_mode
  shop : IsShop merchant
  mode : IsMode entry_mode
  amount : 0 < c.amount_minor
  kind : is_fraud ≡ true → c.fraud_type ≢ ""

module _ {F G : Type 0} (rand : Rand F G) (laws : IsRand rand) where
  normal_choice-IsFit : (g : G) → IsFit false (normal_choice rand g).0
  unfolding normal_choice IsMode
  normal_choice-IsFit g =
      let g₁ = (rand.intn 5 g).1 in
      let (m, has_merchant, shop) =
        at-All IsShop normal_merchants (rand.intn 5 g).0 (laws.intn_below 5 g (omega arith))
          normal_merchants-IsShop in
      let (e, has_entry_mode, mode) =
        at-All IsMode (entry_mode_chip ∷ entry_mode_contactless ∷ []) (rand.intn 2 g₁).0
          (laws.intn_below 2 g₁ (omega arith)) (inl refl, (inr (inl refl), tt)) in
      record {
        merchant = m;
        entry_mode = e;
        has_merchant = has_merchant;
        has_entry_mode = has_entry_mode;
        shop = shop;
        mode = mode;
        amount = omega arith;
        kind = λ h. absurd (false≢true h);
      }

  fraud_choice-IsFit : (g : G) → IsFit true (fraud_choice rand g).0
  unfolding fraud_choice IsMode
  fraud_choice-IsFit g =
      let (m, has_merchant, shop) =
        at-All IsShop fraud_merchants (rand.intn 3 g).0 (laws.intn_below 3 g (omega arith))
          fraud_merchants-IsShop in
      record {
        merchant = m;
        entry_mode = "ecommerce";
        has_merchant = has_merchant;
        has_entry_mode = refl;
        shop = shop;
        mode = inr (inr refl);
        amount = omega arith;
        kind = λ _. nonempty "card_not_present" (omega arith);
      }

  choose-IsFit : (is_fraud : Bool) (g : G) → IsFit is_fraud (choose rand is_fraud g).0
  unfolding choose
  choose-IsFit true g = fraud_choice-IsFit (normal_choice rand g).1
  choose-IsFit false g = normal_choice-IsFit g

module _ (print : Printer) (id : String) (account : ℕ) (is_fraud : Bool) (occurred_at : Time)
    (delay : ℤ) where
  join-some :
      (m : Option Merchant) (e : Option String) (amount : ℕ) (kind : String) {merchant : Merchant}
      {entry_mode : String}
      → m ≡ some merchant
      → e ≡ some entry_mode
      → join print id account is_fraud occurred_at delay m e amount kind
        ≡ some (events print id account is_fraud occurred_at delay merchant entry_mode amount kind)
  unfolding join
  join-some m e amount kind h k = rw (h, k) refl

module _ (print : Printer) (id : String) (account : ℕ) (is_fraud : Bool) (occurred_at : Time)
    (delay : ℤ) (dated : occurred_at ≢ pos 0) (labelled : occurred_at +ℤ delay ≢ pos 0) where
  -- Two valid events for one transaction.
  AreValid : TransactionCreated × FraudLabel → Type 0
  AreValid (t, l) =
      IsValid t × IsValidLabel l × (l.transaction_id ≡ t.transaction_id) × (l.is_fraud ≡ is_fraud)

  events-AreValid :
      (merchant : Merchant) (entry_mode : String) (amount : ℕ) (kind : String)
      → IsShop merchant
      → IsMode entry_mode
      → 0 < amount
      → (is_fraud ≡ true → kind ≢ "")
      → AreValid
          (events print id account is_fraud occurred_at delay merchant entry_mode amount kind)
  unfolding AreValid IsMode
  events-AreValid merchant entry_mode amount kind shop mode positive named = (
    record {
      version = refl;
      event = prefix-nonempty "transaction-" id (omega arith);
      transaction = prefix-nonempty "tx-" id (omega arith);
      account = prefix-nonempty "account-" (print.padded account) (omega arith);
      card = prefix-nonempty "card-" (print.padded account) (omega arith);
      time = dated;
      amount = omega (arith, positive);
      currency = refl;
      merchant_id = shop.id;
      category = shop.category;
      country = shop.country;
      entry_mode = mode;
    },
    record {
      version = refl;
      event = prefix-nonempty "label-" id (omega arith);
      transaction = prefix-nonempty "tx-" id (omega arith);
      time = labelled;
      kind = named;
    },
    refl,
    refl,
  )

  build-AreValid :
      (c : Choice)
      → IsFit is_fraud c
      → (out : TransactionCreated × FraudLabel) × (build print id account is_fraud occurred_at delay
            c
          ≡ some out)
        × AreValid out
  unfolding build
  build-AreValid c fit = (
    events print id account is_fraud occurred_at delay fit.merchant fit.entry_mode c.amount_minor
        c.fraud_type,
    join-some print id account is_fraud occurred_at delay c.merchant c.entry_mode c.amount_minor
        c.fraud_type fit.has_merchant fit.has_entry_mode,
    events-AreValid fit.merchant fit.entry_mode c.amount_minor c.fraud_type fit.shop fit.mode
        fit.amount fit.kind,
  )

module _ {F G : Type 0} ⦃f : Float64 F⦄ (rand : Rand F G) (laws : IsRand rand)
    (print : Printer) where
  draw-some :
      (occurred_at : Time) (delay : ℤ) (g : Generator F G)
      → (out : TransactionCreated × FraudLabel) × ((draw rand print occurred_at delay g).0
          ≡ some out)
  unfolding draw build
  draw-some occurred_at delay g =
      let (account, g₁) = rand.intn g.accounts g.rng in
      let (x, g₂) = rand.float64 g₁ in
      let is_fraud = f.lt x g.fraud_rate in
      let c = (choose rand is_fraud g₂).0 in
      let fit = choose-IsFit rand laws is_fraud g₂ in
      (
        _,
        join-some print (print.sequence g.seed (g.next + 1)) (account + 1) is_fraud occurred_at
            delay c.merchant c.entry_mode c.amount_minor c.fraud_type fit.has_merchant
            fit.has_entry_mode,
      )

  draw-IsValid :
      (occurred_at : Time) (delay : ℤ) (g : Generator F G)
      → occurred_at ≢ pos 0
      → occurred_at +ℤ delay ≢ pos 0
      → (t : TransactionCreated) × ((l : FraudLabel) × ((draw rand print occurred_at delay g).0
            ≡ some (t, l))
          × IsValid t
          × IsValidLabel l
          × (l.transaction_id ≡ t.transaction_id)
          × ((draw rand print occurred_at delay g).1.next ≡ g.next + 1))
  unfolding draw AreValid
  draw-IsValid occurred_at delay g dated labelled =
      let (account, g₁) = rand.intn g.accounts g.rng in
      let (x, g₂) = rand.float64 g₁ in
      let is_fraud = f.lt x g.fraud_rate in
      let ((t, l), made, (valid, valid_label, same, kind)) =
        build-AreValid print (print.sequence g.seed (g.next + 1)) (account + 1) is_fraud occurred_at
          delay dated labelled (choose rand is_fraud g₂).0 (choose-IsFit rand laws is_fraud g₂) in
      (t, (l, made, valid, valid_label, same, refl))

  has_accounts : (n : ℕ) → 0 < n → eqb n 0 ≡ false
  has_accounts n h = ground (arith, h)

  pub generate-some :
      (occurred_at : Time) (delay : ℤ) (g : Generator F G)
      → 0 < g.accounts
      → (out : TransactionCreated × FraudLabel) × ((generate rand print occurred_at delay g).0
          ≡ some out)
  unfolding generate
  generate-some occurred_at delay g real =
      rw (has_accounts g.accounts real) (draw-some occurred_at delay g)

  pub generate-accounts :
      (occurred_at : Time) (delay : ℤ) (g : Generator F G)
      → (generate rand print occurred_at delay g).1.accounts ≡ g.accounts
  unfolding generate draw
  generate-accounts occurred_at delay g = elim (Bool-cases (eqb g.accounts 0)) [
    | inl none_left ↦ rw none_left refl
    | inr real ↦ rw real refl
  ]

  -- Whatever is drawn, `Next` of a generator with accounts makes a transaction that meets the contract
  -- of transactions and a label that meets the contract of labels, both of one transaction id, if the
  -- time of the transaction and that of the label are not the zero time; and it counts one more.
  pub generate-IsValid :
      (occurred_at : Time) (delay : ℤ) (g : Generator F G)
      → 0 < g.accounts
      → occurred_at ≢ pos 0
      → occurred_at +ℤ delay ≢ pos 0
      → (t : TransactionCreated) × ((l : FraudLabel) × ((generate rand print occurred_at delay g).0
            ≡ some (t, l))
          × IsValid t
          × IsValidLabel l
          × (l.transaction_id ≡ t.transaction_id)
          × ((generate rand print occurred_at delay g).1.next ≡ g.next + 1))
  unfolding generate
  generate-IsValid occurred_at delay g real dated labelled =
      rw (has_accounts g.accounts real) (draw-IsValid occurred_at delay g dated labelled)

-- A generator that `New` makes has accounts.
pub new-accounts :
    {F G : Type 0} ⦃f : Float64 F⦄ (source : ℤ → G) (seed accounts : ℤ) (fraud_rate : F)
    (g : Generator F G)
    → new source seed accounts fraud_rate ≡ ok g
    → 0 < g.accounts
unfolding new
new-accounts source seed (negsuc n) fraud_rate g h = absurd (ground (arith, h))
new-accounts source seed (pos n) fraud_rate g h = ground (arith, h)
