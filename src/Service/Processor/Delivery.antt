-- ===== src/Service/Processor/Delivery.antt =====
-- What the handler of transactions does to the database, over one delivery and over many.
use learn_go_project.Prelude.{
  String, ◌≡◌, refl, sym, subst, Bool, true, false, ◌⊎◌, inl, inr, List, [], ◌∷◌, arith,
}
use learn_go_project.Errors.{Error, permanent_error, wrap, Result, ok, err, is_permanent}
use learn_go_project.Float.{Float64}
use learn_go_project.Platform.{Bytes}
use learn_go_project.Domain.{TransactionCreated, History, Assessment, Time, validate}
use learn_go_project.Domain.Validation.{IsValid, validate-ok_iff}
use learn_go_project.Store.Tables.{Tables}
use learn_go_project.Store.Evaluate.{Faults, get_assessment, evaluate_event}
use learn_go_project.Store.Redelivery.{get_assessment-evaluate_event}
use learn_go_project.Service.Processor.{
  Processor, World, assess, evaluator, conclude, validated, decoded, handle_transaction,
}

-- A delivery: how the database fails meanwhile, the time, and the payload.
pub record Arrival : Type 0 where
  pub faults : Faults
  pub now : Time
  pub payload : Bytes

module _ {F : Type 0} ⦃f : Float64 F⦄ (P : Processor F) where
  -- The handler's assessment is of the event's transaction.
  pub evaluator-own :
      (now : Time) (e : TransactionCreated) (h : History) (a : Assessment F)
      → evaluator P now e h ≡ ok a
      → a.transaction_id ≡ e.transaction_id
  unfolding assess
  evaluator-own now e h a k = ground arith

  conclude-tables :
      (w : World F) (out : Result (Assessment F × Bool) × Tables F)
      → (conclude P w out).1.tables ≡ out.1
  unfolding conclude
  conclude-tables w (err e, db) = refl
  conclude-tables w (ok (a, false), db) = refl
  conclude-tables w (ok (a, true), db) = refl

  -- The database after a delivery: as it was, or as one call of `Evaluate` left it.
  pub Written : Faults → Time → World F → World F → Type 0
  Written faults now w w' =
      (w'.tables ≡ w.tables)
      ⊎ ((e : TransactionCreated) × (w'.tables
            ≡ (evaluate_event P.platform faults e (evaluator P now e) w.tables).1))

  validated-Written :
      (faults : Faults) (now : Time) (e : TransactionCreated) (v : Result (Unit {0})) (w : World F)
      → Written faults now w (validated P faults now e v w).1
  unfolding validated Written
  validated-Written faults now e (err x) w = inl refl
  validated-Written faults now e (ok _) w =
      inr (e, conclude-tables w (evaluate_event P.platform faults e (evaluator P now e) w.tables))

  pub handle_transaction-Written :
      (faults : Faults) (now : Time) (payload : Bytes) (w : World F)
      → Written faults now w (handle_transaction P faults now payload w).1
  unfolding handle_transaction decoded Written
  handle_transaction-Written faults now payload w = read (P.platform.decode_transaction payload)
    where
      read : (d : Result TransactionCreated) → Written faults now w (decoded P faults now d w).1
      read (err e) = inl refl
      read (ok e) = validated-Written faults now e (validate e) w

  -- A delivery keeps what every call of `Evaluate` keeps.
  pub keeps-of_Written :
      (Q : Tables F → Type 0) (faults : Faults) (now : Time) (w w' : World F)
      → ((e : TransactionCreated)
          → Q w.tables
          → Q (evaluate_event P.platform faults e (evaluator P now e) w.tables).1)
      → Written faults now w w'
      → Q w.tables
      → Q w'.tables
  unfolding Written
  keeps-of_Written Q faults now w w' step (inl same) q = subst Q (sym same) q
  keeps-of_Written Q faults now w w' step (inr (e, after)) q = subst Q (sym after) (step e q)

  -- Deliveries one after the other.
  unfoldable pub deliver : List Arrival → World F → World F
  deliver [] w = w
  deliver (a ∷ rest) w = deliver rest (handle_transaction P a.faults a.now a.payload w).1

  deliver_keeps :
      (Q : Tables F → Type 0)
      → ((faults : Faults) (now : Time) (e : TransactionCreated) (db : Tables F)
          → Q db
          → Q (evaluate_event P.platform faults e (evaluator P now e) db).1)
      → (arrivals : List Arrival) (w : World F) → Q w.tables
      → Q (deliver arrivals w).tables
  unfolding deliver
  deliver_keeps Q step [] w q = q
  deliver_keeps Q step (a ∷ rest) w q =
      deliver_keeps Q step rest (handle_transaction P a.faults a.now a.payload w).1 (
        keeps-of_Written Q a.faults a.now w (handle_transaction P a.faults a.now a.payload w).1
          (λ e. step a.faults a.now e w.tables)
          (handle_transaction-Written a.faults a.now a.payload w) q)

  -- An assessment that is stored under a transaction is what is stored there after any deliveries.
  pub get_assessment-deliver :
      (arrivals : List Arrival) (k : String) (s : Assessment F) (w : World F)
      → get_assessment P.platform k w.tables ≡ ok s
      → get_assessment P.platform k (deliver arrivals w).tables ≡ ok s
  get_assessment-deliver arrivals k s w h =
      deliver_keeps (λ db. get_assessment P.platform k db ≡ ok s)
        (λ faults now e db found.
          get_assessment-evaluate_event P.platform faults e (evaluator P now e) k db s found)
        arrivals w h

  -- A payload that does not decode, or that decodes to an event that breaks the contract, is answered
  -- by a permanent error, and the database stays as it was.
  pub handle_transaction-refuses :
      (faults : Faults) (now : Time) (payload : Bytes) (w : World F)
      → ((e : TransactionCreated) → P.platform.decode_transaction payload ≡ ok e → ¬ IsValid e)
      → (x : Error) × ((handle_transaction P faults now payload w).0 ≡ err x)
        × (is_permanent x ≡ true)
        × ((handle_transaction P faults now payload w).1.tables ≡ w.tables)
  unfolding handle_transaction decoded validated is_permanent
  handle_transaction-refuses faults now payload w bad =
      read (P.platform.decode_transaction payload) refl
    where
      checked :
          (e : TransactionCreated) (v : Result (Unit {0}))
          → P.platform.decode_transaction payload ≡ ok e
          → validate e ≡ v
          → (x : Error) × ((validated P faults now e v w).0 ≡ err x)
            × (is_permanent x ≡ true)
            × ((validated P faults now e v w).1.tables ≡ w.tables)
      checked e (err x) d v = (permanent_error (wrap "validate transaction" x), refl, refl, refl)
      checked e (ok tt) d v = absurd (bad e d ((validate-ok_iff e).0 v))

      read :
          (d : Result TransactionCreated)
          → P.platform.decode_transaction payload ≡ d
          → (x : Error) × ((decoded P faults now d w).0 ≡ err x)
            × (is_permanent x ≡ true)
            × ((decoded P faults now d w).1.tables ≡ w.tables)
      read (err x) d = (permanent_error (wrap "decode transaction" x), refl, refl, refl)
      read (ok e) d = checked e (validate e) d refl
