-- ===== src/Service/Processor/Again.antt =====
-- A delivery that succeeded, and the same payload once more.
use learn_go_project.Prelude.{◌≡◌, refl, ap, subst, Bool, true, false, ◌⊎◌, inl, inr, arith}
use learn_go_project.Errors.{Result, ok, err, is_ok}
use learn_go_project.Float.{Float64}
use learn_go_project.Platform.{IsPlatform, Bytes}
use learn_go_project.Domain.{TransactionCreated, Assessment, Time, validate}
use learn_go_project.Store.Tables.{Tables}
use learn_go_project.Store.Evaluate.{Faults, no_faults, evaluate_event}
use learn_go_project.Store.Evaluate.Outcome.{Created, Found}
use learn_go_project.Store.Evaluate.Atomic.{evaluate_event-ok}
use learn_go_project.Store.Redelivery.{as_stored, evaluate_event-seen, redelivered}
use learn_go_project.Service.Metrics.{inc_duplicates}
use learn_go_project.Service.Processor.{
  Processor, World, transaction, evaluator, conclude, validated, decoded, handle_transaction,
}
use learn_go_project.Service.Processor.Delivery.{evaluator-own}

module _ {F : Type 0} ⦃f : Float64 F⦄ (P : Processor F) (laws : IsPlatform P.platform) where
  -- After a call of `Evaluate` that succeeded, the next one for the event is a lookup.
  lookup_after :
      (faults : Faults) (now now' : Time) (e : TransactionCreated) (raw : Bytes) (db : Tables F)
      {a : Assessment F} {created : Bool} {db' : Tables F}
      → P.platform.encode_transaction e ≡ ok raw
      → (Found P.platform e a db db' × (created ≡ false))
        ⊎ (Created P.platform e (evaluator P now e) a db db' × (created ≡ true))
      → (s : Assessment F) × (evaluate_event P.platform no_faults e (evaluator P now' e) db'
          ≡ (ok (s, false), db'))
  lookup_after faults now now' e raw db {a} {created} {db'} encoded (inl (found, _)) = (
    a,
    subst (λ t. evaluate_event P.platform no_faults e (evaluator P now' e) t ≡ (ok (a, false), t))
        found.unchanged
        (evaluate_event-seen P.platform e (evaluator P now' e) raw a db encoded found.old_key
          found.stored),
  )
  lookup_after faults now now' e raw db {a} {created} {db'} encoded (inr (c, _)) = (
    as_stored P.platform a,
    redelivered P.platform laws e e (evaluator P now e) (evaluator P now' e) a raw db db' c
        (evaluator-own P now e c.history a c.scored) refl encoded,
  )

  is_ok-value : (r : Result Bytes) → is_ok r ≡ true → (raw : Bytes) × (r ≡ ok raw)
  is_ok-value (ok raw) h = (raw, refl)
  is_ok-value (err e) h = absurd (ground arith)

  conclude-ok :
      (w w' : World F) (out : Result (Assessment F × Bool) × Tables F)
      → conclude P w out ≡ (ok tt, w')
      → (a : Assessment F) × ((created : Bool) × (out ≡ (ok (a, created), w'.tables)))
  unfolding conclude
  conclude-ok w w' (err e, db) h = absurd (ground arith)
  conclude-ok w w' (ok (a, false), db) h =
      (a, (false, ap (λ (r : Result (Unit {0}) × World F). (ok (a, false), r.1.tables)) h))
  conclude-ok w w' (ok (a, true), db) h =
      (a, (true, ap (λ (r : Result (Unit {0}) × World F). (ok (a, true), r.1.tables)) h))

  -- A call that succeeded had a payload that decodes to an event that passes, and `Evaluate`
  -- succeeded.
  pub handle_transaction-ok :
      (faults : Faults) (now : Time) (payload : Bytes) (w w' : World F)
      → handle_transaction P faults now payload w ≡ (ok tt, w')
      → (e : TransactionCreated) × (P.platform.decode_transaction payload ≡ ok e)
        × (validate e ≡ ok tt)
        × ((a : Assessment F) × ((created : Bool) × (evaluate_event P.platform faults e
                  (evaluator P now e)
                  w.tables
                ≡ (ok (a, created), w'.tables))))
  unfolding handle_transaction decoded validated
  handle_transaction-ok faults now payload w w' h =
      read (P.platform.decode_transaction payload) refl h
    where
      Succeeded : TransactionCreated → Type 0
      Succeeded e =
          (a : Assessment F) × ((created : Bool) × (evaluate_event P.platform faults e
                (evaluator P now e) w.tables
              ≡ (ok (a, created), w'.tables)))

      checked :
          (e : TransactionCreated) (v : Result (Unit {0}))
          → validated P faults now e v w ≡ (ok tt, w')
          → (v ≡ ok tt) × Succeeded e
      checked e (err x) k = absurd (ground arith)
      checked e (ok tt) k = (
        refl,
        conclude-ok w w' (evaluate_event P.platform faults e (evaluator P now e) w.tables) k,
      )

      read :
          (d : Result TransactionCreated)
          → P.platform.decode_transaction payload ≡ d
          → decoded P faults now d w ≡ (ok tt, w')
          → (e : TransactionCreated) × (P.platform.decode_transaction payload ≡ ok e)
            × (validate e ≡ ok tt)
            × Succeeded e
      read (err x) d k = absurd (ground arith)
      read (ok e) d k = let c = checked e (validate e) k in (e, d, c.0, c.1)

  handle_transaction-seen :
      (now : Time) (payload : Bytes) (e : TransactionCreated) (s : Assessment F) (w : World F)
      → P.platform.decode_transaction payload ≡ ok e
      → validate e ≡ ok tt
      → evaluate_event P.platform no_faults e (evaluator P now e) w.tables
        ≡ (ok (s, false), w.tables)
      → handle_transaction P no_faults now payload w
        ≡ (ok tt, record w { metrics = inc_duplicates transaction w.metrics })
  unfolding handle_transaction decoded validated conclude
  handle_transaction-seen now payload e s w d v k = rw (d, v, k) refl

  -- After a delivery that succeeded, failures on the way or not, a delivery of the payload once
  -- more, at any time, when no call fails, succeeds, counts a duplicate, and changes nothing else.
  pub handle_transaction-again :
      (faults : Faults) (now now' : Time) (payload : Bytes) (w w' : World F)
      → handle_transaction P faults now payload w ≡ (ok tt, w')
      → handle_transaction P no_faults now' payload w'
        ≡ (ok tt, record w' { metrics = inc_duplicates transaction w'.metrics })
  handle_transaction-again faults now now' payload w w' h =
      let (e, d, v, (a, (created, k))) = handle_transaction-ok faults now payload w w' h in
      let (raw, encoded) =
        is_ok-value (P.platform.encode_transaction e) (laws.encodes_events payload e d) in
      let (s, again) =
        lookup_after faults now now' e raw w.tables encoded
          (evaluate_event-ok P.platform faults e (evaluator P now e) w.tables k) in
      handle_transaction-seen now' payload e s w' d v again
