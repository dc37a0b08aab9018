-- ===== src/Service/Commits.antt =====
-- The consumer of the transactions' topic with its handler: `handleRecord` of
-- internal/stream/kafka.go round `HandleTransaction` of internal/service/processor.go.
use mathlib.Core.List.{Memᴰ}
use learn_go_project.Prelude.{
  ◌≡◌, subst, Bool, true, false, ◌⊎◌, inl, inr, List, [], ◌∷◌, ◌++◌, map,
}
use learn_go_project.Errors.{Error, Result, ok, is_permanent}
use learn_go_project.Exec.{Commit}
use learn_go_project.Float.{Float64}
use learn_go_project.Platform.{IsPlatform, Bytes}
use learn_go_project.Domain.{TransactionCreated, Assessment, Time}
use learn_go_project.Domain.Validation.{IsValid, validate-ok_iff}
use learn_go_project.Store.Tables.{Tables}
use learn_go_project.Store.Evaluate.{Faults, get_assessment}
use learn_go_project.Store.Evaluate.Outcome.{Created, Found}
use learn_go_project.Store.Evaluate.Atomic.{evaluate_event-ok}
use learn_go_project.Store.Redelivery.{as_stored, get_assessment-Created}
use learn_go_project.Stream.Producer.{Broker, Network, message, dead_letter_topic}
use learn_go_project.Stream.Consumer.{Record, Round, State, handle_record}
use learn_go_project.Stream.Consumer.Offsets.{
  IsSettled, handled, parked_letter, handle_record-Justified,
}
use learn_go_project.Service.Processor.{Processor, World, evaluator, handle_transaction}
use learn_go_project.Service.Processor.Delivery.{evaluator-own}
use learn_go_project.Service.Processor.Again.{handle_transaction-ok}

-- What a round of the loop cannot foresee: how the database fails, the time, the context, and the
-- commit of the offset.
pub record Turn : Type 0 where
  pub faults : Faults
  pub now : Time
  pub cancelled_before : Bool
  pub cancelled_after : Bool
  pub cancelled_waiting : Bool
  pub commit : Commit

Mem-map : {A B : Type 0} (g : A → B) (b : B) (xs : List A) → Memᴰ b (map g xs) → (a : A) × (b ≡ g a)
Mem-map g b [] m = elim m [ ]
Mem-map g b (a ∷ xs) (Memᴰ.head e) = (a, e)
Mem-map g b (a ∷ xs) (Memᴰ.tail m) = Mem-map g b xs m

module _ {F : Type 0} ⦃f : Float64 F⦄ (P : Processor F) where
  abbrev pub transaction_round : Turn → Round (World F)
  transaction_round t = record {
    handler = handle_transaction P t.faults t.now;
    cancelled_before = t.cancelled_before;
    cancelled_after = t.cancelled_after;
    cancelled_waiting = t.cancelled_waiting;
    commit = t.commit;
  }

  -- The record holds a valid event whose transaction has a stored assessment.
  pub record IsAssessed (payload : Bytes) (db : Tables F) : Type 0 where
    pub event : TransactionCreated
    pub assessment : Assessment F
    pub decoded : P.platform.decode_transaction payload ≡ ok event
    pub valid : IsValid event
    pub found : get_assessment P.platform event.transaction_id db ≡ ok assessment

  -- The record's dead letter, with an error that no retry repairs, is in the broker.
  pub record IsDeadLettered (letter : Record → Error → Result Bytes) (r : Record) (b : Broker)
      : Type 0 where
    pub error : Error
    pub payload : Bytes
    pub fatal : is_permanent error ≡ true
    pub encoded : letter r error ≡ ok payload
    pub sent : Memᴰ (message dead_letter_topic r.key payload) b

  module _ (laws : IsPlatform P.platform) where
    lookup_succeeds :
        (now : Time) (e : TransactionCreated) (a : Assessment F) (created : Bool)
        (db db' : Tables F)
        → (Found P.platform e a db db' × (created ≡ false))
          ⊎ (Created P.platform e (evaluator P now e) a db db' × (created ≡ true))
        → (s : Assessment F) × (get_assessment P.platform e.transaction_id db' ≡ ok s)
    lookup_succeeds now e a created db db' (inl (found, _)) = (
      a,
      subst (λ t. get_assessment P.platform e.transaction_id t ≡ ok a) found.unchanged found.stored,
    )
    lookup_succeeds now e a created db db' (inr (c, _)) = (
      as_stored P.platform a,
      get_assessment-Created P.platform laws e (evaluator P now e) a db db'
          (evaluator-own P now e c.history a c.scored) c,
    )

    -- After a call of the handler that succeeded, the event's assessment is stored.
    handle_transaction-IsAssessed :
        (faults : Faults) (now : Time) (payload : Bytes) (w w' : World F)
        → handle_transaction P faults now payload w ≡ (ok tt, w')
        → IsAssessed payload w'.tables
    handle_transaction-IsAssessed faults now payload w w' h =
        let (e, d, v, (a, (created, k))) = handle_transaction-ok P laws faults now payload w w' h in
        let (s, found) =
          lookup_succeeds now e a created w.tables w'.tables
            (evaluate_event-ok P.platform faults e (evaluator P now e) w.tables k) in
        record {
          event = e;
          assessment = s;
          decoded = d;
          valid = (validate-ok_iff e).0 v;
          found = found;
        }

    module _ (net : Network) (letter : Record → Error → Result Bytes) (r : Record) where
      settled_cases :
          (turns : List Turn) (end : World F) (b : Broker)
          → IsSettled letter r (map transaction_round turns) end b
          → IsAssessed r.value end.tables ⊎ IsDeadLettered letter r b
      settled_cases turns end b (handled round w m h) =
          let (t, same) = Mem-map transaction_round round turns m in
          inl (
            handle_transaction-IsAssessed t.faults t.now r.value w end
              (subst (λ (q : Round (World F)). q.handler r.value w ≡ (ok tt, end)) same h))
      settled_cases turns end b (parked_letter round w e payload m h fatal l k) =
          inr (record { error = e; payload = payload; fatal = fatal; encoded = l; sent = k })

      -- No transaction is lost: through any failures, cancellations and lost answers, handling a
      -- record of the transactions' topic leaves the committed offsets as they were, so that the
      -- record is delivered again, or adds the record's, and then the record's event is valid and
      -- its transaction has an assessment in the database, or the record's dead letter is in the
      -- broker with an error that no retry repairs.
      pub handle_record-loses_nothing :
          (turns : List Turn) (s : State (World F))
          → let end = (handle_record net letter r (map transaction_round turns) s).1 in
            (end.offsets ≡ s.offsets)
            ⊎ ((end.offsets ≡ s.offsets ++ r ∷ [])
                × (IsAssessed r.value end.world.tables ⊎ IsDeadLettered letter r end.broker))
      handle_record-loses_nothing turns s =
          elim (handle_record-Justified letter r net (map transaction_round turns) s) [
            | inl same ↦ inl same
            | inr (more, settled) ↦ inr (more, settled_cases turns _ _ settled)
          ]
