-- ===== src/FraudService/Closing.antt =====
-- What the service opens, it closes.
use learn_go_project.Prelude.{◌≡◌, refl, ◌∙◌, ap, List, [], ◌∷◌, some}
use learn_go_project.Errors.{Result, ok, err, with_prefix}
use learn_go_project.Float.{Float64}
use learn_go_project.Model.{Artifact, load}
use learn_go_project.Policy as Policy
use learn_go_project.Policy.{Thresholds}
use learn_go_project.Resources.{Log, Resource, pool, producer, consumer, acquire, call_on}
use learn_go_project.Resources.Balance.{
  Balances, replay, left_open, >>=-Balances, lift-Balances, call_on-Balances, >>=-lift-Balances,
  >>=-call_on-Balances, guarded-Balances, close_if_failed-Balances, acquire-Balances,
}
use learn_go_project.Store.Connection.{open_store, migrate}
use learn_go_project.Stream.Clients.{new_producer, new_consumer}
use learn_go_project.FraudService.{
  Options, default_options, Launch, Packages, scorer_group, evaluator_group, parse_level, wait_for,
  run_parts, connect, run_with, run,
}

module _ {F Level : Type 0} ⦃f : Float64 F⦄ (packages : Packages F Level) where
  -- What is open while the parts run, the last one first.
  abbrev all_open : List Resource
  all_open = consumer evaluator_group ∷ consumer scorer_group ∷ producer ∷ pool ∷ []

  run_parts-Balances :
      (launch : Launch F Level) → Balances all_open all_open all_open (run_parts packages launch)
  unfolding run_parts
  run_parts-Balances launch =
      >>=-call_on-Balances all_open _
        (λ _.
          >>=-call_on-Balances all_open _
            (λ _.
              >>=-call_on-Balances all_open _
                (λ _.
                  >>=-call_on-Balances all_open _
                    (λ _. lift-Balances all_open (wait_for packages launch))
                    (consumer evaluator_group) (ok tt) refl)
                (consumer scorer_group) (ok tt) refl)
            producer (ok tt) refl)
        pool (ok tt) refl

  connect-Balances :
      (o : Options F) (level : Level) (scorer : Artifact F) (thresholds : Thresholds F)
      → Balances (pool ∷ []) (pool ∷ []) (pool ∷ []) (connect packages o level scorer thresholds)
  unfolding connect new_producer new_consumer
  connect-Balances o level scorer thresholds =
      guarded-Balances (pool ∷ []) producer _ _ (acquire-Balances (pool ∷ []) producer _ refl) (
        guarded-Balances (producer ∷ pool ∷ []) (consumer scorer_group) _ _
          (acquire-Balances (producer ∷ pool ∷ []) (consumer scorer_group) _ refl)
          (guarded-Balances (consumer scorer_group ∷ producer ∷ pool ∷ [])
            (consumer evaluator_group) _ _
            (acquire-Balances (consumer scorer_group ∷ producer ∷ pool ∷ [])
              (consumer evaluator_group) _ refl)
            (run_parts-Balances _)))

  open_store-Balances :
      (new_pool ping : Result (Unit {0})) → Balances [] (pool ∷ []) [] (open_store new_pool ping)
  unfolding open_store
  open_store-Balances new_pool ping =
      >>=-Balances [] (pool ∷ []) (pool ∷ []) []
        (acquire pool (with_prefix "configure postgres" new_pool)) _
        (acquire-Balances [] pool (with_prefix "configure postgres" new_pool) refl)
        λ _.
          close_if_failed-Balances [] pool (call_on pool (with_prefix "ping postgres" ping))
            (call_on-Balances (pool ∷ []) pool (with_prefix "ping postgres" ping) refl)

  run_with-Balances : (o : Options F) → Balances [] [] [] (run_with packages o)
  unfolding run_with migrate
  run_with-Balances o =
      >>=-lift-Balances [] _
        (λ level.
          guarded-Balances [] pool (open_store (packages.new_pool o.database_url) packages.ping) _
            (open_store-Balances (packages.new_pool o.database_url) packages.ping)
            (>>=-call_on-Balances (pool ∷ []) _
              (λ _.
                >>=-lift-Balances (pool ∷ []) _
                  (λ scorer.
                    >>=-lift-Balances (pool ∷ []) _
                      (λ thresholds. connect-Balances o level scorer thresholds)
                      (Policy.new o.review o.escalate))
                  (load packages.decode_artifact (packages.read_file o.model)))
              pool (with_prefix "apply database migration" packages.migration) refl))
        (parse_level packages o.log_level)

  -- However the start or the run of the service fails or ends, each client that it opened is closed
  -- once, in the reverse order, none is used or closed while it is not open, and the parts run only
  -- while all four are open.
  pub run-closes : replay (run packages []).1 [] ≡ some []
  unfolding run
  run-closes =
      let o = packages.parse_flags (default_options packages.getenv) in
      let b = (run_with-Balances o).from [] in
      ap (λ (log : Log). replay log []) b.appended
      ∙ b.replayed
      ∙ ap some (nothing_open (run packages []).0)
    where
      nothing_open : (r : Result (Unit {0})) → left_open [] [] r ≡ []
      nothing_open (ok a) = refl
      nothing_open (err e) = refl
