-- ===== src/Simulator/Run/Closing.antt =====
-- What the simulator opens, it closes.
use learn_go_project.Prelude.{◌≡◌, refl, ◌∙◌, ap, [], ◌∷◌, some}
use learn_go_project.Errors.{Result, ok, err}
use learn_go_project.Float.{Float64}
use learn_go_project.Domain.{Time}
use learn_go_project.Resources.{Log, producer}
use learn_go_project.Resources.Balance.{
  Balances, replay, left_open, call_on-Balances, >>=-lift-Balances, guarded-Balances,
  acquire-Balances,
}
use learn_go_project.Stream.Clients.{new_producer}
use learn_go_project.Simulator.{Generator, new}
use learn_go_project.Simulator.Command.{check_options}
use learn_go_project.Simulator.Run.{
  Flags, default_flags, options_of, Packages, Circumstances, start_of, send_all, connect, run_with,
  run,
}

module _ {F G : Type 0} ⦃f : Float64 F⦄ (packages : Packages F G) (c : Circumstances) where
  connect-Balances :
      (o : Flags F) (start : Time) (generator : Generator F G)
      → Balances [] [] [] (connect packages c o start generator)
  unfolding connect new_producer
  connect-Balances o start generator =
      guarded-Balances [] producer _ _ (acquire-Balances [] producer _ refl) (
        call_on-Balances (producer ∷ []) producer (ok (send_all packages c o start generator)) refl)

  run_with-Balances : (o : Flags F) → Balances [] [] [] (run_with packages c o)
  unfolding run_with
  run_with-Balances o =
      >>=-lift-Balances [] _
        (λ _.
          >>=-lift-Balances [] _
            (λ start.
              >>=-lift-Balances [] _ (λ generator. connect-Balances o start generator)
                (new packages.source o.seed o.accounts o.fraud_rate))
            (start_of packages o.start_time))
        (check_options (options_of o))

  -- However the simulator's start or its run fails or ends, the producer is closed once if it was
  -- made, and is used only before.
  run-closes_producer : replay (run packages c []).1 [] ≡ some []
  unfolding run
  run-closes_producer =
      let b = (run_with-Balances (packages.parse_flags default_flags)).from [] in
      ap (λ (log : Log). replay log []) b.appended
      ∙ b.replayed
      ∙ ap some (nothing_open (run packages c []).0)
    where
      nothing_open : {A : Type 0} (r : Result A) → left_open [] [] r ≡ []
      nothing_open (ok a) = refl
      nothing_open (err e) = refl
