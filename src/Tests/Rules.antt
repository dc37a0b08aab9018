-- ===== src/Tests/Rules.antt =====
-- The rules of internal/domain, internal/policy and internal/simulator at concrete inputs.
use learn_go_project.Prelude.{
  arith, [], ◌∷◌, none, All, map, ◌≢◌, ℕ, ◌+◌, ◌+ℤ◌, some, pos, ◌≡◌, ◌↔◌, refl,
}
use learn_go_project.Errors.{Result, ok}
use learn_go_project.Float.{Whole, whole, whole_float, Whole-IsIeee, ◌≼◌, ◌≺◌}
use learn_go_project.Domain.{
  TransactionCreated, FraudLabel, action_none, action_review, action_escalate, validate,
}
use learn_go_project.Domain.Validation.{IsValid, IsValidLabel, validate-ok_iff}
use learn_go_project.Policy.{decide}
use learn_go_project.Policy.Bands.{InOrder, decide_bands}
use learn_go_project.Simulator.{Rand, IsRand, Printer, Generator, generate, new}
use learn_go_project.Platform.{Bytes}
use learn_go_project.Stream.Producer.{delivered}
use learn_go_project.Simulator.Command.{Round, panicked, event_step, emit_all}
use learn_go_project.Simulator.Command.Times.{IsChronological}
use learn_go_project.Simulator.Command.Loop.{emit_all-IsChronological}
use learn_go_project.Simulator.Generated.{generate-IsValid}
use learn_go_project.Tests.Sample.{event, thresholds}

validate-ok_iff_example : (validate (event 500) ≡ ok tt) ↔ IsValid (event 500)
validate-ok_iff_example = validate-ok_iff (event 500)

thresholds-InOrder : InOrder thresholds
thresholds-InOrder = record { review_nonneg = refl; review_below = refl; escalate_le_one = refl }

decide_bands_example :
    ((decide thresholds (whole 0) ≡ action_escalate) ↔ (whole 1 ≼ whole 0))
    × ((decide thresholds (whole 0) ≡ action_review) ↔ ((whole 0 ≼ whole 0) × (whole 0 ≺ whole 1)))
    × ((decide thresholds (whole 0) ≡ action_none) ↔ (whole 0 ≺ whole 0))
decide_bands_example = decide_bands Whole-IsIeee thresholds thresholds-InOrder (whole 0) refl

-- A source whose draws are all 0, with which every transaction is fraud, and a printer of one text.
abbrev pub zeros : Rand Whole ℕ
zeros = record { intn = λ n g. (0, g + 1); float64 = λ g. (whole 0, g + 1) }

pub zeros-IsRand : IsRand zeros
zeros-IsRand = record { intn_below = λ n g h. h }

abbrev pub printer : Printer
printer = record { sequence = λ seed n. "42-000000001"; padded = λ n. "0001" }

abbrev pub generator : Generator Whole ℕ
generator = record { rng = 0; seed = pos 42; next = 0; accounts = 3; fraud_rate = whole 1 }

generate-IsValid_example :
    (t : TransactionCreated) × ((l : FraudLabel) × ((generate zeros printer
          (pos 3_600)
          (pos 60)
          generator).0
        ≡ some (t, l))
      × IsValid t
      × IsValidLabel l
      × (l.transaction_id ≡ t.transaction_id)
      × ((generate zeros printer (pos 3_600) (pos 60) generator).1.next ≡ 1))
unfolding ◌+ℤ◌
generate-IsValid_example =
    generate-IsValid zeros zeros-IsRand printer (pos 3_600) (pos 60) generator (omega arith)
      (λ e. absurd (ground arith)) (λ e. absurd (ground arith))

-- Two rounds without pacing, over a network that delivers.
abbrev pub round : Round
round = record { waiting = none; network = λ m b. delivered; queueing = none }

abbrev pub encode_nothing : TransactionCreated → Result Bytes
encode_nothing t = ok []

emit_all-IsChronological_example :
    let out =
      emit_all zeros printer encode_nothing
        (pos 3_600)
        (pos 0)
        (pos 60)
        2
        (round ∷ round ∷ [])
        (record { generator = generator; broker = []; emitted = 0; sent = []; labels = [] }) in
    (out.0 ≢ panicked)
    × All IsValid out.1.sent
    × IsChronological (map (λ t. t.occurred_at) out.1.sent)
unfolding event_step new
emit_all-IsChronological_example =
    emit_all-IsChronological zeros zeros-IsRand printer encode_nothing 3_600 (pos 0) 60
      (omega arith) (λ seed. 0) (pos 42) (pos 3) (whole 1) 2 (round ∷ round ∷ []) generator [] refl
      (omega arith)
