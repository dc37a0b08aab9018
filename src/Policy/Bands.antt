-- ===== src/Policy/Bands.antt =====
-- The bands of scores that the thresholds cut out.
use learn_go_project.Prelude.{
  ℕ, ◌≤◌, ◌≡◌, ◌≢◌, ◌↔◌, String, Bool, Bool-cases, inl, inr, false≢true, eq_iff, true, false, ◌==◌,
  pos, arith, if◌then◌else◌,
}
use learn_go_project.Errors.{ok}
use learn_go_project.Float.{Float64, IsIeee, ◌≼◌, ◌≺◌, IsNumber, is_nan}
use learn_go_project.Domain.{action_none, action_review, action_escalate}
use learn_go_project.Policy.{Thresholds, new, decide}

-- How drastic an action is.
abbrev pub severity : String → ℕ
severity a = if a == action_escalate then 2 else if a == action_review then 1 else 0

-- The three actions are different texts.
none-ne-review : action_none ≢ action_review
none-ne-review e = false≢true ((eq_iff action_none action_review).1 e)

none-ne-escalate : action_none ≢ action_escalate
none-ne-escalate e = false≢true ((eq_iff action_none action_escalate).1 e)

review-ne-escalate : action_review ≢ action_escalate
review-ne-escalate e = false≢true ((eq_iff action_review action_escalate).1 e)

-- What `decide` computes, as a number.
level : Bool → Bool → ℕ
level true b = 2
level false true = 1
level false false = 0

module _ {F : Type 0} ⦃f : Float64 F⦄ where
  severity-decide :
      (t : Thresholds F) (s : F)
      → severity (decide t s) ≡ level (f.le t.escalate s) (f.le t.review s)
  unfolding decide level
  severity-decide t s = elim (Bool-cases (f.le t.escalate s)) [
    | inl a ↦ rw a
    | inr a ↦ rw a (elim (Bool-cases (f.le t.review s)) [ inl b ↦ rw b | inr b ↦ rw b ])
  ]

  -- 0 <= review < escalate <= 1, all of them numbers
  pub record InOrder (t : Thresholds F) : Type 0 where
    pub review_nonneg : f.of_int (pos 0) ≼ t.review
    pub review_below : t.review ≺ t.escalate
    pub escalate_le_one : t.escalate ≼ f.of_int (pos 1)

module _ {F : Type 0} ⦃f : Float64 F⦄ (laws : IsIeee F) where
  open laws use {of_int_number, le_numbers, lt_numbers, le_trans, le_total, lt-eq-not-le}

  module _ (review escalate : F) where
    -- `new` accepts two thresholds exactly if 0 <= review < escalate <= 1, which no NaN meets.
    pub new-ok_iff :
        (new review escalate ≡ ok (record { review = review; escalate = escalate }))
        ↔ InOrder (record { review = review; escalate = escalate })
    unfolding new
    new-ok_iff = ground (
      arith,
      of_int_number (pos 0),
      of_int_number (pos 1),
      lt_numbers review escalate,
      lt-eq-not-le review (f.of_int (pos 0)),
      lt-eq-not-le (f.of_int (pos 1)) escalate,
      lt-eq-not-le review escalate,
      le_numbers (f.of_int (pos 0)) review,
      le_numbers escalate (f.of_int (pos 1)),
    )

  -- A higher score never calls for a milder action, if the review threshold is below the
  -- escalation threshold.
  pub severity-decide_mono :
      (t : Thresholds F) (s s' : F)
      → t.review ≺ t.escalate
      → s ≼ s'
      → severity (decide t s) ≤ severity (decide t s')
  unfolding level
  severity-decide_mono t s s' o h = ground (
    arith,
    severity-decide t s,
    severity-decide t s',
    lt_numbers t.review t.escalate,
    lt-eq-not-le t.review t.escalate,
    le_total t.review t.escalate,
    le_trans t.review t.escalate s',
    le_trans t.escalate s s',
    le_trans t.review s s',
  )

  module _ (t : Thresholds F) (inside : InOrder t) (s : F) (number : IsNumber s) where
    -- With thresholds in order, a score that is a number is escalated exactly from the escalation
    -- threshold on, reviewed exactly from the review threshold up to it, and let pass exactly below
    -- the review threshold.
    pub decide_bands :
        ((decide t s ≡ action_escalate) ↔ (t.escalate ≼ s))
        × ((decide t s ≡ action_review) ↔ ((t.review ≼ s) × (s ≺ t.escalate)))
        × ((decide t s ≡ action_none) ↔ (s ≺ t.review))
    unfolding decide
    decide_bands = ground (
      arith,
      none-ne-review,
      none-ne-escalate,
      review-ne-escalate,
      inside,
      le_trans t.review s t.escalate,
      lt_numbers t.review t.escalate inside.review_below,
      lt-eq-not-le s t.escalate,
      lt-eq-not-le s t.review,
      lt-eq-not-le t.review t.escalate,
      le_total t.review t.escalate,
      le_trans t.review t.escalate s,
    )

  -- A NaN score calls for no action.
  pub decide-nan : (t : Thresholds F) (s : F) → is_nan s ≡ true → decide t s ≡ action_none
  unfolding decide
  decide-nan t s h = ground (arith, le_numbers t.escalate s, le_numbers t.review s)
