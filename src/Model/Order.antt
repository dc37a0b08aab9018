-- ===== src/Model/Order.antt =====
-- The signals of `Logistic.Score` and the order in which the map of weights is visited.
use mathlib.Core.List.{append-nil, append_assoc}
use learn_go_project.Prelude.{
  String, text_lt_total, text_lt_asym, subst, text_lt_cotrans, ◌≡◌, refl, sym, ◌∙◌, ap, Bool-cases,
  true, false, not, ◌==◌, inl, inr, List, [], ◌∷◌, ◌++◌, map, All, arith,
}
use learn_go_project.Float.{Float64, IsIeee, IsNumber}
use learn_go_project.Domain.{FeatureVector, Signal}
use learn_go_project.Model.{
  Artifact, signal, score_loop, before, insert_signal, sort_signals, score,
}

-- The same map, visited in another order: its keys are distinct, so two entries that change places
-- have different names.
pub data Reordered {F : Type 0} : List (String × F) → List (String × F) → Type 0 where
  same : (ws : List (String × F)) → Reordered ws ws
  keep :
      (w : String × F) {vs ws : List (String × F)} → Reordered vs ws → Reordered (w ∷ vs) (w ∷ ws)
  swap :
      (v w : String × F) (ws : List (String × F))
      → (v.0 == w.0) ≡ false
      → Reordered (v ∷ w ∷ ws) (w ∷ v ∷ ws)
  join : {us vs ws : List (String × F)} → Reordered us vs → Reordered vs ws → Reordered us ws

module _ {F : Type 0} ⦃f : Float64 F⦄ where
  -- The magnitude of the contribution is not NaN.
  abbrev pub IsComparable : Signal F → Type 0
  IsComparable s = IsNumber (f.abs s.contribution)

  -- No signal stands behind one that the comparison puts after it.
  abbrev pub IsOrdered : List (Signal F) → Type 0
  IsOrdered [] = Unit
  IsOrdered (s ∷ ss) = All (λ t. before t s ≡ false) ss × IsOrdered ss

  All-insert_signal :
      (P : Signal F → Type 0) (s : Signal F) (ss : List (Signal F))
      → P s
      → All P ss
      → All P (insert_signal s ss)
  unfolding insert_signal
  All-insert_signal P s [] hs h = (hs, tt)
  All-insert_signal P s (t ∷ ts) hs h = elim (Bool-cases (before t s)) [
    | inl first ↦ rw first ((h.0, All-insert_signal P s ts hs h.1))
    | inr later ↦ rw later ((hs, h))
  ]

  module _ (laws : IsIeee F) where
    before_total :
        (s t : Signal F)
        → IsComparable s
        → IsComparable t
        → (s.feature == t.feature) ≡ false
        → before s t ≡ not (before t s)
    unfolding before
    before_total s t hs ht other =
        let a = f.abs s.contribution in
        let b = f.abs t.contribution in
        ground (
          arith,
          text_lt_total s.feature t.feature,
          laws.le_total a b,
          laws.lt-eq-not-le a b,
          laws.lt-eq-not-le b a,
          laws.eq-eq-le a b,
          laws.eq-eq-le b a,
        )

    before_cotrans :
        (r s t : Signal F)
        → IsComparable r
        → IsComparable s
        → IsComparable t
        → before r t ≡ true
        → before r s ≡ false
        → before s t ≡ true
    unfolding before
    before_cotrans r s t hr hs ht h k =
        let a = f.abs r.contribution in
        let b = f.abs s.contribution in
        let c = f.abs t.contribution in
        ground (
          arith,
          text_lt_cotrans r.feature s.feature t.feature,
          laws.le_total a b,
          laws.le_total b c,
          laws.le_total a c,
          laws.le_trans a b c,
          laws.le_trans b a c,
          laws.le_trans c b a,
          laws.le_trans c a b,
          laws.le_trans b c a,
          laws.le_trans a c b,
          laws.lt-eq-not-le c a,
          laws.lt-eq-not-le b a,
          laws.lt-eq-not-le c b,
          laws.eq-eq-le a c,
          laws.eq-eq-le a b,
          laws.eq-eq-le b c,
        )

    insert_signal_comm :
        (s t : Signal F) (ss : List (Signal F))
        → (s.feature == t.feature) ≡ false
        → IsComparable s
        → IsComparable t
        → All IsComparable ss
        → insert_signal s (insert_signal t ss) ≡ insert_signal t (insert_signal s ss)
    unfolding insert_signal
    insert_signal_comm s t [] other hs ht h = ground (arith, before_total s t)
    insert_signal_comm s t (x ∷ ss) other hs ht h = ground (
      arith,
      before_total s t,
      before_cotrans x s t,
      before_cotrans x t s,
      insert_signal_comm s t ss,
    )

    before_asym :
        (s t : Signal F) → IsComparable s → IsComparable t → before s t ≡ true → before t s ≡ false
    unfolding before
    before_asym s t hs ht h =
        let a = f.abs s.contribution in
        let b = f.abs t.contribution in
        ground (
          arith,
          text_lt_asym s.feature t.feature,
          laws.le_total a b,
          laws.lt-eq-not-le a b,
          laws.lt-eq-not-le b a,
          laws.eq-eq-le a b,
          laws.eq-eq-le b a,
        )

    insert_signal-IsOrdered :
        (s : Signal F) (ss : List (Signal F))
        → IsComparable s
        → All IsComparable ss
        → IsOrdered ss
        → IsOrdered (insert_signal s ss)
    unfolding insert_signal
    insert_signal-IsOrdered s [] hs h o = (tt, tt)
    insert_signal-IsOrdered s (t ∷ ts) hs h o = elim (Bool-cases (before t s)) [
      | inl first ↦ rw first (
        All-insert_signal (λ x. before x t ≡ false) s ts (before_asym t s h.0 hs first) o.0,
        insert_signal-IsOrdered s ts hs h.1 o.1,
      )
      | inr later ↦ rw later ((later, behind ts h.1 o.0 later), o)
    ]
      where
        behind :
            (xs : List (Signal F))
            → All IsComparable xs
            → All (λ x. before x t ≡ false) xs
            → before t s ≡ false
            → All (λ x. before x s ≡ false) xs
        behind [] hx ox later = tt
        behind (x ∷ xs) hx ox later =
            (ground (arith, before_cotrans x t s), behind xs hx.1 ox.1 later)

    module _ (features : FeatureVector F) where
      -- The signals of the weights can be compared.
      abbrev pub AreComparable : List (String × F) → Type 0
      AreComparable ws = All (λ w. IsComparable (signal features w)) ws

      sort_signals-IsComparable :
          (ws : List (String × F))
          → AreComparable ws
          → All IsComparable (sort_signals (map (signal features) ws))
      unfolding sort_signals
      sort_signals-IsComparable [] h = tt
      sort_signals-IsComparable (w ∷ ws) h =
          All-insert_signal IsComparable (signal features w)
            (sort_signals (map (signal features) ws)) h.0 (sort_signals-IsComparable ws h.1)

      sort_signals-IsOrdered :
          (ws : List (String × F))
          → AreComparable ws
          → IsOrdered (sort_signals (map (signal features) ws))
      unfolding sort_signals
      sort_signals-IsOrdered [] h = tt
      sort_signals-IsOrdered (w ∷ ws) h =
          insert_signal-IsOrdered (signal features w) (sort_signals (map (signal features) ws)) h.0
            (sort_signals-IsComparable ws h.1) (sort_signals-IsOrdered ws h.1)

      AreComparable-reordered :
          {vs ws : List (String × F)} → Reordered vs ws → AreComparable vs → AreComparable ws
      AreComparable-reordered (same ws) h = h
      AreComparable-reordered (keep w r) h = (h.0, AreComparable-reordered r h.1)
      AreComparable-reordered (swap v w ws other) h = (h.1.0, (h.0, h.1.1))
      AreComparable-reordered (join q r) h = AreComparable-reordered r (AreComparable-reordered q h)

      sort_signals-reordered :
          {vs ws : List (String × F)}
          → Reordered vs ws
          → AreComparable vs
          → sort_signals (map (signal features) ws) ≡ sort_signals (map (signal features) vs)
      unfolding sort_signals
      sort_signals-reordered (same ws) h = refl
      sort_signals-reordered (keep w r) h =
          ap (insert_signal (signal features w)) (sort_signals-reordered r h.1)
      sort_signals-reordered (swap v w ws other) h = sym (
          insert_signal_comm (signal features v) (signal features w)
            (sort_signals (map (signal features) ws)) (unfold signal in other) h.0 h.1.0
            (sort_signals-IsComparable ws h.1.1))
      sort_signals-reordered (join q r) h =
          sort_signals-reordered r (AreComparable-reordered q h) ∙ sort_signals-reordered q h

  score_loop-signals :
      (features : FeatureVector F) (ws : List (String × F)) (logit : F) (signals : List (Signal F))
      → (score_loop features ws logit signals).1 ≡ signals ++ map (signal features) ws
  unfolding score_loop
  score_loop-signals features [] logit signals = sym (append-nil signals)
  score_loop-signals features (w ∷ ws) logit signals =
      score_loop-signals features ws (f.add logit (signal features w).contribution)
        (signals ++ signal features w ∷ [])
      ∙ append_assoc signals (signal features w ∷ []) (map (signal features) ws)

  score-signals :
      (m : Artifact F) (features : FeatureVector F)
      → (score m features).1 ≡ sort_signals (map (signal features) m.weights)
  unfolding score
  score-signals m features = ap sort_signals (score_loop-signals features m.weights m.intercept [])

  -- The signals of a score do not depend on the order in which the map of weights is visited, and
  -- they are in the order of the sort: none stands behind one that the comparison puts after it.
  -- Condition: no contribution is NaN.
  pub score-reordered :
      IsIeee F
      → (m : Artifact F) (ws : List (String × F)) (features : FeatureVector F)
      → Reordered m.weights ws
      → All (λ w. IsComparable (signal features w)) m.weights
      → ((score (record m { weights = ws }) features).1 ≡ (score m features).1)
        × IsOrdered (score m features).1
  score-reordered laws m ws features r h = (
    score-signals (record m { weights = ws }) features
        ∙ sort_signals-reordered laws features r h
        ∙ sym (score-signals m features),
    subst IsOrdered (sym (score-signals m features))
        (sort_signals-IsOrdered laws features m.weights h),
  )
