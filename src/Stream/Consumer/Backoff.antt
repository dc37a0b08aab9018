-- ===== src/Stream/Consumer/Backoff.antt =====
-- Transient errors: the loop waits longer and longer, up to five seconds, and gives up nothing.
use native.Mathlib.Nat.{pow-suc}
use learn_go_project.Prelude.{
  ℕ, zero, suc, ◌+◌, ◌*◌, ◌^◌, ◌≤◌, ◌≡◌, refl, sym, ap, ◌∙◌, false, none, List, [], ◌∷◌, ◌++◌, leb,
  length, All, arith, if◌then◌else◌,
}
use learn_go_project.Errors.{Error, Result, ok, err, is_permanent}
use learn_go_project.Exec.{committed}
use learn_go_project.Platform.{Bytes}
use learn_go_project.Stream.Producer.{Network}
use learn_go_project.Stream.Consumer.{
  Record, Round, State, Ending, returned, commit_record, settle, retry, one_round, handle_from,
  handle_record, first_backoff, max_backoff, next_backoff,
}

-- The wait after a number of doublings.
pub backoff_after : ℕ → ℕ
backoff_after zero = first_backoff
backoff_after (suc n) = next_backoff (backoff_after n)

-- min(100 * 2^n, 5000)
pub backoff_closed : ℕ → ℕ
backoff_closed n = if leb (100 * 2 ^ n) max_backoff then 100 * 2 ^ n else max_backoff

backoff_late : (n : ℕ) → backoff_after (suc (suc (suc (suc (suc (suc n)))))) ≡ max_backoff
unfolding backoff_after next_backoff
backoff_late zero = refl
backoff_late (suc n) = rw (backoff_late n) refl

pow_pos : (n : ℕ) → 1 ≤ 2 ^ n
pow_pos zero = omega arith
pow_pos (suc n) = simp pow-suc (omega (arith, pow_pos n))

closed_late : (n : ℕ) → backoff_closed (suc (suc (suc (suc (suc (suc n)))))) ≡ max_backoff
unfolding backoff_closed
closed_late n = simp pow-suc (ground (arith, pow_pos n))

-- The waits double from 100 ms and stay at 5 s: after n transient errors the next wait is
-- min(100 * 2^n, 5000).
pub backoff_after-eq-closed : (n : ℕ) → backoff_after n ≡ backoff_closed n
unfolding backoff_after backoff_closed next_backoff
backoff_after-eq-closed zero = refl
backoff_after-eq-closed (suc zero) = refl
backoff_after-eq-closed (suc (suc zero)) = refl
backoff_after-eq-closed (suc (suc (suc zero))) = refl
backoff_after-eq-closed (suc (suc (suc (suc zero)))) = refl
backoff_after-eq-closed (suc (suc (suc (suc (suc zero))))) = refl
backoff_after-eq-closed (suc (suc (suc (suc (suc (suc n)))))) = backoff_late n ∙ sym (closed_late n)

-- The waits of n rounds from the k-th on, the last one first, on top of those before.
pub schedule : ℕ → ℕ → List ℕ → List ℕ
schedule k zero before = before
schedule k (suc n) before = schedule (suc k) n (backoff_closed k ∷ before)

module _ {W : Type 0} (net : Network) (letter : Record → Error → Result Bytes) (r : Record) where
  -- A round whose handler fails with a transient error while the context lives.
  pub record IsTransient (round : Round W) : Type 0 where
    pub alive_before : round.cancelled_before ≡ false
    pub alive_after : round.cancelled_after ≡ false
    pub alive_waiting : round.cancelled_waiting ≡ false
    pub fails :
        (w : W) → (e : Error) × ((round.handler r.value w).0 ≡ err e) × (is_permanent e ≡ false)

  -- What the handlers of the rounds leave of the world.
  pub worlds : List (Round W) → W → W
  worlds [] w = w
  worlds (round ∷ rounds) w = worlds rounds (round.handler r.value w).1

  one_round-transient :
      (round : Round W) (next : ℕ → State W → Ending × State W) (backoff : ℕ) (s : State W)
      → IsTransient round
      → one_round net letter r round next backoff s
        ≡ next
            (next_backoff backoff)
            (record s { world = (round.handler r.value s.world).1; waits = backoff ∷ s.waits })
  unfolding one_round settle retry
  one_round-transient round next backoff s t =
      let (e, failed, transient) = t.fails s.world in ground (arith, failed, transient)

  handle_from-transient :
      (rounds more : List (Round W)) (k j : ℕ) (s : State W)
      → k + length rounds ≡ j
      → All IsTransient rounds
      → handle_from net letter r (rounds ++ more) (backoff_after k) s
        ≡ handle_from net letter r more
            (backoff_after j)
            (record s { world = worlds rounds s.world; waits = schedule k (length rounds) s.waits })
  unfolding handle_from worlds schedule next_backoff backoff_after
  handle_from-transient [] more k j s e t = let same : k ≡ j = omega arith in rw same refl
  handle_from-transient (round ∷ rounds) more k j s e t =
      one_round-transient round (handle_from net letter r (rounds ++ more)) (backoff_after k) s t.0
      ∙ handle_from-transient rounds more (suc k) j
          (record s {
            world = (round.handler r.value s.world).1;
            waits = backoff_after k ∷ s.waits;
          })
          (omega arith) t.1
      ∙ ap
          (λ (b : ℕ). handle_from net letter r more (backoff_after j) (record s {
            world = worlds (round ∷ rounds) s.world;
            waits = schedule (suc k) (length rounds) (b ∷ s.waits);
          }))
          (backoff_after-eq-closed k)

  one_round-good :
      (good : Round W) (next : ℕ → State W → Ending × State W) (backoff : ℕ) (s : State W)
      → good.cancelled_before ≡ false
      → (good.handler r.value s.world).0 ≡ ok tt
      → good.commit ≡ committed
      → one_round net letter r good next backoff s ≡ (
        returned none,
        record s { world = (good.handler r.value s.world).1; offsets = s.offsets ++ r ∷ [] },
      )
  unfolding one_round settle commit_record
  one_round-good good next backoff s alive done commits = ground (arith, done, commits)

  -- Through any number n of transient errors nothing is committed and nothing is dead-lettered; the
  -- waits are min(100 * 2^i, 5000) for i below n, and the loop goes on to the next round as if it
  -- were the first, but for its wait of min(100 * 2^n, 5000).
  pub handle_record-transient :
      (rounds more : List (Round W)) (s : State W)
      → All IsTransient rounds
      → handle_record net letter r (rounds ++ more) s
        ≡ handle_from net letter r more
            (backoff_closed (length rounds))
            (record s { world = worlds rounds s.world; waits = schedule 0 (length rounds) s.waits })
  unfolding handle_record backoff_after
  handle_record-transient rounds more s t =
      rw (← backoff_after-eq-closed (length rounds))
        (handle_from-transient rounds more 0 (length rounds) s (omega arith) t)

  -- If the context is alive in the round behind n transient errors, its handler succeeds and its
  -- commit is done, the call returns with no error, and has
  -- committed the record's offset and sent no dead letter.
  pub handle_record-recovers :
      (rounds more : List (Round W)) (good : Round W) (s : State W)
      → All IsTransient rounds
      → good.cancelled_before ≡ false
      → (good.handler r.value (worlds rounds s.world)).0 ≡ ok tt
      → good.commit ≡ committed
      → handle_record net letter r (rounds ++ good ∷ more) s ≡ (
        returned none,
        record s {
          world = (good.handler r.value (worlds rounds s.world)).1;
          offsets = s.offsets ++ r ∷ [];
          waits = schedule 0 (length rounds) s.waits;
        },
      )
  unfolding handle_from
  handle_record-recovers rounds more good s t alive done commits =
      handle_record-transient rounds (good ∷ more) s t
      ∙ one_round-good good (handle_from net letter r more) (backoff_closed (length rounds)) _ alive
          done commits
