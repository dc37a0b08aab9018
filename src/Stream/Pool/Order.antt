-- ===== src/Stream/Pool/Order.antt =====
-- The order of the records of one partition, through the workers.
use mathlib.Core.List.{append_assoc, append-nil}
use learn_go_project.Prelude.{
  ℕ, ◌≡◌, refl, sym, ◌∙◌, ap, subst, Bool, true, false, Bool-cases, false≢true, ◌⊎◌, inl, inr,
  Option, none, some, List, [], ◌∷◌, ◌++◌, keep, eqb, arith,
}
use learn_go_project.Stream.Consumer.{Record}
use learn_go_project.Stream.Pool.{
  Worker, Pool, worker_of, put, with_worker, enqueue, worker_at, Step, look, hand, return_cancelled,
  return_error, join, take, skip, commit, leave, fail, exit, Reachable, at_start, after, fetch,
  cut_off,
}

abbrev pub held : Option Record → List Record
held none = []
held (some r) = r ∷ []

-- The records that a worker was handed, in this order.
abbrev pub line : Worker → List Record
line x = x.committed ++ (x.skipped ++ (held x.handling ++ x.queue))

-- A worker that gave a record up handles none any more.
abbrev IsOver : Bool → Worker → Type 0
IsOver cancelled x =
    (x.skipped ≡ []) ⊎ ((x.handling ≡ none) × ((cancelled ≡ true) ⊎ (x.is_stopped ≡ true)))

IsOver-late : (cancelled : Bool) (x : Worker) → IsOver cancelled x → IsOver true x
IsOver-late cancelled x (inl none_skipped) = inl none_skipped
IsOver-late cancelled x (inr (free, why)) = inr (free, inl refl)

-- What a worker that still may take records up, or handles one, has given up.
IsOver-running : (x : Worker) → x.is_stopped ≡ false → IsOver false x → x.skipped ≡ []
IsOver-running x alive (inl none_skipped) = none_skipped
IsOver-running x alive (inr (free, inl late)) = absurd (false≢true late)
IsOver-running x alive (inr (free, inr stopped)) = absurd (false≢true (sym alive ∙ stopped))

IsOver-exit :
    (cancelled : Bool) (x : Worker)
    → IsOver cancelled x
    → IsOver cancelled (record x { is_stopped = true })
IsOver-exit cancelled x (inl none_skipped) = inl none_skipped
IsOver-exit cancelled x (inr (free, why)) = inr (free, inr refl)

IsOver-busy :
    (cancelled : Bool) (x : Worker) (r : Record)
    → x.handling ≡ some r
    → IsOver cancelled x
    → x.skipped ≡ []
IsOver-busy cancelled x r busy (inl none_skipped) = none_skipped
IsOver-busy cancelled x r busy (inr (free, why)) = absurd (ground (arith, busy, free))

eqb-path : (w k : ℕ) → eqb k w ≡ true → w ≡ k
eqb-path w k same = ground (arith, same)

pub put-elim :
    (P : ℕ → Worker → Type 0) (w : ℕ) (x : Worker) (workers : ℕ → Worker)
    → P w x
    → ((k : ℕ) → P k (workers k))
    → (k : ℕ) → P k (put w x workers k)
put-elim P w x workers here there k = elim (Bool-cases (eqb k w)) [
  | inl same ↦ rw same (subst (λ (j : ℕ). P j x) (eqb-path w k same) here)
  | inr other ↦ rw other (there k)
]

line-take :
    (x : Worker) (r : Record) (rest : List Record)
    → x.handling ≡ none
    → x.queue ≡ r ∷ rest
    → line (record x { handling = some r; queue = rest }) ≡ line x
line-take x r rest free first = simp (free, first)

line-skip :
    (x : Worker) (r : Record) (rest : List Record)
    → x.handling ≡ none
    → x.queue ≡ r ∷ rest
    → line (record x { skipped = x.skipped ++ r ∷ []; queue = rest }) ≡ line x
line-skip x r rest free first =
    simp (free, first)
      (ap (λ (l : List Record). x.committed ++ l) (append_assoc x.skipped (r ∷ []) rest))

line-commit :
    (x : Worker) (r : Record)
    → x.handling ≡ some r
    → x.skipped ≡ []
    → line (record x { committed = x.committed ++ r ∷ []; handling = none }) ≡ line x
line-commit x r busy none_skipped =
    simp (busy, none_skipped) (append_assoc x.committed (r ∷ []) x.queue)

line-leave :
    (x : Worker) (r : Record)
    → x.handling ≡ some r
    → line (record x { skipped = x.skipped ++ r ∷ []; handling = none }) ≡ line x
line-leave x r busy =
    simp busy (ap (λ (l : List Record). x.committed ++ l) (append_assoc x.skipped (r ∷ []) x.queue))

line-enqueue : (r : Record) (x : Worker) → line (enqueue r x) ≡ line x ++ r ∷ []
line-enqueue r x = sym (
    append_assoc x.committed (x.skipped ++ (held x.handling ++ x.queue)) (r ∷ [])
    ∙ ap (λ (l : List Record). x.committed ++ l)
        (append_assoc x.skipped (held x.handling ++ x.queue) (r ∷ [])
          ∙ ap (λ (l : List Record). x.skipped ++ l)
              (append_assoc (held x.handling) x.queue (r ∷ []))))

abbrev pub of_partition : ℕ → List Record → List Record
of_partition q = keep (λ r. eqb r.partition q)

module _ (count : ℕ) where
  -- The records for a worker.
  abbrev pub for_worker : ℕ → List Record → List Record
  for_worker w = keep (λ r. eqb (worker_of count r) w)

  record IsOrdered (s : Pool) : Type 0 where
    lines : (w : ℕ) → line (s.workers w) ++ for_worker w s.pending ≡ for_worker w s.fetched
    over : (w : ℕ) → IsOver s.is_cancelled (s.workers w)

  keep-append :
      (test : Record → Bool) (ys xs : List Record)
      → keep test (xs ++ ys) ≡ keep test xs ++ keep test ys
  keep-append test ys [] = refl
  keep-append test ys (x ∷ xs) = ground (arith, keep-append test ys xs)

  -- A worker changes and keeps its line.
  worker-IsOrdered :
      {s : Pool} (w : ℕ) (x : Worker)
      → line x ≡ line (s.workers w)
      → IsOver s.is_cancelled x
      → IsOrdered s
      → IsOrdered (with_worker w x s)
  worker-IsOrdered {s} w x same over h = record {
    lines = λ k.
        ap (λ (l : List Record). l ++ for_worker k s.pending)
          (put-elim (λ j y. line y ≡ line (s.workers j)) w x s.workers same (λ j. refl) k)
        ∙ h.lines k;
    over = put-elim (λ j. IsOver s.is_cancelled) w x s.workers over h.over;
  }

  for_own :
      (r : Record) (rest : List Record)
      → for_worker (worker_of count r) (r ∷ rest) ≡ r ∷ for_worker (worker_of count r) rest
  for_own r rest = ground arith

  for_other :
      (k : ℕ) (r : Record) (rest : List Record)
      → eqb k (worker_of count r) ≡ false
      → for_worker k (r ∷ rest) ≡ for_worker k rest
  for_other k r rest other = ground (arith, other)

  -- The worker of a record gets it in its line, and the others do not.
  hand-lines :
      (s : Pool) (r : Record) (rest : List Record)
      → s.pending ≡ r ∷ rest
      → IsOrdered s
      → (k : ℕ)
      → line (put (worker_of count r) (enqueue r (s.workers (worker_of count r))) s.workers k)
          ++ for_worker k rest
        ≡ for_worker k s.fetched
  hand-lines s r rest first h k =
      let w = worker_of count r in
      let before : (j : ℕ)
          → line (s.workers j) ++ for_worker j (r ∷ rest) ≡ for_worker j s.fetched =
        λ j.
          ap (λ (l : List Record). line (s.workers j) ++ for_worker j l) (sym first) ∙ h.lines j in
      elim (Bool-cases (eqb k w)) [
        | inl same ↦ rw same (
            subst
              (λ (j : ℕ).
                line (enqueue r (s.workers w)) ++ for_worker j rest ≡ for_worker j s.fetched)
              (eqb-path w k same)
              (ap (λ (l : List Record). l ++ for_worker w rest) (line-enqueue r (s.workers w))
                ∙ append_assoc (line (s.workers w)) (r ∷ []) (for_worker w rest)
                ∙ (rw (← for_own r rest) (before w))))
        | inr other ↦ rw other (rw (← for_other k r rest other) (before k))
      ]

  fetch-IsOrdered :
      (s : Pool) (rs : List Record)
      → s.pending ≡ []
      → IsOrdered s
      → IsOrdered (record s { fetched = s.fetched ++ rs; pending = rs; is_polling = false })
  fetch-IsOrdered s rs none_left h = record {
    lines = λ w.
        ap (λ (l : List Record). l ++ for_worker w rs)
          (sym (append-nil (line (s.workers w))) ∙ all_handed w)
        ∙ sym (keep-append (λ r. eqb (worker_of count r) w) rs s.fetched);
    over = h.over;
  }
    where
      all_handed : (w : ℕ) → line (s.workers w) ++ [] ≡ for_worker w s.fetched
      all_handed w =
          ap (λ (l : List Record). line (s.workers w) ++ for_worker w l) (sym none_left) ∙ h.lines w

  Step-IsOrdered : {s t : Pool} → Step count s t → IsOrdered s → IsOrdered t
  Step-IsOrdered {s} (look unreturned top running no_errors none_left) h = record {
    lines = h.lines;
    over = h.over;
  }
  Step-IsOrdered {s} (join e ended unjoined all_stopped) h = record {
    lines = h.lines;
    over = h.over;
  }
  Step-IsOrdered {s} (exit w real closed alive free empty) h =
      let x = s.workers w in
      let kept =
        worker-IsOrdered w (record x { is_stopped = true }) refl
          (IsOver-exit s.is_cancelled x (h.over w)) h in
      record { lines = kept.lines; over = kept.over }
  Step-IsOrdered {s} (hand r rest unreturned top divides first room) h = record {
    lines = hand-lines s r rest first h;
    over =
        put-elim (λ j. IsOver s.is_cancelled) (worker_of count r)
          (enqueue r (s.workers (worker_of count r))) s.workers (h.over (worker_of count r)) h.over;
  }
  Step-IsOrdered {s} (return_cancelled unreturned late) h = record {
    lines = h.lines;
    over = h.over;
  }
  Step-IsOrdered {s} (return_error e rest unreturned top first) h = record {
    lines = h.lines;
    over = λ w. IsOver-late s.is_cancelled (s.workers w) (h.over w);
  }
  Step-IsOrdered {s} (take w r rest real running alive free first) h =
      let x = s.workers w in
      worker-IsOrdered w (record x { handling = some r; queue = rest })
        (line-take x r rest free first)
        (inl (IsOver-running x alive (subst (λ (c : Bool). IsOver c x) running (h.over w)))) h
  Step-IsOrdered {s} (skip w r rest real late alive free first) h =
      let x = s.workers w in
      worker-IsOrdered w (record x { skipped = x.skipped ++ r ∷ []; queue = rest })
        (line-skip x r rest free first) (inr (free, inl late)) h
  Step-IsOrdered {s} (commit w r real busy) h =
      let x = s.workers w in
      let none_skipped = IsOver-busy s.is_cancelled x r busy (h.over w) in
      worker-IsOrdered w (record x { committed = x.committed ++ r ∷ []; handling = none })
        (line-commit x r busy none_skipped) (inl none_skipped) h
  Step-IsOrdered {s} (leave w r real late busy) h =
      let x = s.workers w in
      worker-IsOrdered w (record x { skipped = x.skipped ++ r ∷ []; handling = none })
        (line-leave x r busy) (inr (refl, inl late)) h
  Step-IsOrdered {s} (fail w r e real busy) h =
      let x = s.workers w in
      let kept =
        worker-IsOrdered w
          (record x { skipped = x.skipped ++ r ∷ []; handling = none; is_stopped = true })
          (line-leave x r busy) (inr (refl, inr refl)) h in
      record { lines = kept.lines; over = kept.over }

  Reachable-IsOrdered : {s : Pool} → Reachable count s → IsOrdered s
  Reachable-IsOrdered at_start = record { lines = λ w. refl; over = λ w. inl refl }
  Reachable-IsOrdered (after reached step) = Step-IsOrdered step (Reachable-IsOrdered reached)
  Reachable-IsOrdered (fetch {s} rs reached unreturned polling running none_left) =
      fetch-IsOrdered s rs none_left (Reachable-IsOrdered reached)
  Reachable-IsOrdered (cut_off {s} reached) =
      let h = Reachable-IsOrdered reached in
      record { lines = h.lines; over = λ w. IsOver-late s.is_cancelled (s.workers w) (h.over w) }

  keep-for_worker :
      (q : ℕ) (rs : List Record)
      → of_partition q (for_worker (worker_at count q) rs) ≡ of_partition q rs
  keep-for_worker q [] = refl
  keep-for_worker q (r ∷ rs) = elim (Bool-cases (eqb r.partition q)) [
    | inl same ↦
        let own : eqb (worker_at count r.partition) (worker_at count q) ≡ true =
          subst (λ (p : ℕ). eqb (worker_at count r.partition) (worker_at count p) ≡ true)
            (sym (eqb-path q r.partition same)) (ground arith) in
        rw (same, own) (rw same (ap (λ (l : List Record). r ∷ l) (keep-for_worker q rs)))
    | inr other ↦
        rw other (elim (Bool-cases (eqb (worker_at count r.partition) (worker_at count q))) [
          | inl here ↦ rw here (rw other (keep-for_worker q rs))
          | inr away ↦ rw away (keep-for_worker q rs)
        ])
  ]

  keep-then :
      (q : ℕ) (e a b : List Record)
      → of_partition q (a ++ b) ++ e ≡ of_partition q a ++ (of_partition q b ++ e)
  keep-then q e a b =
      ap (λ (l : List Record). l ++ e) (keep-append (λ r. eqb r.partition q) b a)
      ∙ append_assoc (of_partition q a) (of_partition q b) e

  -- However the steps of `Run` and of its workers fall, and whatever fails, the records of a partition
  -- that were fetched so far are, in the order in which they were fetched: those that its worker has
  -- committed, those that it gave up, the one that it handles, those in its channel, and those that
  -- are to be handed on. So the offsets that are committed are those of the first records of the
  -- partition, without a gap, and no two records of a partition are handled at a time.
  pub Reachable-partition :
      {s : Pool}
      → Reachable count s
      → (q : ℕ)
      → let x = s.workers (worker_at count q) in
        of_partition q s.fetched
        ≡ of_partition q x.committed
          ++ (of_partition q x.skipped
              ++ (of_partition q (held x.handling)
                  ++ (of_partition q x.queue ++ of_partition q s.pending)))
  Reachable-partition {s} reached q =
      let x = s.workers (worker_at count q) in
      let f = of_partition q in
      let part = λ (l : List Record). keep-then q (f s.pending) l in
      sym (keep-for_worker q s.fetched)
      ∙ ap f (sym ((Reachable-IsOrdered reached).lines (worker_at count q)))
      ∙ keep-append (λ r. eqb r.partition q) (for_worker (worker_at count q) s.pending) (line x)
      ∙ ap (λ (l : List Record). f (line x) ++ l) (keep-for_worker q s.pending)
      ∙ part x.committed (x.skipped ++ (held x.handling ++ x.queue))
      ∙ ap (λ (l : List Record). f x.committed ++ l)
          (part x.skipped (held x.handling ++ x.queue)
            ∙ ap (λ (l : List Record). f x.skipped ++ l) (part (held x.handling) x.queue))
