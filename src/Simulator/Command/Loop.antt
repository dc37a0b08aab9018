-- ===== src/Simulator/Command/Loop.antt =====
-- The loop of the simulator sends valid transactions at times that increase.
use learn_go_project.Prelude.{
  ℕ, zero, suc, ◌+◌, ◌*◌, ◌≤◌, ◌<◌, ◌^◌, ◌≡◌, ◌≢◌, refl, sym, ◌∙◌, ap, subst, Bool-cases, inl, inr,
  Option, none, some, List, [], ◌∷◌, ◌++◌, map, length, All, All-append, ℤ, pos, ◌+ℤ◌, ltb, ltb_ℤ,
  eqb, ◌||◌, ◌&&◌, arith,
}
use learn_go_project.Errors.{Error, Result, ok, err}
use learn_go_project.Float.{Float64}
use learn_go_project.Domain.{TransactionCreated, FraudLabel, Time}
use learn_go_project.Domain.Validation.{IsValid}
use learn_go_project.Platform.{Bytes}
use learn_go_project.Stream.Producer.{Broker, publish, transactions_topic}
use learn_go_project.Simulator.{Rand, IsRand, Printer, Generator, generate, new}
use learn_go_project.Simulator.Generated.{generate-IsValid, generate-accounts, new-accounts}
use learn_go_project.Simulator.Command.{
  Halt, labels_ended, interrupted, Round, Ending, panicked, State, halted, Next, queue_label,
  sent_to, send_encoded, time_of, send_made, emit, one_round, emit_all,
}
use learn_go_project.Simulator.Command.Times.{
  IsChronological, step, times, time_exact, times-IsChronological, add_pos, generate-time,
}

not_zero : (t : Time) (n : ℕ) → t ≡ pos n → 0 < n → t ≢ pos 0
not_zero t n e h zero_time = absurd (ground (arith, e, h, zero_time))

mul_le : (a b c : ℕ) → a ≤ b → a * c ≤ b * c
mul_le zero b c h = omega arith
mul_le (suc a) zero c h = absurd (omega arith)
mul_le (suc a) (suc b) c h = omega (arith, mul_le a b c (omega (arith, h)))

times_small : (a b c : ℕ) → a ≤ b → b * c < 2 ^ 63 → a * c < 2 ^ 63
times_small a b c h small = omega (arith, mul_le a b c h, small)

map-snoc :
    (ts : List TransactionCreated) (t : TransactionCreated)
    → map (λ t. t.occurred_at) (ts ++ t ∷ []) ≡ map (λ t. t.occurred_at) ts ++ t.occurred_at ∷ []
map-snoc [] t = refl
map-snoc (x ∷ ts) t = ap (λ (l : List Time). x.occurred_at ∷ l) (map-snoc ts t)

halted_runs : (h : Halt) → halted h ≢ panicked
halted_runs (labels_ended e) same = absurd (ground (arith, same))
halted_runs interrupted same = absurd (ground (arith, same))

module _ {F G : Type 0} (k : ℕ) (interval : ℤ) where
  -- What the loop keeps: the times of what it sent are those of the first rounds, and it is valid.
  record Kept (n : ℕ) (s : State F G) : Type 0 where
    timed : map (λ t. t.occurred_at) s.sent ≡ times k interval n
    valid : All IsValid s.sent
    staffed : 0 < s.generator.accounts

  -- How a call of the loop ends, after so many rounds at most.
  record IsGood (bound : ℕ) (out : Ending × State F G) : Type 0 where
    runs : out.0 ≢ panicked
    rounds : ℕ
    rounds_le : rounds ≤ bound
    kept : Kept rounds out.1

  -- What a round asks of the rest of the loop.
  GoodNext : ℕ → ℕ → Next F G → Type 0
  GoodNext bound n next =
      (s : State F G) → s.emitted ≡ suc n → Kept (suc n) s → IsGood bound (next s)

  module _ (bound n : ℕ) (next : Next F G) (good : GoodNext bound n next)
      (room : suc n ≤ bound) where
    queue_label-IsGood :
        (q : Option Halt) (label : FraudLabel) (s : State F G)
        → s.emitted ≡ n
        → Kept (suc n) s
        → IsGood bound (queue_label q label next s)
    unfolding queue_label GoodNext
    queue_label-IsGood (some h) label s at kept = record {
      runs = halted_runs h;
      rounds = suc n;
      rounds_le = room;
      kept = kept;
    }
    queue_label-IsGood none label s at kept =
        good (record s { emitted = s.emitted + 1; labels = s.labels ++ label ∷ [] })
          (omega (arith, at))
          (record { timed = kept.timed; valid = kept.valid; staffed = kept.staffed })

    sent_to-IsGood :
        (round : Round) (tx : TransactionCreated) (label : FraudLabel)
        (answer : Option Error × Broker) (s : State F G)
        → s.emitted ≡ n
        → tx.occurred_at ≡ time_of (pos k) interval n
        → IsValid tx
        → Kept n s
        → IsGood bound (sent_to round tx label next answer s)
    unfolding sent_to times
    sent_to-IsGood round tx label (some e, broker) s at time valid kept = record {
      runs = λ same. absurd (ground (arith, same));
      rounds = n;
      rounds_le = omega (arith, room);
      kept = record { timed = kept.timed; valid = kept.valid; staffed = kept.staffed };
    }
    sent_to-IsGood round tx label (none, broker) s at time valid kept =
        queue_label-IsGood round.queueing label
          (record s { broker = broker; sent = s.sent ++ tx ∷ [] }) at
          (record {
            timed =
                map-snoc s.sent tx
                ∙ ap (λ (l : List Time). l ++ tx.occurred_at ∷ []) kept.timed
                ∙ ap (λ (t : Time). times k interval n ++ t ∷ []) time;
            valid = All-append IsValid s.sent (tx ∷ []) kept.valid (valid, tt);
            staffed = kept.staffed;
          })

    send_encoded-IsGood :
        (round : Round) (tx : TransactionCreated) (label : FraudLabel) (payload : Result Bytes)
        (s : State F G)
        → s.emitted ≡ n
        → tx.occurred_at ≡ time_of (pos k) interval n
        → IsValid tx
        → Kept n s
        → IsGood bound (send_encoded round tx label next payload s)
    unfolding send_encoded
    send_encoded-IsGood round tx label (err e) s at time valid kept = record {
      runs = λ same. absurd (ground (arith, same));
      rounds = n;
      rounds_le = omega (arith, room);
      kept = kept;
    }
    send_encoded-IsGood round tx label (ok payload) s at time valid kept =
        sent_to-IsGood round tx label
          (publish round.network transactions_topic tx.account_id payload s.broker) s at time valid
          kept

module _ {F G : Type 0} ⦃f : Float64 F⦄ (rand : Rand F G) (laws : IsRand rand) (print : Printer)
    (encode : TransactionCreated → Result Bytes) (k : ℕ) (interval : ℤ) (d : ℕ)
    (dated : 0 < k) where
  module _ (bound n : ℕ) (next : Next F G) (good : GoodNext k interval bound n next)
      (room : suc n ≤ bound) (small : n * step k interval < 2 ^ 63) where
    emit-IsGood :
        (round : Round) (s : State F G)
        → s.emitted ≡ n
        → Kept k interval n s
        → IsGood k interval bound (emit rand print encode (pos k) interval (pos d) round next s)
    unfolding emit send_made
    emit-IsGood round s at kept =
        let time = time_of (pos k) interval s.emitted in
        let exact : time ≡ pos (k + n * step k interval) =
          ap (time_of (pos k) interval) at ∙ time_exact k interval n small in
        let later : time +ℤ pos d ≡ pos (k + n * step k interval + d) =
          ap (λ (u : Time). u +ℤ pos d) exact ∙ add_pos (k + n * step k interval) d in
        let (t, (l, made, valid, valid_label, same, counted)) =
          generate-IsValid rand laws print time (pos d) s.generator kept.staffed
            (not_zero time (k + n * step k interval) exact (omega (arith, dated)))
            (not_zero (time +ℤ pos d) (k + n * step k interval + d) later (omega (arith, dated))) in
        let g = (generate rand print time (pos d) s.generator).1 in
        subst
          (λ (o : Option (TransactionCreated × FraudLabel)).
            IsGood k interval bound
              (send_made rand print encode (pos k) interval (pos d) round next (o, g) s))
          (sym made)
          (send_encoded-IsGood k interval bound n next good room round t l (encode t)
            (record s { generator = g }) at
            (generate-time rand print time (pos d) s.generator t l made
              ∙ ap (time_of (pos k) interval) at)
            valid
            (record {
              timed = kept.timed;
              valid = kept.valid;
              staffed =
                  subst (λ (n : ℕ). 0 < n)
                    (sym (generate-accounts rand laws print time (pos d) s.generator)) kept.staffed;
            }))

    one_round-IsGood :
        (round : Round) (s : State F G)
        → s.emitted ≡ n
        → Kept k interval n s
        → IsGood k interval bound
            (one_round rand print encode (pos k) interval (pos d) round next s)
    unfolding one_round
    one_round-IsGood round s at kept =
        elim (Bool-cases (ltb 0 s.emitted && ltb_ℤ (pos 0) interval)) [
          | inl waits ↦ rw waits (waited round.waiting)
          | inr straight ↦ rw straight (emit-IsGood round s at kept)
        ]
      where
        waited :
            (w : Option Halt)
            → IsGood k interval bound (elim w as (λ x. Ending × State F G) [
              | some h ↦ (halted h, s)
              | none ↦ emit rand print encode (pos k) interval (pos d) round next s
            ])
        waited (some h) = record {
          runs = halted_runs h;
          rounds = n;
          rounds_le = omega (arith, room);
          kept = kept;
        }
        waited none = emit-IsGood round s at kept

  emit_all-IsGood :
      (count bound n : ℕ) (rounds : List Round) (s : State F G)
      → s.emitted ≡ n
      → Kept k interval n s
      → n + length rounds ≤ bound
      → bound * step k interval < 2 ^ 63
      → IsGood k interval bound (emit_all rand print encode (pos k) interval (pos d) count rounds s)
  unfolding emit_all GoodNext
  emit_all-IsGood count bound n [] s at kept room small = record {
    runs = λ same. absurd (ground (arith, same));
    rounds = n;
    rounds_le = omega (arith, room);
    kept = kept;
  }
  emit_all-IsGood count bound n (round ∷ rounds) s at kept room small =
      elim (Bool-cases (eqb count 0 || ltb s.emitted count)) [
        | inl on ↦ rw on (
            one_round-IsGood bound n
              (emit_all rand print encode (pos k) interval (pos d) count rounds)
              (λ s' at' kept'.
                emit_all-IsGood count bound (suc n) rounds s' at' kept' (omega (arith, room)) small)
              (omega (arith, room))
              (times_small n bound (step k interval) (omega (arith, room)) small) round s at kept)
        | inr over ↦ rw over (record {
          runs = λ same. absurd (ground (arith, same));
          rounds = n;
          rounds_le = omega (arith, room);
          kept = kept;
        })
      ]

  -- However the waits, the sends and the queue of labels go, the simulator never panics with a
  -- generator that `New` made, every transaction that it sends is valid, and each is sent with a later time than the one before, if
  -- the start time is not the zero time or earlier and the label delay not negative, as `run` checks,
  -- and the times of so many rounds do not overflow a time.Duration. So no two transactions that it
  -- sends share a time, with or without pacing.
  pub emit_all-IsChronological :
      (source : ℤ → G) (seed accounts : ℤ) (fraud_rate : F) (count : ℕ) (rounds : List Round)
      (g : Generator F G) (b : Broker)
      → new source seed accounts fraud_rate ≡ ok g
      → length rounds * step k interval < 2 ^ 63
      → let out =
          emit_all rand print encode
            (pos k)
            interval
            (pos d)
            count
            rounds
            (record { generator = g; broker = b; emitted = 0; sent = []; labels = [] }) in
        (out.0 ≢ panicked)
        × All IsValid out.1.sent
        × IsChronological (map (λ t. t.occurred_at) out.1.sent)
  unfolding times
  emit_all-IsChronological source seed accounts fraud_rate count rounds g b fresh small =
      let good =
        emit_all-IsGood count (length rounds) 0 rounds
          (record { generator = g; broker = b; emitted = 0; sent = []; labels = [] }) refl
          (record {
            timed = refl;
            valid = tt;
            staffed = new-accounts source seed accounts fraud_rate g fresh;
          })
          (omega arith) small in
      (
        good.runs,
        good.kept.valid,
        subst IsChronological (sym good.kept.timed) (
            times-IsChronological k interval good.rounds
              (times_small good.rounds (length rounds) (step k interval) good.rounds_le small)),
      )
