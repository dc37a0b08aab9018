-- ===== src/Stream/Consumer/Offsets.antt =====
-- The offset of a record is committed only behind the record's success or its dead letter.
use mathlib.Core.List.{Memᴰ}
use learn_go_project.Prelude.{
  Mem-last, ℕ, String, ◌≡◌, ◌⊎◌, refl, ap, inl, inr, Bool, true, Bool-cases, Option, none, some,
  List, [], ◌∷◌, ◌++◌, ◌||◌,
}
use learn_go_project.Errors.{Error, Result, ok, err, is_permanent}
use learn_go_project.Exec.{Commit, committed, aborted, unanswered}
use learn_go_project.Platform.{Bytes}
use learn_go_project.Stream.Producer.{
  Message, Broker, Network, Delivery, delivered, undelivered, unconfirmed, dead_letter_topic,
  message, produce, with_topic, publish,
}
use learn_go_project.Stream.Consumer.{
  Record, Round, State, Ending, commit_record, dead_letter_error, publish_dead_letter, parked,
  retry, settle, one_round, handle_from, handle_record, first_backoff, next_backoff,
}

-- A dead letter that was sent without an error is in the broker.
abbrev Letter : Record → Result Bytes → Option Error × Broker → Type 0
Letter r l (none, b) =
    (payload : Bytes) × (l ≡ ok payload) × Memᴰ (message dead_letter_topic r.key payload) b
Letter r l (some e, b) = Unit

publish_dead_letter-Letter :
    (net : Network) (r : Record) (l : Result Bytes) (b : Broker)
    → Letter r l (publish_dead_letter net l r b)
unfolding publish_dead_letter publish
publish_dead_letter-Letter net r (err e) b = tt
publish_dead_letter-Letter net r (ok payload) b =
    sent (net (message dead_letter_topic r.key payload) b)
  where
    m : Message
    m = message dead_letter_topic r.key payload

    sent : (d : Delivery) → Letter r (ok payload) (dead_letter_error (with_topic (produce d m b)))
    sent delivered = (payload, refl, Mem-last m b)
    sent (undelivered e) = tt
    sent (unconfirmed e) = tt

module _ {W : Type 0} (letter : Record → Error → Result Bytes) (r : Record) where
  -- Why a record may be left behind, of the world and the broker at the end: the handler succeeded in
  -- one of the rounds and left that world, or its error was permanent and the dead letter with that
  -- error is in the broker.
  pub data IsSettled (rounds : List (Round W)) (end : W) (b : Broker) : Type 0 where
    handled :
        (round : Round W) (w : W)
        → Memᴰ round rounds
        → round.handler r.value w ≡ (ok tt, end)
        → IsSettled rounds end b
    parked_letter :
        (round : Round W) (w : W) (e : Error) (payload : Bytes)
        → Memᴰ round rounds
        → (round.handler r.value w).0 ≡ err e
        → is_permanent e ≡ true
        → letter r e ≡ ok payload
        → Memᴰ (message dead_letter_topic r.key payload) b
        → IsSettled rounds end b

  IsSettled-cons :
      (round : Round W) (rounds : List (Round W)) (end : W) (b : Broker)
      → IsSettled rounds end b
      → IsSettled (round ∷ rounds) end b
  IsSettled-cons round rounds end b (handled q w m h) = handled q w (Memᴰ.tail m) h
  IsSettled-cons round rounds end b (parked_letter q w e payload m h p l k) =
      parked_letter q w e payload (Memᴰ.tail m) h p l k

  -- The offsets are those of before, or the record's is added and the record is settled.
  abbrev pub Justified : List (Round W) → List Record → State W → Type 0
  Justified rounds before s =
      (s.offsets ≡ before) ⊎ ((s.offsets ≡ before ++ r ∷ []) × IsSettled rounds s.world s.broker)

  Justified-cons :
      (round : Round W) (rounds : List (Round W)) (before : List Record) (s : State W)
      → Justified rounds before s
      → Justified (round ∷ rounds) before s
  Justified-cons round rounds before s (inl same) = inl same
  Justified-cons round rounds before s (inr (more, settled)) =
      inr (more, IsSettled-cons round rounds s.world s.broker settled)

  commit_record-Justified :
      (prefix : String) (c : Commit) (cancelled : Bool) (rounds : List (Round W)) (s : State W)
      → IsSettled rounds s.world s.broker
      → Justified rounds s.offsets (commit_record prefix c cancelled r s).1
  unfolding commit_record
  commit_record-Justified prefix committed cancelled rounds s h = inr (refl, h)
  commit_record-Justified prefix (aborted e) cancelled rounds s h = inl refl
  commit_record-Justified prefix (unanswered e) cancelled rounds s h = inr (refl, h)

  module _ (net : Network) where
    parked-Justified :
        (round : Round W) (rounds : List (Round W)) (w : W) (e : Error)
        (sent : Option Error × Broker) (s : State W)
        → (round.handler r.value w).0 ≡ err e
        → is_permanent e ≡ true
        → Letter r (letter r e) sent
        → Justified (round ∷ rounds) s.offsets (parked net letter r round sent s).1
    unfolding parked
    parked-Justified round rounds w e (some x, b) s h p l = inl refl
    parked-Justified round rounds w e (none, b) s h p (payload, encoded, there) =
        commit_record-Justified _ round.commit round.cancelled_after (round ∷ rounds)
          (record s { broker = b })
          (parked_letter round w e payload (Memᴰ.head refl) h p encoded there)

    retry-Justified :
        (round : Round W) (rounds : List (Round W)) (next : ℕ → State W → Ending × State W)
        (backoff : ℕ) (s : State W)
        → ((b : ℕ) (t : State W) → Justified rounds t.offsets (next b t).1)
        → Justified (round ∷ rounds) s.offsets (retry net letter r round next backoff s).1
    unfolding retry
    retry-Justified round rounds next backoff s h =
        elim (Bool-cases (round.cancelled_after || round.cancelled_waiting)) [
          | inl stop ↦ rw stop (inl refl)
          | inr go ↦ rw go (
              let t : State W = record s { waits = backoff ∷ s.waits } in
              Justified-cons round rounds s.offsets (next (next_backoff backoff) t).1
                (h (next_backoff backoff) t))
        ]

    settle-Justified :
        (round : Round W) (rounds : List (Round W)) (next : ℕ → State W → Ending × State W)
        (backoff : ℕ) (w : W) (out : Result (Unit {0}) × W) (s : State W)
        → round.handler r.value w ≡ out
        → ((b : ℕ) (t : State W) → Justified rounds t.offsets (next b t).1)
        → Justified (round ∷ rounds) s.offsets (settle net letter r round next backoff out s).1
    unfolding settle
    settle-Justified round rounds next backoff w (ok u, w') s done h =
        commit_record-Justified _ round.commit round.cancelled_after (round ∷ rounds)
          (record s { world = w' }) (handled round w (Memᴰ.head refl) done)
    settle-Justified round rounds next backoff w (err e, w') s done h =
        elim (Bool-cases (is_permanent e)) [
          | inl p ↦ rw p (
              parked-Justified round rounds w e (publish_dead_letter net (letter r e) r s.broker)
                (record s { world = w' }) (ap (λ (out : Result (Unit {0}) × W). out.0) done) p
                (publish_dead_letter-Letter net r (letter r e) s.broker))
          | inr t ↦ rw t (retry-Justified round rounds next backoff (record s { world = w' }) h)
        ]

    one_round-Justified :
        (round : Round W) (rounds : List (Round W)) (next : ℕ → State W → Ending × State W)
        (backoff : ℕ) (s : State W)
        → ((b : ℕ) (t : State W) → Justified rounds t.offsets (next b t).1)
        → Justified (round ∷ rounds) s.offsets (one_round net letter r round next backoff s).1
    unfolding one_round
    one_round-Justified round rounds next backoff s h = elim (Bool-cases round.cancelled_before) [
      | inl stop ↦ simp stop (inl refl)
      | inr go ↦ simp go (
          settle-Justified round rounds next backoff s.world (round.handler r.value s.world) s refl
            h)
    ]

    handle_from-Justified :
        (rounds : List (Round W)) (backoff : ℕ) (s : State W)
        → Justified rounds s.offsets (handle_from net letter r rounds backoff s).1
    unfolding handle_from
    handle_from-Justified [] backoff s = inl refl
    handle_from-Justified (round ∷ rounds) backoff s =
        one_round-Justified round rounds (handle_from net letter r rounds) backoff s
          (handle_from-Justified rounds)

    -- However the handler, the broker and the context behave, the record's offset is committed at
    -- most once, no other is, and it is committed only if the handler succeeded in one of the
    -- rounds and the world is as it left it, or its error was permanent and the dead letter with that
    -- error is in the broker.
    pub handle_record-Justified :
        (rounds : List (Round W)) (s : State W)
        → Justified rounds s.offsets (handle_record net letter r rounds s).1
    unfolding handle_record
    handle_record-Justified rounds s = handle_from-Justified rounds first_backoff s
