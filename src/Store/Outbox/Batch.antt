-- ===== src/Store/Outbox/Batch.antt =====
-- What a batch does, however the database and the broker fail: it sends a first part of the claimed
-- rows, and marks no row that it did not send.
use mathlib.Core.List.{Memᴰ}
use learn_go_project.Prelude.{
  Mem-last, ℕ, ◌≡◌, refl, sym, ◌∙◌, ◌⊎◌, inl, inr, true, Bool-cases, Option, none, some, List, [],
  ◌∷◌, ◌++◌, eqb, All, All-map, subst, arith,
}
use learn_go_project.Errors.{Error}
use learn_go_project.Store.Tables.{OutboxRow}
use learn_go_project.Stream.Producer.{
  Message, Broker, Network, message, Delivery, delivered, undelivered, unconfirmed, produce,
  with_topic, publish,
}
use learn_go_project.Store.Outbox.{OutboxEvent, LoopEnd, Loop, mark_row, mark, round, publish_loop}

-- The publisher that `Outbox.flush` hands over.
abbrev pub send_event : Network → OutboxEvent → Broker → Option Error × Broker
send_event net e b = publish net e.topic e.key e.payload b

abbrev pub event_message : OutboxEvent → Message
event_message e = message e.topic e.key e.payload

abbrev pub row_message : OutboxRow → Message
row_message r = message r.topic r.event_key r.payload

-- A row that is marked has its message in the broker.
abbrev pub IsCovered : Broker → OutboxRow → Type 0
IsCovered b r = r.is_published ≡ true → Memᴰ (row_message r) b

-- The event was read from the only row with its id.
abbrev pub Owns : List OutboxRow → OutboxEvent → Type 0
Owns rows e = All (λ r. r.id ≡ e.id → row_message r ≡ event_message e) rows

Mem-append_left : {A : Type 0} {a : A} (xs ys : List A) → Memᴰ a xs → Memᴰ a (xs ++ ys)
Mem-append_left [] ys m = elim m [ ]
Mem-append_left (x ∷ xs) ys (Memᴰ.head e) = Memᴰ.head e
Mem-append_left (x ∷ xs) ys (Memᴰ.tail m) = Memᴰ.tail (Mem-append_left xs ys m)

-- More messages in the broker cover no fewer rows.
pub IsCovered-append :
    (b more : Broker) (rows : List OutboxRow)
    → All (IsCovered b) rows
    → All (IsCovered (b ++ more)) rows
IsCovered-append b more [] h = tt
IsCovered-append b more (r ∷ rows) h =
    (λ is. Mem-append_left b more (h.0 is), IsCovered-append b more rows h.1)

mark_row-keeps :
    (id : ℕ) (r : OutboxRow)
    → ((mark_row id r).id ≡ r.id) × (row_message (mark_row id r) ≡ row_message r)
unfolding mark_row
mark_row-keeps id r = ground arith

IsCovered-mark_row :
    (b : Broker) (e : OutboxEvent) (r : OutboxRow)
    → Memᴰ (event_message e) b
    → (r.id ≡ e.id → row_message r ≡ event_message e)
    → IsCovered b r
    → IsCovered b (mark_row e.id r)
unfolding mark_row
IsCovered-mark_row b e r sent own h = elim (Bool-cases (eqb r.id e.id)) [
  | inl same ↦ rw same (λ _. subst (λ m. Memᴰ m b) (sym (own (ground (arith, same)))) sent)
  | inr other ↦ rw other h
]

IsCovered-mark :
    (b : Broker) (e : OutboxEvent) (rows : List OutboxRow)
    → Memᴰ (event_message e) b
    → Owns rows e
    → All (IsCovered b) rows
    → All (IsCovered b) (mark e.id rows)
unfolding mark
IsCovered-mark b e [] sent own h = tt
IsCovered-mark b e (r ∷ rows) sent own h =
    (IsCovered-mark_row b e r sent own.0 h.0, IsCovered-mark b e rows sent own.1 h.1)

Owns-mark : (id : ℕ) (e : OutboxEvent) (rows : List OutboxRow) → Owns rows e → Owns (mark id rows) e
unfolding mark
Owns-mark id e [] own = tt
Owns-mark id e (r ∷ rows) own =
    let (same_id, same_message) = mark_row-keeps id r in
    (λ h. same_message ∙ own.0 (sym same_id ∙ h), Owns-mark id e rows own.1)

-- What a send leaves: an answer means that the message is there; with none it may be.
abbrev Sends : Message → Broker → Option Error × Broker → Type 0
Sends m b (none, b') = b' ≡ b ++ m ∷ []
Sends m b (some x, b') = (b' ≡ b) ⊎ (b' ≡ b ++ m ∷ [])

publish-Sends :
    (net : Network) (e : OutboxEvent) (b : Broker) → Sends (event_message e) b (send_event net e b)
unfolding publish
publish-Sends net e b = produced (net (event_message e) b)
  where
    produced :
        (d : Delivery) → Sends (event_message e) b (with_topic (produce d (event_message e) b))
    produced delivered = refl
    produced (undelivered x) = inl refl
    produced (unconfirmed x) = inr refl

-- The rows that a batch started from stay covered, and so do those that it marked.
abbrev pub Covers : List OutboxRow → Loop Broker → Type 0
Covers old s = All (IsCovered s.broker) old × All (IsCovered s.broker) s.rows

module _ (old : List OutboxRow) where
  Covers-broker :
      (e : OutboxEvent) (b : Broker) (s : Loop Broker)
      → (b ≡ s.broker) ⊎ (b ≡ s.broker ++ event_message e ∷ [])
      → Covers old s
      → Covers old (record s { broker = b })
  Covers-broker e b s (inl same) h = rw same h
  Covers-broker e b s (inr more) h = rw more (
    IsCovered-append s.broker (event_message e ∷ []) old h.0,
    IsCovered-append s.broker (event_message e ∷ []) s.rows h.1,
  )

  round-Covers :
      (e : OutboxEvent) (sent : Option Error × Broker) (marking : Option Error)
      (rest : Loop Broker → LoopEnd × Loop Broker) (s : Loop Broker)
      → Sends (event_message e) s.broker sent
      → Owns s.rows e
      → ((t : Loop Broker) → t.rows ≡ mark e.id s.rows → Covers old t → Covers old (rest t).1)
      → Covers old s
      → Covers old (round e sent marking rest s).1
  unfolding round
  round-Covers e (some x, b) marking rest s sends own next h = Covers-broker e b s sends h
  round-Covers e (none, b) (some x) rest s sends own next h = Covers-broker e b s (inr sends) h
  round-Covers e (none, b) none rest s sends own next h =
      let (h₀, h₁) = Covers-broker e b s (inr sends) h in
      next _ refl (
        h₀,
        IsCovered-mark b e s.rows
            (subst (λ c. Memᴰ (event_message e) c) (sym sends)
              (Mem-last (event_message e) s.broker))
            own h₁,
      )

  pub publish_loop-Covers :
      (net : Network) (mark_fault : ℕ → Option Error) (es : List OutboxEvent) (s : Loop Broker)
      → All (Owns s.rows) es
      → Covers old s
      → Covers old (publish_loop (send_event net) mark_fault es s).1
  unfolding publish_loop
  publish_loop-Covers net mark_fault [] s own h = h
  publish_loop-Covers net mark_fault (e ∷ es) s own h =
      round-Covers e (send_event net e s.broker) (mark_fault e.id)
        (publish_loop (send_event net) mark_fault es) s (publish-Sends net e s.broker) own.0
        (λ t marked k.
          publish_loop-Covers net mark_fault es t
            (rw marked (
              All-map (Owns s.rows) (Owns (mark e.id s.rows)) (λ x. Owns-mark e.id x s.rows) es
                own.1))
            k)
        h
