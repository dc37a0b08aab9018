-- ===== src/Tests/Pools.antt =====
-- A consumer with two workers at concrete inputs.
use learn_go_project.Prelude.{
  ℕ, pos, ◌+◌, ◌*◌, ◌≤◌, ◌≡◌, ◌⊎◌, refl, true, none, some, [], ◌∷◌, ◌++◌, arith,
}
use learn_go_project.Stream.Consumer.{Record}
use learn_go_project.Stream.Pool.{
  Pool, started, worker_count, worker_at, divisor, idle, enqueue, with_worker, look, hand, skip,
  return_cancelled, Reachable, at_start, after, fetch, cut_off,
}
use learn_go_project.Stream.Pool.Order.{held, of_partition, Reachable-partition}
use learn_go_project.Stream.Pool.Bounds.{IsWaiting, CanStep, Reachable-CanStep}
use learn_go_project.Stream.Pool.Shutdown.{Steps, done, one_more, HasReturned, Steps-length_le}

abbrev fetched_record : ℕ → Record
fetched_record n = record {
  topic = "transactions.v1";
  partition = 3;
  offset = n;
  key = "";
  value = [];
}

abbrev polled : Pool
polled = record started {
  fetched = fetched_record 0 ∷ fetched_record 1 ∷ [];
  pending = fetched_record 0 ∷ fetched_record 1 ∷ [];
}

abbrev handed : Pool
handed = record (with_worker 1 (enqueue (fetched_record 0) idle) polled) {
  pending = fetched_record 1 ∷ [];
}

polled-Reachable : Reachable 2 polled
polled-Reachable =
    fetch (fetched_record 0 ∷ fetched_record 1 ∷ [])
      (after at_start (look refl refl refl refl refl)) refl refl refl refl

handed-Reachable : Reachable 2 handed
unfolding worker_at divisor
handed-Reachable =
    after polled-Reachable
      (hand (fetched_record 0) (fetched_record 1 ∷ []) refl refl (omega arith) refl (omega arith))

abbrev returned : Pool
returned = record handed { is_cancelled = true; is_closed = true; result = some none }

returned-Reachable : Reachable 2 returned
returned-Reachable = after (cut_off handed-Reachable) (return_cancelled refl refl)

abbrev drained : Pool
drained = with_worker 1 (record idle { skipped = fetched_record 0 ∷ [] }) returned

Reachable-partition_example :
    let x = handed.workers (worker_at 2 3) in
    of_partition 3 handed.fetched
    ≡ of_partition 3 x.committed
      ++ (of_partition 3 x.skipped
          ++ (of_partition 3 (held x.handling)
              ++ (of_partition 3 x.queue ++ of_partition 3 handed.pending)))
Reachable-partition_example = Reachable-partition 2 handed-Reachable 3

Reachable-CanStep_example : IsWaiting handed ⊎ CanStep 2 handed
unfolding worker_count
Reachable-CanStep_example = Reachable-CanStep (pos 2) (omega arith) handed-Reachable refl

one_skipped : Steps 2 returned 1 drained
one_skipped = one_more done (skip 1 (fetched_record 0) [] (omega arith) refl refl refl refl)

Steps-length_le_example :
    (returned.is_cancelled ≡ true) × (1 ≤ 34 * 2 + 1) × (HasReturned 2 drained ⊎ CanStep 2 drained)
unfolding worker_count
Steps-length_le_example = Steps-length_le (pos 2) none returned-Reachable refl one_skipped
