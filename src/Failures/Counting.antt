-- ===== src/Failures/Counting.antt =====
-- The counters: a peer is evicted by the failure that makes its run of failures reach the threshold.
use chord_dht.Base.{ℕ, zero, suc, ◌+◌, ◌≡◌, ◌≢◌, refl, ◌&&◌, Bytes, leb, ltb, arith}
use chord_dht.Node.{Node}
use chord_dht.Failures.{mark_failure, mark_success}

-- A peer that fails again and again.
abbrev pub fail_times : ℕ → Bytes → Node → Node
fail_times zero id n = n
fail_times (suc k) id n = (mark_failure id (fail_times k id n)).1

mark_failure-counts :
    (id : Bytes) (n : Node)
    → ((mark_failure id n).1.failures id ≡ n.failures id + 1)
      × ((mark_failure id n).1.options ≡ n.options)
unfolding mark_failure
mark_failure-counts id n = (ground arith, ground arith)

fail_times-counts :
    (k : ℕ) (id : Bytes) (n : Node)
    → ((fail_times k id n).failures id ≡ n.failures id + k)
      × ((fail_times k id n).options ≡ n.options)
fail_times-counts zero id n = (omega arith, refl)
fail_times-counts (suc k) id n =
    ground (arith, fail_times-counts k id n, mark_failure-counts id (fail_times k id n))

mark_success-resets :
    (id : Bytes) (n : Node)
    → ((mark_success id n).failures id ≡ 0) × ((mark_success id n).options ≡ n.options)
unfolding mark_success
mark_success-resets id n = (ground arith, refl)

mark_failure_result :
    (id : Bytes) (n : Node)
    → (mark_failure id n).0 ≡ (
      n.failures id + 1,
      leb n.options.failed_threshold (n.failures id + 1) && ltb 0 n.options.failed_threshold,
    )
unfolding mark_failure
mark_failure_result id n = ground arith

-- After a success of a peer and then k failures of it in a row, the next failure is reported as
-- the (k + 1)-st, and it evicts the peer exactly when the threshold is set and k + 1 has reached it.
pub mark_failure_run :
    (k : ℕ) (id : Bytes) (n : Node)
    → (mark_failure id (fail_times k id (mark_success id n))).0
      ≡ (k + 1, leb n.options.failed_threshold (k + 1) && ltb 0 n.options.failed_threshold)
mark_failure_run k id n =
    let run = fail_times-counts k id (mark_success id n) in
    let start = mark_success-resets id n in
    let count : (fail_times k id (mark_success id n)).failures id ≡ k = omega arith in
    let same_options : (fail_times k id (mark_success id n)).options ≡ n.options = ground arith in
    rw (mark_failure_result, count, same_options)

-- The failures and the successes of one peer leave the counters of the others alone.
pub counters_apart :
    (id other : Bytes) (n : Node)
    → other ≢ id
    → ((mark_failure id n).1.failures other ≡ n.failures other)
      × ((mark_success id n).failures other ≡ n.failures other)
unfolding mark_failure mark_success
counters_apart id other n h = (ground arith, ground arith)
