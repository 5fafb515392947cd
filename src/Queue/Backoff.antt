-- ===== src/Queue/Backoff.antt =====
-- minisched/queue/queue.go: calculateBackoffDuration, getBackoffTime and isPodBackingoff. A
-- time.Duration is an int64 of nanoseconds, and its sums and differences wrap.
pub mod Doubling
use mini_kube_scheduler.Common.{ℕ, zero, suc, ◌+◌, ◌-◌, ◌*◌, Bool, ltb, if◌then◌else◌}
use mini_kube_scheduler.Common.Int.{ℤ, pos, pos_part, neg_part, ◌+ℤ◌, ◌-ℤ◌, wrap64, ltb_ℤ}
use mini_kube_scheduler.Framework.{Framework}
use mini_kube_scheduler.Queue.Types.{QueuedPodInfo}

abbrev pub second : ℕ
second = 1_000_000_000

abbrev pub pod_initial_backoff_duration : ℤ
pod_initial_backoff_duration = pos (1 * second)

abbrev pub pod_max_backoff_duration : ℤ
pod_max_backoff_duration = pos (10 * second)

-- The loop, by recursion on the rounds that `i < podInfo.Attempts` leaves.
backoff_loop : ℕ → ℤ → ℤ
backoff_loop zero duration = duration
backoff_loop (suc rounds) duration =
    let next = backoff_loop rounds (wrap64 (duration +ℤ duration)) in
    if ltb_ℤ (wrap64 (pod_max_backoff_duration -ℤ duration)) duration
    then pod_max_backoff_duration
    else next

unfoldable pub calculate_backoff_duration : (attempts : ℕ) → ℤ
unfolding backoff_loop wrap64 ◌+ℤ◌ ◌-ℤ◌
calculate_backoff_duration attempts = backoff_loop (attempts - 1) pod_initial_backoff_duration

-- time.Time.Add.
abbrev add_duration : ℕ → ℤ → ℕ
add_duration t d = t + pos_part d - neg_part d

module _ ⦃fw : Framework⦄ where
  unfoldable pub get_backoff_time : QueuedPodInfo → ℕ
  unfolding calculate_backoff_duration
  get_backoff_time p = add_duration p.timestamp (calculate_backoff_duration p.attempts)

  -- `now` is what time.Now returns.
  unfoldable pub is_pod_backingoff : (now : ℕ) → QueuedPodInfo → Bool
  unfolding get_backoff_time
  is_pod_backingoff now p = ltb now (get_backoff_time p)
