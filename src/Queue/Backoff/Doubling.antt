-- ===== src/Queue/Backoff/Doubling.antt =====
-- minisched/queue/queue.go: what calculateBackoffDuration and isPodBackingoff compute.
use Prim.Native.Nat.{min}
use native.Mathlib.Nat.{pow-suc}
use mini_kube_scheduler.Common.{
  ℕ, zero, suc, ◌+◌, ◌-◌, ◌*◌, ◌^◌, ◌≤◌, ◌<◌, ◌≡◌, ◌↔◌, true, ap, arith, ltb, if◌then◌else◌,
}
use mini_kube_scheduler.Common.Int.{pos, ◌+ℤ◌, ◌-ℤ◌, wrap64}
use mini_kube_scheduler.Framework.{Framework}
use mini_kube_scheduler.Queue.Types.{QueuedPodInfo}
use mini_kube_scheduler.Queue.Backoff.{
  second, pod_max_backoff_duration, backoff_loop, calculate_backoff_duration, get_backoff_time,
  is_pod_backingoff,
}

module _ (d : ℕ) (within : d ≤ 10 * second) where
  double_in_range : wrap64 (pos d +ℤ pos d) ≡ pos (d + d)
  unfolding wrap64 ◌+ℤ◌
  double_in_range = ground arith

  room_in_range : wrap64 (pod_max_backoff_duration -ℤ pos d) ≡ pos (10 * second - d)
  unfolding wrap64 ◌-ℤ◌
  room_in_range = ground arith

  -- One more round of the loop, on durations up to the maximum.
  loop_step :
      (rounds : ℕ)
      → backoff_loop (suc rounds) (pos d) ≡ (
          if ltb (10 * second) (d + d)
          then pos (10 * second)
          else backoff_loop rounds (pos (d + d)))
  unfolding backoff_loop
  loop_step rounds = rw (room_in_range, double_in_range) (ground arith)

-- Doubling from `d`, cut off at the maximum.
abbrev doubled : ℕ → ℕ → ℕ
doubled rounds d = min (d * 2 ^ rounds) (10 * second)

pow_positive : (n : ℕ) → 1 ≤ 2 ^ n
pow_positive zero = omega arith
pow_positive (suc n) = simp pow-suc (omega (arith, pow_positive n))

doubled-suc : (rounds d : ℕ) → doubled (suc rounds) d ≡ doubled rounds (d + d)
doubled-suc rounds d = rw (pow-suc 2 rounds) (grind arith)

doubled_over : (rounds d : ℕ) → 10 * second < d → doubled rounds d ≡ 10 * second
doubled_over rounds d h = grind (arith, pow_positive rounds)

backoff_loop-doubled :
    (rounds d : ℕ) → d ≤ 10 * second → backoff_loop rounds (pos d) ≡ pos (doubled rounds d)
unfolding backoff_loop
backoff_loop-doubled zero d h = ap pos (omega arith)
backoff_loop-doubled (suc rounds) d h = rw (loop_step d h rounds) (
    ground (
      arith,
      doubled-suc rounds d,
      doubled_over rounds (d + d),
      backoff_loop-doubled rounds (d + d),
    ))

-- The backoff of a pod is one second, doubled for each attempt after the first and cut off at ten
-- seconds; no sum or difference of the loop wraps, for any number of attempts.
pub calculate_backoff_duration-closed_form :
    (attempts : ℕ)
    → calculate_backoff_duration attempts ≡ pos (min (second * 2 ^ (attempts - 1)) (10 * second))
unfolding calculate_backoff_duration
calculate_backoff_duration-closed_form attempts =
    backoff_loop-doubled (attempts - 1) second (omega arith)

module _ ⦃fw : Framework⦄ where
  -- A pod is backing off exactly when less time has passed since its timestamp than one second,
  -- doubled for each attempt after the first, and less than ten seconds.
  pub is_pod_backingoff_iff :
      (now : ℕ) (p : QueuedPodInfo)
      → (is_pod_backingoff now p ≡ true)
        ↔ ((now < p.timestamp + second * 2 ^ (p.attempts - 1)) × (now < p.timestamp + 10 * second))
  unfolding is_pod_backingoff get_backoff_time
  is_pod_backingoff_iff now p =
      rw (calculate_backoff_duration-closed_form p.attempts)
        ((λ h. grind arith), (λ h. grind arith))
