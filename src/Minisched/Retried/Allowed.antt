-- ===== src/Minisched/Retried/Allowed.antt =====
-- minisched/minisched.go, waitingpod.go: the goroutine of a pod for which one plugin asked to wait.
use mini_kube_scheduler.Common.{ℕ, ◌≡◌, ◌⊎◌, inr, true, List, [], ◌∷◌, arith, none, some}
use mini_kube_scheduler.Common.Keys.{Text, text_eq, eq_refl}
use mini_kube_scheduler.Framework.{Framework, Pod, success, is_success-nil, is_success-new}
use mini_kube_scheduler.Common.Maps.{insert}
use mini_kube_scheduler.NodeNumber
use mini_kube_scheduler.Minisched.System.{with_waiting_pod}
use mini_kube_scheduler.WaitingPod.{WaitingPod, new_waiting_pod, get_signal, allow}
use mini_kube_scheduler.Minisched.Types.{Scheduler}
use mini_kube_scheduler.Minisched.Permits.{wait_on_permit, signal_status}
use mini_kube_scheduler.Minisched.Cycle.{Binding, bound, binding_cycle, bind_pod, get_waiting_pod}

module _ ⦃fw : Framework⦄ where
  -- The only plugin that is pending allows the pod.
  pub allow-signals :
      (now wait_time : ℕ) (pod : Pod) (plugin : Text)
      → (allow plugin (new_waiting_pod now pod ((plugin, wait_time) ∷ []))).s
        ≡ some (fw.new_status success [])
  unfolding allow new_waiting_pod
  allow-signals now wait_time pod plugin = ground (arith, eq_refl plugin)

  -- A pod with a signal of success is bound.
  pub binding_cycle-signalled :
      (now : ℕ) (b : Binding) (sched : Scheduler) (w : WaitingPod)
      → sched.waiting_pods ≡ (b.pod.uid, w) ∷ []
      → w.s ≡ some (fw.new_status success [])
      → binding_cycle now none b sched ≡ bound (record sched { waiting_pods = [] })
  unfolding binding_cycle wait_on_permit signal_status get_signal bind_pod
  binding_cycle-signalled now b sched w alone signal =
      let nil : fw.is_success fw.nil_status ≡ true = is_success-nil in
      let ok = is_success-new [] in ground (arith, eq_refl b.pod.uid)

  -- A pod that does not wait is bound.
  pub binding_cycle-direct :
      (now : ℕ) (b : Binding) (sched : Scheduler)
      → sched.waiting_pods ≡ []
      → binding_cycle now none b sched ≡ bound (record sched { waiting_pods = [] })
  unfolding binding_cycle wait_on_permit bind_pod
  binding_cycle-direct now b sched nobody =
      let nil : fw.is_success fw.nil_status ≡ true = is_success-nil in ground arith

  -- The goroutine binds the pod at once, or the waiting pod of the cycle has an Allow of NodeNumber
  -- that is due after a delay, and the goroutine binds the pod once it has run.
  abbrev pub Finishes : Binding → List (Text × ℕ) → Scheduler → Type 0
  Finishes b allows sched =
      ((now : ℕ) → binding_cycle now none b sched ≡ bound (record sched { waiting_pods = [] }))
      ⊎ (delay : ℕ) × (w : WaitingPod) × (allows ≡ (NodeNumber.name, delay) ∷ [])
        × (get_waiting_pod b.pod.uid sched ≡ some w)
        × ((now : ℕ)
            → binding_cycle now none b (with_waiting_pod b.pod.uid (allow NodeNumber.name w) sched)
              ≡ bound (record sched { waiting_pods = [] }))

  pub waits-Finishes :
      (now wait_time delay : ℕ) (b : Binding) (allows : List (Text × ℕ)) (sched : Scheduler)
      → allows ≡ (NodeNumber.name, delay) ∷ []
      → sched.waiting_pods
        ≡ (b.pod.uid, new_waiting_pod now b.pod ((NodeNumber.name, wait_time) ∷ [])) ∷ []
      → Finishes b allows sched
  unfolding get_waiting_pod
  waits-Finishes now wait_time delay b allows sched due alone =
      let w = new_waiting_pod now b.pod ((NodeNumber.name, wait_time) ∷ []) in
      let replaced : insert b.pod.uid (allow NodeNumber.name w) sched.waiting_pods
          ≡ (b.pod.uid, allow NodeNumber.name w) ∷ [] =
        ground (arith, eq_refl b.pod.uid) in
      inr (
        delay,
        w,
        due,
        ground (arith, eq_refl b.pod.uid),
        (λ t.
            binding_cycle-signalled t b (with_waiting_pod b.pod.uid (allow NodeNumber.name w) sched)
              (allow NodeNumber.name w) replaced
              (allow-signals now wait_time b.pod NodeNumber.name)),
      )
