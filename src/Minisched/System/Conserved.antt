-- ===== src/Minisched/System/Conserved.antt =====
-- minisched: no step of the scheduler's goroutines loses or duplicates a pod.
use mini_kube_scheduler.Common.{
  ℕ, ◌+◌, ◌≡◌, refl, ap, sym, subst, Bool, ◌∷◌, arith, count, none, some, Bool-cases, inl, inr,
  if◌then◌else◌,
}
use mini_kube_scheduler.Common.Keys.{Text, text_eq}
use mini_kube_scheduler.Framework.{Framework, Pod}
use mini_kube_scheduler.Queue.Types.{QueuedPodInfo, SchedulingQueue}
use mini_kube_scheduler.Queue.Ops.{next_pod, add_unschedulable, new_queue}
use mini_kube_scheduler.Queue.Ops.History.{adds, step, step-IsKeyed}
use mini_kube_scheduler.Minisched.Types.{Scheduler, other}
use mini_kube_scheduler.Minisched.Cycle.{bind_pod}
use mini_kube_scheduler.Minisched.Cycle.Accounts.{schedule_pod-IsAccounted, error_func_lem}
use mini_kube_scheduler.Minisched.Handlers.{assigned_pod, on_pod_added}
use mini_kube_scheduler.Minisched.System
use mini_kube_scheduler.Minisched.System.{System, Step, Runs, IsFresh, init}
use mini_kube_scheduler.Minisched.System.Places.{
  HasDistinct, one, count_at, of_pod, pod_key, queued-add, queued-next_pod, total, IsPlaced,
  on_node-queued, put_back-IsPlaced, others,
}

module _ ⦃fw : Framework⦄ where
  on_pod_added-IsPlaced :
      (now : ℕ) (pod : Pod) (s : System)
      → IsPlaced s
      → IsPlaced (record s {
        sched = on_pod_added now pod s.sched;
        added = if assigned_pod pod then s.added else pod ∷ s.added;
      })
  unfolding on_pod_added step
  on_pod_added-IsPlaced now pod s inv = elim (Bool-cases (assigned_pod pod)) [
    | inl e ↦ rw (e, on_pod_added) (record { keyed = inv.keyed; conserved = inv.conserved })
    | inr e ↦
        rw (e, on_pod_added)
          (record {
            keyed = step-IsKeyed s.sched.scheduling_queue (adds now pod) inv.keyed;
            conserved =
                λ q. ground (arith, queued-add q s.sched.scheduling_queue now pod, inv.conserved q);
          })
  ]

  takes-IsPlaced :
      (s : System) (pod : Pod) (queue : SchedulingQueue)
      → s.scheduling ≡ none
      → next_pod s.sched.scheduling_queue ≡ some (pod, queue)
      → IsPlaced s
      → IsPlaced
          (record s { sched = record s.sched { scheduling_queue = queue }; scheduling = some pod })
  unfolding next_pod
  takes-IsPlaced s pod queue idle h inv = record {
    keyed = record {
      keyed = ground (arith, inv.keyed.keyed);
      fresh = ground (arith, inv.keyed.fresh);
    };
    conserved = λ q.
        ground (arith, queued-next_pod q s.sched.scheduling_queue pod queue h, inv.conserved q);
  }

  -- The pod of a cycle or a goroutine is put back by ErrorFunc.
  error_func-IsPlaced :
      (s t : System) (now : ℕ) (pod : Pod) (info : QueuedPodInfo)
      → fw.pod_of info.pod_info ≡ pod
      → t.sched.scheduling_queue ≡ add_unschedulable now s.sched.scheduling_queue info
      → t.added ≡ s.added
      → ((q : Pod → Bool) → others q t + one q pod ≡ others q s)
      → HasDistinct pod_key s.added
      → IsPlaced s
      → IsPlaced t
  error_func-IsPlaced s t now pod info same put added moved d inv =
      put_back-IsPlaced s t now info put added
        (λ q. subst (λ p. others q t + one q p ≡ others q s) (sym same) (moved q)) d inv

  module _ (message : ℕ → Text → Text) where
    Step-IsPlaced :
        (s t : System) → Step message s t → HasDistinct pod_key s.added → IsPlaced s → IsPlaced t
    unfolding bind_pod
    Step-IsPlaced s _ (System.adds now pod) d inv = on_pod_added-IsPlaced now pod s inv
    Step-IsPlaced s _ (System.changes_node now funcs change) d inv =
        let (keyed, same) = on_node-queued now funcs change s.sched inv.keyed in
        record { keyed = keyed; conserved = λ q. omega (arith, same (of_pod q), inv.conserved q) }
    Step-IsPlaced s _ (System.takes pod queue idle h) d inv = takes-IsPlaced s pod queue idle h inv
    Step-IsPlaced s _ (System.rejects a pod allows sched busy h) d inv =
        elim (schedule_pod-IsAccounted a pod s.sched) [
          | inl e ↦ absurd (cc)
          | inr (inl (allows', info, same, e)) ↦
              let put : sched.scheduling_queue
                  ≡ add_unschedulable a.now s.sched.scheduling_queue info =
                ground arith in
              error_func-IsPlaced s _ a.now pod info same put refl (λ q. ground arith) d inv
          | inr (inr (allows', node_name, waiting_pods, e, may)) ↦ absurd (cc)
        ]
    Step-IsPlaced s _ (System.starts a pod b allows sched busy h) d inv =
        elim (schedule_pod-IsAccounted a pod s.sched) [
          | inl e ↦ absurd (cc)
          | inr (inl (allows', info, same, e)) ↦ absurd (cc)
          | inr (inr (allows', node_name, waiting_pods, e, may)) ↦
              let queue : s.sched.scheduling_queue ≡ sched.scheduling_queue = ground arith in
              let its : b.pod ≡ pod = ground arith in
              record {
                keyed = rw (← queue) inv.keyed;
                conserved = λ q. ground (arith, inv.conserved q);
              }
        ]
    Step-IsPlaced s _ (System.is_permitted before after b status waiting_pods at h ok) d inv =
        record {
          keyed = inv.keyed;
          conserved = λ q. ground (arith, count_at (λ b. q b.pod) before after b, inv.conserved q);
        }
    Step-IsPlaced s _ (System.is_refused now before after b status waiting_pods at h ok) d inv =
        let (info, same, e) =
          error_func_lem now b.pod none (record s.sched { waiting_pods = waiting_pods }) in
        error_func-IsPlaced s _ now b.pod info same (ap (λ sc. sc.scheduling_queue) e) refl
          (λ q. ground (arith, count_at (λ b. q b.pod) before after b)) d inv
    Step-IsPlaced s _ (System.is_bound now before after b sched at h) d inv =
        let queue : s.sched ≡ sched = ground arith in
        record {
          keyed = rw (← queue) inv.keyed;
          conserved = λ q. ground (arith, count_at (λ b. q b.pod) before after b, inv.conserved q);
        }
    Step-IsPlaced s _ (System.bind_fails now text before after b sched at h) d inv =
        let (info, same, e) = error_func_lem now b.pod (some (other text)) s.sched in
        let put : sched.scheduling_queue ≡ add_unschedulable now s.sched.scheduling_queue info =
          ground arith in
        error_func-IsPlaced s _ now b.pod info same put refl
          (λ q. ground (arith, count_at (λ b. q b.pod) before after b)) d inv
    Step-IsPlaced s _ (System.allows before after uid plugin w at found) d inv = record {
      keyed = inv.keyed;
      conserved = inv.conserved;
    }
    Step-IsPlaced s _ (System.fires now uid plugin w found) d inv = record {
      keyed = inv.keyed;
      conserved = inv.conserved;
    }
    Step-IsPlaced s _ (System.runs_fired uid w found) d inv = record {
      keyed = inv.keyed;
      conserved = inv.conserved;
    }

    Step-added :
        (key : Pod → Text) (s t : System)
        → Step message s t
        → HasDistinct key t.added
        → HasDistinct key s.added
    Step-added key s _ (System.adds now pod) d = elim (Bool-cases (assigned_pod pod)) [
      | inl e ↦ rw e at d
      | inr e ↦ let d' = rw e at d in d'.1
    ]
    Step-added key s _ (System.changes_node now funcs change) d = d
    Step-added key s _ (System.takes pod queue idle h) d = d
    Step-added key s _ (System.rejects a pod allows sched busy h) d = d
    Step-added key s _ (System.starts a pod b allows sched busy h) d = d
    Step-added key s _ (System.is_permitted before after b status waiting_pods at h ok) d = d
    Step-added key s _ (System.is_refused now before after b status waiting_pods at h ok) d = d
    Step-added key s _ (System.is_bound now before after b sched at h) d = d
    Step-added key s _ (System.bind_fails now text before after b sched at h) d = d
    Step-added key s _ (System.allows before after uid plugin w at found) d = d
    Step-added key s _ (System.fires now uid plugin w found) d = d
    Step-added key s _ (System.runs_fired uid w found) d = d

    init-IsPlaced : (sched : Scheduler) → IsFresh sched → IsPlaced (init sched)
    unfolding new_queue
    init-IsPlaced sched fresh = record {
      keyed = rw fresh.queue (record { keyed = tt; fresh = tt });
      conserved = λ q. rw fresh.queue (omega arith);
    }

    runs-IsPlaced :
        (s t : System) → Runs message s t → HasDistinct pod_key t.added → IsPlaced s → IsPlaced t
    runs-IsPlaced s _ System.stays d inv = inv
    runs-IsPlaced s _ (System.later {t} {u} r st) d inv =
        let d' = Step-added pod_key t u st d in Step-IsPlaced t u st d' (runs-IsPlaced s t r d' inv)

    -- However the goroutines of a scheduler that New made are interleaved, no pod is lost or
    -- duplicated, if no two pods that were put on the queue have one key: of the pods with any
    -- property, as many are in the three queues, in a cycle, in a goroutine or bound as were put on
    -- the queue.
    pub runs-conserved :
        (sched : Scheduler) (s : System)
        → IsFresh sched
        → Runs message (init sched) s
        → HasDistinct pod_key s.added
        → (q : Pod → Bool) → total q s ≡ count q s.added
    runs-conserved sched s fresh r d =
        (runs-IsPlaced (init sched) s r d (init-IsPlaced sched fresh)).conserved
