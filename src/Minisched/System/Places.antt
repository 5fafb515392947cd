-- ===== src/Minisched/System/Places.antt =====
-- minisched: where the pods are, after any steps of the scheduler's goroutines.
use mini_kube_scheduler.Common.{
  ℕ, ◌+◌, ◌≤◌, ◌≡◌, refl, ◌∙◌, subst, Bool, List, [], ◌∷◌, ◌++◌, arith, count, count-append,
  Option-cases, none, some, Bool-cases, inl, inr, if◌then◌else◌,
}
use mini_kube_scheduler.Common.Keys.{Text, text_eq, ◌==◌, eq_iff, eq_refl}
use mini_kube_scheduler.Common.Maps.{lookup, insert, values}
use mini_kube_scheduler.Framework.{Framework, Pod}
use mini_kube_scheduler.Queue.Types.{QueuedPodInfo, SchedulingQueue}
use mini_kube_scheduler.Queue.Ops.{
  key_of, key_func, new_queued_pod_info, add, next_pod, add_unschedulable,
  move_all_to_active_or_backoff_queue,
}
use mini_kube_scheduler.Queue.Ops.Dropped.{AreKeyed}
use mini_kube_scheduler.Queue.Ops.Moved.{IsKeyed, queued, move_all-queued}
use mini_kube_scheduler.Queue.Ops.History.{marks, moves, step, step-IsKeyed}
use mini_kube_scheduler.Minisched.Types.{Scheduler}
use mini_kube_scheduler.Minisched.Handlers.{ResourceEventHandlerFuncs, Change, func_of, on_node}
use mini_kube_scheduler.Minisched.System.{System}

-- The keys of no two elements are the same.
abbrev pub HasDistinct : {A : Type 0} → (A → Text) → List A → Type 0
HasDistinct key [] = Unit
HasDistinct key (x ∷ xs) = (count (λ y. key y == key x) xs ≡ 0) × HasDistinct key xs

pub count-Distinct :
    {A : Type 0} (key : A → Text) (xs : List A) (k : Text)
    → HasDistinct key xs
    → count (λ x. key x == k) xs ≤ 1
count-Distinct key [] k h = omega arith
count-Distinct key (x ∷ xs) k h = elim (Bool-cases (key x == k)) [
  | inl e ↦
      let same = (eq_iff (key x) k).0 e in
      rw e (omega (arith, subst (λ j. count (λ y. key y == j) xs ≡ 0) same h.0))
  | inr e ↦ rw e (count-Distinct key xs k h.1)
]

-- One, if the test holds.
abbrev pub one : {A : Type 0} → (A → Bool) → A → ℕ
one q a = if q a then 1 else 0

pub count_at :
    {A : Type 0} (q : A → Bool) (before after : List A) (a : A)
    → count q (before ++ a ∷ after) ≡ count q (before ++ after) + one q a
count_at q [] after a = ground arith
count_at q (b ∷ before) after a = ground (arith, count_at q before after a)

count-insert :
    {V : Type 0} (q : V → Bool) (k : Text) (v : V) (m : List (Text × V))
    → lookup k m ≡ none
    → count q (values (insert k v m)) ≡ count q (values m) + one q v
count-insert q k v [] h = ground arith
count-insert q k v ((j, w) ∷ m) h = ground (arith, count-insert q k v m)

module _ ⦃fw : Framework⦄ where
  -- A test of pods as a test of queued pods, and the test of a pod's key.
  abbrev pub of_pod : (Pod → Bool) → QueuedPodInfo → Bool
  of_pod q info = q (fw.pod_of info.pod_info)

  abbrev pub pod_key : Pod → Text
  pod_key pod = key_of pod.name pod.namespace

  -- A key is not in unschedulableQ if no pod there has it.
  lookup-fresh :
      (k : Text) (m : List (Text × QueuedPodInfo))
      → AreKeyed m
      → count (of_pod (λ pod. pod_key pod == k)) (values m) ≡ 0
      → lookup k m ≡ none
  unfolding key_func
  lookup-fresh k [] h z = refl
  lookup-fresh k ((j, p) ∷ m) h z = ground (arith, lookup-fresh k m h.1)

  module _ (q : Pod → Bool) (s : SchedulingQueue) where
    pub queued-add :
        (now : ℕ) (pod : Pod) → queued (of_pod q) (add now s pod) ≡ queued (of_pod q) s + one q pod
    unfolding add
    queued-add now pod = ground (
      arith,
      count-append (of_pod q) s.active_q (new_queued_pod_info now pod [] ∷ []),
      fw.pod_of-new pod,
    )

    pub queued-next_pod :
        (pod : Pod) (s' : SchedulingQueue)
        → next_pod s ≡ some (pod, s')
        → queued (of_pod q) s ≡ queued (of_pod q) s' + one q pod
    unfolding next_pod
    queued-next_pod pod s' h = ground arith

    queued-add_unschedulable :
        (now : ℕ) (info : QueuedPodInfo)
        → lookup (key_func info) s.unschedulable_q ≡ none
        → queued (of_pod q) (add_unschedulable now s info)
          ≡ queued (of_pod q) s + one q (fw.pod_of info.pod_info)
    unfolding add_unschedulable
    queued-add_unschedulable now info h = ground (
      arith,
      count-insert (of_pod q) (key_func info) (record info { timestamp = now }) s.unschedulable_q,
    )

  -- How many pods with a property are in no queue, and how many there are at all.
  abbrev pub others : (Pod → Bool) → System → ℕ
  others q s =
      elim s.scheduling [ none ↦ 0 | some pod ↦ one q pod ]
      + count (λ b. q b.pod) s.waiting
      + count (λ b. q b.pod) s.binding
      + count (λ b. q b.pod) s.bindings

  abbrev pub total : (Pod → Bool) → System → ℕ
  total q s = queued (of_pod q) s.sched.scheduling_queue + others q s

  pub record IsPlaced (s : System) : Type 0 where
    pub keyed : IsKeyed s.sched.scheduling_queue
    pub conserved : (q : Pod → Bool) → total q s ≡ count q s.added

  -- The handlers of nodes only move pods.
  pub on_node-queued :
      (now : ℕ → QueuedPodInfo → ℕ) (funcs : List ResourceEventHandlerFuncs) (change : Change)
      (sched : Scheduler)
      → IsKeyed sched.scheduling_queue
      → IsKeyed (on_node now funcs change sched).scheduling_queue
        × ((q : QueuedPodInfo → Bool)
            → queued q (on_node now funcs change sched).scheduling_queue
              ≡ queued q sched.scheduling_queue)
  unfolding on_node step
  on_node-queued now [] change sched inv = (inv, λ q. refl)
  on_node-queued now (f ∷ funcs) change sched inv = elim (Option-cases (func_of change f)) [
    | inl e ↦ rw (e, on_node) (on_node-queued (λ i. now (i + 1)) funcs change sched inv)
    | inr (evt, e) ↦
        let queue = sched.scheduling_queue in
        let moved = record sched {
          scheduling_queue = move_all_to_active_or_backoff_queue (now 0) queue evt;
        } in
        let (k, same) =
          on_node-queued (λ i. now (i + 1)) funcs change moved
            (step-IsKeyed queue (moves (now 0) evt) inv) in
        rw (e, on_node) (k, λ q. same q ∙ move_all-queued (now 0) evt queue inv q)
  ]

  -- A pod that is in no queue is put back, and nothing else moves.
  pub put_back-IsPlaced :
      (s t : System) (now : ℕ) (info : QueuedPodInfo)
      → t.sched.scheduling_queue ≡ add_unschedulable now s.sched.scheduling_queue info
      → t.added ≡ s.added
      → ((q : Pod → Bool) → others q t + one q (fw.pod_of info.pod_info) ≡ others q s)
      → HasDistinct pod_key s.added
      → IsPlaced s
      → IsPlaced t
  unfolding step key_func
  put_back-IsPlaced s t now info put same moved d inv =
      let queue = s.sched.scheduling_queue in
      let k = key_func info in
      let at = λ (pod : Pod). pod_key pod == k in
      let fresh : lookup k queue.unschedulable_q ≡ none =
        lookup-fresh k queue.unschedulable_q inv.keyed.keyed (
          ground
            (arith, moved at, inv.conserved at, count-Distinct pod_key s.added k d, eq_refl k)) in
      record {
        keyed = rw put (step-IsKeyed queue (marks now info) inv.keyed);
        conserved = λ q.
            rw (put, same)
              (omega
                (arith, queued-add_unschedulable q queue now info fresh, moved q, inv.conserved q));
      }
