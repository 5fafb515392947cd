-- ===== src/Queue/Ops/Unscheduled.antt =====
-- minisched/queue/queue.go: AddUnschedulable, and the keys of unschedulableQ.
use mini_kube_scheduler.Common.{ℕ, ◌≡◌, ◌≢◌, ◌⊎◌, inl, inr, refl, Bool-cases, ◌∙◌, arith, All, some}
use mini_kube_scheduler.Common.Keys.{Text, text_eq, ◌==◌, eq_iff, eq_refl, split_at_separator}
use mini_kube_scheduler.Common.Maps.{lookup, lookup-insert}
use mini_kube_scheduler.Framework.{Framework, Pod}
use mini_kube_scheduler.Queue.Types.{QueuedPodInfo, SchedulingQueue}
use mini_kube_scheduler.Queue.Ops.{key_of, key_func, add_unschedulable}

-- No byte of a name is an underscore; names of Kubernetes objects are such.
abbrev pub HasNoUnderscore : Text → Type 0
HasNoUnderscore = All (λ c. c ≢ b'_')

-- Two pods whose names hold no underscore have one key only if they have one name and one
-- namespace.
pub key_of-injective :
    (name namespace name' namespace' : Text)
    → HasNoUnderscore name
    → HasNoUnderscore name'
    → key_of name namespace ≡ key_of name' namespace'
    → (name ≡ name') × (namespace ≡ namespace')
unfolding key_of
key_of-injective name namespace name' namespace' h h' e =
    split_at_separator b'_' name name' namespace namespace' h h' e

module _ ⦃fw : Framework⦄ where
  abbrev pod : QueuedPodInfo → Pod
  pod p = fw.pod_of p.pod_info

  -- A pod that is put back waits in unschedulableQ under its key, with its timestamp refreshed; a
  -- pod of another name or namespace is found as before; and no other part of the queue changes.
  -- The names hold no underscore.
  pub add_unschedulable_lem :
      (now : ℕ) (s : SchedulingQueue) (p q : QueuedPodInfo)
      → HasNoUnderscore (pod p).name
      → HasNoUnderscore (pod q).name
      → (lookup (key_func p) (add_unschedulable now s p).unschedulable_q
          ≡ some (record p { timestamp = now }))
        × ((lookup (key_func q) (add_unschedulable now s p).unschedulable_q
              ≡ lookup (key_func q) s.unschedulable_q)
            ⊎ ((pod p).name ≡ (pod q).name) × ((pod p).namespace ≡ (pod q).namespace))
        × ((add_unschedulable now s p).active_q ≡ s.active_q)
        × ((add_unschedulable now s p).pod_backoff_q ≡ s.pod_backoff_q)
  unfolding add_unschedulable
  add_unschedulable_lem now s p q hp hq =
      let p' = record p { timestamp = now } in
      let changed = lookup-insert (key_func p) (key_func q) p' s.unschedulable_q in
      (
        ground (
          arith,
          lookup-insert (key_func p) (key_func p) p' s.unschedulable_q,
          eq_refl (key_func p),
        ),
        elim (Bool-cases (key_func p == key_func q)) [
          | inl e ↦ inr (
              key_of-injective (pod p).name (pod p).namespace (pod q).name (pod q).namespace hp hq
                ((eq_iff (key_func p) (key_func q)).0 e))
          | inr e ↦ inl (changed ∙ rw e refl)
        ],
        refl,
        refl,
      )
