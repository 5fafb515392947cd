-- ===== src/Queue/Ops/Dropped.antt =====
-- minisched/queue/queue.go: the entries of unschedulableQ that a move leaves there.
use mini_kube_scheduler.Common.{
  ℕ, ◌≡◌, refl, sym, ◌∙◌, Bool, false, not, ◌&&◌, ◌||◌, List, [], ◌∷◌, arith, keep, any, All,
  All-map, keep-cong, keep-ext, keep-true, Bool-cases, inl, inr, none, some,
}
use mini_kube_scheduler.Common.Keys.{Text, text_eq, ◌==◌, eq_iff}
use mini_kube_scheduler.Common.Maps.{lookup, delete, values, HasNoDup, lookup_self}
use mini_kube_scheduler.Framework.{Framework, ClusterEvent}
use mini_kube_scheduler.Queue.Types.{QueuedPodInfo, SchedulingQueue}
use mini_kube_scheduler.Queue.Ops.{key_func, skips}
use mini_kube_scheduler.Queue.Ops.Moves.{drop_helped}

module _ ⦃fw : Framework⦄ where
  -- Each pod stands under its own key.
  abbrev pub AreKeyed : List (Text × QueuedPodInfo) → Type 0
  AreKeyed = All (λ e. e.0 ≡ key_func e.1)

module _ ⦃fw : Framework⦄ (event : ClusterEvent) (s : SchedulingQueue) where
  abbrev is_dropped : List QueuedPodInfo → Text → Bool
  is_dropped ps k = any (λ p. not (skips s p event) && key_func p == k) ps

  abbrev Entries : Type 0
  Entries = List (Text × QueuedPodInfo)

  keep-delete :
      (q : Text → Bool) (k : Text) (m : Entries)
      → keep (λ e. q e.0) (delete k m) ≡ keep (λ e. not (k == e.0) && q e.0) m
  keep-delete q k [] = refl
  keep-delete q k ((j, w) ∷ m) = ground (arith, eq_iff j k, eq_iff k j, keep-delete q k m)

  -- Deleting keys one by one leaves the entries whose key is not among them.
  drop_helped-keep :
      (now : QueuedPodInfo → ℕ) (ps : List QueuedPodInfo) (m : Entries)
      → drop_helped now event s ps m ≡ keep (λ e. not (is_dropped ps e.0)) m
  drop_helped-keep now [] m = sym (keep-true m)
  drop_helped-keep now (p ∷ ps) m = elim (Bool-cases (skips s p event)) [
    | inl e ↦ rw e (drop_helped-keep now ps m)
    | inr e ↦ rw e (
        drop_helped-keep now ps (delete (key_func p) m)
        ∙ keep-delete (λ k. not (is_dropped ps k)) (key_func p) m
        ∙ keep-ext (λ x. not (key_func p == x.0) && not (is_dropped ps x.0))
            (λ x. not (key_func p == x.0 || is_dropped ps x.0)) m (λ x. ground arith))
  ]

  is_dropped-lookup :
      (m : Entries) (k : Text)
      → AreKeyed m
      → HasNoDup m
      → is_dropped (values m) k
        ≡ elim (lookup k m) [ none ↦ false | some p ↦ not (skips s p event) ]
  is_dropped-lookup [] k keyed fresh = refl
  is_dropped-lookup ((j, w) ∷ m) k keyed fresh =
      ground (arith, eq_iff j k, is_dropped-lookup m k keyed.1 fresh.1)

  pub drop_helped_lem :
      (now : QueuedPodInfo → ℕ) (m : Entries)
      → AreKeyed m
      → HasNoDup m
      → drop_helped now event s (values m) m ≡ keep (λ e. skips s e.1 event) m
  drop_helped_lem now m keyed fresh =
      drop_helped-keep now (values m) m
      ∙ keep-cong (λ e. not (is_dropped (values m) e.0)) (λ e. skips s e.1 event) m
          (All-map (λ e found. ground (arith, is_dropped-lookup m e.0 keyed fresh)) m
            (lookup_self m fresh))
