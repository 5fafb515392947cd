-- ===== src/Minisched/Scores/Names.antt =====
-- minisched/minisched.go: RunScorePlugins returns one score for each node, in the order given.
use mini_kube_scheduler.Common.{ℕ, ◌+◌, ◌≡◌, refl, ap, List, [], ◌∷◌, map}
use mini_kube_scheduler.Common.Int.{pos}
use mini_kube_scheduler.Common.Keys.{Text}
use mini_kube_scheduler.Framework.{Framework, Pod, Node, NodeScore}
use mini_kube_scheduler.Minisched.Types.{ScorePlugin}
use mini_kube_scheduler.Minisched.Scores.{
  Flow, goes_on, returns, panics, ◌>>=◌, PluginToNodeScores, score_nodes, sum_scores, sum_nodes,
  run_score_plugins, create_plugin_to_node_scores,
}

module _ ⦃fw : Framework⦄ where
  -- Inversion of a sequence that goes on.
  pub >>=-eq-goes_on :
      {A B : Type 0} (m : Flow A) (f : A → Flow B) {b : B}
      → (m >>= f) ≡ goes_on b
      → (a : A) × (m ≡ goes_on a) × (f a ≡ goes_on b)
  >>=-eq-goes_on (goes_on a) f h = (a, refl, h)
  >>=-eq-goes_on (returns status) f h = absurd (cc h)
  >>=-eq-goes_on panics f h = absurd (cc h)

  abbrev pub names_of : List NodeScore → List Text
  names_of = map (λ ns. ns.name)

  sum_nodes-names :
      (i : ℕ) (ns : List Node) (m : PluginToNodeScores) (l : List NodeScore)
      → sum_nodes i ns m ≡ goes_on l
      → names_of l ≡ map (λ n. n.name) ns
  unfolding sum_nodes
  sum_nodes-names i [] m l h = let e : [] ≡ l = cc in rw (← e)
  sum_nodes-names i (n ∷ ns) m l h =
      let (total, e, h') = >>=-eq-goes_on (sum_scores i m (pos 0)) _ h in
      let (rest, f, h'') = >>=-eq-goes_on (sum_nodes (i + 1) ns m) _ h' in
      let e : record { name = n.name; score = total } ∷ rest ≡ l = cc in
      rw (← e) (ap (◌∷◌ n.name) (sum_nodes-names (i + 1) ns m rest f))

module _ ⦃fw : Framework⦄ (state : fw.CycleState) (pod : Pod) where
  -- When RunScorePlugins succeeds, it returns one score for each node, under the node's name and in
  -- the order of the nodes.
  pub run_score_plugins-names :
      (pls : List ScorePlugin) (nodes : List Node) (l : List NodeScore)
      → run_score_plugins state pod pls nodes ≡ goes_on l
      → names_of l ≡ map (λ n. n.name) nodes
  unfolding run_score_plugins
  run_score_plugins-names pls nodes l h =
      let (m, e, h') =
        >>=-eq-goes_on (score_nodes state pod 0 nodes pls (create_plugin_to_node_scores pls nodes))
          _ h in
      sum_nodes-names 0 nodes m l h'
