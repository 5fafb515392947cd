-- ===== src/Minisched/Scores.antt =====
-- minisched/minisched.go: RunPreScorePlugins, RunScorePlugins and createPluginToNodeScores.
pub mod Names
pub mod Rows
pub mod Sums
use mini_kube_scheduler.Common.{
  ℕ, ◌+◌, Bool, List, [], ◌∷◌, ◌++◌, Option, none, some, length, get_elem?, set, replicate, ltb,
  if◌then◌else◌,
}
use mini_kube_scheduler.Common.Int.{ℤ, pos, ◌+ℤ◌, wrap64}
use mini_kube_scheduler.Common.Keys.{Text, text_eq}
use mini_kube_scheduler.Common.Maps.{lookup, insert}
use mini_kube_scheduler.Framework.{Framework, Pod, Node, NodeScore}
use mini_kube_scheduler.Minisched.Types.{PreScorePlugin, ScorePlugin}

module _ ⦃fw : Framework⦄ where
  -- A step goes on with a value, returns with a status, or panics.
  pub data Flow (A : Type 0) : Type 0 where
    goes_on : A → Flow A
    returns : fw.Status → Flow A
    panics : Flow A

  infixl 5 ◌>>=◌
  abbrev pub ◌>>=◌ : {A B : Type 0} → Flow A → (A → Flow B) → Flow B
  goes_on a >>= f = f a
  returns status >>= f = returns status
  panics >>= f = panics

  abbrev pub or_panic : {A : Type 0} → Option A → Flow A
  or_panic none = panics
  or_panic (some a) = goes_on a

  abbrev pub unless_success : {A : Type 0} → fw.Status → A → Flow A
  unless_success status a = if fw.is_success status then goes_on a else returns status

  -- The cycle state after all plugins, or the status of the first that fails.
  unfoldable pub run_pre_score_plugins :
      List PreScorePlugin → fw.CycleState → Pod → List Node → Flow fw.CycleState
  run_pre_score_plugins [] state pod nodes = goes_on state
  run_pre_score_plugins (pl ∷ pls) state pod nodes = do
    (status, state') ← or_panic (pl.pre_score state pod nodes)
    state'' ← unless_success status state'
    run_pre_score_plugins pls state'' pod nodes

  -- framework.PluginToNodeScores.
  abbrev pub PluginToNodeScores : Type 0
  PluginToNodeScores = List (Text × List NodeScore)

  abbrev pub no_score : NodeScore
  no_score = record { name = []; score = pos 0 }

  pub create_loop : List ScorePlugin → ℕ → PluginToNodeScores → PluginToNodeScores
  create_loop [] n m = m
  create_loop (pl ∷ pls) n m = create_loop pls n (insert pl.name (replicate n no_score) m)

  unfoldable pub create_plugin_to_node_scores : List ScorePlugin → List Node → PluginToNodeScores
  unfolding create_loop
  create_plugin_to_node_scores pls nodes = create_loop pls (length nodes) []

  -- A callee that has a slice can change its elements and not its length.
  pub write_back : List NodeScore → List NodeScore → List NodeScore
  write_back [] news = []
  write_back (old ∷ olds) [] = old ∷ olds
  write_back (old ∷ olds) (new ∷ news) = new ∷ write_back olds news

  -- scoresMap[name][index] = value.
  store_score : Text → ℕ → NodeScore → PluginToNodeScores → Flow PluginToNodeScores
  store_score name index value m = do
    row ← or_panic (lookup name m)
    if ltb index (length row) then goes_on (insert name (set row index value) m) else panics

  -- result[i].Score += scoresMap[j][i].Score for each j; the sum of two int64 wraps.
  sum_scores : ℕ → PluginToNodeScores → ℤ → Flow ℤ
  sum_scores i [] total = goes_on total
  sum_scores i ((j, row) ∷ m) total = do
    ns ← or_panic (get_elem? row i)
    sum_scores i m (wrap64 (total +ℤ ns.score))

  sum_nodes : ℕ → List Node → PluginToNodeScores → Flow (List NodeScore)
  unfolding sum_scores wrap64 ◌+ℤ◌
  sum_nodes i [] m = goes_on []
  sum_nodes i (n ∷ ns) m = do
    total ← sum_scores i m (pos 0)
    rest ← sum_nodes (i + 1) ns m
    goes_on (record { name = n.name; score = total } ∷ rest)

module _ ⦃fw : Framework⦄ (state : fw.CycleState) (pod : Pod) where
  normalize : ScorePlugin → PluginToNodeScores → Flow PluginToNodeScores
  unfolding write_back
  normalize pl m = elim pl.score_extensions [
    | none ↦ goes_on m
    | some normalize_score ↦ do
      row ← or_panic (lookup pl.name m)
      let (status, row') = normalize_score state pod row
      unless_success status (insert pl.name (write_back row row') m)
  ]

  score_plugin : ℕ → Node → ScorePlugin → PluginToNodeScores → Flow PluginToNodeScores
  unfolding store_score normalize
  score_plugin index n pl m = do
    (score, status) ← or_panic (pl.score state pod n.name)
    score' ← unless_success status score
    m' ← store_score pl.name index (record { name = n.name; score = score' }) m
    normalize pl m'

  score_node : ℕ → Node → List ScorePlugin → PluginToNodeScores → Flow PluginToNodeScores
  unfolding score_plugin
  score_node index n [] m = goes_on m
  score_node index n (pl ∷ pls) m = score_plugin index n pl m >>= score_node index n pls

  score_nodes : ℕ → List Node → List ScorePlugin → PluginToNodeScores → Flow PluginToNodeScores
  unfolding score_node
  score_nodes index [] pls m = goes_on m
  score_nodes index (n ∷ ns) pls m =
      score_node index n pls m >>= λ m'. score_nodes (index + 1) ns pls m'

  unfoldable pub run_score_plugins : List ScorePlugin → List Node → Flow (List NodeScore)
  unfolding create_plugin_to_node_scores score_nodes sum_nodes
  run_score_plugins pls nodes = do
    m ← score_nodes 0 nodes pls (create_plugin_to_node_scores pls nodes)
    sum_nodes 0 nodes m
