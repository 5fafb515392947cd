-- ===== src/Minisched/Scores/Sums.antt =====
-- minisched/minisched.go: RunScorePlugins adds up the scores that the plugins give a node.
use mathlib.Core.Path.{fun_ext}
use mathlib.Core.List.{append_assoc, append-nil, map-append}
use mini_kube_scheduler.Common.{
  ℕ, suc, ◌+◌, ◌≡◌, refl, sym, ◌∙◌, ap, subst, true, false, List, [], ◌∷◌, ◌++◌, arith, All, map,
  none, some, length, length-append, get_elem?, replicate,
}
use mini_kube_scheduler.Common.Int.{ℤ, pos, ◌+ℤ◌, wrap64}
use mini_kube_scheduler.Common.Keys.{Text, text_eq}
use mini_kube_scheduler.Common.Maps.{lookup}
use mini_kube_scheduler.Framework.{Framework, Pod, Node, NodeScore}
use mini_kube_scheduler.Minisched.Types.{ScorePlugin}
use mini_kube_scheduler.Minisched.Scores.{
  goes_on, returns, PluginToNodeScores, no_score, create_plugin_to_node_scores, store_score,
  normalize, score_plugin, score_node, score_nodes, sum_scores, sum_nodes, run_score_plugins,
}
use mini_kube_scheduler.Minisched.Scores.Rows.{
  lookup-middle, insert-middle, set-middle, get-middle, row, rows, HaveOwnNames, own_name,
  create-rows,
}

module _ ⦃fw : Framework⦄ (state : fw.CycleState) (pod : Pod) (v : ScorePlugin → Text → ℤ) where
  -- A plugin without extensions gives a node the score `v`.
  abbrev pub Gives : Node → ScorePlugin → Type 0
  Gives n pl =
      (pl.score_extensions ≡ none)
      × (status : fw.Status) × (pl.score state pod n.name ≡ some (v pl n.name, status))
      × (fw.is_success status ≡ true)

  abbrev cell : Node → ScorePlugin → NodeScore
  cell n pl = record { name = n.name; score = v pl n.name }

  score_plugin-cell :
      (n : Node) (pl : ScorePlugin) (before after : PluginToNodeScores) (done rest : List NodeScore)
      → lookup pl.name before ≡ none
      → Gives n pl
      → score_plugin state pod
          (length done)
          n
          pl
          (before ++ (pl.name, done ++ no_score ∷ rest) ∷ after)
        ≡ goes_on (before ++ (pl.name, done ++ cell n pl ∷ rest) ∷ after)
  unfolding score_plugin store_score normalize
  score_plugin-cell n pl before after done rest fresh (plain, status, scored, ok) = ground (
    arith,
    lookup-middle pl.name (done ++ no_score ∷ rest) (done ++ no_score ∷ rest) after before,
    insert-middle pl.name (done ++ no_score ∷ rest) (done ++ cell n pl ∷ rest) after before,
    set-middle done rest no_score (cell n pl),
    length-append done (no_score ∷ rest),
  )

  -- The rows of the plugins before have the new cell, those after do not have it yet.
  score_node-cells :
      (n : Node) (k : ℕ) (done : ScorePlugin → List NodeScore) (before after : List ScorePlugin)
      → (index : ℕ) → ((pl : ScorePlugin) → length (done pl) ≡ index)
      → HaveOwnNames (before ++ after)
      → All (Gives n) after
      → score_node state pod index n after (
          rows (λ pl. done pl ++ cell n pl ∷ replicate k no_score) before
          ++ rows (λ pl. done pl ++ replicate (suc k) no_score) after)
        ≡ goes_on (rows (λ pl. done pl ++ cell n pl ∷ replicate k no_score) (before ++ after))
  unfolding score_node
  score_node-cells n k done before [] index e h g =
      let f = λ (pl : ScorePlugin). done pl ++ cell n pl ∷ replicate k no_score in
      ap goes_on (append-nil (rows f before) ∙ ap (rows f) (sym (append-nil before)))
  score_node-cells n k done before (pl ∷ after) index e h g =
      let f = λ (q : ScorePlugin). done q ++ cell n q ∷ replicate k no_score in
      let old = rows (λ q. done q ++ replicate (suc k) no_score) after in
      let assoc = append_assoc before (pl ∷ []) after in
      let one =
        score_plugin-cell n pl (rows f before) old (done pl) (replicate k no_score)
          (own_name f before after pl h) g.0 in
      let later =
        score_node-cells n k done (before ++ pl ∷ []) after index e
          (subst HaveOwnNames (sym assoc) h) g.1 in
      let moved : rows f (before ++ pl ∷ []) ++ old ≡ rows f before ++ row f pl ∷ old =
        ap (λ xs. xs ++ old) (map-append (row f) before (pl ∷ []))
        ∙ append_assoc (rows f before) (row f pl ∷ []) old in
      rw (← e pl, one)
        (ap (score_node state pod index n after) (sym moved)
          ∙ later
          ∙ ap (λ xs. goes_on (rows f xs)) assoc)

  -- What the plugins have given the nodes so far, and what is still to come.
  abbrev given : (done : List Node) → (left : ℕ) → ScorePlugin → List NodeScore
  given done left pl = map (λ n. cell n pl) done ++ replicate left no_score

  length-cells : (pl : ScorePlugin) (ns : List Node) → length (map (λ n. cell n pl) ns) ≡ length ns
  length-cells pl [] = refl
  length-cells pl (n ∷ ns) = ap suc (length-cells pl ns)

  regroup :
      (n : Node) (ns done : List Node) (pl : ScorePlugin)
      → map (λ m. cell m pl) done ++ cell n pl ∷ replicate (length ns) no_score
        ≡ given (done ++ n ∷ []) (length ns) pl
  regroup n ns done pl =
      let rest = replicate (length ns) no_score in
      let cells = map (λ (m : Node). cell m pl) done in
      sym (
        ap (λ xs. xs ++ rest) (map-append (λ m. cell m pl) done (n ∷ []))
        ∙ append_assoc cells (cell n pl ∷ []) rest)

  score_nodes-cells :
      (pls : List ScorePlugin) (done ns : List Node)
      → HaveOwnNames pls
      → All (λ n. All (Gives n) pls) ns
      → score_nodes state pod (length done) ns pls (rows (given done (length ns)) pls)
        ≡ goes_on (rows (given (done ++ ns) 0) pls)
  unfolding score_nodes
  score_nodes-cells pls done [] h g =
      ap (λ ds. goes_on (rows (given ds 0) pls)) (sym (append-nil done))
  score_nodes-cells pls done (n ∷ ns) h g =
      let one =
        score_node-cells n (length ns) (λ pl. map (λ m. cell m pl) done) [] pls (length done)
          (λ pl. length-cells pl done) h g.0 in
      let regrouped : rows
            (λ pl. map (λ m. cell m pl) done ++ cell n pl ∷ replicate (length ns) no_score) pls
          ≡ rows (given (done ++ n ∷ []) (length ns)) pls =
        ap (λ f. rows f pls) (fun_ext (λ pl. regroup n ns done pl)) in
      let next : length done + 1 ≡ length (done ++ n ∷ []) = sym (length-append done (n ∷ [])) in
      rw (one, regrouped, next)
        (score_nodes-cells pls (done ++ n ∷ []) ns h g.1
          ∙ ap (λ ds. goes_on (rows (given ds 0) pls)) (append_assoc done (n ∷ []) ns))

  -- The sum of the scores that the plugins give a node, as int64.
  unfoldable pub total : List ScorePlugin → Text → ℤ → ℤ
  total [] name sum = sum
  total (pl ∷ pls) name sum = total pls name (wrap64 (sum +ℤ v pl name))

  -- Each node with its sum.
  abbrev pub summed : List ScorePlugin → List Node → List NodeScore
  summed pls ns = map (λ n. record { name = n.name; score = total pls n.name (pos 0) }) ns

  sum_scores-total :
      (pls : List ScorePlugin) (done ns : List Node) (n : Node) (sum : ℤ)
      → sum_scores (length done) (rows (given (done ++ n ∷ ns) 0) pls) sum
        ≡ goes_on (total pls n.name sum)
  unfolding sum_scores total
  sum_scores-total [] done ns n sum = refl
  sum_scores-total (pl ∷ pls) done ns n sum =
      let cells = map (λ (m : Node). cell m pl) done in
      let row_is : given (done ++ n ∷ ns) 0 pl ≡ cells ++ cell n pl ∷ map (λ m. cell m pl) ns =
        append-nil (map (λ m. cell m pl) (done ++ n ∷ ns))
        ∙ map-append (λ m. cell m pl) done (n ∷ ns) in
      let at : get_elem? (given (done ++ n ∷ ns) 0 pl) (length done) ≡ some (cell n pl) =
        rw (row_is, ← length-cells pl done)
          (get-middle cells (map (λ m. cell m pl) ns) (cell n pl)) in
      rw at (sum_scores-total pls done ns n (wrap64 (sum +ℤ v pl n.name)))

  sum_nodes-total :
      (pls : List ScorePlugin) (done ns : List Node)
      → sum_nodes (length done) ns (rows (given (done ++ ns) 0) pls) ≡ goes_on (summed pls ns)
  unfolding sum_nodes
  sum_nodes-total pls done [] = refl
  sum_nodes-total pls done (n ∷ ns) =
      let next : length done + 1 ≡ length (done ++ n ∷ []) = sym (length-append done (n ∷ [])) in
      let later =
        subst
          (λ ds.
            sum_nodes (length (done ++ n ∷ [])) ns (rows (given ds 0) pls)
            ≡ goes_on (summed pls ns))
          (append_assoc done (n ∷ []) ns) (sum_nodes-total pls (done ++ n ∷ []) ns) in
      rw (sum_scores-total pls done ns n (pos 0), next, later) refl

  -- With plugins that have different names and no extensions, and that all give every node a score,
  -- RunScorePlugins succeeds: it returns, for each node in the order given, the sum of its scores.
  pub run_score_plugins-sums :
      (pls : List ScorePlugin) (nodes : List Node)
      → HaveOwnNames pls
      → All (λ n. All (Gives n) pls) nodes
      → run_score_plugins state pod pls nodes ≡ goes_on (summed pls nodes)
  unfolding run_score_plugins create_plugin_to_node_scores
  run_score_plugins-sums pls nodes h g =
      rw
        (
          create-rows (length nodes) [] pls h,
          score_nodes-cells pls [] nodes h g,
          sum_nodes-total pls [] nodes,
        )
        refl

module _ ⦃fw : Framework⦄ where
  -- A plugin that fails on the first node ends it.
  pub run_score_plugins-fails :
      (state : fw.CycleState) (pod : Pod) (pl : ScorePlugin) (pls : List ScorePlugin) (n : Node)
      (nodes : List Node) (score : ℤ) (status : fw.Status)
      → pl.score state pod n.name ≡ some (score, status)
      → fw.is_success status ≡ false
      → run_score_plugins state pod (pl ∷ pls) (n ∷ nodes) ≡ returns status
  unfolding run_score_plugins score_nodes score_node score_plugin
  run_score_plugins-fails state pod pl pls n nodes score status e f = ground arith
