-- ===== src/Minisched/Filters/Feasible.antt =====
-- minisched/minisched.go: which nodes RunFilterPlugins finds feasible, and whom it blames.
use mathlib.Core.List.{append_assoc, append-nil}
use mini_kube_scheduler.Common.{
  ◌≡◌, refl, sym, ◌∙◌, ap, ◌⊎◌, inl, inr, Bool, true, false, ◌||◌, List, [], ◌∷◌, ◌++◌, arith,
  Bool-cases, all, any, keep, keep-none, length, nat_beq, if◌then◌else◌,
}
use mini_kube_scheduler.Common.Keys.{Text, text_eq, ◌==◌}
use mini_kube_scheduler.Framework.{Framework, Pod, Node, success, is_success-with, is_success-new}
use mini_kube_scheduler.Minisched.Types.{FilterPlugin, fit_error}
use mini_kube_scheduler.Minisched.Filters.{
  feasible, unfit, filter_node, filter_nodes, run_filter_plugins,
}

or_left_comm : (a b c : Bool) → (a || (b || c)) ≡ ((b || a) || c)
or_left_comm a b c = ground arith

-- A filter that keeps nothing, and one that keeps something.
keep-ne_nil :
    {A : Type 0} (q : A → Bool) (xs : List A)
    → any q xs ≡ true
    → nat_beq (length (keep q xs)) 0 ≡ false
keep-ne_nil q [] h = absurd (ground arith)
keep-ne_nil q (x ∷ xs) h = ground (arith, keep-ne_nil q xs)

module _ ⦃fw : Framework⦄ (state : fw.CycleState) (pod : Pod) where
  abbrev accepts : Node → FilterPlugin → Bool
  accepts n pl = fw.is_success (pl.filter state pod (fw.new_node_info n))

  -- Every plugin accepts the node.
  abbrev pub passes : List FilterPlugin → Node → Bool
  passes pls n = all (accepts n) pls

  -- The plugin of that name is the first that rejects the node.
  abbrev pub rejected_by : List FilterPlugin → Text → Node → Bool
  rejected_by [] name n = false
  rejected_by (pl ∷ pls) name n = if accepts n pl then rejected_by pls name n else pl.name == name

  filter_node-success :
      (pls : List FilterPlugin) (n : Node) (status : fw.Status) (plugins : fw.StringSet)
      → fw.is_success status ≡ true
      → fw.is_success (filter_node state pod pls (fw.new_node_info n) status plugins).0
        ≡ passes pls n
  unfolding filter_node
  filter_node-success [] n status plugins h = h
  filter_node-success (pl ∷ pls) n status plugins h = elim (Bool-cases (accepts n pl)) [
    | inl e ↦ rw e (filter_node-success pls n (pl.filter state pod (fw.new_node_info n)) plugins e)
    | inr e ↦ rw e (is_success-with (pl.filter state pod (fw.new_node_info n)) pl.name ∙ e)
  ]

  filter_node-has :
      (pls : List FilterPlugin) (n : Node) (status : fw.Status) (plugins : fw.StringSet) (x : Text)
      → fw.has (filter_node state pod pls (fw.new_node_info n) status plugins).1 x
        ≡ (rejected_by pls x n || fw.has plugins x)
  unfolding filter_node
  filter_node-has [] n status plugins x = refl
  filter_node-has (pl ∷ pls) n status plugins x =
      let status' = pl.filter state pod (fw.new_node_info n) in
      elim (Bool-cases (accepts n pl)) [
        | inl e ↦ rw e (filter_node-has pls n status' plugins x)
        | inr e ↦ rw e (
            fw.has-insert _ x plugins
            ∙ ap (λ y. (y == x) || fw.has plugins x) (fw.failed_plugin-with status' pl.name))
      ]

  start : fw.Status
  start = fw.new_status success []

  filter_nodes-kept :
      (pls : List FilterPlugin) (ns nodes : List Node) (plugins : fw.StringSet)
      → (filter_nodes state pod pls ns nodes plugins).0 ≡ nodes ++ keep (passes pls) ns
  unfolding filter_nodes start
  filter_nodes-kept pls [] nodes plugins = sym (append-nil nodes)
  filter_nodes-kept pls (n ∷ ns) nodes plugins =
      let nodes' =
        λ (b : Bool). if b then nodes ++ fw.node_of (fw.new_node_info n) ∷ [] else nodes in
      let r = filter_node state pod pls (fw.new_node_info n) start plugins in
      filter_nodes-kept pls ns (nodes' (fw.is_success r.0)) r.1
      ∙ ap (λ b. nodes' b ++ keep (passes pls) ns)
          (filter_node-success pls n start plugins (is_success-new []))
      ∙ elim (Bool-cases (passes pls n)) [
        | inl e ↦ rw (fw.node_of-new n, e) (append_assoc nodes (n ∷ []) (keep (passes pls) ns))
        | inr e ↦ rw e refl
      ]

  filter_nodes-has :
      (pls : List FilterPlugin) (ns nodes : List Node) (plugins : fw.StringSet) (x : Text)
      → fw.has (filter_nodes state pod pls ns nodes plugins).1 x
        ≡ (any (rejected_by pls x) ns || fw.has plugins x)
  unfolding filter_nodes start
  filter_nodes-has pls [] nodes plugins x = refl
  filter_nodes-has pls (n ∷ ns) nodes plugins x =
      let r = filter_node state pod pls (fw.new_node_info n) start plugins in
      filter_nodes-has pls ns _ r.1 x
      ∙ ap (λ b. any (rejected_by pls x) ns || b) (filter_node-has pls n start plugins x)
      ∙ or_left_comm (any (rejected_by pls x) ns) (rejected_by pls x n) (fw.has plugins x)

  -- RunFilterPlugins succeeds exactly when some node passes every filter plugin, and then returns
  -- all the nodes that do, in the order given. Otherwise it returns a fit error, whose plugins are
  -- exactly those that were the first to reject some node.
  pub run_filter_plugins_lem :
      (pls : List FilterPlugin) (nodes : List Node) (x : Text)
      → ((any (passes pls) nodes ≡ true)
          × (run_filter_plugins state pod pls nodes ≡ feasible (keep (passes pls) nodes)))
        ⊎ (any (passes pls) nodes ≡ false)
          × (plugins : fw.StringSet) × (run_filter_plugins state pod pls nodes
              ≡ unfit (fit_error plugins))
          × (fw.has plugins x ≡ any (rejected_by pls x) nodes)
  unfolding run_filter_plugins
  run_filter_plugins_lem pls nodes x =
      let r = filter_nodes state pod pls nodes [] (fw.new_string []) in
      let kept = filter_nodes-kept pls nodes [] (fw.new_string []) in
      elim (Bool-cases (any (passes pls) nodes)) [
        | inl e ↦ inl (e, ground (arith, kept, keep-ne_nil (passes pls) nodes e))
        | inr e ↦ inr (
          e,
          r.1,
          ground (arith, kept, keep-none (passes pls) nodes e),
          filter_nodes-has pls nodes [] (fw.new_string []) x ∙ ground (arith, fw.has-new [] x),
        )
      ]
