-- ===== src/Minisched/Filters.antt =====
-- minisched/minisched.go: RunFilterPlugins.
pub mod Feasible
use mini_kube_scheduler.Common.{Bool, List, [], ◌∷◌, ◌++◌, length, nat_beq, if◌then◌else◌}
use mini_kube_scheduler.Common.Keys.{Text}
use mini_kube_scheduler.Framework.{Framework, Pod, Node, success}
use mini_kube_scheduler.Minisched.Types.{FilterPlugin, Error, fit_error}

module _ ⦃fw : Framework⦄ where
  -- The nodes that are feasible, or the error.
  pub data Filtered : Type 0 where
    feasible : List Node → Filtered
    unfit : Error → Filtered

module _ ⦃fw : Framework⦄ (state : fw.CycleState) (pod : Pod) where
  -- The inner loop, with its status and the plugins of the diagnosis.
  filter_node :
      List FilterPlugin → fw.NodeInfo → fw.Status → fw.StringSet → fw.Status × fw.StringSet
  filter_node [] info status plugins = (status, plugins)
  filter_node (pl ∷ pls) info status plugins =
      let status' = pl.filter state pod info in
      let failed = fw.with_failed_plugin status' pl.name in
      let rest = filter_node pls info status' plugins in
      if fw.is_success status'
      then rest
      else (failed, fw.set_insert (fw.failed_plugin failed) plugins)

  -- The outer loop, with the feasible nodes so far.
  filter_nodes : List FilterPlugin → List Node → List Node → fw.StringSet → List Node × fw.StringSet
  unfolding filter_node
  filter_nodes pls [] nodes plugins = (nodes, plugins)
  filter_nodes pls (n ∷ ns) nodes plugins =
      let info = fw.new_node_info n in
      let (status, plugins') = filter_node pls info (fw.new_status success []) plugins in
      filter_nodes pls ns (if fw.is_success status then nodes ++ fw.node_of info ∷ [] else nodes)
        plugins'

  filter_result : List Node × fw.StringSet → Filtered
  filter_result (nodes, plugins) =
      if nat_beq (length nodes) 0 then unfit (fit_error plugins) else feasible nodes

  unfoldable pub run_filter_plugins : List FilterPlugin → List Node → Filtered
  unfolding filter_nodes filter_result
  run_filter_plugins pls nodes = filter_result (filter_nodes pls nodes [] (fw.new_string []))
