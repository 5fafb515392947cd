-- ===== src/ResultStore/ReadBack.antt =====
-- scheduler/plugin/resultstore/store.go: the scores that the store holds can be read back.
use mini_kube_scheduler.Common.{◌≡◌, ◌∙◌, ap, arith, true, Option, none, some}
use mini_kube_scheduler.Common.Int.{ℤ, pos, InInt64, wrap64-InInt64, ◌*ℤ◌}
use mini_kube_scheduler.Common.Keys.{Text, text_eq, eq_refl}
use mini_kube_scheduler.Common.Maps.{get_or}
use mini_kube_scheduler.Strconv.{atoi}
use mini_kube_scheduler.Strconv.RoundTrip.{atoi-format_int}
use mini_kube_scheduler.ResultStore.{Store, add_score_result, apply_weight_on_score}
use mini_kube_scheduler.ResultStore.Entries.{
  HasNoSlash, scores, finals, entry, same_entry, add_score_result_lem,
}

-- Atoi of an entry, if it is there.
abbrev pub number_in : Option Text → Option ℤ
number_in text = elim text [ none ↦ none | some t ↦ atoi t ]

same_entry_self :
    (ns pod node plugin : Text) → same_entry ns pod node plugin ns pod node plugin ≡ true
same_entry_self ns pod node plugin =
    ground (arith, eq_refl ns, eq_refl pod, eq_refl node, eq_refl plugin)

weighted-InInt64 :
    (plugin : Text) (score : ℤ) (s : Store) → InInt64 (apply_weight_on_score plugin score s)
unfolding apply_weight_on_score
weighted-InInt64 plugin score s =
    wrap64-InInt64 (score *ℤ get_or s.score_plugin_weight plugin (pos 0))

-- Atoi reads back the score that AddScoreResult records for a pod, node and plugin, and among the
-- final scores the weighted score. The namespace holds no slash, and the score is an int64.
pub add_score_result-read_back :
    (ns pod node plugin : Text) (score : ℤ) (s : Store)
    → HasNoSlash ns
    → InInt64 score
    → (number_in (entry scores ns pod node plugin (add_score_result ns pod node plugin score s))
        ≡ some score)
      × (number_in (entry finals ns pod node plugin (add_score_result ns pod node plugin score s))
          ≡ some (apply_weight_on_score plugin score s))
add_score_result-read_back ns pod node plugin score s h range =
    let self = same_entry_self ns pod node plugin in
    let weighted = apply_weight_on_score plugin score s in
    (
      ap number_in (add_score_result_lem ns pod node plugin ns pod node plugin h h scores score s)
          ∙ rw self (atoi-format_int score range),
      ap number_in (add_score_result_lem ns pod node plugin ns pod node plugin h h finals score s)
          ∙ rw self (atoi-format_int weighted (weighted-InInt64 plugin score s)),
    )
