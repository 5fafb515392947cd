-- ===== src/ResultStore/Entries.antt =====
-- scheduler/plugin/resultstore/store.go: the entries of the store after each operation that adds one.
use mini_kube_scheduler.Common.{
  ◌≡◌, ◌≢◌, refl, ap, ◌∙◌, arith, Bool, ◌&&◌, List, [], ◌∷◌, All, Option, none, some, Bool-cases,
  inl, inr, if◌then◌else◌,
}
use mini_kube_scheduler.Common.Int.{ℤ}
use mini_kube_scheduler.Common.Keys.{Text, text_eq, ◌==◌, eq_iff, split_at_separator}
use mini_kube_scheduler.Common.Maps.{lookup, insert, get_or, lookup-insert}
use mini_kube_scheduler.Strconv.{format_int}
use mini_kube_scheduler.ResultStore.{
  Table, PodResult, Store, new_key, new_data, put, change, with_filter, with_score,
  with_final_score, add_filter_result, apply_weight_on_score,
  add_normalized_score_result_without_lock, add_normalized_score_result, add_score_result,
}

get_or-lookup {κ} :
    {V : Type κ} (k : Text) (m : List (Text × V)) (d : V)
    → get_or m k d ≡ elim (lookup k m) [ none ↦ d | some v ↦ v ]
get_or-lookup k [] d = refl
get_or-lookup k ((j, v) ∷ m) d = ground (arith, get_or-lookup k m d)

get_or-insert {κ} :
    {V : Type κ} (k j : Text) (v : V) (m : List (Text × V)) (d : V)
    → get_or (insert k v m) j d ≡ (if k == j then v else get_or m j d)
get_or-insert k j v m d =
    ground (arith, get_or-lookup j (insert k v m) d, get_or-lookup j m d, lookup-insert k j v m)

-- table[node][plugin].
abbrev pub read : (node_name plugin_name : Text) → Table → Option Text
read node_name plugin_name table = lookup plugin_name (get_or table node_name [])

read-put :
    (n p text n' p' : Text) (table : Table)
    → read n' p' (put n p text table) ≡ (if n == n' && p == p' then some text else read n' p' table)
unfolding put
read-put n p text n' p' table =
    let row = insert p text (get_or table n []) in
    ap (lookup p') (get_or-insert n n' row table []) ∙ elim (Bool-cases (n == n')) [
      | inl e ↦
          let same = (eq_iff n n').0 e in
          rw e (lookup-insert p p' text (get_or table n []) ∙ rw same refl)
      | inr e ↦ rw e refl
    ]

-- A namespace holds no slash.
abbrev pub HasNoSlash : Text → Type 0
HasNoSlash t = All (λ c. c ≢ b'/') t

-- Keys of pods in such namespaces are the same exactly when namespace and name are.
split_key :
    (ns pod ns' pod' : Text)
    → HasNoSlash ns
    → HasNoSlash ns'
    → new_key ns pod ≡ new_key ns' pod'
    → (ns ≡ ns') × (pod ≡ pod')
unfolding new_key
split_key ns pod ns' pod' h h' e = split_at_separator b'/' ns ns' pod pod' h h' e

new_key-same :
    (ns pod ns' pod' : Text)
    → HasNoSlash ns
    → HasNoSlash ns'
    → (new_key ns pod == new_key ns' pod') ≡ (ns == ns' && pod == pod')
new_key-same ns pod ns' pod' h h' = elim (Bool-cases (new_key ns pod == new_key ns' pod')) [
  | inl e ↦
      let (same, also) =
        split_key ns pod ns' pod' h h' ((eq_iff (new_key ns pod) (new_key ns' pod')).0 e) in
      ground (arith, eq_iff ns ns', eq_iff pod pod')
  | inr e ↦
      ground (arith, eq_iff (new_key ns pod) (new_key ns' pod'), eq_iff ns ns', eq_iff pod pod')
]

-- The three tables of a result.
pub data Field : Type 0 where
  scores finals filters : Field

abbrev pub table_of : Field → PodResult → Table
table_of scores d = d.score
table_of finals d = d.finalscore
table_of filters d = d.filter

-- What the store has for a pod, a node and a plugin.
abbrev pub entry : Field → (namespace pod_name node_name plugin_name : Text) → Store → Option Text
entry f ns pod node plugin s =
    read node plugin (table_of f (get_or s.results (new_key ns pod) new_data))

-- A change of one pod's result is seen under this pod only.
entry-change :
    (g : PodResult → PodResult) (f : Field) (ns pod ns' pod' node' plugin' : Text) (s : Store)
    → HasNoSlash ns
    → HasNoSlash ns'
    → entry f ns' pod' node' plugin' (change g (new_key ns pod) s) ≡ (
        if ns == ns' && pod == pod'
        then read node' plugin' (table_of f (g (get_or s.results (new_key ns pod) new_data)))
        else entry f ns' pod' node' plugin' s)
unfolding change
entry-change g f ns pod ns' pod' node' plugin' s h h' =
    let k = new_key ns pod in
    let k' = new_key ns' pod' in
    let changed = g (get_or s.results k new_data) in
    ap (λ d. read node' plugin' (table_of f d))
      (get_or-insert k k' changed s.results new_data
        ∙ ap (λ (b : Bool). if b then changed else get_or s.results k' new_data)
            (new_key-same ns pod ns' pod' h h'))
    ∙ elim (Bool-cases (ns == ns' && pod == pod')) [ inl e ↦ rw e refl | inr e ↦ rw e refl ]

-- A pod, a node and a plugin are those of an entry.
abbrev pub same_entry : (ns pod node plugin ns' pod' node' plugin' : Text) → Bool
same_entry ns pod node plugin ns' pod' node' plugin' =
    (ns == ns' && pod == pod') && (node == node' && plugin == plugin')

-- What AddFilterResult, AddNormalizedScoreResult and AddScoreResult make of the entry.
abbrev pub filter_text : Field → (reason : Text) → Option Text → Option Text
filter_text filters reason old = some reason
filter_text scores reason old = old
filter_text finals reason old = old

abbrev pub final_text : (plugin : Text) → Field → (score : ℤ) → Store → Option Text → Option Text
final_text plugin finals score s old = some (format_int (apply_weight_on_score plugin score s))
final_text plugin scores score s old = old
final_text plugin filters score s old = old

abbrev pub score_text : (plugin : Text) → Field → (score : ℤ) → Store → Option Text → Option Text
score_text plugin scores score s old = some (format_int score)
score_text plugin finals score s old = some (format_int (apply_weight_on_score plugin score s))
score_text plugin filters score s old = old

module _ (ns pod node plugin ns' pod' node' plugin' : Text) (h : HasNoSlash ns)
    (h' : HasNoSlash ns') where
  -- A change that puts a text into one table.
  put-entry :
      (g : PodResult → PodResult) (f : Field) (text : Text) (s : Store)
      → ((d : PodResult) → table_of f (g d) ≡ put node plugin text (table_of f d))
      → entry f ns' pod' node' plugin' (change g (new_key ns pod) s) ≡ (
          if same_entry ns pod node plugin ns' pod' node' plugin'
          then some text
          else entry f ns' pod' node' plugin' s)
  put-entry g f text s puts =
      entry-change g f ns pod ns' pod' node' plugin' s h h'
      ∙ elim (Bool-cases (ns == ns' && pod == pod')) [
        | inl e ↦
            let d = get_or s.results (new_key ns pod) new_data in
            let same_key : new_key ns pod ≡ new_key ns' pod' =
              (eq_iff (new_key ns pod) (new_key ns' pod')).0
                (new_key-same ns pod ns' pod' h h' ∙ e) in
            rw e (
              ap (read node' plugin') (puts d)
              ∙ read-put node plugin text node' plugin' (table_of f d)
              ∙ rw same_key refl)
        | inr e ↦ rw e refl
      ]

  -- A change that leaves a table as it is.
  keep-entry :
      (g : PodResult → PodResult) (f : Field) (s : Store)
      → ((d : PodResult) → table_of f (g d) ≡ table_of f d)
      → entry f ns' pod' node' plugin' (change g (new_key ns pod) s)
        ≡ entry f ns' pod' node' plugin' s
  keep-entry g f s keeps =
      entry-change g f ns pod ns' pod' node' plugin' s h h'
      ∙ elim (Bool-cases (ns == ns' && pod == pod')) [
        | inl e ↦
            let same_key : new_key ns pod ≡ new_key ns' pod' =
              (eq_iff (new_key ns pod) (new_key ns' pod')).0
                (new_key-same ns pod ns' pod' h h' ∙ e) in
            rw e (
              ap (read node' plugin') (keeps (get_or s.results (new_key ns pod) new_data))
              ∙ rw same_key refl)
        | inr e ↦ rw e refl
      ]

  -- For namespaces without a slash, AddFilterResult records the reason under its pod, node and
  -- plugin among the filter results, and changes no other entry of any table.
  pub add_filter_result_lem :
      (f : Field) (reason : Text) (s : Store)
      → entry f ns' pod' node' plugin' (add_filter_result ns pod node plugin reason s) ≡ (
          if same_entry ns pod node plugin ns' pod' node' plugin'
          then filter_text f reason (entry f ns' pod' node' plugin' s)
          else entry f ns' pod' node' plugin' s)
  unfolding add_filter_result
  add_filter_result_lem filters reason s =
      put-entry (with_filter node plugin reason) filters reason s (λ d. refl)
  add_filter_result_lem scores reason s =
      keep-entry (with_filter node plugin reason) scores s (λ d. refl) ∙ ground arith
  add_filter_result_lem finals reason s =
      keep-entry (with_filter node plugin reason) finals s (λ d. refl) ∙ ground arith

  -- For namespaces without a slash, AddNormalizedScoreResult records the decimal digits of the
  -- weighted score under its pod, node and plugin among the final scores, and changes no other
  -- entry of any table.
  pub add_normalized_score_result_lem :
      (f : Field) (score : ℤ) (s : Store)
      → entry f ns' pod' node' plugin' (add_normalized_score_result ns pod node plugin score s) ≡ (
          if same_entry ns pod node plugin ns' pod' node' plugin'
          then final_text plugin f score s (entry f ns' pod' node' plugin' s)
          else entry f ns' pod' node' plugin' s)
  unfolding add_normalized_score_result add_normalized_score_result_without_lock
  add_normalized_score_result_lem finals score s =
      let text = format_int (apply_weight_on_score plugin score s) in
      put-entry (with_final_score node plugin text) finals text s (λ d. refl)
  add_normalized_score_result_lem scores score s =
      keep-entry (with_final_score node plugin (format_int (apply_weight_on_score plugin score s)))
        scores s (λ d. refl)
      ∙ ground arith
  add_normalized_score_result_lem filters score s =
      keep-entry (with_final_score node plugin (format_int (apply_weight_on_score plugin score s)))
        filters s (λ d. refl)
      ∙ ground arith

  -- The store after the first half of AddScoreResult.
  abbrev scored : ℤ → Store → Store
  scored score s = change (with_score node plugin (format_int score)) (new_key ns pod) s

  add_score-normalized :
      (score : ℤ) (s : Store)
      → add_score_result ns pod node plugin score s
        ≡ add_normalized_score_result ns pod node plugin score (scored score s)
  unfolding add_score_result add_normalized_score_result
  add_score-normalized score s = refl

  same_weight :
      (score : ℤ) (s : Store)
      → apply_weight_on_score plugin score (scored score s) ≡ apply_weight_on_score plugin score s
  unfolding apply_weight_on_score change
  same_weight score s = refl

  -- For namespaces without a slash, AddScoreResult records the decimal digits of the score, and
  -- those of the weighted score among the final scores, under its pod, node and plugin, and changes
  -- no other entry of any table.
  pub add_score_result_lem :
      (f : Field) (score : ℤ) (s : Store)
      → entry f ns' pod' node' plugin' (add_score_result ns pod node plugin score s) ≡ (
          if same_entry ns pod node plugin ns' pod' node' plugin'
          then score_text plugin f score s (entry f ns' pod' node' plugin' s)
          else entry f ns' pod' node' plugin' s)
  add_score_result_lem scores score s =
      let text = format_int score in
      ap (entry scores ns' pod' node' plugin') (add_score-normalized score s)
      ∙ add_normalized_score_result_lem scores score (scored score s)
      ∙ ground (arith, put-entry (with_score node plugin text) scores text s (λ d. refl))
  add_score_result_lem finals score s =
      ap (entry finals ns' pod' node' plugin') (add_score-normalized score s)
      ∙ add_normalized_score_result_lem finals score (scored score s)
      ∙ ground (
        arith,
        same_weight score s,
        keep-entry (with_score node plugin (format_int score)) finals s (λ d. refl),
      )
  add_score_result_lem filters score s =
      ap (entry filters ns' pod' node' plugin') (add_score-normalized score s)
      ∙ add_normalized_score_result_lem filters score (scored score s)
      ∙ ground (arith, keep-entry (with_score node plugin (format_int score)) filters s (λ d. refl))
