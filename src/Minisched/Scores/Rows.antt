-- ===== src/Minisched/Scores/Rows.antt =====
-- minisched/minisched.go: the table that createPluginToNodeScores makes, one row for each plugin.
use mathlib.Core.List.{append_assoc, append-nil, map-append}
use mini_kube_scheduler.Common.{
  ℕ, ◌≡◌, refl, sym, ◌∙◌, ap, subst, inl, inr, List, [], ◌∷◌, ◌++◌, arith, map, none, some, length,
  get_elem?, set, replicate, Bool-cases,
}
use mini_kube_scheduler.Common.Keys.{Text, text_eq, ◌==◌, eq_iff, eq_refl}
use mini_kube_scheduler.Common.Maps.{lookup, insert, HasNoDup}
use mini_kube_scheduler.Framework.{Framework, NodeScore}
use mini_kube_scheduler.Minisched.Types.{ScorePlugin}
use mini_kube_scheduler.Minisched.Scores.{PluginToNodeScores, no_score, create_loop}

-- A map with an entry in its middle, whose key does not stand before it.
module _ {V : Type 0} (k : Text) (v w : V) (after : List (Text × V)) where
  pub lookup-middle :
      (before : List (Text × V))
      → lookup k before ≡ none
      → lookup k (before ++ (k, v) ∷ after) ≡ some v
  lookup-middle [] h = ground (arith, eq_refl k)
  lookup-middle ((j, x) ∷ before) h = ground (arith, lookup-middle before)

  pub insert-middle :
      (before : List (Text × V))
      → lookup k before ≡ none
      → insert k w (before ++ (k, v) ∷ after) ≡ before ++ (k, w) ∷ after
  insert-middle [] h = ground (arith, eq_refl k)
  insert-middle ((j, x) ∷ before) h = ground (arith, insert-middle before)

  insert-end :
      (before : List (Text × V))
      → lookup k before ≡ none
      → insert k w before ≡ before ++ (k, w) ∷ []
  insert-end [] h = refl
  insert-end ((j, x) ∷ before) h = ground (arith, insert-end before)

  HasNoDup-before :
      (before : List (Text × V)) → HasNoDup (before ++ (k, v) ∷ after) → lookup k before ≡ none
  HasNoDup-before [] h = refl
  HasNoDup-before ((j, x) ∷ before) h = elim (Bool-cases (j == k)) [
    | inl e ↦ absurd (absent j before h.0 ((eq_iff j k).0 e))
    | inr e ↦ rw e (HasNoDup-before before h.1)
  ]
    where
      absent :
          (j : Text) (before : List (Text × V))
          → lookup j (before ++ (k, v) ∷ after) ≡ none
          → j ≡ k
          → ⊥
      absent j [] h e = ground (arith, eq_iff k j)
      absent j ((i, x) ∷ before) h e = elim (Bool-cases (i == j)) [
        | inl f ↦ ground arith
        | inr f ↦ absent j before (rw f at h) e
      ]

pub set-middle :
    {A : Type 0} (xs ys : List A) (x y : A) → set (xs ++ x ∷ ys) (length xs) y ≡ xs ++ y ∷ ys
set-middle [] ys x y = refl
set-middle (z ∷ xs) ys x y = ap (◌∷◌ z) (set-middle xs ys x y)

pub get-middle :
    {A : Type 0} (xs ys : List A) (x : A) → get_elem? (xs ++ x ∷ ys) (length xs) ≡ some x
get-middle [] ys x = refl
get-middle (z ∷ xs) ys x = get-middle xs ys x

module _ ⦃fw : Framework⦄ where
  -- One row for each plugin.
  abbrev pub row : (ScorePlugin → List NodeScore) → ScorePlugin → Text × List NodeScore
  row f pl = (pl.name, f pl)

  abbrev pub rows : (ScorePlugin → List NodeScore) → List ScorePlugin → PluginToNodeScores
  rows f pls = map (row f) pls

  -- No two plugins have one name.
  abbrev pub named : ScorePlugin → Text × ScorePlugin
  named pl = (pl.name, pl)

  abbrev pub HaveOwnNames : List ScorePlugin → Type 0
  HaveOwnNames pls = HasNoDup (map named pls)

  named-lookup :
      (f : ScorePlugin → List NodeScore) (k : Text) (pls : List ScorePlugin)
      → lookup k (map named pls) ≡ none
      → lookup k (rows f pls) ≡ none
  named-lookup f k [] h = refl
  named-lookup f k (pl ∷ pls) h = ground (arith, named-lookup f k pls)

  pub own_name :
      (f : ScorePlugin → List NodeScore) (before after : List ScorePlugin) (pl : ScorePlugin)
      → HaveOwnNames (before ++ pl ∷ after)
      → lookup pl.name (rows f before) ≡ none
  own_name f before after pl h = named-lookup f pl.name before (
      HasNoDup-before pl.name pl pl (map named after) (map named before)
        (subst HasNoDup (map-append named before (pl ∷ after)) h))

  pub create-rows :
      (n : ℕ) (before after : List ScorePlugin)
      → HaveOwnNames (before ++ after)
      → create_loop after n (rows (λ pl. replicate n no_score) before)
        ≡ rows (λ pl. replicate n no_score) (before ++ after)
  unfolding create_loop
  create-rows n before [] h = ap (rows (λ pl. replicate n no_score)) (sym (append-nil before))
  create-rows n before (pl ∷ after) h =
      let f = λ (q : ScorePlugin). replicate n no_score in
      let assoc = append_assoc before (pl ∷ []) after in
      rw (insert-end pl.name (f pl) (f pl) [] (rows f before) (own_name f before after pl h)) (
        ap (create_loop after n) (sym (map-append (row f) before (pl ∷ [])))
        ∙ create-rows n (before ++ pl ∷ []) after (subst HaveOwnNames (sym assoc) h)
        ∙ ap (rows f) assoc)
