-- ===== src/Common/Maps.antt =====
-- Go maps as association lists: the order of the list is an iteration order of the map.
use mini_kube_scheduler.Common.{
  ◌≡◌, refl, List, [], ◌∷◌, Option, none, some, arith, if◌then◌else◌, All, All-map, keep, Bool, In,
  inl, inr, Bool-cases, Bool,
}
use mini_kube_scheduler.Common.Keys.{Eq, ◌==◌, eq_iff, eq_refl}

module _ {ℓ κ} {K : Type ℓ} {V : Type κ} ⦃e : Eq K⦄ where
  -- v, ok := m[k]
  abbrev pub lookup : K → List (K × V) → Option V
  lookup k [] = none
  lookup k ((j, v) ∷ m) = if j == k then some v else lookup k m

  -- m[k] = v
  abbrev pub insert : K → V → List (K × V) → List (K × V)
  insert k v [] = (k, v) ∷ []
  insert k v ((j, w) ∷ m) = if j == k then (k, v) ∷ m else (j, w) ∷ insert k v m

  -- delete(m, k)
  abbrev pub delete : K → List (K × V) → List (K × V)
  delete k [] = []
  delete k ((j, w) ∷ m) = if j == k then delete k m else (j, w) ∷ delete k m

  -- m[k], where a missing key reads as the zero value.
  abbrev pub get_or : List (K × V) → K → V → V
  get_or [] k d = d
  get_or ((j, v) ∷ m) k d = if j == k then v else get_or m k d

  pub lookup-insert :
      (k j : K) (v : V) (m : List (K × V))
      → lookup j (insert k v m) ≡ (if k == j then some v else lookup j m)
  lookup-insert k j v [] = refl
  lookup-insert k j v ((i, w) ∷ m) =
      ground (arith, eq_iff k j, eq_iff i k, eq_iff i j, lookup-insert k j v m)

  pub lookup-delete :
      (k j : K) (m : List (K × V)) → lookup j (delete k m) ≡ (if k == j then none else lookup j m)
  lookup-delete k j [] = ground arith
  lookup-delete k j ((i, w) ∷ m) =
      ground (arith, eq_iff k j, eq_iff i k, eq_iff i j, lookup-delete k j m)

  -- No key stands twice.
  abbrev pub HasNoDup : List (K × V) → Type κ
  HasNoDup [] = Unit
  HasNoDup ((k, v) ∷ m) = (lookup k m ≡ none) × HasNoDup m

  pub insert-HasNoDup : (k : K) (v : V) (m : List (K × V)) → HasNoDup m → HasNoDup (insert k v m)
  insert-HasNoDup k v [] h = (refl, tt)
  insert-HasNoDup k v ((j, w) ∷ m) h =
      ground (arith, eq_iff j k, eq_iff k j, lookup-insert k j v m, insert-HasNoDup k v m h.1)

  pub delete-HasNoDup : (k : K) (m : List (K × V)) → HasNoDup m → HasNoDup (delete k m)
  delete-HasNoDup k [] h = tt
  delete-HasNoDup k ((j, w) ∷ m) h =
      ground (arith, eq_iff k j, lookup-delete k j m, delete-HasNoDup k m h.1)

  -- Deleting a key that is not there changes nothing.
  pub delete-absent : (k : K) (m : List (K × V)) → lookup k m ≡ none → delete k m ≡ m
  delete-absent k [] h = refl
  delete-absent k ((j, w) ∷ m) h = ground (arith, delete-absent k m)

  -- What a filter on the values leaves.
  pub lookup-keep :
      (f : V → Bool) (k : K) (m : List (K × V))
      → HasNoDup m
      → lookup k (keep (λ x. f x.1) m)
        ≡ elim (lookup k m) [ none ↦ none | some v ↦ if f v then some v else none ]
  lookup-keep f k [] h = refl
  lookup-keep f k ((j, w) ∷ m) h = ground (arith, eq_iff j k, lookup-keep f k m h.1)

  pub keep-HasNoDup :
      (f : V → Bool) (m : List (K × V)) → HasNoDup m → HasNoDup (keep (λ x. f x.1) m)
  keep-HasNoDup f [] h = tt
  keep-HasNoDup f ((j, w) ∷ m) h = ground (arith, lookup-keep f j m h.1, keep-HasNoDup f m h.1)

  -- Each entry of a map is found under its key.
  pub lookup_self : (m : List (K × V)) → HasNoDup m → All (λ (x : K × V). lookup x.0 m ≡ some x.1) m
  lookup_self [] h = tt
  lookup_self ((k, v) ∷ m) h = (
    ground (arith, eq_refl k),
    All-map (λ x l. ground (arith, eq_iff k x.0)) m (lookup_self m h.1),
  )

abbrev pub values {ℓ κ} : {K : Type ℓ} {V : Type κ} → List (K × V) → List V
values [] = []
values ((k, v) ∷ m) = v ∷ values m

pub values-keep {ℓ κ} :
    {K : Type ℓ} {V : Type κ} (f : V → Bool) (m : List (K × V))
    → values (keep (λ x. f x.1) m) ≡ keep f (values m)
values-keep f [] = refl
values-keep f ((k, v) ∷ m) = ground (arith, values-keep f m)

pub In-values {κ} :
    {K : Type κ} {V : Type 0} ⦃e : Eq K⦄ (k : K) (v : V) (m : List (K × V))
    → lookup k m ≡ some v
    → In v (values m)
In-values k v [] h = absurd (ground arith)
In-values k v ((j, w) ∷ m) h = elim (Bool-cases (j == k)) [
  | inl e ↦ inl (ground arith)
  | inr e ↦ inr (In-values k v m (ground arith))
]
