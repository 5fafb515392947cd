-- ===== src/Simulator/Config/Arguments.antt =====
-- scheduler/plugin/plugins.go: what NewPluginConfig makes of arguments for unknown plugins.
use mini_kube_scheduler.Common.{
  ◌≡◌, ◌≢◌, refl, ap, ◌∙◌, arith, true, false, List, [], ◌∷◌, any, Option, none, some, Bool-cases,
  ◌⊎◌, inl, inr, length, nat_beq,
}
use mini_kube_scheduler.Common.Keys.{Text, text_eq, ◌==◌, eq_iff}
use mini_kube_scheduler.Common.Maps.{lookup, insert, lookup-insert}
use mini_kube_scheduler.Simulator.Config.{
  returned, ConfigApi, Profile, default_profile, RawExtension, Args, override, collect,
  new_plugin_config, copy_of, with_raw, with_object, fill_args,
}
use mini_kube_scheduler.Simulator.Config.Converted.{>>=-eq-returned}

module _ ⦃api : ConfigApi⦄ where
  -- A name without arguments: it is missing, or its pointer is nil.
  abbrev HasNone : Text → Args → Type 0
  HasNone n m = copy_of (lookup n m) ≡ none

  with_raw-none :
      (raw : Text) (ret : Option RawExtension) (a : Option RawExtension)
      → ret ≡ none
      → with_raw raw ret ≡ returned a
      → a ≡ none
  unfolding with_raw
  with_raw-none raw none a e h = elim (Bool-cases (nat_beq (length raw) 0)) [
    | inl z ↦ cc (rw (z, with_raw) at h)
    | inr nz ↦ absurd (cc (rw (nz, with_raw) at h))
  ]
  with_raw-none raw (some args) a e h = absurd (cc)

  with_object-none :
      (object : Option api.Object) (ret a : Option RawExtension)
      → ret ≡ none
      → with_object object ret ≡ returned a
      → a ≡ none
  unfolding with_object
  with_object-none none ret a e h = cc
  with_object-none (some object) none a e h = absurd (cc h)
  with_object-none (some object) (some args) a e h = absurd (cc)

  -- What stays without arguments through the overrides, and is nil once it is overridden.
  override-none :
      (pc : List (Text × RawExtension)) (m m' : Args) (n : Text)
      → override pc m ≡ returned m'
      → HasNone n m
      → HasNone n m'
        × ((lookup n m ≡ some none) ⊎ (any (λ p. p.0 == n) pc ≡ true) → lookup n m' ≡ some none)
  unfolding override
  override-none [] m m' n h no_args =
      let same : m ≡ m' = cc in
      (rw (← same) no_args, (λ c. elim c [ inl e ↦ rw (← same) e | inr e ↦ absurd (cc e) ]))
  override-none ((name, (raw, object)) ∷ pc) m m' n h no_args =
      let (ret, e1, h1) = >>=-eq-returned (with_raw raw (copy_of (lookup name m))) _ h in
      let (ret', e2, h2) = >>=-eq-returned (with_object object ret) _ h1 in
      elim (Bool-cases (name == n)) [
        | inl e ↦
            let same : name ≡ n = (eq_iff name n).0 e in
            let nil : ret' ≡ none =
              with_object-none object ret ret'
                (with_raw-none raw (copy_of (lookup name m)) ret (rw same no_args) e1) e2 in
            let now : lookup n (insert name ret' m) ≡ some none =
              lookup-insert name n ret' m ∙ rw (e, nil) refl in
            let (left, nils) = override-none pc (insert name ret' m) m' n h2 (ap copy_of now) in
            (left, (λ c. nils (inl now)))
        | inr e ↦
            let keeps : lookup n (insert name ret' m) ≡ lookup n m =
              lookup-insert name n ret' m ∙ rw e refl in
            let (left, nils) =
              override-none pc (insert name ret' m) m' n h2 (ap copy_of keeps ∙ no_args) in
            (left, (λ c. nils (elim c [ inl f ↦ inl (keeps ∙ f) | inr f ↦ inr (ground arith) ])))
      ]

  collect-nil :
      (m : Args) (l : List (Text × RawExtension)) (n : Text)
      → collect m ≡ returned l
      → lookup n m ≢ some none
  unfolding collect
  collect-nil [] l n h e = absurd (cc e)
  collect-nil ((name, none) ∷ m) l n h e = absurd (cc h)
  collect-nil ((name, some args) ∷ m) l n h e =
      let (rest, f, h1) = >>=-eq-returned (collect m) _ h in
      elim (Bool-cases (name == n)) [
        | inl same ↦ absurd (cc (rw same at e))
        | inr other ↦ collect-nil m rest n f (rw other at e)
      ]

  fill_args-none :
      (ps : List (Text × RawExtension)) (m : Args) (n : Text)
      → any (λ p. p.0 == n) ps ≡ false
      → lookup n m ≡ none
      → lookup n (fill_args ps m) ≡ none
  unfolding fill_args
  fill_args-none [] m n h e = e
  fill_args-none ((name, args) ∷ ps) m n h e =
      fill_args-none ps (insert name (some args) m) n (ground arith)
        (ground (arith, lookup-insert name n (some args) m))

  -- NewPluginConfig returns a configuration only if every name in its argument has default
  -- arguments; for any other name it panics or returns an error.
  pub new_plugin_config-known :
      (pc l : List (Text × RawExtension)) (profile : Profile) (n : Text)
      → default_profile ≡ returned profile
      → new_plugin_config pc ≡ returned l
      → any (λ p. p.0 == n) pc ≡ true
      → any (λ p. p.0 == n) profile.1 ≡ true
  unfolding new_plugin_config
  new_plugin_config-known pc l profile n found h asked =
      elim (Bool-cases (any (λ p. p.0 == n) profile.1)) [
        | inl e ↦ e
        | inr e ↦
            let start = fill_args profile.1 [] in
            let missing = ap copy_of (fill_args-none profile.1 [] n e refl) in
            let (m, e1, h1) =
              >>=-eq-returned (override pc start) _ (rw (found, new_plugin_config) at h) in
            let (ret, e2, h2) = >>=-eq-returned (collect m) _ h1 in
            let (left, nils) = override-none pc start m n e1 missing in
            absurd (collect-nil m ret n e2 (nils (inr asked)))
      ]
