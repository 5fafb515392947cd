-- ===== src/NodeNumber/Scores.antt =====
-- minisched/plugins/score/nodenumber/nodenumber.go: what the plugin scores, and how long it waits.
use mini_kube_scheduler.Common.{
  ℕ, ◌≡◌, refl, ◌∙◌, ap, ◌⊎◌, true, false, List, [], ◌∷◌, ◌++◌, Option, none, some, arith,
  if◌then◌else◌, ◌-◌, ◌*◌, Bool-cases, inl, inr, nat_beq, ◌<◌,
}
use mini_kube_scheduler.Common.Int.{ℤ, pos}
use mini_kube_scheduler.Common.Keys.{Text, text_eq, eq_refl}
use mini_kube_scheduler.Framework.{Framework, Pod, Node, pre_score_state, wait}
use mini_kube_scheduler.Strconv.{
  last_byte, is_digit, atoi-digit, atoi_of_digit, atoi_of_other, digit_below,
}
use mini_kube_scheduler.NodeNumber.{
  pre_score, score, permit, Permitted, pre_score_state_key, remember, score_with, match_score,
  wait_for,
}

last_byte-snoc : (s : Text) (c : ℕ) → last_byte (s ++ c ∷ []) ≡ some (c ∷ [])
unfolding last_byte
last_byte-snoc [] c = refl
last_byte-snoc (d ∷ []) c = refl
last_byte-snoc (d ∷ e ∷ s) c = last_byte-snoc (e ∷ s) c

module _ ⦃fw : Framework⦄ where
  -- PreScore and then Score, on a new cycle state.
  abbrev pub scored : Pod → List Node → (node_name : Text) → Option (ℤ × fw.Status)
  scored pod nodes node_name = elim (pre_score fw.new_cycle_state pod nodes) [
    | none ↦ none
    | some (status, state) ↦ score state pod node_name
  ]

  pre_score_lem :
      (state : fw.CycleState) (pod : Pod) (nodes : List Node) (p : Text) (c : ℕ)
      → pod.name ≡ p ++ c ∷ []
      → pre_score state pod nodes
        ≡ some (remember state (if is_digit c then some (pos (c - b'0')) else none))
  unfolding pre_score
  pre_score_lem state pod nodes p c e =
      rw (ap last_byte e ∙ last_byte-snoc p c, pre_score)
        (ap (λ x. some (remember state x)) (atoi-digit c))

  -- PreScore of a pod whose name ends in a digit succeeds.
  pub pre_score-digit :
      (state : fw.CycleState) (pod : Pod) (nodes : List Node) (p : Text) (c : ℕ)
      → pod.name ≡ p ++ c ∷ []
      → is_digit c ≡ true
      → (state' : fw.CycleState) × (pre_score state pod nodes ≡ some (fw.nil_status, state'))
  unfolding remember
  pre_score-digit state pod nodes p c e digit = (
    (remember state (some (pos (c - b'0')))).1,
    pre_score_lem state pod nodes p c e ∙ rw digit refl,
  )

  score_with_lem :
      (podnum : ℤ) (n : Text) (d : ℕ)
      → score_with (some (pre_score_state podnum)) (n ++ d ∷ [])
        ≡ some (match_score podnum (if is_digit d then some (pos (d - b'0')) else none))
  unfolding score_with
  score_with_lem podnum n d =
      rw (last_byte-snoc n d, score_with) (ap (λ x. some (match_score podnum x)) (atoi-digit d))

  match_score_lem :
      (c d : ℕ)
      → is_digit c ≡ true
      → match_score (pos (c - b'0')) (if is_digit d then some (pos (d - b'0')) else none)
        ≡ ((if nat_beq c d then pos 10 else pos 0), fw.nil_status)
  unfolding match_score is_digit
  match_score_lem c d h = ground arith

  -- A pod whose name ends in a digit: a node whose name ends in the same digit scores 10, any other
  -- node 0, and Score succeeds.
  pub scored-digit :
      (pod : Pod) (nodes : List Node) (p n : Text) (c d : ℕ)
      → pod.name ≡ p ++ c ∷ []
      → is_digit c ≡ true
      → scored pod nodes (n ++ d ∷ [])
        ≡ some ((if nat_beq c d then pos 10 else pos 0), fw.nil_status)
  unfolding score remember
  scored-digit pod nodes p n c d e digit =
      rw (pre_score_lem fw.new_cycle_state pod nodes p c e, scored, digit)
        (rw
          (
            fw.read-write pre_score_state_key pre_score_state_key (pre_score_state (pos (c - b'0')))
                fw.new_cycle_state,
            eq_refl pre_score_state_key,
          )
          (score_with_lem (pos (c - b'0')) n d ∙ ap some (match_score_lem c d digit)))

  pub scored-non_digit :
      (pod : Pod) (nodes : List Node) (p n : Text) (c : ℕ)
      → pod.name ≡ p ++ c ∷ []
      → is_digit c ≡ false
      → (scored pod nodes n ≡ some (pos 0, fw.as_status fw.not_found))
        × (fw.is_success (fw.as_status fw.not_found) ≡ false)
  unfolding score remember score_with
  scored-non_digit pod nodes p n c e other = (
    rw (pre_score_lem fw.new_cycle_state pod nodes p c e, scored, other)
        (rw (fw.read-new pre_score_state_key) refl),
    ground (arith, fw.is_success-code (fw.as_status fw.not_found), fw.code-as_status fw.not_found),
  )

  -- Permit waits exactly for a node whose name ends in a digit: its Allow is due after so many
  -- seconds as the digit says, before the timeout of ten seconds. For any other node it succeeds at
  -- once.
  pub permit_lem :
      (state : fw.CycleState) (pod : Pod) (n : Text) (d : ℕ)
      → ((is_digit d ≡ true)
          × (delay : ℕ) × (r : Permitted fw.Status) × (permit state pod (n ++ d ∷ []) ≡ some r)
          × (fw.code r.status ≡ wait)
          × (r.allow_after ≡ some delay)
          × (delay ≡ (d - b'0') * 1_000_000_000)
          × (delay < r.timeout))
        ⊎ (is_digit d ≡ false)
          × (permit state pod (n ++ d ∷ [])
              ≡ some (record { status = fw.nil_status; timeout = 0; allow_after = none }))
  unfolding permit wait_for
  permit_lem state pod n d = elim (Bool-cases (is_digit d)) [
    | inl e ↦ inl (
      e,
      (d - b'0') * 1_000_000_000,
      wait_for (some (pos (d - b'0'))),
      rw (last_byte-snoc n d, permit) (ap (λ x. some (wait_for x)) (atoi_of_digit d e)),
      fw.code-new wait [],
      refl,
      refl,
      omega (arith, digit_below d e),
    )
    | inr e ↦
        inr (e, rw (last_byte-snoc n d, permit) (ap (λ x. some (wait_for x)) (atoi_of_other d e)))
  ]
