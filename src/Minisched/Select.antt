-- ===== src/Minisched/Select.antt =====
-- minisched/minisched.go: selectHost. `intn i n` is what the i-th call of rand.Intn returns at n.
pub mod Highest
pub mod Draws
pub mod Ways
pub mod Uniform
use mini_kube_scheduler.Common.{
  ℕ, ◌+◌, ◌<◌, Bool, List, [], ◌∷◌, Option, none, some, nat_beq, if◌then◌else◌,
}
use mini_kube_scheduler.Common.Int.{ℤ, ltb_ℤ, beq_ℤ}
use mini_kube_scheduler.Common.Keys.{Text}
use mini_kube_scheduler.Framework.{NodeScore}

-- The variables of the loop, and how often rand.Intn was called.
pub record Choice : Type 0 where
  pub max_score : ℤ
  pub selected : Text
  pub cnt_of_max_score : ℕ
  pub calls : ℕ

abbrev pub first_choice : NodeScore → Choice
first_choice ns = record {
  max_score = ns.score;
  selected = ns.name;
  cnt_of_max_score = 1;
  calls = 0;
}

module _ (intn : ℕ → ℕ → ℕ) where
  pub tie : NodeScore → Choice → Choice
  tie ns c =
      let cnt = c.cnt_of_max_score + 1 in
      record c {
        selected = if nat_beq (intn c.calls cnt) 0 then ns.name else c.selected;
        cnt_of_max_score = cnt;
        calls = c.calls + 1;
      }

  pub consider : NodeScore → Choice → Choice
  unfolding tie
  consider ns c =
      if ltb_ℤ c.max_score ns.score
      then record c { max_score = ns.score; selected = ns.name; cnt_of_max_score = 1 }
      else if beq_ℤ ns.score c.max_score
      then tie ns c
      else c

  pub select_loop : List NodeScore → Choice → Choice
  unfolding consider
  select_loop [] c = c
  select_loop (ns ∷ rest) c = select_loop rest (consider ns c)

  -- `none` is the error of an empty list.
  unfoldable pub select_host : List NodeScore → Option Text
  unfolding select_loop
  select_host [] = none
  select_host (ns ∷ rest) = some (select_loop rest (first_choice ns)).selected
