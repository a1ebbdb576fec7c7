-- ===== src/Merge3dm/Matchings.antt =====
-- src/merge_3dm.rs: the matchings between the three revisions, and the classes that they make.
pub mod Kinds
use mirror_mergiraf.Base.{ℕ, true, false, List, Option, none, some}
use mirror_mergiraf.Base.Run.{Run, done, ◌>>=◌}
use mirror_mergiraf.Ast.{AstNode}
use mirror_mergiraf.Matching
use mirror_mergiraf.Matching.{Matching, compose_base_left_and_base_right}
use mirror_mergiraf.Revision.{Revision}
use mirror_mergiraf.ClassMapping
use mirror_mergiraf.ClassMapping.{ClassMapping, add_matching}
use mirror_mergiraf.TreeMatcher.TopDown.{ApproxExactMatching}
use mirror_mergiraf.TreeMatcher.Recovery.{TedTree, Edits}
use mirror_mergiraf.TreeMatcher.BottomUp.{Floats, TreeMatcher, DetailedMatching, match_trees}

-- `ApproxExactMatching::from_approx` of src/matching.rs
unfoldable pub from_approx : Matching → ApproxExactMatching
unfolding Matching.new
from_approx approx = record { approx = approx; exact = Matching.new }

-- The matching for one side, of those that come with a line-based merge.
abbrev pub first_of :
    Option (ApproxExactMatching × ApproxExactMatching) → Option ApproxExactMatching
first_of none = none
first_of (some (l, r)) = some l

abbrev pub second_of :
    Option (ApproxExactMatching × ApproxExactMatching) → Option ApproxExactMatching
second_of none = none
second_of (some (l, r)) = some r

-- The two threads share nothing, so they run one after the other. The fuel bounds the rounds of each
-- top-down pass; the two matchers have thresholds of their own.
module _ (duplicates : List ℕ → List ℕ) (diff : TedTree → TedTree → Edits) (floats : Floats)
    (primary_threshold auxiliary_threshold : floats.Float)
    (primary_matcher auxiliary_matcher : TreeMatcher) where
  unfoldable pub generate_matchings :
      ℕ
      → AstNode
      → AstNode
      → AstNode
      → Option (ApproxExactMatching × ApproxExactMatching)
      → Run (DetailedMatching × DetailedMatching × DetailedMatching)
  unfolding from_approx compose_base_left_and_base_right
  generate_matchings fuel base left right initial_matchings =
      match_trees duplicates diff floats primary_threshold primary_matcher fuel base left
        (first_of initial_matchings)
      >>= λ base_left.
          match_trees duplicates diff floats primary_threshold primary_matcher fuel base right
            (second_of initial_matchings)
          >>= λ base_right.
              match_trees duplicates diff floats auxiliary_threshold auxiliary_matcher fuel left
                right
                (some
                  (from_approx (compose_base_left_and_base_right base_left.full base_right.full)))
              >>= λ left_right. done (base_left, base_right, left_right)

-- The matchings to the base come first.
unfoldable pub create_class_mapping :
    DetailedMatching → DetailedMatching → DetailedMatching → ClassMapping
unfolding ClassMapping.new add_matching
create_class_mapping base_left_matching base_right_matching left_right_matching =
    let cm = ClassMapping.new in
    let cm = add_matching cm base_left_matching.exact Revision.base Revision.left true in
    let cm = add_matching cm base_right_matching.exact Revision.base Revision.right true in
    let cm = add_matching cm base_left_matching.full Revision.base Revision.left false in
    let cm = add_matching cm base_right_matching.full Revision.base Revision.right false in
    let cm = add_matching cm left_right_matching.exact Revision.left Revision.right true in
    add_matching cm left_right_matching.full Revision.left Revision.right false
