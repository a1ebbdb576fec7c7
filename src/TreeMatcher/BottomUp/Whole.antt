-- ===== src/TreeMatcher/BottomUp/Whole.antt =====
-- The whole matcher returns.
use mirror_mergiraf.Base.{ℕ, ◌+◌, ◌<◌, Bool, true, Option, List, ◌≡◌, ap₂, ◌∙◌, is_some}
use mirror_mergiraf.Base.Run.{Returns, Returns->>=}
use mirror_mergiraf.Base.Text.{text_eq}
use mirror_mergiraf.Ast.{AstNode}
use mirror_mergiraf.Ast.Truncate.{truncate, info-truncate}
use mirror_mergiraf.Matching.{get_from_left, get_from_right, translate}
use mirror_mergiraf.Matching.SameKind.{same_kind, SameKind}
use mirror_mergiraf.TreeMatcher.TopDown.{TopDown, ApproxExactMatching}
use mirror_mergiraf.TreeMatcher.TopDown.Ends.{tree_size}
use mirror_mergiraf.TreeMatcher.TopDown.SameKind.{MatchesKinds, GivenKinds, top_down_pass-Returns}
use mirror_mergiraf.TreeMatcher.Recovery.{TedTree, none_left, and_then, Edits}
use mirror_mergiraf.TreeMatcher.Recovery.Converts.{Fits}
use mirror_mergiraf.TreeMatcher.BottomUp.{
  Floats, TreeMatcher, DetailedMatching, match_rest, match_trees,
}
use mirror_mergiraf.TreeMatcher.BottomUp.Returns.{AnyState, bottom_up_pass-total}

-- The exact matches are between nodes of one kind.
abbrev pub ExactKinds : DetailedMatching → Type 0
ExactKinds d = SameKind d.exact

truncated-same_kind :
    (left right : AstNode) (p q : AstNode → Bool)
    → same_kind (left, right) ≡ true
    → same_kind (truncate left p, truncate right q) ≡ true
truncated-same_kind left right p q same =
    ap₂ (λ i j. text_eq i.kind j.kind) (info-truncate left p) (info-truncate right q) ∙ same

module _ (duplicates : List ℕ → List ℕ) (diff : TedTree → TedTree → Edits)
    (fits : (l r : TedTree) → Fits (diff l r) (and_then l none_left) (and_then r none_left))
    (floats : Floats) (sim_threshold : floats.Float) (matcher : TreeMatcher) (left right : AstNode)
    (same_roots : same_kind (left, right) ≡ true) where
  match_rest-Returns :
      (t : TopDown)
      → MatchesKinds t
      → Returns ExactKinds (match_rest duplicates diff floats sim_threshold matcher left right t)
  unfolding match_rest
  match_rest-Returns t k =
      Returns->>= AnyState ExactKinds _ _ (λ b q. k.exact_matches)
        (bottom_up_pass-total diff fits matcher
          (truncate left (λ n. is_some (get_from_left t.exact_matching n)))
          (truncate right (λ n. is_some (get_from_right t.exact_matching n))) floats sim_threshold
          (truncated-same_kind left right _ _ same_roots)
          (translate t.matching (truncate left (λ n. is_some (get_from_left t.exact_matching n)))
            (truncate right (λ n. is_some (get_from_right t.exact_matching n)))))

  -- As built without debug assertions, the matcher returns without a panic, for any two trees with roots of one kind, any limits and any
  -- way to compare similarities, if the edit scripts fit the trees that they are made for and the rounds
  -- of the top-down pass may be as many as the trees have nodes together. If the given matchings
  -- relate nodes of one kind, then so does the exact matching of the result.
  pub match_trees-Returns :
      (fuel : ℕ) (given : Option ApproxExactMatching)
      → tree_size left + tree_size right < fuel
      → GivenKinds given
      → Returns ExactKinds
          (match_trees duplicates diff floats sim_threshold matcher fuel left right given)
  unfolding match_trees
  match_trees-Returns fuel given enough k =
      Returns->>= MatchesKinds ExactKinds _ _ match_rest-Returns
        (top_down_pass-Returns duplicates fuel matcher.min_height left right given enough k)
