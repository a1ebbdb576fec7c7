-- ===== src/TreeMatcher/Linear.antt =====
-- src/tree_matcher.rs: matching the subtrees of two nodes in linear time, by their kinds.
pub mod Ends
use mirror_mergiraf.Base.{
  ℕ, zero, suc, Bool, true, false, List, [], ◌∷◌, Option, none, some, if◌then◌else◌, map,
}
use mirror_mergiraf.Base.Run.{Run, done, out_of_fuel, ◌>>=◌}
use mirror_mergiraf.Base.Text.{Text}
use mirror_mergiraf.MultiMap
use mirror_mergiraf.MultiMap.{MultiMap}
use mirror_mergiraf.Ast.{AstNode, info, children}
use mirror_mergiraf.Ast.Equality.{text_Eq, node_Eq}
use mirror_mergiraf.Matching.{Matching, add, can_be_matched}

-- The two matchings that the recovery of matches changes.
pub record Recovered : Type 0 where
  pub matching : Matching
  pub recovery : Matching

unfoldable pub add_recovered : Recovered → AstNode → AstNode → Recovered
unfolding add
add_recovered s left right = record {
  matching = add s.matching left right;
  recovery = add s.recovery left right;
}

-- The children by their kind. The other part of the key, the signature, is always `None`.
unfoldable pub children_by_kind : AstNode → MultiMap Text AstNode
unfolding MultiMap.from_iter text_Eq node_Eq
children_by_kind n = MultiMap.from_iter (map (λ c. ((info c).kind, c)) (children n))

-- The elements, if there is one in each set.
abbrev pub only_pair : List AstNode → List AstNode → Option (AstNode × AstNode)
only_pair (l ∷ []) (r ∷ []) = some (l, r)
only_pair _ _ = none

-- A function for the recursive call stands in these two.
unfoldable pub match_children :
    (AstNode → AstNode → Recovered → Run Recovered)
    → Bool
    → Option (AstNode × AstNode)
    → Recovered
    → Run Recovered
unfolding can_be_matched add_recovered
match_children within recursive none s = done s
match_children within recursive (some (l, r)) s =
    if can_be_matched s.matching l r
    then ((if recursive then within l r s else done s) >>= λ s'. done (add_recovered s' l r))
    else done s

unfoldable pub match_entries :
    (AstNode → AstNode → Recovered → Run Recovered)
    → Bool
    → List (Text × List AstNode)
    → MultiMap Text AstNode
    → Recovered
    → Run Recovered
unfolding match_children MultiMap.get text_Eq node_Eq
match_entries within recursive [] right_children s = done s
match_entries within recursive ((kind, children_l) ∷ entries) right_children s =
    match_children within recursive (only_pair children_l (MultiMap.get right_children kind)) s
    >>= λ s'. match_entries within recursive entries right_children s'

-- The fuel bounds the depth of the recursion.
unfoldable pub match_subtrees_linearly : ℕ → Bool → AstNode → AstNode → Recovered → Run Recovered
unfolding match_entries children_by_kind
match_subtrees_linearly zero recursive left right s = out_of_fuel
match_subtrees_linearly (suc fuel) recursive left right s =
    match_entries (match_subtrees_linearly fuel recursive) recursive (children_by_kind left).map
      (children_by_kind right) s
