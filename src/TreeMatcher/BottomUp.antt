-- ===== src/TreeMatcher/BottomUp.antt =====
-- src/tree_matcher.rs: the bottom-up pass, and the whole matcher.
pub mod Returns
pub mod Whole
use mirror_mergiraf.Base.{
  ℕ, suc, ◌+◌, Bool, true, false, not, ◌&&◌, ◌||◌, ltb, Option, none, some, List, [], ◌∷◌, ◌++◌,
  if◌then◌else◌, is_some, drop,
}
use mirror_mergiraf.Base.Run.{Run, done, panicked, ◌>>=◌}
use mirror_mergiraf.Base.HashMap.{set_contains}
use mirror_mergiraf.Base.Text.{text_eq}
use mirror_mergiraf.Ast.{AstNode, info, dfs, postfix, is_leaf, height}
use mirror_mergiraf.Ast.Ancestors.{ancestors, is_root}
use mirror_mergiraf.Ast.Truncate.{truncate}
use mirror_mergiraf.Ast.Equality.{node_Eq}
use mirror_mergiraf.Matching
use mirror_mergiraf.Matching.{
  Matching, get_from_left, get_from_right, add, add_matching, translate, dice,
}
use mirror_mergiraf.TreeMatcher.TopDown.{TopDown, ApproxExactMatching, top_down_pass}
use mirror_mergiraf.TreeMatcher.Linear.{Recovered, match_subtrees_linearly}
use mirror_mergiraf.TreeMatcher.Recovery.{
  TedTree, TedTrees, none_left, and_then, ted_size, Edits, strip_matched_subtrees,
  convert_tree_edits_to_matches,
}

-- The numbers of the type `f32` that are compared.
pub record Floats : Type 1 where
  pub Float : Type 0
  pub minus_one : Float
  -- Twice the first number by the second.
  pub dice_of : ℕ × ℕ → Float
  pub gt : Float → Float → Bool

-- `TreeMatcher` but `sim_threshold`, which is a parameter where floats are.
pub record TreeMatcher : Type 0 where
  pub min_height : ℕ
  pub use_rted : Bool
  pub max_recovery_size : ℕ

-- What the pass changes.
pub record BottomUp : Type 0 where
  pub recovered : Recovered
  pub container : Matching

-- The ancestors of one seed, from its parent up: those that are taken, and those seen so far.
unfoldable pub take_candidates :
    AstNode → AstNode → Matching → List AstNode → List AstNode → List AstNode × List AstNode
unfolding is_root get_from_right node_Eq
take_candidates right left_node m [] seen = ([], seen)
take_candidates right left_node m (ancestor ∷ above) seen =
    if is_root right ancestor || set_contains seen ancestor
    then ([], seen)
    else (let rest = take_candidates right left_node m above (seen ++ ancestor ∷ []) in
        if text_eq (info left_node).kind (info ancestor).kind
          && not (is_some (get_from_right m ancestor))
        then (ancestor ∷ rest.0, rest.1)
        else rest)

unfoldable pub candidates_of :
    AstNode → AstNode → Matching → List AstNode → List AstNode → List AstNode
unfolding take_candidates ancestors get_from_left
candidates_of right left_node m [] seen = []
candidates_of right left_node m (descendant ∷ descendants) seen =
    elim (get_from_left m descendant) [
      | none ↦ candidates_of right left_node m descendants seen
      | some seed ↦
          let (found, seen') =
            take_candidates right left_node m (drop 1 (ancestors right seed)) seen in
          found ++ candidates_of right left_node m descendants seen'
    ]

-- `find_candidates`, in the tree with the root `right`.
unfoldable pub find_candidates : AstNode → AstNode → Matching → List AstNode
unfolding candidates_of dfs
find_candidates right left_node m = candidates_of right left_node m (dfs left_node) []

module _ (floats : Floats) (sim_threshold : floats.Float) where
  -- The loop over the candidates. The warning about similarities that are near the threshold is left out.
  unfoldable pub best_candidate :
      AstNode → Matching → List AstNode → floats.Float → Option AstNode → Option AstNode
  unfolding dice
  best_candidate left_node m [] max_sim best = best
  best_candidate left_node m (candidate ∷ candidates) max_sim best =
      let sim = floats.dice_of (dice m left_node candidate) in
      let better = floats.gt sim max_sim && floats.gt sim sim_threshold in
      best_candidate left_node m candidates (if better then sim else max_sim)
        (if better then some candidate else best)

-- The matches of the descendants of two nodes. The function `diff` of the crate `tree_edit_distance` is
-- a parameter.
module _ (diff : TedTree → TedTree → Edits) (matcher : TreeMatcher)
    (left_root right_root : AstNode) where
  unfoldable pub match_descendants : AstNode → AstNode → Recovered → Run Recovered
  unfolding strip_matched_subtrees
  match_descendants left right s =
      if matcher.use_rted
      then (let left_stripped = strip_matched_subtrees left_root s.matching true left in
          let right_stripped = strip_matched_subtrees right_root s.matching false right in
          if ltb matcher.max_recovery_size (ted_size left_stripped)
            || ltb matcher.max_recovery_size (ted_size right_stripped)
          then match_subtrees_linearly (suc (height left)) true left right s
          else convert_tree_edits_to_matches (diff left_stripped right_stripped)
              (and_then left_stripped none_left) (and_then right_stripped none_left) s)
      else match_subtrees_linearly (suc (height left)) false left right s

  unfoldable pub last_chance_match : AstNode → AstNode → BottomUp → Run BottomUp
  unfolding add
  last_chance_match left right s = match_descendants left right s.recovered >>= λ r. done (record {
    recovered = record { matching = add r.matching left right; recovery = r.recovery };
    container = add s.container left right;
  })

  abbrev pub match_winner : AstNode → Option AstNode → BottomUp → Run BottomUp
  unfolding last_chance_match
  match_winner left_node none s = done s
  match_winner left_node (some winner) s = last_chance_match left_node winner s

  module _ (floats : Floats) (sim_threshold : floats.Float) where
    -- The part of the loop's body that looks for the best candidate.
    unfoldable pub match_best : AstNode → BottomUp → Run BottomUp
    unfolding match_winner best_candidate find_candidates
    match_best left_node s =
        let m = s.recovered.matching in
        match_winner left_node
          (best_candidate floats sim_threshold left_node m (find_candidates right_root left_node m)
            floats.minus_one none)
          s

    unfoldable pub match_node : AstNode → BottomUp → Run BottomUp
    match_node left_node s =
        if is_root left_root left_node
        then (last_chance_match left_node right_root s >>= match_best left_node)
        else if is_some (get_from_left s.recovered.matching left_node) || is_leaf left_node
        then done s
        else match_best left_node s

    unfoldable pub match_nodes : List AstNode → BottomUp → Run BottomUp
    match_nodes [] s = done s
    match_nodes (n ∷ ns) s = match_node n s >>= λ s'. match_nodes ns s'

    unfoldable pub bottom_up_pass : Matching → Run BottomUp
    unfolding Matching.new
    bottom_up_pass m = match_nodes (postfix left_root) (record {
      recovered = record { matching = m; recovery = Matching.new };
      container = Matching.new;
    })

pub record DetailedMatching : Type 0 where
  pub full : Matching
  pub exact : Matching
  pub container : Matching
  pub recovery : Matching

module _ (duplicates : List ℕ → List ℕ) (diff : TedTree → TedTree → Edits) (floats : Floats)
    (sim_threshold : floats.Float) (matcher : TreeMatcher) where
  -- The end of `match_trees`, after the top-down pass.
  unfoldable pub match_rest : AstNode → AstNode → TopDown → Run DetailedMatching
  match_rest left right t =
      let truncated_left = truncate left (λ n. is_some (get_from_left t.exact_matching n)) in
      let truncated_right = truncate right (λ n. is_some (get_from_right t.exact_matching n)) in
      bottom_up_pass diff matcher truncated_left truncated_right floats sim_threshold
        (translate t.matching truncated_left truncated_right)
      >>= λ b.
          let container = translate b.container left right in
          let recovery = translate b.recovered.recovery left right in
          done (record {
            full = add_matching (add_matching t.matching container) recovery;
            exact = t.exact_matching;
            container = container;
            recovery = recovery;
          })

  -- The fuel bounds the rounds of the top-down pass.
  unfoldable pub match_trees :
      ℕ → AstNode → AstNode → Option ApproxExactMatching → Run DetailedMatching
  match_trees fuel left right initial_matching =
      top_down_pass duplicates fuel matcher.min_height left right initial_matching >>= λ t.
      match_rest left right t
