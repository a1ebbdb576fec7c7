-- ===== src/TreeMatcher/Examples.antt =====
-- Two small trees with one node replaced, and instances of the theorems about their matching.
use mirror_mergiraf.Base.{
  ℕ, ◌+◌, ◌*◌, ◌/◌, ◌≤◌, ◌<◌, Bool, true, false, ltb, leb, none, some, List, [], ◌∷◌, ◌≡◌, refl,
  length, all, arith,
}
use mirror_mergiraf.Base.Run.{Returns}
use mirror_mergiraf.Base.Text.{text_eq}
use mirror_mergiraf.Ast.{AstNode, Children, node, nil, cons, info, dfs, height}
use mirror_mergiraf.Matching.{new}
use mirror_mergiraf.Matching.SameKind.{same_kind, new-SameKind}
use mirror_mergiraf.TreeMatcher.PriorityList.{peek_max, pop}
use mirror_mergiraf.TreeMatcher.PriorityList.Levels.{PopsLevel, pop-PopsLevel}
use mirror_mergiraf.TreeMatcher.TopDown.Ends.{tree_size}
use mirror_mergiraf.TreeMatcher.Recovery.{
  TedTree, none_left, and_then, ted_node, ted_size, Edits, Edit, finished, next,
  strip_matched_subtrees,
}
use mirror_mergiraf.TreeMatcher.Recovery.Strip.{count, strip_matched_subtrees-size}
use mirror_mergiraf.TreeMatcher.Recovery.Converts.{Fits}
use mirror_mergiraf.TreeMatcher.BottomUp.{Floats, TreeMatcher, bottom_up_pass, match_trees}
use mirror_mergiraf.TreeMatcher.BottomUp.Returns.{BottomUpKinds, bottom_up_pass-Returns}
use mirror_mergiraf.TreeMatcher.BottomUp.Whole.{ExactKinds, match_trees-Returns}

-- A node of the kind "n", with a source of one byte, which is also its hash.
abbrev named : ℕ → ℕ → ℕ → Children → AstNode
named id c size ns =
    node
      (record {
        hash = c;
        source = c ∷ [];
        kind = b'n' ∷ [];
        field_name = none;
        start = id;
        end = id + 1;
        id = id;
        is_extra = false;
        descendant_count = size;
        lang_name = [];
      })
      ns

abbrev left_tree : AstNode
left_tree =
    named 0 b'x' 4
      (cons (named 1 b'y' 2 (cons (named 2 b'a' 1 nil) nil)) (cons (named 3 b'b' 1 nil) nil))

abbrev right_tree : AstNode
right_tree =
    named 4 b'z' 4
      (cons (named 5 b'y' 2 (cons (named 6 b'a' 1 nil) nil)) (cons (named 7 b'c' 1 nil) nil))

-- A script that replaces the roots if they are of one kind, and nothing below.
abbrev script_for : Bool → Edits
script_for true = next (Edit.replace finished) finished
script_for false = next Edit.remove (next Edit.insert finished)

abbrev roots_only : TedTree → TedTree → Edits
roots_only l r = script_for (text_eq (info (ted_node l)).kind (info (ted_node r)).kind)

script-Fits :
    (l r : TedTree) (b : Bool)
    → text_eq (info (ted_node l)).kind (info (ted_node r)).kind ≡ b
    → Fits (script_for b) (and_then l none_left) (and_then r none_left)
unfolding Fits
script-Fits l r true e = (e, tt, tt)
script-Fits l r false e = tt

roots_only-Fits :
    (l r : TedTree) → Fits (roots_only l r) (and_then l none_left) (and_then r none_left)
roots_only-Fits l r =
    script-Fits l r (text_eq (info (ted_node l)).kind (info (ted_node r)).kind) refl

-- Percentages.
abbrev percentages : Floats
percentages = record {
  Float = ℕ;
  minus_one = 0;
  dice_of = λ p. 200 * p.0 / p.1;
  gt = λ a b. ltb b a;
}

abbrev matcher : TreeMatcher
matcher = record { min_height = 1; use_rted = true; max_recovery_size = 10 }

abbrev no_duplicates : List ℕ → List ℕ
no_duplicates hashes = []

eight_nodes : tree_size left_tree + tree_size right_tree < 9
unfolding dfs
eight_nodes = omega arith

same_roots : same_kind (left_tree, right_tree) ≡ true
same_roots = refl

pop-PopsLevel_example :
    (h : ℕ) × (peek_max (record { heap = left_tree ∷ named 3 b'b' 1 nil ∷ [] }) ≡ some h)
    × (all (λ n. leb (height n) h) (left_tree ∷ named 3 b'b' 1 nil ∷ []) ≡ true)
    × (0 < length (pop (record { heap = left_tree ∷ named 3 b'b' 1 nil ∷ [] })).0)
    × PopsLevel h
        (left_tree ∷ named 3 b'b' 1 nil ∷ [])
        (pop (record { heap = left_tree ∷ named 3 b'b' 1 nil ∷ [] })).0
        (pop (record { heap = left_tree ∷ named 3 b'b' 1 nil ∷ [] })).1.heap
pop-PopsLevel_example = pop-PopsLevel left_tree (named 3 b'b' 1 nil ∷ [])

strip_matched_subtrees-size_example :
    (ted_size (strip_matched_subtrees left_tree new true left_tree)
      ≡ count (strip_matched_subtrees left_tree new true left_tree))
    × (ted_size (strip_matched_subtrees left_tree new true left_tree) ≤ length (dfs left_tree))
strip_matched_subtrees-size_example = strip_matched_subtrees-size left_tree new true left_tree

bottom_up_pass-Returns_example :
    Returns BottomUpKinds
      (bottom_up_pass roots_only matcher left_tree right_tree percentages 50 new)
bottom_up_pass-Returns_example =
    bottom_up_pass-Returns roots_only roots_only-Fits matcher left_tree right_tree percentages 50
      same_roots new new-SameKind

match_trees-Returns_example :
    Returns ExactKinds
      (match_trees no_duplicates roots_only percentages 50 matcher 9 left_tree right_tree none)
match_trees-Returns_example =
    match_trees-Returns no_duplicates roots_only roots_only-Fits percentages 50 matcher left_tree
      right_tree same_roots 9 none eight_nodes tt
