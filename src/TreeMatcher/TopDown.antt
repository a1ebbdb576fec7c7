-- ===== src/TreeMatcher/TopDown.antt =====
-- src/tree_matcher.rs, the top-down pass: it matches the isomorphic subtrees that are not too low.
pub mod Ends
pub mod SameKind
use mirror_mergiraf.Base.{
  ℕ, zero, suc, ◌+◌, min, Bool, true, false, ◌&&◌, ◌||◌, ◌==◌, ltb, List, [], ◌∷◌, Option, none,
  some, if◌then◌else◌, length, map, zip, any, foldl,
}
use mirror_mergiraf.Base.Run.{Run, done, out_of_fuel}
use mirror_mergiraf.Base.HashMap.{set_contains, set_insert}
use mirror_mergiraf.Ast.{AstNode, info, dfs, isomorphic_to, node_eq}
use mirror_mergiraf.Ast.Equality.{node_Eq}
use mirror_mergiraf.Matching
use mirror_mergiraf.Matching.{Matching, are_matched, can_be_matched, extend, add_matching}
use mirror_mergiraf.TreeMatcher.PriorityList
use mirror_mergiraf.TreeMatcher.PriorityList.{PriorityList, push, peek_max, pop, open_node}

-- `ApproxExactMatching`
pub record ApproxExactMatching : Type 0 where
  pub approx : Matching
  pub exact : Matching

-- What the loop changes. The matching `auxiliary` is left out: it is written and never read.
pub record TopDown : Type 0 where
  pub l1 : PriorityList
  pub l2 : PriorityList
  pub matching : Matching
  pub exact_matching : Matching

-- `peek_max().unwrap_or(-1)`, plus one.
abbrev pub level : Option ℕ → ℕ
level none = 0
level (some h) = h + 1

-- What the two inner loops change, for the trees of one height.
pub record Level : Type 0 where
  pub matched_1 : List AstNode
  pub matched_2 : List AstNode
  pub matching : Matching
  pub exact_matching : Matching

abbrev pub has_hash : List ℕ → AstNode → Bool
has_hash hashes n = any (λ h. h == (info n).hash) hashes

-- Two trees are found to be matched, or are matched.
unfoldable pub mark : Level → AstNode → AstNode → Level
unfolding set_insert node_Eq
mark s t1 t2 = record s {
  matched_1 = set_insert t1 s.matched_1;
  matched_2 = set_insert t2 s.matched_2;
}

unfoldable pub match_subtrees : Level → AstNode → AstNode → Level
unfolding set_insert node_Eq
match_subtrees s t1 t2 = record {
  matched_1 = set_insert t1 s.matched_1;
  matched_2 = set_insert t2 s.matched_2;
  matching = extend s.matching (zip (dfs t1) (dfs t2));
  exact_matching = extend s.exact_matching (zip (dfs t1) (dfs t2));
}

-- The body of the inner loops.
unfoldable pub match_pair : List ℕ → List ℕ → Level → AstNode → AstNode → Level
match_pair dups_left dups_right s t1 t2 =
    if are_matched s.exact_matching t1 t2
    then mark s t1 t2
    else if isomorphic_to t1 t2
    then (if has_hash dups_left t1 || has_hash dups_right t2
        then s
        else if can_be_matched s.matching t1 t2
        then match_subtrees s t1 t2
        else s)
    else s

unfoldable pub match_row : List ℕ → List ℕ → AstNode → List AstNode → Level → Level
match_row dups_left dups_right t1 [] s = s
match_row dups_left dups_right t1 (t2 ∷ h2) s =
    match_row dups_left dups_right t1 h2 (match_pair dups_left dups_right s t1 t2)

unfoldable pub match_rows : List ℕ → List ℕ → List AstNode → List AstNode → Level → Level
match_rows dups_left dups_right [] h2 s = s
match_rows dups_left dups_right (t1 ∷ h1) h2 s =
    match_rows dups_left dups_right h1 h2 (match_row dups_left dups_right t1 h2 s)

unfoldable pub open_all : List AstNode → PriorityList → PriorityList
unfolding open_node
open_all [] l = l
open_all (n ∷ ns) l = open_all ns (open_node l n)

-- The children of the unmatched nodes come back to the queue.
unfoldable pub open_unmatched : List AstNode → List AstNode → PriorityList → PriorityList
unfolding open_node node_Eq
open_unmatched matched [] l = l
open_unmatched matched (n ∷ ns) l =
    open_unmatched matched ns (if set_contains matched n then l else open_node l n)

unfoldable pub open_left : TopDown → TopDown
open_left s = record s { l1 = open_all (pop s.l1).0 (pop s.l1).1 }

unfoldable pub open_right : TopDown → TopDown
open_right s = record s { l2 = open_all (pop s.l2).0 (pop s.l2).1 }

-- The state before the loop.
unfoldable pub initial : AstNode → AstNode → Option ApproxExactMatching → TopDown
unfolding push PriorityList.new Matching.new add_matching
initial left right none = record {
  l1 = push PriorityList.new left;
  l2 = push PriorityList.new right;
  matching = Matching.new;
  exact_matching = Matching.new;
}
initial left right (some given) = record {
  l1 = push PriorityList.new left;
  l2 = push PriorityList.new right;
  matching = add_matching (add_matching Matching.new given.approx) given.exact;
  exact_matching = add_matching Matching.new given.exact;
}

-- `duplicates` of the crate `itertools` is a parameter.
module _ (duplicates : List ℕ → List ℕ) where
  abbrev pub hashes_twice : List AstNode → List ℕ
  hashes_twice h = duplicates (map (λ n. (info n).hash) h)

  unfoldable pub matched_level : TopDown → Level
  matched_level s =
      match_rows (hashes_twice (pop s.l1).0) (hashes_twice (pop s.l2).0) (pop s.l1).0 (pop s.l2).0
        (record {
          matched_1 = [];
          matched_2 = [];
          matching = s.matching;
          exact_matching = s.exact_matching;
        })

  unfoldable pub match_level : TopDown → TopDown
  match_level s =
      let after = matched_level s in
      record {
        l1 = open_unmatched after.matched_1 (pop s.l1).0 (pop s.l1).1;
        l2 = open_unmatched after.matched_2 (pop s.l2).0 (pop s.l2).1;
        matching = after.matching;
        exact_matching = after.exact_matching;
      }

  -- One round of the loop, at the heights `pm_1` and `pm_2`.
  unfoldable pub round : ℕ → ℕ → TopDown → TopDown
  round pm_1 pm_2 s =
      if ltb pm_2 pm_1 then open_left s else if ltb pm_1 pm_2 then open_right s else match_level s

  -- The loop, with its exit. The minimum height is that of the matcher, at least 0.
  unfoldable pub top_down_loop : ℕ → ℕ → TopDown → Run TopDown
  top_down_loop min_height zero s = out_of_fuel
  top_down_loop min_height (suc fuel) s =
      let pm_1 = level (peek_max s.l1) in
      let pm_2 = level (peek_max s.l2) in
      elim (ltb (min pm_1 pm_2) (min_height + 1)) [
        | true ↦ done s
        | false ↦ top_down_loop min_height fuel (round pm_1 pm_2 s)
      ]

  -- The matching and the exact matching are in the state that is returned.
  unfoldable pub top_down_pass :
      ℕ → ℕ → AstNode → AstNode → Option ApproxExactMatching → Run TopDown
  top_down_pass fuel min_height left right given =
      top_down_loop min_height fuel (initial left right given)
