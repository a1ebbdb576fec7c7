-- ===== src/TreeMatcher/BottomUp/Returns.antt =====
-- The matcher returns, and the matches of the bottom-up pass are between nodes of one kind.
use mirror_mergiraf.Base.{
  suc, Bool, true, false, ◌||◌, Option, none, some, List, [], ◌∷◌, ◌++◌, ◌≡◌, refl, is_some, all,
  arith, drop, Bool-cases, Option-cases, inl, inr,
}
use mirror_mergiraf.Base.Run.{done, Returns, Returns->>=, Returns-if}
use mirror_mergiraf.Ast.{AstNode, info, dfs, postfix, is_leaf, height, node_eq}
use mirror_mergiraf.Ast.Ancestors.{ancestors, is_root}
use mirror_mergiraf.Ast.Equality.{node_Eq, text_eq_trans}
use mirror_mergiraf.Matching.{Matching, add, get_from_left}
use mirror_mergiraf.Matching.SameKind.{
  same_kind, SameKind, new-SameKind, add-SameKind, kind_of_node_eq,
}
use mirror_mergiraf.TreeMatcher.Linear.{Recovered, add_recovered}
use mirror_mergiraf.TreeMatcher.Linear.Ends.{KeptByMatches, match_subtrees_linearly-Returns}
use mirror_mergiraf.TreeMatcher.Recovery.{TedTree, none_left, and_then, Edits}
use mirror_mergiraf.TreeMatcher.Recovery.Converts.{Fits, convert_tree_edits_to_matches-Returns}
use mirror_mergiraf.TreeMatcher.BottomUp.{
  Floats, TreeMatcher, BottomUp, take_candidates, candidates_of, find_candidates, best_candidate,
  match_descendants, last_chance_match, match_winner, match_best, match_node, match_nodes,
  bottom_up_pass,
}

-- Nodes of the kind of a given one.
abbrev of_kind : AstNode → AstNode → Bool
of_kind n c = same_kind (n, c)

module _ (right left_node : AstNode) (m : Matching) where
  take_candidates-kind :
      (above seen : List AstNode)
      → all (of_kind left_node) (take_candidates right left_node m above seen).0 ≡ true
  unfolding take_candidates
  take_candidates-kind [] seen = refl
  take_candidates-kind (ancestor ∷ above) seen =
      ground (arith, take_candidates-kind above (seen ++ ancestor ∷ []))

  all-append :
      (xs ys : List AstNode)
      → all (of_kind left_node) xs ≡ true
      → all (of_kind left_node) ys ≡ true
      → all (of_kind left_node) (xs ++ ys) ≡ true
  all-append [] ys a b = b
  all-append (x ∷ xs) ys a b = ground (arith, all-append xs ys)

  candidates_of-kind :
      (descendants seen : List AstNode)
      → all (of_kind left_node) (candidates_of right left_node m descendants seen) ≡ true
  unfolding candidates_of
  candidates_of-kind [] seen = refl
  candidates_of-kind (descendant ∷ descendants) seen =
      elim (Option-cases (get_from_left m descendant)) [
        | inl unmatched ↦ rw (unmatched, candidates_of) (candidates_of-kind descendants seen)
        | inr (seed, matched) ↦
            rw (matched, candidates_of)
              (all-append (take_candidates right left_node m (drop 1 (ancestors right seed)) seen).0
                _ (take_candidates-kind (drop 1 (ancestors right seed)) seen)
                (candidates_of-kind descendants
                  (take_candidates right left_node m (drop 1 (ancestors right seed)) seen).1))
      ]

abbrev option_of_kind : AstNode → Option AstNode → Bool
option_of_kind n none = true
option_of_kind n (some c) = of_kind n c

root_eq : (root n : AstNode) → is_root root n ≡ true → node_eq n root ≡ true
unfolding is_root
root_eq root n h = h

-- What every match between nodes of one kind keeps.
pub record IsKept (Q : BottomUp → Type 0) : Type 0 where
  pub by_match :
      (s : BottomUp) (l r : AstNode)
      → same_kind (l, r) ≡ true
      → Q s
      → Q (record { recovered = add_recovered s.recovered l r; container = s.container })
  pub by_last_chance :
      (s : BottomUp) (l r : AstNode)
      → same_kind (l, r) ≡ true
      → Q s
      → Q (record {
        recovered = record {
          matching = add s.recovered.matching l r;
          recovery = s.recovered.recovery;
        };
        container = add s.container l r;
      })

module _ (Q : BottomUp → Type 0) (keep : IsKept Q) (diff : TedTree → TedTree → Edits)
    (fits : (l r : TedTree) → Fits (diff l r) (and_then l none_left) (and_then r none_left))
    (matcher : TreeMatcher) (left_root right_root : AstNode) where
  abbrev With : Matching → Recovered → Type 0
  With container r = Q (record { recovered = r; container = container })

  With-kept : (container : Matching) → KeptByMatches (With container)
  With-kept container r a b same q =
      keep.by_match (record { recovered = r; container = container }) a b same q

  match_descendants-Returns :
      (left right : AstNode) (s : BottomUp)
      → Q s
      → Returns
          (With s.container)
          (match_descendants diff matcher left_root right_root left right s.recovered)
  unfolding match_descendants
  match_descendants-Returns left right s q = elim (Bool-cases matcher.use_rted) [
    | inr linear ↦
        rw (linear, Returns)
          (match_subtrees_linearly-Returns (With s.container) (With-kept s.container)
            (suc (height left)) false left right s.recovered (omega arith) q)
    | inl rted ↦
        rw (rted, Returns)
          (Returns-if (With s.container) _ _ _
            (match_subtrees_linearly-Returns (With s.container) (With-kept s.container)
              (suc (height left)) true left right s.recovered (omega arith) q)
            (convert_tree_edits_to_matches-Returns (With s.container) (With-kept s.container) _ _ _
              s.recovered (fits _ _) q))
  ]

  last_chance_match-Returns :
      (left right : AstNode) (s : BottomUp)
      → same_kind (left, right) ≡ true
      → Q s
      → Returns Q (last_chance_match diff matcher left_root right_root left right s)
  unfolding last_chance_match
  last_chance_match-Returns left right s same q =
      Returns->>= (With s.container) Q _ _
        (λ r q'.
          keep.by_last_chance (record { recovered = r; container = s.container }) left right same
            q')
        (match_descendants-Returns left right s q)

  module _ (floats : Floats) (sim_threshold : floats.Float) where
    best_candidate-kind :
        (left_node : AstNode) (m : Matching) (candidates : List AstNode) (max_sim : floats.Float)
        (best : Option AstNode)
        → all (of_kind left_node) candidates ≡ true
        → option_of_kind left_node best ≡ true
        → option_of_kind left_node
            (best_candidate floats sim_threshold left_node m candidates max_sim best)
          ≡ true
    unfolding best_candidate
    best_candidate-kind left_node m [] max_sim best a b = b
    best_candidate-kind left_node m (candidate ∷ candidates) max_sim best a b =
        best_candidate-kind left_node m candidates _ _ (ground arith) (ground arith)

    match_winner-Returns :
        (left_node : AstNode) (winner : Option AstNode) (s : BottomUp)
        → option_of_kind left_node winner ≡ true
        → Q s
        → Returns Q (match_winner diff matcher left_root right_root left_node winner s)
    unfolding match_winner
    match_winner-Returns left_node none s same q = q
    match_winner-Returns left_node (some winner) s same q =
        last_chance_match-Returns left_node winner s same q

    match_best-Returns :
        (left_node : AstNode) (s : BottomUp)
        → Q s
        → Returns Q (match_best diff matcher left_root right_root floats sim_threshold left_node s)
    unfolding match_best find_candidates
    match_best-Returns left_node s q =
        match_winner-Returns left_node _ s
          (best_candidate-kind left_node s.recovered.matching _ floats.minus_one none
            (candidates_of-kind right_root left_node s.recovered.matching (dfs left_node) []) refl)
          q

    module _ (same_roots : same_kind (left_root, right_root) ≡ true) where
      match_node-Returns :
          (left_node : AstNode) (s : BottomUp)
          → Q s
          → Returns Q
              (match_node diff matcher left_root right_root floats sim_threshold left_node s)
      unfolding match_node
      match_node-Returns left_node s q = elim (Bool-cases (is_root left_root left_node)) [
        | inl top ↦
            rw (top, Returns)
              (Returns->>= Q Q _ _ (λ s' q'. match_best-Returns left_node s' q')
                (last_chance_match-Returns left_node right_root s
                  (text_eq_trans (info left_node).kind (info left_root).kind (info right_root).kind
                    (kind_of_node_eq left_node left_root (root_eq left_root left_node top))
                    same_roots)
                  q))
        | inr inner ↦
            rw (inner, Returns)
              (Returns-if Q
                (is_some (get_from_left s.recovered.matching left_node) || is_leaf left_node)
                (done s) _ q (match_best-Returns left_node s q))
      ]

      match_nodes-Returns :
          (ns : List AstNode) (s : BottomUp)
          → Q s
          → Returns Q (match_nodes diff matcher left_root right_root floats sim_threshold ns s)
      unfolding match_nodes
      match_nodes-Returns [] s q = q
      match_nodes-Returns (n ∷ ns) s q =
          Returns->>= Q Q _ _ (λ s' q'. match_nodes-Returns ns s' q') (match_node-Returns n s q)

-- Nothing is claimed of the matchings.
abbrev pub AnyState : BottomUp → Type 0
AnyState s = Unit {0}

AnyState-kept : IsKept AnyState
AnyState-kept = record { by_match = λ s l r same q. tt; by_last_chance = λ s l r same q. tt }

-- All three matchings relate nodes of one kind.
pub record BottomUpKinds (s : BottomUp) : Type 0 where
  pub all_matches : SameKind s.recovered.matching
  pub recovered : SameKind s.recovered.recovery
  pub containers : SameKind s.container

BottomUpKinds-kept : IsKept BottomUpKinds
unfolding add_recovered
BottomUpKinds-kept = record {
  by_match = λ s l r same k. record {
    all_matches = add-SameKind s.recovered.matching l r k.all_matches same;
    recovered = add-SameKind s.recovered.recovery l r k.recovered same;
    containers = k.containers;
  };
  by_last_chance = λ s l r same k. record {
    all_matches = add-SameKind s.recovered.matching l r k.all_matches same;
    recovered = k.recovered;
    containers = add-SameKind s.container l r k.containers same;
  };
}

module _ (diff : TedTree → TedTree → Edits)
    (fits : (l r : TedTree) → Fits (diff l r) (and_then l none_left) (and_then r none_left))
    (matcher : TreeMatcher) (left right : AstNode) (floats : Floats) (sim_threshold : floats.Float)
    (same_roots : same_kind (left, right) ≡ true) (m : Matching) where
  -- If the edit scripts fit the trees that they are made for, and the roots are of one kind, then the
  -- bottom-up pass, as built without debug assertions, returns without a panic, with or without edit distances. If the matching that it is
  -- given relates nodes of one kind, then so do that matching afterwards and the two that are found.
  pub bottom_up_pass-Returns :
      SameKind m
      → Returns BottomUpKinds (bottom_up_pass diff matcher left right floats sim_threshold m)
  unfolding bottom_up_pass
  bottom_up_pass-Returns k =
      match_nodes-Returns BottomUpKinds BottomUpKinds-kept diff fits matcher left right floats
        sim_threshold same_roots (postfix left) _
        (record { all_matches = k; recovered = new-SameKind; containers = new-SameKind })

  pub bottom_up_pass-total :
      Returns AnyState (bottom_up_pass diff matcher left right floats sim_threshold m)
  unfolding bottom_up_pass
  bottom_up_pass-total =
      match_nodes-Returns AnyState AnyState-kept diff fits matcher left right floats sim_threshold
        same_roots (postfix left) _ tt
