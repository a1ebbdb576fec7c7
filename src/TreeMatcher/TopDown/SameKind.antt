-- ===== src/TreeMatcher/TopDown/SameKind.antt =====
-- The top-down pass returns, and it matches nodes of one kind only.
use mirror_mergiraf.Base.{
  ℕ, ◌+◌, ◌<◌, Bool, true, false, ◌||◌, ltb, List, [], ◌∷◌, Option, none, some, ◌≡◌, refl, zip, all,
  if◌then◌else◌, arith, Bool-cases, inl, inr,
}
use mirror_mergiraf.Base.Run.{Returns}
use mirror_mergiraf.Ast.{AstNode, dfs, agree_all, isomorphic_to}
use mirror_mergiraf.Matching.{are_matched, can_be_matched}
use mirror_mergiraf.Matching.SameKind.{
  same_kind, SameKind, new-SameKind, extend-SameKind, add_matching-SameKind,
}
use mirror_mergiraf.TreeMatcher.PriorityList.{push, pop, new}
use mirror_mergiraf.TreeMatcher.TopDown.{
  ApproxExactMatching, TopDown, Level, has_hash, mark, match_subtrees, match_pair, match_row,
  match_rows, hashes_twice, matched_level, open_left, open_right, match_level, round, initial,
  top_down_pass,
}
use mirror_mergiraf.TreeMatcher.TopDown.Ends.{tree_size, measure, top_down_loop-Returns}

agree_all-same_kind :
    (xs ys : List AstNode) → agree_all xs ys ≡ true → all same_kind (zip xs ys) ≡ true
unfolding agree_all
agree_all-same_kind [] ys h = refl
agree_all-same_kind (x ∷ xs) [] h = refl
agree_all-same_kind (x ∷ xs) (y ∷ ys) h = ground (arith, agree_all-same_kind xs ys)

-- The pairs of a walk over two isomorphic trees.
pub isomorphic_to-same_kind :
    (a b : AstNode) → isomorphic_to a b ≡ true → all same_kind (zip (dfs a) (dfs b)) ≡ true
unfolding isomorphic_to
isomorphic_to-same_kind a b h = agree_all-same_kind (dfs a) (dfs b) (ground arith)

-- Both matchings relate nodes of one kind.
pub record MatchesKinds (s : TopDown) : Type 0 where
  pub all_matches : SameKind s.matching
  pub exact_matches : SameKind s.exact_matching

record LevelMatchesKinds (s : Level) : Type 0 where
  all_matches : SameKind s.matching
  exact_matches : SameKind s.exact_matching

match_subtrees-kinds :
    (s : Level) (t1 t2 : AstNode)
    → LevelMatchesKinds s
    → isomorphic_to t1 t2 ≡ true
    → LevelMatchesKinds (match_subtrees s t1 t2)
unfolding match_subtrees
match_subtrees-kinds s t1 t2 k iso =
    let pairs = isomorphic_to-same_kind t1 t2 iso in
    record {
      all_matches = extend-SameKind s.matching (zip (dfs t1) (dfs t2)) k.all_matches pairs;
      exact_matches =
          extend-SameKind s.exact_matching (zip (dfs t1) (dfs t2)) k.exact_matches pairs;
    }

mark-kinds : (s : Level) (t1 t2 : AstNode) → LevelMatchesKinds s → LevelMatchesKinds (mark s t1 t2)
unfolding mark
mark-kinds s t1 t2 k = record { all_matches = k.all_matches; exact_matches = k.exact_matches }

if_kinds :
    (test : Bool) (s t : Level)
    → LevelMatchesKinds s
    → LevelMatchesKinds t
    → LevelMatchesKinds (if test then s else t)
if_kinds true s t k l = k
if_kinds false s t k l = l

match_pair-kinds :
    (dups_left dups_right : List ℕ) (s : Level) (t1 t2 : AstNode)
    → LevelMatchesKinds s
    → LevelMatchesKinds (match_pair dups_left dups_right s t1 t2)
unfolding match_pair
match_pair-kinds dups_left dups_right s t1 t2 k =
    elim (Bool-cases (are_matched s.exact_matching t1 t2)) [
      | inl matched ↦ rw matched (mark-kinds s t1 t2 k)
      | inr unmatched ↦ rw unmatched (elim (Bool-cases (isomorphic_to t1 t2)) [
        | inr differ ↦ rw differ k
        | inl iso ↦ rw iso (
            if_kinds (has_hash dups_left t1 || has_hash dups_right t2) s _ k (
              if_kinds (can_be_matched s.matching t1 t2) _ s (match_subtrees-kinds s t1 t2 k iso)
                k))
      ])
    ]

match_row-kinds :
    (dups_left dups_right : List ℕ) (t1 : AstNode) (h2 : List AstNode) (s : Level)
    → LevelMatchesKinds s
    → LevelMatchesKinds (match_row dups_left dups_right t1 h2 s)
unfolding match_row
match_row-kinds dups_left dups_right t1 [] s k = k
match_row-kinds dups_left dups_right t1 (t2 ∷ h2) s k =
    match_row-kinds dups_left dups_right t1 h2 (match_pair dups_left dups_right s t1 t2)
      (match_pair-kinds dups_left dups_right s t1 t2 k)

match_rows-kinds :
    (dups_left dups_right : List ℕ) (h1 h2 : List AstNode) (s : Level)
    → LevelMatchesKinds s
    → LevelMatchesKinds (match_rows dups_left dups_right h1 h2 s)
unfolding match_rows
match_rows-kinds dups_left dups_right [] h2 s k = k
match_rows-kinds dups_left dups_right (t1 ∷ h1) h2 s k =
    match_rows-kinds dups_left dups_right h1 h2 (match_row dups_left dups_right t1 h2 s)
      (match_row-kinds dups_left dups_right t1 h2 s k)

-- The matchings that the pass is given, if any, relate nodes of one kind.
abbrev pub GivenKinds : Option ApproxExactMatching → Type 0
GivenKinds none = Unit {0}
GivenKinds (some given) = SameKind given.approx × SameKind given.exact

initial-kinds :
    (left right : AstNode) (given : Option ApproxExactMatching)
    → GivenKinds given
    → MatchesKinds (initial left right given)
unfolding initial
initial-kinds left right none k = record {
  all_matches = new-SameKind;
  exact_matches = new-SameKind;
}
initial-kinds left right (some given) (a, e) = record {
  all_matches = add_matching-SameKind _ _ (add_matching-SameKind _ _ new-SameKind a) e;
  exact_matches = add_matching-SameKind _ _ new-SameKind e;
}

initial-measure :
    (left right : AstNode) (given : Option ApproxExactMatching)
    → measure (initial left right given) ≡ tree_size left + tree_size right
unfolding initial push new
initial-measure left right none = omega arith
initial-measure left right (some given) = omega arith

module _ (duplicates : List ℕ → List ℕ) where
  match_level-kinds : (s : TopDown) → MatchesKinds s → MatchesKinds (match_level duplicates s)
  unfolding match_level matched_level
  match_level-kinds s k =
      let after =
        match_rows-kinds (hashes_twice duplicates (pop s.l1).0)
          (hashes_twice duplicates (pop s.l2).0) (pop s.l1).0 (pop s.l2).0
          (record {
            matched_1 = [];
            matched_2 = [];
            matching = s.matching;
            exact_matching = s.exact_matching;
          })
          (record { all_matches = k.all_matches; exact_matches = k.exact_matches }) in
      record { all_matches = after.all_matches; exact_matches = after.exact_matches }

  round-kinds :
      (pm_1 pm_2 : ℕ) (s : TopDown) → MatchesKinds s → MatchesKinds (round duplicates pm_1 pm_2 s)
  unfolding round open_left open_right
  round-kinds pm_1 pm_2 s k = elim (Bool-cases (ltb pm_2 pm_1)) [
    | inl higher ↦
        rw higher (record { all_matches = k.all_matches; exact_matches = k.exact_matches })
    | inr not_higher ↦ rw not_higher (elim (Bool-cases (ltb pm_1 pm_2)) [
      | inl lower ↦
          rw lower (record { all_matches = k.all_matches; exact_matches = k.exact_matches })
      | inr same ↦ rw same (match_level-kinds s k)
    ])
  ]

  -- The top-down pass returns, whatever the two trees, the minimum height and the choice of repeated
  -- hashes are, if it may make more rounds than the trees have nodes together. If the matchings that it is
  -- given relate nodes of one kind only, then so do both matchings that it returns.
  pub top_down_pass-Returns :
      (fuel min_height : ℕ) (left right : AstNode) (given : Option ApproxExactMatching)
      → tree_size left + tree_size right < fuel
      → GivenKinds given
      → Returns MatchesKinds (top_down_pass duplicates fuel min_height left right given)
  unfolding top_down_pass
  top_down_pass-Returns fuel min_height left right given enough k =
      top_down_loop-Returns duplicates MatchesKinds round-kinds min_height fuel
        (initial left right given) (omega (arith, initial-measure left right given))
        (initial-kinds left right given k)
