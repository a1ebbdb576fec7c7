-- ===== src/TreeMatcher/Linear/Ends.antt =====
-- The linear matching returns, and matches nodes of one kind.
use mirror_mergiraf.Base.{
  ℕ, zero, suc, ◌<◌, ◌≤◌, Bool, true, false, ltb, List, [], ◌∷◌, ◌++◌, ◌≡◌, refl, if◌then◌else◌,
  arith, map, all, unwrap_or, Bool-cases, inl, inr,
}
use mirror_mergiraf.Base.Run.{Run, done, Returns, Returns->>=}
use mirror_mergiraf.Base.HashMap
use mirror_mergiraf.Base.Text.{Text}
use mirror_mergiraf.MultiMap
use mirror_mergiraf.MultiMap.{MultiMap}
use mirror_mergiraf.Ast.{AstNode, Children, node, nil, cons, info, to_list, height, height_above}
use mirror_mergiraf.Ast.Equality.{text_Eq, node_Eq}
use mirror_mergiraf.Matching.{Matching, can_be_matched}
use mirror_mergiraf.Matching.SameKind.{same_kind, SameKind, add-SameKind}
use mirror_mergiraf.TreeMatcher.Linear.{
  Recovered, add_recovered, children_by_kind, only_pair, match_children, match_entries,
  match_subtrees_linearly,
}

-- Both matchings relate nodes of one kind.
pub record RecoveredKinds (s : Recovered) : Type 0 where
  pub all_matches : SameKind s.matching
  pub recovered : SameKind s.recovery

pub can_be_matched-same_kind :
    (m : Matching) (l r : AstNode) → can_be_matched m l r ≡ true → same_kind (l, r) ≡ true
unfolding can_be_matched
can_be_matched-same_kind m l r h = ground arith

pub add_recovered-kinds :
    (s : Recovered) (l r : AstNode)
    → RecoveredKinds s
    → same_kind (l, r) ≡ true
    → RecoveredKinds (add_recovered s l r)
unfolding add_recovered
add_recovered-kinds s l r k same = record {
  all_matches = add-SameKind s.matching l r k.all_matches same;
  recovered = add-SameKind s.recovery l r k.recovered same;
}

-- Children are lower than their parent.
children-lower :
    (ns : Children) (h : ℕ) → height_above ns ≤ h → all (λ c. ltb (height c) h) (to_list ns) ≡ true
unfolding height
children-lower nil h le = refl
children-lower (cons n ns) h le = ground (arith, children-lower ns h)

lower : ℕ → AstNode → Bool
lower h c = ltb (height c) h

lower_lt : (h fuel : ℕ) (l : AstNode) → lower h l ≡ true → h < suc fuel → height l < fuel
unfolding lower
lower_lt h fuel l low lt = ground arith

module _ (h : ℕ) where
  all-append :
      (xs ys : List AstNode)
      → all (lower h) xs ≡ true
      → all (lower h) ys ≡ true
      → all (lower h) (xs ++ ys) ≡ true
  all-append [] ys a b = b
  all-append (x ∷ xs) ys a b = ground (arith, all-append xs ys)

  set_insert-lower :
      (v : AstNode) (set : List AstNode)
      → lower h v ≡ true
      → all (lower h) set ≡ true
      → all (lower h) (HashMap.set_insert v set) ≡ true
  unfolding HashMap.set_insert
  set_insert-lower v set a b = elim (Bool-cases (HashMap.set_contains set v)) [
    | inl there ↦ rw there b
    | inr absent ↦ rw absent (all-append set (v ∷ []) b (ground arith))
  ]

  insert-lower :
      (m : List (Text × List AstNode)) (k : Text) (set : List AstNode)
      → all (λ e. all (lower h) e.1) m ≡ true
      → all (lower h) set ≡ true
      → all (λ e. all (lower h) e.1) (HashMap.insert m k set) ≡ true
  unfolding HashMap.insert
  insert-lower [] k set a b = ground arith
  insert-lower ((j, w) ∷ m) k set a b = ground (arith, insert-lower m k set)

  get-lower :
      (m : List (Text × List AstNode)) (k : Text)
      → all (λ e. all (lower h) e.1) m ≡ true
      → all (lower h) (unwrap_or (HashMap.get m k) []) ≡ true
  unfolding HashMap.get
  get-lower [] k a = refl
  get-lower ((j, w) ∷ m) k a = ground (arith, get-lower m k)

  from_iter_onto-lower :
      (ns : List AstNode) (m : MultiMap Text AstNode)
      → all (λ e. all (lower h) e.1) m.map ≡ true
      → all (lower h) ns ≡ true
      → all
          (λ e. all (lower h) e.1)
          (MultiMap.from_iter_onto m (map (λ c. ((info c).kind, c)) ns)).map
        ≡ true
  unfolding MultiMap.from_iter_onto
  from_iter_onto-lower [] m a b = a
  from_iter_onto-lower (n ∷ ns) m a b =
      from_iter_onto-lower ns _
        (insert-lower m.map (info n).kind _ a
          (set_insert-lower n _ (ground arith) (get-lower m.map (info n).kind a)))
        (ground arith)

children_by_kind-lower :
    (n : AstNode) → all (λ e. all (lower (height n)) e.1) (children_by_kind n).map ≡ true
unfolding children_by_kind height lower
children_by_kind-lower (node i ns) =
    from_iter_onto-lower (height (node i ns)) (to_list ns) MultiMap.new refl
      (children-lower ns (height_above ns) (omega arith))

-- An invariant that holds after each match between nodes of one kind.
abbrev pub KeptByMatches : (Recovered → Type 0) → Type 0
KeptByMatches P =
    (s : Recovered) (l r : AstNode) → same_kind (l, r) ≡ true → P s → P (add_recovered s l r)

pub RecoveredKinds-kept : KeptByMatches RecoveredKinds
RecoveredKinds-kept s l r same k = add_recovered-kinds s l r k same

module _ (P : Recovered → Type 0) (keep : KeptByMatches P)
    (within : AstNode → AstNode → Recovered → Run Recovered) (recursive : Bool) (h : ℕ)
    (returns : (l r : AstNode) (s : Recovered)
      → lower h l ≡ true
      → P s
      → Returns P (within l r s)) where
  if_within :
      (b : Bool) (l r : AstNode) (s : Recovered)
      → lower h l ≡ true
      → P s
      → Returns P (if b then within l r s else done s)
  if_within true l r s low k = returns l r s low k
  if_within false l r s low k = k

  match_children-kinds :
      (children_l children_r : List AstNode) (s : Recovered)
      → all (lower h) children_l ≡ true
      → P s
      → Returns P (match_children within recursive (only_pair children_l children_r) s)
  unfolding match_children
  match_children-kinds (l ∷ []) (r ∷ []) s low k =
      elim (Bool-cases (can_be_matched s.matching l r)) [
        | inl can ↦
            rw (can, Returns)
              (Returns->>= P P _ _
                (λ s' k'. keep s' l r (can_be_matched-same_kind s.matching l r can) k')
                (if_within recursive l r s (ground arith) k))
        | inr cannot ↦ rw (cannot, Returns) k
      ]
  match_children-kinds [] rs s low k = k
  match_children-kinds (l ∷ []) [] s low k = k
  match_children-kinds (l ∷ []) (r ∷ r' ∷ rs) s low k = k
  match_children-kinds (l ∷ l' ∷ ls) rs s low k = k

  match_entries-kinds :
      (entries : List (Text × List AstNode)) (right_children : MultiMap Text AstNode)
      (s : Recovered)
      → all (λ e. all (lower h) e.1) entries ≡ true
      → P s
      → Returns P (match_entries within recursive entries right_children s)
  unfolding match_entries
  match_entries-kinds [] right_children s low k = k
  match_entries-kinds ((kind, children_l) ∷ entries) right_children s low k =
      Returns->>= P P _ _ (λ s' k'. match_entries-kinds entries right_children s' (ground arith) k')
        (match_children-kinds children_l (MultiMap.get right_children kind) s (ground arith) k)

-- The linear matching of two subtrees returns, with fuel for each level of the left one. What every
-- match between nodes of one kind keeps holds afterwards, if it did before.
pub match_subtrees_linearly-Returns :
    (P : Recovered → Type 0)
    → KeptByMatches P
    → (fuel : ℕ) (recursive : Bool) (left right : AstNode) (s : Recovered) → height left < fuel
    → P s
    → Returns P (match_subtrees_linearly fuel recursive left right s)
unfolding match_subtrees_linearly
match_subtrees_linearly-Returns P keep zero recursive left right s lt k = absurd (omega arith)
match_subtrees_linearly-Returns P keep (suc fuel) recursive left right s lt k =
    match_entries-kinds P keep (match_subtrees_linearly fuel recursive) recursive (height left)
      (λ l r s' low k'.
        match_subtrees_linearly-Returns P keep fuel recursive l r s'
          (lower_lt (height left) fuel l low lt) k')
      (children_by_kind left).map (children_by_kind right) s (children_by_kind-lower left) k
