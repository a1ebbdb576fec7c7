-- ===== src/TreeBuilder/Commutative/ThreeWay.antt =====
-- The commutative merge of lists is the three-way merge of the sets of their elements.
use mirror_mergiraf.Base.{
  Bool, true, false, not, ◌&&◌, ◌||◌, List, [], ◌∷◌, ◌≡◌, refl, subst, sym, ap, ap₂, ◌∙◌, filter,
  map, any, arith, Bool-cases, inl, inr,
}
use mirror_mergiraf.Base.Run.{Result, ok, err}
use mirror_mergiraf.Pcs.{Leader, rev_node_eq}
use mirror_mergiraf.Pcs.Equality.{rev_node_Eq}
use mirror_mergiraf.ClassMapping.{ClassMapping}
use mirror_mergiraf.RevisionSet
use mirror_mergiraf.MergedTree.{
  MergedTree, exact_tree, mixed_tree, conflict, line_based_merge, commutative_child_separator,
}
use mirror_mergiraf.TreeBuilder.Commutative.{
  VisitingState, TreeBuildingError, Builder, is_in, right_added, right_removed, apply_difference,
  build_all, unmodified_of, is_unmodified, cons_ok, of_leader, leaders_from, merged_leaders,
}
use mirror_mergiraf.TreeBuilder.Commutative.Members.{
  is_in-filter, is_in-Respects, is_in-right_removed, right_added-Respects, is_in-right_added,
  distinct, distinct-filter, is_in-append, distinct-append,
}

ok_inj :
    {a b : List Leader} → ◌≡◌ {A = Result TreeBuildingError (List Leader)} (ok a) (ok b) → a ≡ b
ok_inj h = cc

trees_inj :
    {a b : List MergedTree}
    → ◌≡◌ {A = Result TreeBuildingError (List MergedTree)} (ok a) (ok b)
    → a ≡ b
trees_inj h = cc

-- A tree that is an exact copy of a node which the base has as well.
abbrev pub is_of_base : MergedTree → Bool
is_of_base (exact_tree _ revisions _) = revisions.revisions.base
is_of_base (mixed_tree _ _ _) = false
is_of_base (conflict _ _ _) = false
is_of_base (line_based_merge _ _) = false
is_of_base (commutative_child_separator _) = false

is_of_base_lem : (t : MergedTree) → is_unmodified t ≡ is_of_base t
unfolding RevisionSet.contains
is_of_base_lem (exact_tree _ _ _) = refl
is_of_base_lem (mixed_tree _ _ _) = refl
is_of_base_lem (conflict _ _ _) = refl
is_of_base_lem (line_based_merge _ _) = refl
is_of_base_lem (commutative_child_separator _) = refl

-- Leaders, each with the tree that is built for it.
abbrev pub Trees : Type 0
Trees = List (Leader × MergedTree)

abbrev pub has_tree : Trees → Leader → Bool
has_tree trees x = any (λ p. rev_node_eq p.0 x) trees

-- Whether the tree of a leader is of the base.
abbrev pub is_untouched : Trees → Leader → Bool
is_untouched trees x = any (λ p. rev_node_eq p.0 x && is_of_base p.1) trees

is_in-unmodified_of :
    (trees : Trees) (x : Leader)
    → is_in (unmodified_of (map (λ p. p.0) trees) (map (λ p. p.1) trees)) x ≡ is_untouched trees x
unfolding rev_node_Eq
is_in-unmodified_of [] x = refl
is_in-unmodified_of ((leader, t) ∷ trees) x = elim (Bool-cases (is_unmodified t)) [
  | inl same ↦ rw same (ground (arith, is_in-unmodified_of trees x, is_of_base_lem t))
  | inr changed ↦ rw changed (ground (arith, is_in-unmodified_of trees x, is_of_base_lem t))
]

is_in-map : (trees : Trees) (x : Leader) → is_in (map (λ p. p.0) trees) x ≡ has_tree trees x
unfolding rev_node_Eq
is_in-map [] x = refl
is_in-map ((leader, t) ∷ trees) x = ground (arith, is_in-map trees x)

untouched_has_tree :
    (trees : Trees) (x : Leader) → is_untouched trees x ≡ true → has_tree trees x ≡ true
untouched_has_tree [] x h = h
untouched_has_tree ((leader, t) ∷ trees) x h = ground (arith, untouched_has_tree trees x)

-- The trees of the leaders stand beside them, when all of them are built.
module _ (cm : ClassMapping) (build_subtree : Builder) where
  abbrev AreBuilt : List Leader → List MergedTree → Type 0
  AreBuilt leaders ts =
      (trees : Trees) × (map (λ p. p.0) trees ≡ leaders) × (map (λ p. p.1) trees ≡ ts)

  cons_ok_inv :
      (leader : Leader) (leaders : List Leader) (t : MergedTree)
      (rest : Result TreeBuildingError (List MergedTree) × VisitingState) (ts : List MergedTree)
      → ((us : List MergedTree) → rest.0 ≡ ok us → AreBuilt leaders us)
      → (cons_ok t rest).0 ≡ ok ts
      → AreBuilt (leader ∷ leaders) ts
  cons_ok_inv leader leaders t (err e, state) ts ih h = absurd (ground arith)
  cons_ok_inv leader leaders t (ok us, state) ts ih h =
      let (trees, of_leaders, of_trees) = ih us refl in
      ((leader, t) ∷ trees, ap (leader ∷◌) of_leaders, ap (t ∷◌) of_trees ∙ trees_inj h)

  build_all-AreBuilt :
      (leaders : List Leader) (state : VisitingState) (ts : List MergedTree)
      → (build_all cm build_subtree leaders state).0 ≡ ok ts
      → AreBuilt leaders ts
  unfolding build_all
  build_all-AreBuilt [] state ts h = ([], refl, trees_inj h)
  build_all-AreBuilt (leader ∷ leaders) state ts h =
      go (build_subtree (of_leader cm leader) state) (λ state'. build_all-AreBuilt leaders state') h
    where
      go :
          (built : Result TreeBuildingError MergedTree × VisitingState)
          → ((state' : VisitingState) (us : List MergedTree)
              → (build_all cm build_subtree leaders state').0 ≡ ok us
              → AreBuilt leaders us)
          → (elim built.0 as (λ _. Result TreeBuildingError (List MergedTree) × VisitingState) [
            | err e ↦ (err e, built.1)
            | ok t ↦ cons_ok t (build_all cm build_subtree leaders built.1)
          ]).0
            ≡ ok ts
          → AreBuilt (leader ∷ leaders) ts
      go (err e, state') ih h = absurd (ground arith)
      go (ok t, state') ih h =
          cons_ok_inv leader leaders t (build_all cm build_subtree leaders state') ts (ih state') h

-- The leaders of the merge of three lists, given the trees of those that the right side removed.
pub record IsThreeWayMerge (base left right : List Leader) (trees : Trees) (leaders : List Leader)
    : Type 0 where
  pub removed : (x : Leader) → has_tree trees x ≡ (is_in base x && not (is_in right x))
  pub members :
      (x : Leader)
      → is_in leaders x
        ≡ (is_in left x && not (is_untouched trees x) || is_in right x && not (is_in base x))
  pub stays_distinct : distinct left ≡ true → distinct right ≡ true → distinct leaders ≡ true

apply_difference-members :
    (base left right gone : List Leader) (x : Leader)
    → (is_in gone x ≡ true → (is_in base x && not (is_in right x)) ≡ true)
    → is_in (apply_difference base left right gone) x
      ≡ (is_in left x && not (is_in gone x) || is_in right x && not (is_in base x))
unfolding apply_difference
apply_difference-members base left right gone x removed =
    is_in-append (filter (λ y. not (is_in gone y)) left) (right_added base left right) x
    ∙ ground (
      arith,
      is_in-filter (λ y. not (is_in gone y)) left x (is_in-Respects gone),
      is_in-right_added base left right x,
      removed,
    )

apply_difference-distinct :
    (base left right gone : List Leader)
    → distinct left ≡ true
    → distinct right ≡ true
    → distinct (apply_difference base left right gone) ≡ true
unfolding apply_difference
apply_difference-distinct base left right gone h k =
    distinct-append (filter (λ y. not (is_in gone y)) left) (right_added base left right)
      (distinct-filter _ left (is_in-Respects gone) h)
      (unfold right_added in distinct-filter _ right (right_added-Respects base left) k)
      (λ x m. ground (
        arith,
        is_in-filter (λ y. not (is_in gone y)) left x (is_in-Respects gone),
        is_in-right_added base left right x,
      ))

from_trees :
    (base left right : List Leader) (trees : Trees)
    → map (λ p. p.0) trees ≡ right_removed base right
    → IsThreeWayMerge base left right trees (
        apply_difference base left right
          (unmodified_of (map (λ p. p.0) trees) (map (λ p. p.1) trees)))
from_trees base left right trees e = record {
  removed = has_removed;
  members = λ x.
      apply_difference-members base left right
        (unmodified_of (map (λ p. p.0) trees) (map (λ p. p.1) trees)) x
        (λ m.
          sym (has_removed x) ∙ untouched_has_tree trees x (sym (is_in-unmodified_of trees x) ∙ m))
      ∙ ap (λ b. is_in left x && not b || is_in right x && not (is_in base x))
          (is_in-unmodified_of trees x);
  stays_distinct = apply_difference-distinct base left right _;
}
  where
    has_removed : (x : Leader) → has_tree trees x ≡ (is_in base x && not (is_in right x))
    has_removed x =
        sym (is_in-map trees x) ∙ ap (λ xs. is_in xs x) e ∙ is_in-right_removed base right x

from_built :
    (cm : ClassMapping) (build_subtree : Builder) (base left right : List Leader)
    (state : VisitingState) (r : Result TreeBuildingError (List MergedTree)) (leaders : List Leader)
    → (build_all cm build_subtree (right_removed base right) state).0 ≡ r
    → leaders_from base left right r ≡ ok leaders
    → (trees : Trees) × ((build_all cm build_subtree (map (λ p. p.0) trees) state).0
        ≡ ok (map (λ p. p.1) trees))
      × IsThreeWayMerge base left right trees leaders
from_built cm build_subtree base left right state (err e) leaders b h = absurd (ground arith)
from_built cm build_subtree base left right state (ok ts) leaders b h =
    let (trees, of_leaders, of_trees) =
      build_all-AreBuilt cm build_subtree (right_removed base right) state ts b in
    (
      trees,
      ap (λ ls. (build_all cm build_subtree ls state).0) of_leaders
          ∙ b
          ∙ ap (λ us. ok us) (sym of_trees),
      subst (IsThreeWayMerge base left right trees)
          (ap₂ (λ ls us. apply_difference base left right (unmodified_of ls us)) of_leaders of_trees
            ∙ ok_inj h)
          (from_trees base left right trees of_leaders),
    )

-- Whenever the commutative merge of three lists succeeds, a tree is built for each leader that the base
-- has and the right side has not. The leaders of the result are exactly those of the left list whose tree
-- is not an exact tree of the base, and those that the right side has and the base has not. None stands
-- in it twice, if none does in the left and in the right list.
pub merged_leaders-IsThreeWayMerge :
    (cm : ClassMapping) (build_subtree : Builder) (base left right : List Leader)
    (state : VisitingState) (leaders : List Leader)
    → merged_leaders cm build_subtree base left right state ≡ ok leaders
    → (trees : Trees) × ((build_all cm build_subtree (map (λ p. p.0) trees) state).0
        ≡ ok (map (λ p. p.1) trees))
      × IsThreeWayMerge base left right trees leaders
unfolding merged_leaders
merged_leaders-IsThreeWayMerge cm build_subtree base left right state leaders e =
    from_built cm build_subtree base left right state
      (build_all cm build_subtree (right_removed base right) state).0 leaders refl e
