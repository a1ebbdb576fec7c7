-- ===== src/ClassMapping/Bases.antt =====
-- What adding a matching does to the leaders: the two nodes are in one class, and classes led by a node
-- of the base are not taken apart by a matching of left with right.
use mirror_mergiraf.Base.{
  Bool, true, false, ◌&&◌, List, [], ◌∷◌, Option, none, some, ◌≡◌, refl, sym, ap, ap₂, ◌∙◌,
  if◌then◌else◌, unwrap_or, arith, Bool-cases, Option-cases, inl, inr, ◌==◌, ◌⊎◌,
}
use mirror_mergiraf.Base.HashMap
use mirror_mergiraf.Base.HashMap.{Eq, get_eq, get-insert}
use mirror_mergiraf.Ast.{AstNode, node, node_eq, info}
use mirror_mergiraf.Revision.{Revision, rev_eq}
use mirror_mergiraf.Pcs.{RevNode, Leader, rev_node_eq}
use mirror_mergiraf.Pcs.Equality.{rev_node_Eq, rev_node_eq_refl, rev_node_eq_trans}
use mirror_mergiraf.Matching.{Matching}
use mirror_mergiraf.ClassMapping.{
  ClassMapping, map_to_leader, distinct_bases, is_inconsistent, earlier, rev_lt, join, add_pair,
  add_pairs, add_matching, rev_node,
}

-- The leader of a node after the join of two classes.
pub map_to_leader-join :
    (cm : ClassMapping) (l r q : RevNode) (is_exact : Bool)
    → map_to_leader (join cm l r is_exact) q ≡ (
        if rev_node_eq r q
        then earlier (map_to_leader cm r) (map_to_leader cm l)
        else if rev_node_eq l q
        then earlier (map_to_leader cm r) (map_to_leader cm l)
        else map_to_leader cm q)
unfolding map_to_leader join rev_node_Eq
map_to_leader-join cm l r q is_exact =
    rw
      (
        get-insert (HashMap.insert cm.representative2leader l leader) r leader q,
        get-insert cm.representative2leader l leader q,
      )
      (elim (Bool-cases (rev_node_eq r q)) [
        | inl is_right ↦ rw is_right
        | inr other ↦ elim (Bool-cases (rev_node_eq l q)) [
          | inl is_left ↦ rw (other, is_left)
          | inr neither ↦ rw (other, neither)
        ]
      ])
  where
    leader : Leader
    leader = earlier (map_to_leader cm r) (map_to_leader cm l)

-- The class of a node is led by a node of the base that is equal to the given one.
abbrev pub led_by_base : ClassMapping → RevNode → Leader → Bool
led_by_base cm q b =
    rev_eq (map_to_leader cm q).rev Revision.base && rev_node_eq (map_to_leader cm q) b

-- Equal nodes have equal leaders.
led_by_base_eq :
    (cm : ClassMapping) (x q b : RevNode)
    → rev_node_eq x q ≡ true
    → led_by_base cm q b ≡ true
    → led_by_base cm x b ≡ true
unfolding map_to_leader rev_node_eq rev_node_Eq
led_by_base_eq cm x q b same led =
    go (HashMap.get cm.representative2leader q) (get_eq cm.representative2leader x q same) led
  where
    go :
        (o : Option Leader)
        → HashMap.get cm.representative2leader x ≡ o
        → (rev_eq (unwrap_or o q).rev Revision.base && rev_node_eq (unwrap_or o q) b) ≡ true
        → (rev_eq (unwrap_or (HashMap.get cm.representative2leader x) x).rev Revision.base
            && rev_node_eq (unwrap_or (HashMap.get cm.representative2leader x) x) b)
          ≡ true
    go (some a) e h = rw e h
    go none e h = rw e (ground (arith, rev_node_eq_trans x q b same))

-- A node that is not of the base has an entry if its leader is of the base.
entry_of_base :
    (cm : ClassMapping) (x : RevNode)
    → rev_eq x.rev Revision.base ≡ false
    → rev_eq (map_to_leader cm x).rev Revision.base ≡ true
    → HashMap.get cm.representative2leader x ≡ some (map_to_leader cm x)
unfolding map_to_leader
entry_of_base cm x other led = elim (Option-cases (HashMap.get cm.representative2leader x)) [
  | inl absent ↦ absurd (ground (arith, ap (λ o. rev_eq (unwrap_or o x).rev Revision.base) absent))
  | inr (a, found) ↦ rw found
]

rev_node_eq_of_node_eq :
    (a b : Leader)
    → rev_eq a.rev Revision.base ≡ true
    → rev_eq b.rev Revision.base ≡ true
    → node_eq a.node b.node ≡ true
    → rev_node_eq a b ≡ true
unfolding rev_node_eq node_eq
rev_node_eq_of_node_eq a b ha hb same = go a.rev b.rev a.node b.node ha hb same
  where
    go :
        (r s : Revision) (m n : AstNode)
        → rev_eq r Revision.base ≡ true
        → rev_eq s Revision.base ≡ true
        → node_eq m n ≡ true
        → (rev_eq r s && (info m).id == (info n).id) ≡ true
    go r s (node i _) (node j _) h k e = ground arith

-- Where two classes led by the base may be joined, their leaders are equal.
same_base :
    (cm : ClassMapping) (l r : RevNode)
    → rev_eq l.rev Revision.left ≡ true
    → rev_eq r.rev Revision.right ≡ true
    → is_inconsistent cm l r ≡ false
    → rev_eq (map_to_leader cm l).rev Revision.base ≡ true
    → rev_eq (map_to_leader cm r).rev Revision.base ≡ true
    → rev_node_eq (map_to_leader cm l) (map_to_leader cm r) ≡ true
unfolding is_inconsistent rev_node_Eq
same_base cm l r is_left is_right consistent base_l base_r =
    rev_node_eq_of_node_eq (map_to_leader cm l) (map_to_leader cm r) base_l base_r
      (ground (arith, equal))
  where
    open_test : is_inconsistent cm l r ≡ (
        rev_eq l.rev Revision.left
        && rev_eq r.rev Revision.right
        && distinct_bases (some (map_to_leader cm l)) (some (map_to_leader cm r)))
    open_test =
        ap₂ (λ o p. rev_eq l.rev Revision.left && rev_eq r.rev Revision.right && distinct_bases o p)
          (entry_of_base cm l (ground arith) base_l) (entry_of_base cm r (ground arith) base_r)

    equal : node_eq (map_to_leader cm l).node (map_to_leader cm r).node ≡ true
    equal = ground (arith, open_test)

-- The leader that two classes get, of which one is led by the base.
earlier_of_base :
    (a c b : Leader)
    → (rev_eq a.rev Revision.base && rev_node_eq a b) ≡ true
    → (rev_eq c.rev Revision.base ≡ true → rev_node_eq c a ≡ true)
    → (rev_eq (earlier a c).rev Revision.base && rev_node_eq (earlier a c) b) ≡ true
earlier_of_base a c b led same = elim (Bool-cases (rev_lt a.rev c.rev)) [
  | inl less ↦ rw less led
  | inr not_less ↦ rw not_less (ground (arith, base_c not_less, same, rev_node_eq_trans c a b))
]
  where
    base_c : rev_lt a.rev c.rev ≡ false → rev_eq c.rev Revision.base ≡ true
    base_c h = by_revs a.rev c.rev (ground arith) h
      where
        by_revs :
            (r s : Revision)
            → rev_eq r Revision.base ≡ true
            → rev_lt r s ≡ false
            → rev_eq s Revision.base ≡ true
        by_revs r s h k = ground arith

earlier_of_base' :
    (a c b : Leader)
    → (rev_eq c.rev Revision.base && rev_node_eq c b) ≡ true
    → (rev_eq (earlier a c).rev Revision.base && rev_node_eq (earlier a c) b) ≡ true
earlier_of_base' a c b led = elim (Bool-cases (rev_lt a.rev c.rev)) [
  | inl less ↦ absurd (by_revs a.rev c.rev (ground arith) less)
  | inr not_less ↦ rw not_less led
]
  where
    by_revs : (r s : Revision) → rev_eq s Revision.base ≡ true → rev_lt r s ≡ true → ⊥
    by_revs r s h k = ground arith

join-led_by_base :
    (cm : ClassMapping) (l r : RevNode) (is_exact : Bool) (q b : RevNode)
    → rev_eq l.rev Revision.left ≡ true
    → rev_eq r.rev Revision.right ≡ true
    → is_inconsistent cm l r ≡ false
    → led_by_base cm q b ≡ true
    → led_by_base (join cm l r is_exact) q b ≡ true
join-led_by_base cm l r is_exact q b is_left is_right consistent led =
    rw (map_to_leader-join cm l r q is_exact) (elim (Bool-cases (rev_node_eq r q)) [
      | inl here ↦ rw here (
          earlier_of_base (map_to_leader cm r) (map_to_leader cm l) b
            (led_by_base_eq cm r q b here led) (from_right (led_by_base_eq cm r q b here led)))
      | inr other ↦ elim (Bool-cases (rev_node_eq l q)) [
        | inl here ↦
            rw (other, here)
              (earlier_of_base' (map_to_leader cm r) (map_to_leader cm l) b
                (led_by_base_eq cm l q b here led))
        | inr neither ↦ rw (other, neither) led
      ]
    ])
  where
    from_right :
        led_by_base cm r b ≡ true
        → rev_eq (map_to_leader cm l).rev Revision.base ≡ true
        → rev_node_eq (map_to_leader cm l) (map_to_leader cm r) ≡ true
    from_right led_r base_l = same_base cm l r is_left is_right consistent base_l (ground arith)

add_pair-led_by_base :
    (cm : ClassMapping) (l r : RevNode) (is_exact : Bool) (q b : RevNode)
    → rev_eq l.rev Revision.left ≡ true
    → rev_eq r.rev Revision.right ≡ true
    → led_by_base cm q b ≡ true
    → led_by_base (add_pair cm l r is_exact) q b ≡ true
unfolding add_pair
add_pair-led_by_base cm l r is_exact q b is_left is_right led =
    elim (Bool-cases (is_inconsistent cm l r)) [
      | inl skipped ↦ rw skipped led
      | inr joined ↦ rw joined (join-led_by_base cm l r is_exact q b is_left is_right joined led)
    ]

add_pairs-led_by_base :
    (is_exact : Bool) (q b : RevNode) (pairs : List (AstNode × AstNode)) (cm : ClassMapping)
    → led_by_base cm q b ≡ true
    → led_by_base (add_pairs cm pairs Revision.left Revision.right is_exact) q b ≡ true
unfolding add_pairs
add_pairs-led_by_base is_exact q b [] cm led = led
add_pairs-led_by_base is_exact q b ((right_node, left_node) ∷ pairs) cm led =
    add_pairs-led_by_base is_exact q b pairs
      (add_pair cm (rev_node Revision.left left_node) (rev_node Revision.right right_node) is_exact)
      (add_pair-led_by_base cm (rev_node Revision.left left_node)
        (rev_node Revision.right right_node) is_exact q b refl refl led)

-- A matching of the left revision with the right one keeps what was matched to the base: a class that
-- a node of the base leads is led by an equal node of the base afterwards.
pub add_matching-led_by_base :
    (cm : ClassMapping) (matching : Matching) (is_exact : Bool) (q b : RevNode)
    → led_by_base cm q b ≡ true
    → led_by_base (add_matching cm matching Revision.left Revision.right is_exact) q b ≡ true
unfolding add_matching
add_matching-led_by_base cm matching is_exact q b led =
    add_pairs-led_by_base is_exact q b matching.right_to_left cm led

-- Two nodes whose classes are joined have one leader afterwards: one of their two leaders before, of a
-- revision that is not later than that of either.
pub join-one_leader :
    (cm : ClassMapping) (l r : RevNode) (is_exact : Bool)
    → (map_to_leader (join cm l r is_exact) l ≡ map_to_leader (join cm l r is_exact) r)
      × ((map_to_leader (join cm l r is_exact) l ≡ map_to_leader cm l)
          ⊎ (map_to_leader (join cm l r is_exact) l ≡ map_to_leader cm r))
      × (rev_lt (map_to_leader cm l).rev (map_to_leader (join cm l r is_exact) l).rev ≡ false)
      × (rev_lt (map_to_leader cm r).rev (map_to_leader (join cm l r is_exact) l).rev ≡ false)
join-one_leader cm l r is_exact = (
  of_left ∙ sym of_right,
  one_of (map_to_leader cm r) (map_to_leader cm l) of_left,
  ap (λ (m : Leader). rev_lt (map_to_leader cm l).rev m.rev) of_left
      ∙ not_before_left (map_to_leader cm r) (map_to_leader cm l),
  ap (λ (m : Leader). rev_lt (map_to_leader cm r).rev m.rev) of_left
      ∙ not_before_right (map_to_leader cm r) (map_to_leader cm l),
)
  where
    of_right :
        map_to_leader (join cm l r is_exact) r ≡ earlier (map_to_leader cm r) (map_to_leader cm l)
    of_right = map_to_leader-join cm l r r is_exact ∙ rw (rev_node_eq_refl r) refl

    of_left :
        map_to_leader (join cm l r is_exact) l ≡ earlier (map_to_leader cm r) (map_to_leader cm l)
    of_left =
        map_to_leader-join cm l r l is_exact
        ∙ rw (rev_node_eq_refl l)
            (elim (Bool-cases (rev_node_eq r l)) [ inl e ↦ rw e | inr e ↦ rw e ])

    one_of : (a c : Leader) {m : Leader} → m ≡ earlier a c → (m ≡ c) ⊎ (m ≡ a)
    one_of a c e = elim (Bool-cases (rev_lt a.rev c.rev)) [
      | inl less ↦ inr (e ∙ rw less refl)
      | inr not_less ↦ inl (e ∙ rw not_less refl)
    ]

    not_before_left : (a c : Leader) → rev_lt c.rev (earlier a c).rev ≡ false
    not_before_left a c = elim (Bool-cases (rev_lt a.rev c.rev)) [
      | inl less ↦ rw less (by_revs a.rev c.rev less)
      | inr not_less ↦ rw not_less (same_rev c.rev)
    ]
      where
        by_revs : (s t : Revision) → rev_lt s t ≡ true → rev_lt t s ≡ false
        by_revs s t h = ground arith

        same_rev : (s : Revision) → rev_lt s s ≡ false
        same_rev s = ground arith

    not_before_right : (a c : Leader) → rev_lt a.rev (earlier a c).rev ≡ false
    not_before_right a c = elim (Bool-cases (rev_lt a.rev c.rev)) [
      | inl less ↦ rw less (same_rev a.rev)
      | inr not_less ↦ rw not_less not_less
    ]
      where
        same_rev : (s : Revision) → rev_lt s s ≡ false
        same_rev s = ground arith
