-- ===== src/ClassMapping/Kinds.antt =====
-- The nodes of a class have one kind, as the comment of `Leader::kind` promises.
use mirror_mergiraf.Base.{
  ℕ, Bool, true, ◌&&◌, Option, none, some, List, [], ◌∷◌, ◌≡◌, refl, sym, ap, ◌∙◌, subst, ap₂,
  unwrap_or, all, arith, Bool-cases, Option-cases, inl, inr, ==_iff,
}
use mirror_mergiraf.Base.HashMap.{get, insert}
use mirror_mergiraf.Base.Text.{Text, text_eq}
use mirror_mergiraf.Ast.{AstNode, info}
use mirror_mergiraf.Ast.Equality.{text_eq_refl, text_eq_sym, text_eq_trans}
use mirror_mergiraf.Revision.{Revision, rev_eq, eq_of_rev_eq}
use mirror_mergiraf.Pcs.{RevNode, Leader, rev_node_eq}
use mirror_mergiraf.Pcs.Equality.{rev_node_Eq}
use mirror_mergiraf.Matching.{Matching}
use mirror_mergiraf.ClassMapping.{
  ClassMapping, Representatives, new, rev_node, map_to_leader, is_inconsistent, join, add_pair,
  add_pairs, add_matching, earlier, rev_lt, representative_at, internal_representatives,
  node_at_rev, revision_Eq,
}

some_inj : (a b : RevNode) → ◌≡◌ {A = Option RevNode} (some a) (some b) → a ≡ b
some_inj a b h = cc

node_inj : (a b : AstNode) → ◌≡◌ {A = Option AstNode} (some a) (some b) → a ≡ b
node_inj a b h = cc

none_ne_some : (a : AstNode) → ◌≡◌ {A = Option AstNode} none (some a) → ⊥
none_ne_some a h = cc

node_at_rev-none :
    (cm : ClassMapping) (leader : Leader) (r : Revision)
    → representative_at cm leader r ≡ none
    → node_at_rev cm leader r ≡ none
unfolding node_at_rev
node_at_rev-none cm leader r e = rw (e, node_at_rev)

node_at_rev-some :
    (cm : ClassMapping) (leader : Leader) (r : Revision) (repr : RevNode)
    → representative_at cm leader r ≡ some repr
    → node_at_rev cm leader r ≡ some repr.node
unfolding node_at_rev
node_at_rev-some cm leader r repr e = rw (e, node_at_rev)

pub by_codes :
    (n m : AstNode) (c d : Text)
    → text_eq (info n).kind c ≡ true
    → text_eq c d ≡ true
    → text_eq (info m).kind d ≡ true
    → text_eq (info n).kind (info m).kind ≡ true
by_codes n m c d h e f =
    text_eq_trans (info n).kind c (info m).kind h
      (text_eq_trans c d (info m).kind e (text_eq_sym (info m).kind d f))

-- The ids of each revision have kinds: no two nodes of one tree share an id.
module _ (kind_at : Revision → ℕ → Text) where
  abbrev pub code : RevNode → Text
  code rn = kind_at rn.rev (info rn.node).id

  abbrev pub has_its_kind : RevNode → Bool
  has_its_kind rn = text_eq (info rn.node).kind (code rn)

  -- A node and the leader of its class.
  abbrev pub led_by_its_kind : RevNode × Leader → Bool
  led_by_its_kind (rn, l) = has_its_kind rn && has_its_kind l && text_eq (code rn) (code l)

  -- The representatives of a class, by the kind of its leader.
  abbrev pub of_code : Text → Representatives → Bool
  of_code c reprs = all (λ p. has_its_kind p.1 && text_eq (code p.1) c) reprs

  abbrev pub class_of_kind : Leader × Representatives → Bool
  class_of_kind (l, reprs) = has_its_kind l && of_code (code l) reprs

  pub record KindsAgree (cm : ClassMapping) : Type 0 where
    pub leaders : all led_by_its_kind cm.representative2leader ≡ true
    pub classes : all class_of_kind cm.leader2representatives ≡ true

  code_of_rev_node_eq : (a b : RevNode) → rev_node_eq a b ≡ true → code a ≡ code b
  unfolding rev_node_eq
  code_of_rev_node_eq a b h =
      ap₂ kind_at (eq_of_rev_eq a.rev b.rev (ground arith))
        ((==_iff (info a.node).id (info b.node).id).0 (ground arith))

  insert-leaders :
      (m : List (RevNode × Leader)) (k l : RevNode)
      → all led_by_its_kind m ≡ true
      → led_by_its_kind (k, l) ≡ true
      → all led_by_its_kind (insert m k l) ≡ true
  unfolding insert rev_node_Eq
  insert-leaders [] k l h e = ground arith
  insert-leaders ((j, w) ∷ m) k l h e = elim (Bool-cases (rev_node_eq j k)) [
    | inl same ↦
        rw same (ground (arith, ap (λ c. text_eq c (code l)) (code_of_rev_node_eq j k same)))
    | inr other ↦ rw other (ground (arith, insert-leaders m k l))
  ]

  insert-representatives :
      (c : Text) (reprs : Representatives) (r : Revision) (rn : RevNode)
      → of_code c reprs ≡ true
      → has_its_kind rn ≡ true
      → text_eq (code rn) c ≡ true
      → of_code c (insert reprs r rn) ≡ true
  unfolding insert
  insert-representatives c [] r rn h e f = ground arith
  insert-representatives c ((q, x) ∷ reprs) r rn h e f =
      ground (arith, insert-representatives c reprs r rn)

  insert-classes :
      (m : List (Leader × Representatives)) (l : Leader) (reprs : Representatives)
      → all class_of_kind m ≡ true
      → has_its_kind l ≡ true
      → of_code (code l) reprs ≡ true
      → all class_of_kind (insert m l reprs) ≡ true
  unfolding insert rev_node_Eq
  insert-classes [] l reprs h e f = ground arith
  insert-classes ((j, old) ∷ m) l reprs h e f = elim (Bool-cases (rev_node_eq j l)) [
    | inl same ↦ rw same (ground (arith, ap (λ c. of_code c reprs) (code_of_rev_node_eq j l same)))
    | inr other ↦ rw other (ground (arith, insert-classes m l reprs))
  ]

  get-classes :
      (m : List (Leader × Representatives)) (l : Leader)
      → all class_of_kind m ≡ true
      → of_code (code l) (unwrap_or (get m l) []) ≡ true
  unfolding get rev_node_Eq
  get-classes [] l h = refl
  get-classes ((j, reprs) ∷ m) l h = elim (Bool-cases (rev_node_eq j l)) [
    | inl same ↦ rw same (ground (arith, ap (λ c. of_code c reprs) (code_of_rev_node_eq j l same)))
    | inr other ↦ rw other (get-classes m l (ground arith))
  ]

  get-leaders :
      (m : List (RevNode × Leader)) (k : RevNode)
      → all led_by_its_kind m ≡ true
      → has_its_kind k ≡ true
      → led_by_its_kind (k, unwrap_or (get m k) k) ≡ true
  unfolding get rev_node_Eq
  get-leaders [] k h e = ground (arith, text_eq_refl (code k))
  get-leaders ((j, l) ∷ m) k h e = elim (Bool-cases (rev_node_eq j k)) [
    | inl same ↦
        rw same (ground (arith, ap (λ c. text_eq c (code l)) (code_of_rev_node_eq j k same)))
    | inr other ↦ rw other (get-leaders m k (ground arith) e)
  ]

  -- A node has a leader of its kind.
  pub map_to_leader-kind :
      (cm : ClassMapping) (rn : RevNode)
      → KindsAgree cm
      → has_its_kind rn ≡ true
      → led_by_its_kind (rn, map_to_leader cm rn) ≡ true
  unfolding map_to_leader
  map_to_leader-kind cm rn k e = get-leaders cm.representative2leader rn k.leaders e

  -- The leader of a joined class has the kind of both nodes.
  earlier-kind :
      (x y l m : RevNode)
      → text_eq (code x) (code y) ≡ true
      → led_by_its_kind (x, l) ≡ true
      → led_by_its_kind (y, m) ≡ true
      → (led_by_its_kind (x, earlier l m) ≡ true) × (led_by_its_kind (y, earlier l m) ≡ true)
  earlier-kind x y l m same h k = elim (Bool-cases (rev_lt l.rev m.rev)) [
    | inl less ↦ rw less (
        (
          h,
          ground (arith, text_eq_sym (code x) (code y), text_eq_trans (code y) (code x) (code l)),
        ))
    | inr not_less ↦ rw not_less ((ground (arith, text_eq_trans (code x) (code y) (code m)), k))
  ]

  join-KindsAgree :
      (cm : ClassMapping) (left_rev_node right_rev_node : RevNode) (is_exact : Bool)
      → has_its_kind left_rev_node ≡ true
      → has_its_kind right_rev_node ≡ true
      → text_eq (code right_rev_node) (code left_rev_node) ≡ true
      → KindsAgree cm
      → KindsAgree (join cm left_rev_node right_rev_node is_exact)
  join-KindsAgree cm l r is_exact hl hr same k =
      let leader : Leader = earlier (map_to_leader cm r) (map_to_leader cm l) in
      let both : (led_by_its_kind (r, leader) ≡ true) × (led_by_its_kind (l, leader) ≡ true) =
        earlier-kind r l (map_to_leader cm r) (map_to_leader cm l) same
          (map_to_leader-kind cm r k hr) (map_to_leader-kind cm l k hl) in
      unfold join in
      record {
        leaders =
            insert-leaders (insert cm.representative2leader l leader) r leader
              (insert-leaders cm.representative2leader l leader k.leaders both.1) both.0;
        classes = insert-classes cm.leader2representatives leader _ k.classes (ground arith) (
            insert-representatives (code leader) _ l.rev l
              (insert-representatives (code leader) _ r.rev r
                (get-classes cm.leader2representatives leader k.classes) hr (ground arith))
              hl (ground arith));
      }

  add_pair-KindsAgree :
      (cm : ClassMapping) (left_rev_node right_rev_node : RevNode) (is_exact : Bool)
      → has_its_kind left_rev_node ≡ true
      → has_its_kind right_rev_node ≡ true
      → text_eq (code right_rev_node) (code left_rev_node) ≡ true
      → KindsAgree cm
      → KindsAgree (add_pair cm left_rev_node right_rev_node is_exact)
  add_pair-KindsAgree cm l r is_exact hl hr same k = elim (Bool-cases (is_inconsistent cm l r)) [
    | inl skipped ↦ unfold add_pair in rw skipped k
    | inr added ↦ unfold add_pair in rw added (join-KindsAgree cm l r is_exact hl hr same k)
  ]

  -- A pair of a matching: the nodes have their kinds, and these are the same.
  abbrev pub pair_of_kind : Revision → Revision → AstNode × AstNode → Bool
  pair_of_kind from_rev to_rev (right_node, left_node) =
      has_its_kind (rev_node from_rev left_node)
      && has_its_kind (rev_node to_rev right_node)
      && text_eq (info right_node).kind (info left_node).kind

  codes :
      (from_rev to_rev : Revision) (right_node left_node : AstNode)
      → pair_of_kind from_rev to_rev (right_node, left_node) ≡ true
      → text_eq (code (rev_node to_rev right_node)) (code (rev_node from_rev left_node)) ≡ true
  codes from_rev to_rev r l h =
      text_eq_trans (code (rev_node to_rev r)) (info r).kind (code (rev_node from_rev l))
        (text_eq_sym (info r).kind (code (rev_node to_rev r)) (ground arith))
        (text_eq_trans (info r).kind (info l).kind (code (rev_node from_rev l)) (ground arith)
          (ground arith))

  add_pairs-KindsAgree :
      (cm : ClassMapping) (pairs : List (AstNode × AstNode)) (from_rev to_rev : Revision)
      (is_exact : Bool)
      → all (pair_of_kind from_rev to_rev) pairs ≡ true
      → KindsAgree cm
      → KindsAgree (add_pairs cm pairs from_rev to_rev is_exact)
  unfolding add_pairs
  add_pairs-KindsAgree cm [] from_rev to_rev is_exact h k = k
  add_pairs-KindsAgree cm ((r, l) ∷ pairs) from_rev to_rev is_exact h k =
      add_pairs-KindsAgree (add_pair cm (rev_node from_rev l) (rev_node to_rev r) is_exact) pairs
        from_rev to_rev is_exact (ground arith)
        (add_pair-KindsAgree cm (rev_node from_rev l) (rev_node to_rev r) is_exact (ground arith)
          (ground arith) (codes from_rev to_rev r l (ground arith)) k)

  pub add_matching-KindsAgree :
      (cm : ClassMapping) (m : Matching) (from_rev to_rev : Revision) (is_exact : Bool)
      → all (pair_of_kind from_rev to_rev) m.right_to_left ≡ true
      → KindsAgree cm
      → KindsAgree (add_matching cm m from_rev to_rev is_exact)
  unfolding add_matching
  add_matching-KindsAgree cm m from_rev to_rev is_exact h k =
      add_pairs-KindsAgree cm m.right_to_left from_rev to_rev is_exact h k

  pub new-KindsAgree : KindsAgree new
  unfolding new
  new-KindsAgree = record { leaders = refl; classes = refl }

  get-of_code :
      (c : Text) (reprs : Representatives) (r : Revision) (rn : RevNode)
      → of_code c reprs ≡ true
      → get reprs r ≡ some rn
      → (has_its_kind rn && text_eq (code rn) c) ≡ true
  unfolding get revision_Eq
  get-of_code c [] r rn h e = absurd (ground arith)
  get-of_code c ((q, x) ∷ reprs) r rn h e = elim (Bool-cases (rev_eq q r)) [
    | inl same ↦
        subst (λ (y : RevNode). (has_its_kind y && text_eq (code y) c) ≡ true)
          (some_inj x rn (rw same at e)) (ground arith)
    | inr other ↦ get-of_code c reprs r rn (ground arith) (rw other at e)
  ]

  representative_at-kind :
      (cm : ClassMapping) (leader : Leader) (r : Revision) (repr : RevNode)
      → KindsAgree cm
      → has_its_kind leader ≡ true
      → representative_at cm leader r ≡ some repr
      → (has_its_kind repr && text_eq (code repr) (code leader)) ≡ true
  unfolding representative_at
  representative_at-kind cm leader r repr k h e = elim (Bool-cases (rev_eq leader.rev r)) [
    | inl own ↦
        subst (λ (y : RevNode). (has_its_kind y && text_eq (code y) (code leader)) ≡ true)
          (some_inj leader repr (rw own at e)) (ground (arith, text_eq_refl (code leader)))
    | inr other ↦
        get-of_code (code leader) (internal_representatives cm leader) r repr
          (unfold internal_representatives in
            get-classes cm.leader2representatives leader k.classes)
          (rw other at e)
  ]

  -- The node of a class at a revision has the kind of the leader.
  pub node_at_rev-kind :
      (cm : ClassMapping) (leader : Leader) (r : Revision) (n : AstNode)
      → KindsAgree cm
      → has_its_kind leader ≡ true
      → node_at_rev cm leader r ≡ some n
      → text_eq (info n).kind (info leader.node).kind ≡ true
  node_at_rev-kind cm leader r n k h e = elim (Option-cases (representative_at cm leader r)) [
    | inl absent ↦ absurd (none_ne_some n (sym (node_at_rev-none cm leader r absent) ∙ e))
    | inr (repr, found) ↦
        by_codes n leader.node (code repr) (code leader)
          (subst (λ m. text_eq (info m).kind (code repr) ≡ true)
            (node_inj repr.node n (sym (node_at_rev-some cm leader r repr found) ∙ e))
            (ground (arith, representative_at-kind cm leader r repr k h found)))
          (ground (arith, representative_at-kind cm leader r repr k h found)) h
  ]
