-- ===== src/Matching/Extend.antt =====
-- `Matching::extend` removes and inserts in two loops, where `add` does both for a pair.
use mirror_mergiraf.Base.{
  Bool, true, false, not, ◌&&◌, ◌||◌, List, [], ◌∷◌, ◌≡◌, refl, sym, ap, ap₂, ◌∙◌, if◌then◌else◌,
  arith, map, all, any,
}
use mirror_mergiraf.Base.HashMap
use mirror_mergiraf.Ast.{AstNode, node_eq}
use mirror_mergiraf.Ast.Equality.{node_Eq, node_eq_sym, node_eq_trans}
use mirror_mergiraf.Matching.{
  NodeMap, Matching, get_from_left, get_from_right, are_matched, is_node, swap, remove, remove_all,
  extend_map, extend,
}
use mirror_mergiraf.Matching.OneToOne.{
  IsOneToOne, maps, maps-insert, are_matched-remove, remove-IsOneToOne,
}

-- A pair of a list, a left node and a right node of it.
abbrev pub has_pair : List (AstNode × AstNode) → AstNode → AstNode → Bool
has_pair pairs a b = any (λ p. node_eq p.0 a && node_eq p.1 b) pairs

abbrev pub has_left : List (AstNode × AstNode) → AstNode → Bool
has_left pairs a = any (λ p. node_eq p.0 a) pairs

abbrev pub has_right : List (AstNode × AstNode) → AstNode → Bool
has_right pairs b = any (λ p. node_eq p.1 b) pairs

abbrev pub same_sides : AstNode × AstNode → AstNode × AstNode → Bool
same_sides p q =
    (not (node_eq p.0 q.0) || node_eq p.1 q.1) && (not (node_eq p.1 q.1) || node_eq p.0 q.0)

-- No node of the list has two partners.
abbrev pub one_to_one : List (AstNode × AstNode) → Bool
one_to_one [] = true
one_to_one (p ∷ pairs) = all (same_sides p) pairs && one_to_one pairs

has_pair-has_left :
    (pairs : List (AstNode × AstNode)) (a b : AstNode)
    → has_left pairs a ≡ false
    → has_pair pairs a b ≡ false
has_pair-has_left [] a b h = refl
has_pair-has_left ((c, d) ∷ pairs) a b h = ground (arith, has_pair-has_left pairs a b)

-- A node that has a partner later in the list has the same one as here.
later_pair :
    (c d : AstNode) (pairs : List (AstNode × AstNode)) (a b : AstNode)
    → all (same_sides (c, d)) pairs ≡ true
    → node_eq c a ≡ true
    → node_eq d b ≡ true
    → has_left pairs a ≡ true
    → has_pair pairs a b ≡ true
later_pair c d [] a b h e f l = ground arith
later_pair c d ((x, y) ∷ pairs) a b h e f l = ground (
  arith,
  later_pair c d pairs a b,
  node_eq_trans c a x,
  node_eq_sym x a,
  node_eq_sym d y,
  node_eq_trans y d b,
)

extend_map_lem :
    (m pairs : NodeMap) (a b : AstNode)
    → one_to_one pairs ≡ true
    → maps (extend_map m pairs) a b ≡ (if has_left pairs a then has_pair pairs a b else maps m a b)
unfolding extend_map
extend_map_lem m [] a b one = refl
extend_map_lem m ((c, d) ∷ pairs) a b one = ground (
  arith,
  extend_map_lem (HashMap.insert m c d) pairs a b,
  maps-insert m c d a b,
  later_pair c d pairs a b,
  has_pair-has_left pairs a b,
)

-- Without the nodes of a list.
are_matched-remove_all :
    (m : Matching) (pairs : List (AstNode × AstNode)) (a b : AstNode)
    → IsOneToOne m
    → (are_matched (remove_all m pairs) a b
        ≡ (are_matched m a b && (not (has_left pairs a) && not (has_right pairs b))))
      × IsOneToOne (remove_all m pairs)
unfolding remove_all
are_matched-remove_all m [] a b one = (ground arith, one)
are_matched-remove_all m ((l, r) ∷ pairs) a b one =
    let (later, stays) =
      are_matched-remove_all (remove m l r) pairs a b (remove-IsOneToOne m l r one) in
    (later ∙ ground (arith, (are_matched-remove m l r one a b).0), stays)

has_left-swap :
    (pairs : List (AstNode × AstNode)) (b : AstNode)
    → has_left (map swap pairs) b ≡ has_right pairs b
has_left-swap [] b = refl
has_left-swap ((l, r) ∷ pairs) b = ap (λ t. node_eq r b || t) (has_left-swap pairs b)

has_pair-swap :
    (pairs : List (AstNode × AstNode)) (a b : AstNode)
    → has_pair (map swap pairs) b a ≡ has_pair pairs a b
has_pair-swap [] a b = refl
has_pair-swap ((l, r) ∷ pairs) a b = ground (arith, has_pair-swap pairs a b)

same_sides-swap :
    (l r : AstNode) (pairs : List (AstNode × AstNode))
    → all (same_sides (r, l)) (map swap pairs) ≡ all (same_sides (l, r)) pairs
same_sides-swap l r [] = refl
same_sides-swap l r ((x, y) ∷ pairs) = ground (arith, same_sides-swap l r pairs)

one_to_one-swap :
    (pairs : List (AstNode × AstNode)) → one_to_one (map swap pairs) ≡ one_to_one pairs
one_to_one-swap [] = refl
one_to_one-swap ((l, r) ∷ pairs) = ground (arith, same_sides-swap l r pairs, one_to_one-swap pairs)

has_pair-has_right :
    (pairs : List (AstNode × AstNode)) (a b : AstNode)
    → has_right pairs b ≡ false
    → has_pair pairs a b ≡ false
has_pair-has_right [] a b h = refl
has_pair-has_right ((c, d) ∷ pairs) a b h = ground (arith, has_pair-has_right pairs a b)

back :
    (m : Matching)
    → IsOneToOne m
    → (a b : AstNode) → is_node (get_from_right m b) a ≡ are_matched m a b
unfolding IsOneToOne
back m one a b = sym (one a b)

extend-left :
    (m : Matching) (pairs : List (AstNode × AstNode)) (a b : AstNode)
    → one_to_one pairs ≡ true
    → are_matched (extend m pairs) a b
      ≡ (if has_left pairs a then has_pair pairs a b else are_matched (remove_all m pairs) a b)
unfolding extend are_matched get_from_left
extend-left m pairs a b distinct =
    extend_map_lem (remove_all m pairs).left_to_right pairs a b distinct

extend-right :
    (m : Matching) (pairs : List (AstNode × AstNode)) (a b : AstNode)
    → one_to_one pairs ≡ true
    → is_node (get_from_right (extend m pairs) b) a ≡ (
        if has_right pairs b
        then has_pair pairs a b
        else is_node (get_from_right (remove_all m pairs) b) a)
unfolding extend get_from_right
extend-right m pairs a b distinct =
    extend_map_lem (remove_all m pairs).right_to_left (map swap pairs) b a
      (one_to_one-swap pairs ∙ distinct)
    ∙ ap₂ (λ t u. if t then u else is_node (get_from_right (remove_all m pairs) b) a)
        (has_left-swap pairs b) (has_pair-swap pairs a b)

-- A one-to-one matching that is extended by a one-to-one list of pairs has the pairs of the list, and
-- of its own matches those that share no node with them. Its two maps say the same.
pub are_matched-extend :
    (m : Matching) (pairs : List (AstNode × AstNode))
    → IsOneToOne m
    → one_to_one pairs ≡ true
    → (a b : AstNode)
    → (are_matched (extend m pairs) a b ≡ (
        has_pair pairs a b
        || (are_matched m a b && (not (has_left pairs a) && not (has_right pairs b)))))
      × (is_node (get_from_right (extend m pairs) b) a ≡ are_matched (extend m pairs) a b)
are_matched-extend m pairs one distinct a b = (left, right ∙ sym left)
  where
    kept : Bool
    kept = are_matched m a b && (not (has_left pairs a) && not (has_right pairs b))

    removed : (are_matched (remove_all m pairs) a b ≡ kept) × IsOneToOne (remove_all m pairs)
    removed = are_matched-remove_all m pairs a b one

    left : are_matched (extend m pairs) a b ≡ (has_pair pairs a b || kept)
    left =
        extend-left m pairs a b distinct
        ∙ rw (removed.0) (ground (arith, has_pair-has_left pairs a b))

    right : is_node (get_from_right (extend m pairs) b) a ≡ (has_pair pairs a b || kept)
    right =
        extend-right m pairs a b distinct
        ∙ rw (back (remove_all m pairs) removed.1 a b ∙ removed.0)
            (ground (arith, has_pair-has_right pairs a b))

pub extend-IsOneToOne :
    (m : Matching) (pairs : List (AstNode × AstNode))
    → IsOneToOne m
    → one_to_one pairs ≡ true
    → IsOneToOne (extend m pairs)
unfolding IsOneToOne
extend-IsOneToOne m pairs one distinct =
    (λ a b. sym (are_matched-extend m pairs one distinct a b).1)
