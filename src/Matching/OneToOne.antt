-- ===== src/Matching/OneToOne.antt =====
-- The two maps of a matching are inverse to each other, whatever is added and removed.
use mirror_mergiraf.Base.{
  Bool, true, not, ◌&&◌, ◌||◌, Option, none, some, ◌≡◌, refl, sym, ap, ◌∙◌, if◌then◌else◌, arith,
  Bool-cases, Option-cases, inl, inr,
}
use mirror_mergiraf.Base.HashMap
use mirror_mergiraf.Base.HashMap.{Eq, get, get_eq, get-insert, get-remove, beq_left, beq_right}
use mirror_mergiraf.Ast.{AstNode, node_eq}
use mirror_mergiraf.Ast.Equality.{node_Eq, node_eq_refl, node_eq_sym, node_eq_trans}
use mirror_mergiraf.Matching.{
  NodeMap, Matching, new, get_from_left, get_from_right, is_node, are_matched, remove_entry, remove,
  add,
}

-- A map sends one node to another.
abbrev pub maps : NodeMap → AstNode → AstNode → Bool
maps m a b = is_node (get m a) b

-- Two maps are inverse.
abbrev Inverse : NodeMap → NodeMap → Type 0
Inverse there back = (a b : AstNode) → maps there a b ≡ maps back b a

is_node_left : (o : Option AstNode) (a b : AstNode) → node_eq a b ≡ true → is_node o a ≡ is_node o b
unfolding is_node node_Eq
is_node_left none a b h = refl
is_node_left (some c) a b h = beq_right a b c h

maps-remove :
    (m : NodeMap) (k a b : AstNode)
    → maps (HashMap.remove m k) a b ≡ (maps m a b && not (node_eq k a))
unfolding is_node node_Eq
maps-remove m k a b = rw (get-remove m k a) (elim (Bool-cases (node_eq k a)) [
  | inl same ↦ rw same (ground arith)
  | inr other ↦ rw other (ground arith)
])

maps_eq : (m : NodeMap) (k a b : AstNode) → node_eq k a ≡ true → maps m a b ≡ maps m k b
unfolding node_Eq
maps_eq m k a b h = ap (λ o. is_node o b) (sym (get_eq m k a h))

-- A map is a function, up to the equality of nodes.
maps_same :
    (m : NodeMap) (k a b : AstNode) → maps m k a ≡ true → maps m k b ≡ true → node_eq a b ≡ true
unfolding is_node
maps_same m k a b = go (get m k)
  where
    go : (o : Option AstNode) → is_node o a ≡ true → is_node o b ≡ true → node_eq a b ≡ true
    go none h i = absurd (ground arith)
    go (some c) h i = node_eq_trans a c b (node_eq_sym c a h) i

-- A node is sent to its match only, and only the node is sent there.
same_match :
    (there back : NodeMap) (k other : AstNode)
    → Inverse there back
    → maps there k other ≡ true
    → (a b : AstNode) → maps there a b ≡ true
    → node_eq other b ≡ node_eq k a
same_match there back k other inverse found a b h = ground (
  arith,
  maps_eq there k a b,
  maps_same there k other b,
  is_node_left (get there a) other b,
  inverse a other,
  inverse k other,
  maps_same back other k a,
)

-- Of inverse maps, the entry of a node can be removed on both sides.
remove_entry_lem :
    (there back : NodeMap) (k : AstNode)
    → Inverse there back
    → (a b : AstNode)
    → (maps (remove_entry there back k).0 a b ≡ (maps there a b && not (node_eq k a)))
      × (maps (remove_entry there back k).1 b a ≡ (maps there a b && not (node_eq k a)))
unfolding remove_entry is_node
remove_entry_lem there back k inverse a b = elim (Option-cases (get there k)) [
  | inl absent ↦ rw (absent, remove_entry) ((nothing absent, sym (inverse a b) ∙ nothing absent))
  | inr (other, found) ↦
      rw (found, remove_entry)
        ((
          maps-remove there k a b,
          maps-remove back other b a
              ∙ ap (λ x. x && not (node_eq other b)) (sym (inverse a b))
              ∙ only other (ap (λ o. is_node o other) found ∙ node_eq_refl other),
        ))
]
  where
    nothing : get there k ≡ none → maps there a b ≡ (maps there a b && not (node_eq k a))
    nothing absent = ground (arith, maps_eq there k a b, ap (λ o. is_node o b) absent)

    only :
        (other : AstNode)
        → maps there k other ≡ true
        → (maps there a b && not (node_eq other b)) ≡ (maps there a b && not (node_eq k a))
    only other found = ground (arith, same_match there back k other inverse found a b)

-- The two maps of the matching say the same.
unfoldable pub IsOneToOne : Matching → Type 0
IsOneToOne m = (a b : AstNode) → are_matched m a b ≡ is_node (get_from_right m b) a

-- Removing two nodes from a one-to-one matching removes exactly the matches that involve one of
-- them, in both maps: the result is one-to-one.
pub are_matched-remove :
    (m : Matching) (from to : AstNode)
    → IsOneToOne m
    → (a b : AstNode)
    → (are_matched (remove m from to) a b
        ≡ (are_matched m a b && (not (node_eq from a) && not (node_eq to b))))
      × (is_node (get_from_right (remove m from to) b) a ≡ are_matched (remove m from to) a b)
unfolding IsOneToOne remove are_matched get_from_left get_from_right
are_matched-remove m from to one a b =
    (rw (second.1, (first a b).1) (ground arith), second.0 ∙ sym second.1)
  where
    without_from : NodeMap × NodeMap
    without_from = remove_entry m.left_to_right m.right_to_left from

    first :
        (x y : AstNode)
        → (maps without_from.0 x y ≡ (maps m.left_to_right x y && not (node_eq from x)))
          × (maps without_from.1 y x ≡ (maps m.left_to_right x y && not (node_eq from x)))
    first = remove_entry_lem m.left_to_right m.right_to_left from one

    second :
        (maps (remove_entry without_from.1 without_from.0 to).0 b a
          ≡ (maps without_from.1 b a && not (node_eq to b)))
        × (maps (remove_entry without_from.1 without_from.0 to).1 a b
            ≡ (maps without_from.1 b a && not (node_eq to b)))
    second =
        remove_entry_lem without_from.1 without_from.0 to (λ y x. (first x y).1 ∙ sym (first x y).0)
          b a

pub new-IsOneToOne : IsOneToOne new
unfolding IsOneToOne new are_matched get_from_left get_from_right is_node HashMap.get
new-IsOneToOne a b = refl

pub remove-IsOneToOne :
    (m : Matching) (from to : AstNode) → IsOneToOne m → IsOneToOne (remove m from to)
unfolding IsOneToOne
remove-IsOneToOne m from to one = (λ a b. sym (are_matched-remove m from to one a b).1)

pub maps-insert :
    (m : NodeMap) (k v a b : AstNode)
    → maps (HashMap.insert m k v) a b ≡ (if node_eq k a then node_eq v b else maps m a b)
unfolding is_node node_Eq
maps-insert m k v a b =
    rw (get-insert m k v a)
      (elim (Bool-cases (node_eq k a)) [ inl same ↦ rw same | inr other ↦ rw other ])

-- Adding a pair to a one-to-one matching matches the two, and takes all other matches from them: the
-- matches between other nodes stay. The result is one-to-one.
pub are_matched-add :
    (m : Matching) (from to : AstNode)
    → IsOneToOne m
    → (a b : AstNode)
    → (are_matched (add m from to) a b ≡ (
        (node_eq from a && node_eq to b)
        || (are_matched m a b && (not (node_eq from a) && not (node_eq to b)))))
      × (is_node (get_from_right (add m from to) b) a ≡ are_matched (add m from to) a b)
unfolding IsOneToOne add are_matched get_from_left get_from_right
are_matched-add m from to one a b =
    (rw (left, removed.0) (ground arith), rw (left, right, removed.1, removed.0) (ground arith))
  where
    removed :
        (are_matched (remove m from to) a b
          ≡ (are_matched m a b && (not (node_eq from a) && not (node_eq to b))))
        × (is_node (get_from_right (remove m from to) b) a ≡ are_matched (remove m from to) a b)
    removed = are_matched-remove m from to one a b

    left :
        maps (HashMap.insert (remove m from to).left_to_right from to) a b
        ≡ (if node_eq from a then node_eq to b else are_matched (remove m from to) a b)
    left = maps-insert (remove m from to).left_to_right from to a b

    right :
        maps (HashMap.insert (remove m from to).right_to_left to from) b a
        ≡ (if node_eq to b then node_eq from a else is_node (get_from_right (remove m from to) b) a)
    right = maps-insert (remove m from to).right_to_left to from b a

pub add-IsOneToOne : (m : Matching) (from to : AstNode) → IsOneToOne m → IsOneToOne (add m from to)
unfolding IsOneToOne
add-IsOneToOne m from to one = (λ a b. sym (are_matched-add m from to one a b).1)
