-- ===== src/TreeMatcher/TopDown/Ends.antt =====
-- The loop of the top-down pass ends: each round replaces trees by their children, or leaves them out.
use mirror_mergiraf.Base.{
  ℕ, zero, suc, ◌+◌, ◌≤◌, ◌<◌, min, ltb, List, [], ◌∷◌, ◌++◌, none, ◌≡◌, refl, ap, length, arith,
  Bool-cases, inl, inr, length-append,
}
use mirror_mergiraf.Base.Run.{Returns}
use mirror_mergiraf.Base.HashMap.{set_contains}
use mirror_mergiraf.Ast.{AstNode, Children, node, nil, cons, to_list, dfs, dfs_all}
use mirror_mergiraf.Ast.Equality.{node_Eq}
use mirror_mergiraf.TreeMatcher.PriorityList.{PriorityList, pop, peek_max, open_node}
use mirror_mergiraf.TreeMatcher.PriorityList.Levels.{total, pop-PopsLevel}
use mirror_mergiraf.TreeMatcher.TopDown.{
  TopDown, level, open_all, open_unmatched, open_left, open_right, match_level, matched_level,
  round, top_down_loop,
}

-- The number of nodes of a tree.
abbrev pub tree_size : AstNode → ℕ
tree_size n = length (dfs n)

abbrev pub queue_size : PriorityList → ℕ
queue_size l = total tree_size l.heap

total-append :
    (w : AstNode → ℕ) (xs ys : List AstNode) → total w (xs ++ ys) ≡ total w xs + total w ys
total-append w [] ys = omega arith
total-append w (x ∷ xs) ys = omega (arith, total-append w xs ys)

total-children : (ns : Children) → total tree_size (to_list ns) ≡ length (dfs_all ns)
unfolding dfs
total-children nil = refl
total-children (cons n ns) = omega (arith, total-children ns, length-append (dfs n) (dfs_all ns))

-- Opening a node puts all its nodes but itself into the queue.
open_node-queue_size :
    (l : PriorityList) (n : AstNode) → suc (queue_size (open_node l n)) ≡ queue_size l + tree_size n
unfolding open_node dfs
open_node-queue_size l (node i ns) =
    omega (arith, total-append tree_size (to_list ns) l.heap, total-children ns)

open_all-queue_size :
    (ns : List AstNode) (l : PriorityList)
    → queue_size (open_all ns l) + length ns ≡ queue_size l + total tree_size ns
unfolding open_all
open_all-queue_size [] l = refl
open_all-queue_size (n ∷ ns) l =
    omega (arith, open_node-queue_size l n, open_all-queue_size ns (open_node l n))

tree_size_pos : (n : AstNode) → 0 < tree_size n
unfolding dfs
tree_size_pos (node i ns) = omega arith

open_unmatched-queue_size :
    (matched ns : List AstNode) (l : PriorityList)
    → queue_size (open_unmatched matched ns l) + length ns ≤ queue_size l + total tree_size ns
unfolding open_unmatched
open_unmatched-queue_size matched [] l = omega arith
open_unmatched-queue_size matched (n ∷ ns) l = elim (Bool-cases (set_contains matched n)) [
  | inl found ↦
      rw (found, queue_size, total)
        (omega (arith, tree_size_pos n, open_unmatched-queue_size matched ns l))
  | inr absent ↦
      rw (absent, queue_size, total)
        (omega
          (arith, open_node-queue_size l n, open_unmatched-queue_size matched ns (open_node l n)))
]

empty_max : peek_max (record { heap = [] }) ≡ none
unfolding peek_max
empty_max = refl

-- What `pop` leaves, at a queue that shows a greatest height.
pop-queue_size :
    (l : PriorityList)
    → 0 < level (peek_max l)
    → (0 < length (pop l).0) × (total tree_size (pop l).0 + queue_size (pop l).1 ≡ queue_size l)
pop-queue_size l h = go l.heap h
  where
    go :
        (xs : List AstNode)
        → 0 < level (peek_max (record { heap = xs }))
        → (0 < length (pop (record { heap = xs })).0)
          × (total tree_size (pop (record { heap = xs })).0
                + queue_size (pop (record { heap = xs })).1
              ≡ total tree_size xs)
    go [] h = absurd (omega (arith, ap level empty_max))
    go (x ∷ xs) h = let (m, top, below, one, p) = pop-PopsLevel x xs in (one, p.split tree_size)

abbrev pub measure : TopDown → ℕ
measure s = queue_size s.l1 + queue_size s.l2

open_left-measure : (s : TopDown) → 0 < level (peek_max s.l1) → measure (open_left s) < measure s
unfolding open_left
open_left-measure s h =
    omega (arith, pop-queue_size s.l1 h, open_all-queue_size (pop s.l1).0 (pop s.l1).1)

open_right-measure : (s : TopDown) → 0 < level (peek_max s.l2) → measure (open_right s) < measure s
unfolding open_right
open_right-measure s h =
    omega (arith, pop-queue_size s.l2 h, open_all-queue_size (pop s.l2).0 (pop s.l2).1)

module _ (duplicates : List ℕ → List ℕ) where
  match_level-measure :
      (s : TopDown)
      → 0 < level (peek_max s.l1)
      → 0 < level (peek_max s.l2)
      → measure (match_level duplicates s) < measure s
  unfolding match_level
  match_level-measure s h k =
      let after = matched_level duplicates s in
      omega (
        arith,
        pop-queue_size s.l1 h,
        pop-queue_size s.l2 k,
        open_unmatched-queue_size after.matched_1 (pop s.l1).0 (pop s.l1).1,
        open_unmatched-queue_size after.matched_2 (pop s.l2).0 (pop s.l2).1,
      )

  round-measure :
      (s : TopDown)
      → 0 < level (peek_max s.l1)
      → 0 < level (peek_max s.l2)
      → measure (round duplicates (level (peek_max s.l1)) (level (peek_max s.l2)) s) < measure s
  unfolding round
  round-measure s h k = elim (Bool-cases (ltb (level (peek_max s.l2)) (level (peek_max s.l1)))) [
    | inl higher ↦ rw higher (open_left-measure s h)
    | inr not_higher ↦
        rw not_higher (elim (Bool-cases (ltb (level (peek_max s.l1)) (level (peek_max s.l2)))) [
          | inl lower ↦ rw lower (open_right-measure s k)
          | inr same ↦ rw same (match_level-measure s h k)
        ])
  ]

  -- With an invariant of the rounds.
  pub top_down_loop-Returns :
      (P : TopDown → Type 0)
      → ((pm_1 pm_2 : ℕ) (s : TopDown) → P s → P (round duplicates pm_1 pm_2 s))
      → (min_height fuel : ℕ) (s : TopDown) → measure s < fuel
      → P s
      → Returns P (top_down_loop duplicates min_height fuel s)
  unfolding top_down_loop
  top_down_loop-Returns P keep min_height zero s m p = absurd (omega arith)
  top_down_loop-Returns P keep min_height (suc fuel) s m p =
      let pm_1 = level (peek_max s.l1) in
      let pm_2 = level (peek_max s.l2) in
      elim (Bool-cases (ltb (min pm_1 pm_2) (min_height + 1))) [
        | inl low ↦ rw (low, Returns) p
        | inr high ↦
            rw (high, Returns)
              (top_down_loop-Returns P keep min_height fuel (round duplicates pm_1 pm_2 s)
                (omega (arith, round-measure s (ground (arith, high)) (ground (arith, high))))
                (keep pm_1 pm_2 s p))
      ]
