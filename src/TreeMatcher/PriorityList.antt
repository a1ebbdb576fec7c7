-- ===== src/TreeMatcher/PriorityList.antt =====
-- src/tree_matcher/priority_list.rs: a queue of trees, from which the tallest leave first.
pub mod Levels
use mirror_mergiraf.Base.{
  ℕ, zero, suc, ◌+◌, Bool, true, false, ◌&&◌, ◌||◌, ◌==◌, ltb, List, [], ◌∷◌, ◌++◌, Option, none,
  some, if◌then◌else◌, length, foldl,
}
use mirror_mergiraf.Base.Text.{Text}
use mirror_mergiraf.Ast.{AstNode, info, children, height}

-- The order of byte strings.
abbrev pub text_lt : Text → Text → Bool
text_lt [] [] = false
text_lt [] (_ ∷ _) = true
text_lt (_ ∷ _) [] = false
text_lt (a ∷ s) (b ∷ t) = ltb a b || (a == b && text_lt s t)

-- `Entry::cmp`: by the height, then by the source. The height is a function of the node, so an entry
-- is its node.
unfoldable pub entry_lt : AstNode → AstNode → Bool
unfolding height
entry_lt a b =
    ltb (height a) (height b) || (height a == height b && text_lt (info a).source (info b).source)

-- `BinaryHeap`, as the list of its entries.
pub record PriorityList : Type 0 where
  pub heap : List AstNode

unfoldable pub new : PriorityList
new = record { heap = [] }

unfoldable pub push : PriorityList → AstNode → PriorityList
push l n = record { heap = n ∷ l.heap }

abbrev pub larger_first :
    AstNode → Option (AstNode × List AstNode) → Option (AstNode × List AstNode)
unfolding entry_lt
larger_first x none = some (x, [])
larger_first x (some (m, rest)) = if entry_lt m x then some (x, m ∷ rest) else some (m, x ∷ rest)

-- `BinaryHeap::pop`: a greatest entry, and the others.
unfoldable pub heap_pop : List AstNode → Option (AstNode × List AstNode)
unfolding larger_first
heap_pop [] = none
heap_pop (x ∷ xs) = larger_first x (heap_pop xs)

abbrev pub height_of : Option (AstNode × List AstNode) → Option ℕ
unfolding height
height_of none = none
height_of (some (m, rest)) = some (height m)

unfoldable pub peek_max : PriorityList → Option ℕ
unfolding heap_pop height_of
peek_max l = height_of (heap_pop l.heap)

-- The loop of `pop`, for entries of the desired height. The fuel bounds the rounds, each of which takes
-- an entry.
unfoldable pub pop_loop : ℕ → ℕ → List AstNode → List AstNode × List AstNode
unfolding heap_pop height
pop_loop zero desired heap = ([], heap)
pop_loop (suc fuel) desired heap = elim (heap_pop heap) [
  | none ↦ ([], heap)
  | some (m, rest) ↦ elim (height m == desired) [
    | true ↦ let popped = pop_loop fuel desired rest in (m ∷ popped.0, popped.1)
    | false ↦ ([], heap)
  ]
]

unfoldable pub pop : PriorityList → List AstNode × PriorityList
unfolding pop_loop peek_max
pop l = elim (peek_max l) [
  | none ↦ ([], l)
  | some desired ↦
      let popped = pop_loop (length l.heap) desired l.heap in (popped.0, record { heap = popped.1 })
]

unfoldable pub open_node : PriorityList → AstNode → PriorityList
open_node l n = record { heap = children n ++ l.heap }
