-- ===== src/TreeMatcher/PriorityList/Levels.antt =====
-- What leaves the queue together: all trees of the greatest height, and no others.
use mirror_mergiraf.Base.{
  ℕ, zero, suc, ◌+◌, ◌≤◌, ◌<◌, Bool, true, false, ◌==◌, ltb, leb, List, [], ◌∷◌, some, ◌≡◌, refl,
  ap, ◌∙◌, if◌then◌else◌, length, all, arith, Bool-cases, inl, inr,
}
use mirror_mergiraf.Ast.{AstNode, height}
use mirror_mergiraf.TreeMatcher.PriorityList.{
  PriorityList, entry_lt, larger_first, heap_pop, height_of, peek_max, pop_loop, pop,
}

-- The sum of a number over a list.
abbrev pub total : (AstNode → ℕ) → List AstNode → ℕ
total w [] = 0
total w (n ∷ ns) = w n + total w ns

-- `heap_pop` takes one entry of the greatest height, and changes nothing else.
record Pops (xs : List AstNode) (m : AstNode) (rest : List AstNode) : Type 0 where
  same : (w : AstNode → ℕ) → w m + total w rest ≡ total w xs
  size : suc (length rest) ≡ length xs
  greatest : all (λ n. leb (height n) (height m)) xs ≡ true
  others : all (λ n. leb (height n) (height m)) rest ≡ true

all_le_trans :
    (a b : ℕ) (xs : List AstNode)
    → leb a b ≡ true
    → all (λ n. leb (height n) a) xs ≡ true
    → all (λ n. leb (height n) b) xs ≡ true
all_le_trans a b [] h k = refl
all_le_trans a b (x ∷ xs) h k = ground (arith, all_le_trans a b xs)

larger_first-Pops :
    (x : AstNode) (xs : List AstNode) (m : AstNode) (rest : List AstNode)
    → Pops xs m rest
    → (m' : AstNode) × (rest' : List AstNode) × (larger_first x (some (m, rest)) ≡ some (m', rest'))
      × Pops (x ∷ xs) m' rest'
unfolding entry_lt
larger_first-Pops x xs m rest p = elim (Bool-cases (entry_lt m x)) [
  | inl less ↦ (
    x,
    m ∷ rest,
    rw less refl,
    record {
      same = λ w. omega (arith, p.same w);
      size = ap suc p.size;
      greatest =
          ground
            (arith, less, all_le_trans (height m) (height x) xs (ground (arith, less)) p.greatest);
      others =
          ground
            (arith, less, all_le_trans (height m) (height x) rest (ground (arith, less)) p.others);
    },
  )
  | inr not_less ↦ (
    m,
    x ∷ rest,
    rw not_less refl,
    record {
      same = λ w. omega (arith, p.same w);
      size = ap suc p.size;
      greatest = ground (arith, not_less, p.greatest);
      others = ground (arith, not_less, p.others);
    },
  )
]

heap_pop-Pops :
    (x : AstNode) (xs : List AstNode)
    → (m : AstNode) × (rest : List AstNode) × (heap_pop (x ∷ xs) ≡ some (m, rest))
      × Pops (x ∷ xs) m rest
unfolding heap_pop
heap_pop-Pops x [] =
    (x, [], refl, record { same = λ w. refl; size = refl; greatest = ground arith; others = refl })
heap_pop-Pops x (y ∷ ys) =
    let (m, rest, e, p) = heap_pop-Pops y ys in
    let (m', rest', e', p') = larger_first-Pops x (y ∷ ys) m rest p in
    (m', rest', ap (larger_first x) e ∙ e', p')

-- A whole level leaves: what is popped has the desired height, and what stays is lower.
pub record PopsLevel (h : ℕ) (xs popped rest : List AstNode) : Type 0 where
  pub split : (w : AstNode → ℕ) → total w popped + total w rest ≡ total w xs
  pub level : all (λ n. height n == h) popped ≡ true
  pub lower : all (λ n. ltb (height n) h) rest ≡ true

all_lt_of_le :
    (m h : ℕ) (xs : List AstNode)
    → leb m h ≡ true
    → (m == h) ≡ false
    → all (λ n. leb (height n) m) xs ≡ true
    → all (λ n. ltb (height n) h) xs ≡ true
all_lt_of_le m h [] a b k = refl
all_lt_of_le m h (x ∷ xs) a b k = ground (arith, all_lt_of_le m h xs)

-- A round of the loop takes an entry of the desired height; it ends at another.
pop_loop-more :
    (fuel h : ℕ) (xs : List AstNode) (m : AstNode) (rest : List AstNode)
    → heap_pop xs ≡ some (m, rest)
    → (height m == h) ≡ true
    → pop_loop (suc fuel) h xs ≡ (m ∷ (pop_loop fuel h rest).0, (pop_loop fuel h rest).1)
unfolding pop_loop
pop_loop-more fuel h xs m rest e same = rw (e, pop_loop) (rw same)

pop_loop-last :
    (fuel h : ℕ) (xs : List AstNode) (m : AstNode) (rest : List AstNode)
    → heap_pop xs ≡ some (m, rest)
    → (height m == h) ≡ false
    → pop_loop (suc fuel) h xs ≡ ([], xs)
unfolding pop_loop
pop_loop-last fuel h xs m rest e other = rw (e, pop_loop) (rw other)

-- How many entries of a list fail a test.
abbrev fails : (AstNode → Bool) → AstNode → ℕ
fails test n = if test n then 0 else 1

total-fails :
    (test : AstNode → Bool) (xs : List AstNode) → all test xs ≡ true → total (fails test) xs ≡ 0
total-fails test [] h = refl
total-fails test (x ∷ xs) h = ground (arith, total-fails test xs)

all_of_total :
    (test : AstNode → Bool) (xs : List AstNode) → total (fails test) xs ≡ 0 → all test xs ≡ true
all_of_total test [] h = refl
all_of_total test (x ∷ xs) h = ground (arith, all_of_total test xs)

-- What holds of all entries holds of the one that leaves, and of the others.
Pops-all :
    (test : AstNode → Bool) (xs : List AstNode) (m : AstNode) (rest : List AstNode)
    → Pops xs m rest
    → all test xs ≡ true
    → (test m ≡ true) × (all test rest ≡ true)
Pops-all test xs m rest p h =
    let none_fails : fails test m + total (fails test) rest ≡ 0 =
      p.same (fails test) ∙ total-fails test xs h in
    (ground arith, all_of_total test rest (omega arith))

pop_loop-PopsLevel :
    (fuel h : ℕ) (xs : List AstNode)
    → length xs ≤ fuel
    → all (λ n. leb (height n) h) xs ≡ true
    → PopsLevel h xs (pop_loop fuel h xs).0 (pop_loop fuel h xs).1
pop_loop-PopsLevel zero h [] le top =
    unfold pop_loop in record { split = λ w. refl; level = refl; lower = refl }
pop_loop-PopsLevel zero h (x ∷ xs) le top = absurd (omega arith)
pop_loop-PopsLevel (suc fuel) h [] le top =
    unfold pop_loop heap_pop in record { split = λ w. refl; level = refl; lower = refl }
pop_loop-PopsLevel (suc fuel) h (x ∷ xs) le top =
    let (m, rest, e, p) = heap_pop-Pops x xs in
    let (below, below_rest) = Pops-all (λ n. leb (height n) h) (x ∷ xs) m rest p top in
    let ih : PopsLevel h rest (pop_loop fuel h rest).0 (pop_loop fuel h rest).1 =
      pop_loop-PopsLevel fuel h rest (omega (arith, p.size)) below_rest in
    elim (Bool-cases (height m == h)) [
      | inl same ↦ rw (pop_loop-more fuel h (x ∷ xs) m rest e same) (record {
        split = λ w. omega (arith, p.same w, ih.split w);
        level = ground (arith, same, ih.level);
        lower = ih.lower;
      })
      | inr other ↦ rw (pop_loop-last fuel h (x ∷ xs) m rest e other) (record {
        split = λ w. omega arith;
        level = refl;
        lower = all_lt_of_le (height m) h (x ∷ xs) below other p.greatest;
      })
    ]

pop_at :
    (l : PriorityList) (h : ℕ)
    → peek_max l ≡ some h
    → pop l ≡ (
      (pop_loop (length l.heap) h l.heap).0,
      record { heap = (pop_loop (length l.heap) h l.heap).1 },
    )
unfolding pop
pop_at l h e = rw (e, pop)

-- A queue that is not empty has a greatest height. `pop` takes exactly the trees of this height, at
-- least one, in whatever order they joined: all others are lower and stay, and none is lost or made
-- up, so that each weight of the trees adds up to what it was.
pub pop-PopsLevel :
    (x : AstNode) (xs : List AstNode)
    → (h : ℕ) × (peek_max (record { heap = x ∷ xs }) ≡ some h)
      × (all (λ n. leb (height n) h) (x ∷ xs) ≡ true)
      × (0 < length (pop (record { heap = x ∷ xs })).0)
      × PopsLevel h
          (x ∷ xs)
          (pop (record { heap = x ∷ xs })).0
          (pop (record { heap = x ∷ xs })).1.heap
pop-PopsLevel x xs =
    let (m, rest, e, p) = heap_pop-Pops x xs in
    let highest : peek_max (record { heap = x ∷ xs }) ≡ some (height m) =
      unfold peek_max in ap height_of e in
    let one_leaves : 0 < length (pop_loop (length (x ∷ xs)) (height m) (x ∷ xs)).0 =
      rw (pop_loop-more (length xs) (height m) (x ∷ xs) m rest e (ground arith)) (omega arith) in
    (
      height m,
      highest,
      p.greatest,
      rw (pop_at (record { heap = x ∷ xs }) (height m) highest) one_leaves,
      rw (pop_at (record { heap = x ∷ xs }) (height m) highest)
          (pop_loop-PopsLevel (length (x ∷ xs)) (height m) (x ∷ xs) (omega arith) p.greatest),
    )
