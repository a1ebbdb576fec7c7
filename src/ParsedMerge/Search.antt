-- ===== src/ParsedMerge/Search.antt =====
-- `ParsedMerge::binary_search`: it ends, without a panic, and decides whether some section holds the
-- range, if the sections stand in order and none is empty.
use mirror_mergiraf.Base.{
  ℕ, zero, suc, ◌+◌, ◌-◌, ◌/◌, ◌≤◌, ◌<◌, Bool, true, false, ◌&&◌, Option, none, some, List, [], ◌∷◌,
  ◌≡◌, refl, if◌then◌else◌, leb, ltb, leb→le, ltb→lt, ==_iff, lt_or_eq_or_gt, ap, ◌==◌, length,
  get_elem?, arith, Bool-cases, inl, inr,
}
use mirror_mergiraf.Base.Run.{Run, done, panicked, out_of_fuel, Returns, Returns-imp}
use mirror_mergiraf.ParsedMerge.{OffsetMap}

-- The test of the loop: the section holds `start .. start + length`.
abbrev pub holds : OffsetMap → ℕ → ℕ → Bool
holds m start n = leb m.rev_start start && leb (start + n) (m.rev_start + m.len)

-- Where the range of a section starts in the merge output.
abbrev pub place : OffsetMap → ℕ → ℕ
place m start = m.merged_start + start - m.rev_start

-- The `while` loop, on the bounds `lo` and `hi` that the source calls `left` and `right`. The fuel
-- bounds the rounds, and each round makes `hi - lo` smaller.
unfoldable pub search_loop : ℕ → List OffsetMap → ℕ → ℕ → ℕ → ℕ → Run (Option ℕ)
search_loop zero slice start n lo hi = out_of_fuel
search_loop (suc fuel) slice start n lo hi = elim (ltb lo hi) [
  | false ↦ done none
  | true ↦
      let guess = (lo + hi) / 2 in
      elim (get_elem? slice guess) [
        | none ↦ panicked
        | some m ↦ elim (holds m start n) [
          | true ↦ done (some (place m start))
          | false ↦ elim (lo + 1 == hi) [
            | true ↦ done none
            | false ↦
                search_loop fuel slice start n (if leb m.rev_start start then guess else lo)
                  (if leb start m.rev_start then guess else hi)
          ]
        ]
      ]
]

unfoldable pub binary_search : List OffsetMap → ℕ → ℕ → Run (Option ℕ)
unfolding search_loop
binary_search slice start n = search_loop (suc (length slice)) slice start n 0 (length slice)

-- The sections stand in order, and none is empty.
pub record IsIndex (slice : List OffsetMap) : Type 0 where
  pub ordered :
      (i j : ℕ) (m n : OffsetMap)
      → get_elem? slice i ≡ some m
      → get_elem? slice j ≡ some n
      → i < j
      → m.rev_start + m.len ≤ n.rev_start
  pub nonempty : (i : ℕ) (m : OffsetMap) → get_elem? slice i ≡ some m → 0 < m.len

-- `p` is the place that some section of the slice gives to the range.
pub record IsPlace (slice : List OffsetMap) (start n p : ℕ) : Type 0 where
  pub index : ℕ
  pub section : OffsetMap
  pub found : get_elem? slice index ≡ some section
  pub held : holds section start n ≡ true
  pub placed : p ≡ place section start

-- What the search answers for the sections from `lo` up to `hi`.
abbrev pub Answers : List OffsetMap → ℕ → ℕ → ℕ → ℕ → Option ℕ → Type 0
Answers slice start n lo hi (some p) = IsPlace slice start n p
Answers slice start n lo hi none =
    (i : ℕ) (m : OffsetMap) → lo ≤ i → i < hi → get_elem? slice i ≡ some m → holds m start n ≡ false

get_elem?_lt {ℓ} :
    {A : Type ℓ} (xs : List A) (i : ℕ) → i < length xs → (a : A) × (get_elem? xs i ≡ some a)
get_elem?_lt [] i h = elim h [ ]
get_elem?_lt (x ∷ xs) zero h = (x, refl)
get_elem?_lt (x ∷ xs) (suc i) h = get_elem?_lt xs i (omega arith)

module _ (slice : List OffsetMap) (start n : ℕ) (index : IsIndex slice) where
  -- A section that holds the range lies in the half that the round keeps.
  kept_lo :
      (g i : ℕ) (mg m : OffsetMap)
      → get_elem? slice g ≡ some mg
      → get_elem? slice i ≡ some m
      → holds mg start n ≡ false
      → holds m start n ≡ true
      → mg.rev_start ≤ start
      → g ≤ i
  kept_lo g i mg m eg ei ng hi le = ground (arith, index.ordered i g m mg ei eg)

  kept_hi :
      (g i : ℕ) (mg m : OffsetMap)
      → get_elem? slice g ≡ some mg
      → get_elem? slice i ≡ some m
      → holds mg start n ≡ false
      → holds m start n ≡ true
      → start ≤ mg.rev_start
      → i < g
  kept_hi g i mg m eg ei ng hi le = elim (lt_or_eq_or_gt i g) [
    | inl lt ↦ lt
    | inr (inl e) ↦ absurd (same_section e)
    | inr (inr gt) ↦
        absurd (ground (arith, index.ordered g i mg m eg ei gt, index.nonempty g mg eg))
  ]
    where
      same_section : i ≡ g → ⊥
      same_section e =
          let same : mg ≡ m = cc in
          let b : holds mg start n ≡ holds m start n = ap (λ s. holds s start n) same in cc

  -- What is answered for the half that is kept holds for the whole.
  Answers-kept :
      (lo hi g : ℕ) (mg : OffsetMap) (o : Option ℕ)
      → get_elem? slice g ≡ some mg
      → holds mg start n ≡ false
      → Answers slice start n
          (if leb mg.rev_start start then g else lo)
          (if leb start mg.rev_start then g else hi)
          o
      → Answers slice start n lo hi o
  Answers-kept lo hi g mg (some p) eg ng a = a
  Answers-kept lo hi g mg none eg ng a = λ i m l h ei. elim (Bool-cases (holds m start n)) [
    | inr nothing ↦ nothing
    | inl held ↦
        a i m
          (elim (Bool-cases (leb mg.rev_start start)) [
            | inl le ↦ rw le (kept_lo g i mg m eg ei ng held (leb→le _ _ le))
            | inr nle ↦ rw nle l
          ])
          (elim (Bool-cases (leb start mg.rev_start)) [
            | inl le ↦ rw le (kept_hi g i mg m eg ei ng held (leb→le _ _ le))
            | inr nle ↦ rw nle h
          ])
          ei
  ]

  -- The loop ends by itself, reads no index out of bounds, and answers for all sections in between.
  search_loop-Answers :
      (fuel lo hi : ℕ)
      → hi ≤ length slice
      → hi - lo < fuel
      → Returns (Answers slice start n lo hi) (search_loop fuel slice start n lo hi)
  unfolding search_loop
  search_loop-Answers zero lo hi bound enough = elim enough [ ]
  search_loop-Answers (suc fuel) lo hi bound enough = elim (Bool-cases (ltb lo hi)) [
    | inr stop ↦ rw (stop, search_loop) (λ i m l h ei. absurd (ground arith))
    | inl more ↦
        let g : ℕ = (lo + hi) / 2 in
        let lt : lo < hi = ltb→lt lo hi more in
        let (mg, eg) = get_elem?_lt slice g (omega arith) in
        rw (more, search_loop, eg, search_loop)
          (elim (Bool-cases (holds mg start n)) [
            | inl held ↦
                rw (held, search_loop)
                  (record { index = g; section = mg; found = eg; held = held; placed = refl })
            | inr ng ↦
                rw (ng, search_loop)
                  (elim (Bool-cases (lo + 1 == hi)) [
                    | inl last ↦
                        rw (last, search_loop)
                          (λ i m l h ei.
                            let at : i ≡ g = omega (arith, (==_iff (lo + 1) hi).0 last) in
                            let same : m ≡ mg = cc in rw same ng)
                    | inr wide ↦
                        rw (wide, search_loop)
                          (Returns-imp _ (λ o. Answers-kept lo hi g mg o eg ng)
                            (search_loop-Answers fuel (if leb mg.rev_start start then g else lo)
                              (if leb start mg.rev_start then g else hi) (ground arith)
                              (ground (arith))))
                  ])
          ])
  ]

-- If the sections stand in order and none is empty, the search returns, without a panic. What it
-- returns is the place that some section gives to the range, and it returns `none` only if no
-- section holds the range.
pub binary_search-Answers :
    (slice : List OffsetMap) (start n : ℕ)
    → IsIndex slice
    → Returns (Answers slice start n 0 (length slice)) (binary_search slice start n)
unfolding binary_search
binary_search-Answers slice start n index =
    search_loop-Answers slice start n index (suc (length slice)) 0 (length slice) (omega arith)
      (omega arith)
