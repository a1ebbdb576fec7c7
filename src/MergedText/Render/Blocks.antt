-- ===== src/MergedText/Render/Blocks.antt =====
-- What `render_full_lines` shows, as a list of blocks: plain text, and conflicts. Of each revision
-- nothing but white space is left out.
use mirror_mergiraf.Base.{
  ℕ, suc, ◌+◌, ◌≤◌, true, some, List, [], ◌∷◌, ◌++◌, ◌≡◌, ◌⊎◌, inl, inr, refl, sym, ap, ◌∙◌, map,
  length, take, arith, append_assoc, Option-cases,
}
use native.Mathlib.Nat.{zero-add, suc-add}
use mirror_mergiraf.Base.Text.{Text, lf, is_blank, ends_with, rfind}
use mirror_mergiraf.Revision.{Revision}
use mirror_mergiraf.Settings.{DisplaySettings}
use mirror_mergiraf.MergedText.{concat}
use mirror_mergiraf.MergedText.Render.{last_line_start}
use mirror_mergiraf.MergedText.Render.Lines.{
  whole_lines, conflict_lines, render_conflict_lem, ends_with-render_conflict,
}

-- A part of the output: text as it is, or a conflict of base, left and right.
pub data Block : Type 0 where
  plain : Text → Block
  marked : Text → Text → Text → Block

abbrev pub block_in : Revision → Block → Text
block_in rev (plain t) = t
block_in Revision.base (marked base left right) = base
block_in Revision.left (marked base left right) = left
block_in Revision.right (marked base left right) = right

abbrev pub text_in : Revision → List Block → Text
text_in rev blocks = concat (map (block_in rev) blocks)

-- The output for some blocks, after some output: a conflict begins on a line of its own.
abbrev pub print : DisplaySettings → Text → List Block → Text
print settings output [] = output
print settings output (plain t ∷ blocks) = print settings (output ++ t) blocks
print settings output (marked base left right ∷ blocks) =
    print settings (whole_lines output ++ conflict_lines settings base left right) blocks

-- The second text is the first one without some pieces of white space.
pub data Erases : Text → Text → Type 0 where
  keep : (t : Text) → Erases t t
  drop_blank : (t : Text) → is_blank t ≡ true → Erases t []
  join : {t t' u u' : Text} → Erases t t' → Erases u u' → Erases (t ++ u) (t' ++ u')

concat-append : (xs ys : List Text) → concat (xs ++ ys) ≡ concat xs ++ concat ys
concat-append [] ys = refl
concat-append (x ∷ xs) ys = rw (concat-append xs ys) (sym (append_assoc x (concat xs) (concat ys)))

pub text_in-append :
    (rev : Revision) (bs cs : List Block)
    → text_in rev (bs ++ cs) ≡ text_in rev bs ++ text_in rev cs
text_in-append rev [] cs = refl
text_in-append rev (b ∷ bs) cs =
    rw (text_in-append rev bs cs)
      (sym (append_assoc (block_in rev b) (text_in rev bs) (text_in rev cs)))

pub print-append :
    (settings : DisplaySettings) (output : Text) (bs cs : List Block)
    → print settings output (bs ++ cs) ≡ print settings (print settings output bs) cs
print-append settings output [] cs = refl
print-append settings output (plain t ∷ bs) cs = print-append settings (output ++ t) bs cs
print-append settings output (marked b l r ∷ bs) cs =
    print-append settings (whole_lines output ++ conflict_lines settings b l r) bs cs

pub append_assoc_4 : (a b c d : Text) → (a ++ (b ++ c)) ++ d ≡ a ++ (b ++ (c ++ d))
append_assoc_4 a b c d = append_assoc a (b ++ c) d ∙ ap (λ s. a ++ s) (append_assoc b c d)

-- A text that ends a line, or is empty.
abbrev pub IsLined : Text → Type 0
IsLined t = (ends_with lf t ≡ true) ⊎ (t ≡ [])

pub conflict_lines-IsLined :
    (settings : DisplaySettings) (base left right output : Text)
    → IsLined (whole_lines output ++ conflict_lines settings base left right)
conflict_lines-IsLined settings base left right output = inl (
    ap (ends_with lf) (sym (render_conflict_lem settings base left right output))
    ∙ ends_with-render_conflict settings base left right output)

-- The last newline of a text that begins with whole lines is not before their end.
rfind-append :
    (head tail : Text)
    → ends_with lf head ≡ true
    → (i : ℕ) × (rfind lf (head ++ tail) ≡ some i) × (length head ≤ i + 1)
unfolding rfind
rfind-append [] tail h = absurd (ground arith)
rfind-append (x ∷ []) tail h = elim (Option-cases (rfind lf tail)) [
  | inl e ↦ (0, ground arith, omega arith)
  | inr (i, e) ↦ (suc i, ground arith, omega arith)
]
rfind-append (x ∷ y ∷ t) tail h =
    let (i, e, le) = rfind-append (y ∷ t) tail h in (suc i, rw (e, rfind), omega arith)

pub last_line_start-append :
    (head tail : Text) → IsLined head → length head ≤ last_line_start (head ++ tail)
unfolding last_line_start
last_line_start-append head tail (inl h) =
    let (i, e, le) = rfind-append head tail h in rw (e, last_line_start) le
last_line_start-append head tail (inr h) = rw h (omega arith)

pub take-append_add : (xs ys : Text) (n : ℕ) → take (length xs + n) (xs ++ ys) ≡ xs ++ take n ys
take-append_add [] ys n = ap (λ m. take m ys) (zero-add n)
take-append_add (x ∷ xs) ys n =
    ap (λ m. take m (x ∷ xs ++ ys)) (suc-add (length xs) n) ∙ ap (x ∷◌) (take-append_add xs ys n)
