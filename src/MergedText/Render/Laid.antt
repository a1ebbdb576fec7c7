-- ===== src/MergedText/Render/Laid.antt =====
-- Output of which the blocks can be read off, and what the steps of `render_full_lines` do to it.
use mirror_mergiraf.Base.{
  ℕ, ◌+◌, ◌-◌, List, [], ◌∷◌, ◌++◌, ◌≡◌, inr, refl, sym, ap, ◌∙◌, subst, length, take, drop, arith,
  append_assoc, append-nil, drop-append, take-append-drop,
}
use mirror_mergiraf.Base.Text.{Text}
use mirror_mergiraf.Revision.{Revision}
use mirror_mergiraf.Settings.{DisplaySettings}
use mirror_mergiraf.MergedText.Render.{render_conflict, last_line_start}
use mirror_mergiraf.MergedText.Render.Lines.{whole_lines, conflict_lines, render_conflict_lem}
use mirror_mergiraf.MergedText.Render.Blocks.{
  Block, plain, marked, block_in, text_in, print, Erases, keep, join, text_in-append, print-append,
  append_assoc_4, IsLined, conflict_lines-IsLined, last_line_start-append, take-append_add,
}

-- Output of which blocks can be read off: closed ones, whose output ends a line, and then plain text.
-- The buffers hold what is not yet shown of the revisions, whose texts so far are `texts`.
pub record Laid (settings : DisplaySettings) (output : Text) (buffers texts : Revision → Text)
    : Type 0 where
  pub closed : List Block
  pub tail : Text
  pub lined : IsLined (print settings [] closed)
  pub printed : output ≡ print settings [] closed ++ tail
  pub kept : (rev : Revision) → Erases (texts rev) (text_in rev closed ++ (tail ++ buffers rev))

abbrev pub nothing : Revision → Text
nothing rev = []

module _ (settings : DisplaySettings) where
  pub Laid-start : Laid settings [] nothing nothing
  Laid-start = record {
    closed = [];
    tail = [];
    lined = inr refl;
    printed = refl;
    kept = λ rev. keep [];
  }

  -- Text that is not shown yet.
  pub Laid-gather :
      (output : Text) (buffers texts more shown : Revision → Text)
      → ((rev : Revision) → Erases (more rev) (shown rev))
      → Laid settings output buffers texts
      → Laid settings output (λ rev. buffers rev ++ shown rev) (λ rev. texts rev ++ more rev)
  Laid-gather output buffers texts more shown e l = record {
    closed = l.closed;
    tail = l.tail;
    lined = l.lined;
    printed = l.printed;
    kept = λ rev.
        subst (Erases (texts rev ++ more rev))
          (append_assoc_4 (text_in rev l.closed) l.tail (buffers rev) (shown rev))
          (join (l.kept rev) (e rev));
  }

  -- Text that is shown as it is.
  pub Laid-show :
      (output shown : Text) (texts more : Revision → Text)
      → ((rev : Revision) → Erases (more rev) shown)
      → Laid settings output nothing texts
      → Laid settings (output ++ shown) nothing (λ rev. texts rev ++ more rev)
  Laid-show output shown texts more e l = record {
    closed = l.closed;
    tail = l.tail ++ shown;
    lined = l.lined;
    printed =
        ap (λ s. s ++ shown) l.printed ∙ append_assoc (print settings [] l.closed) l.tail shown;
    kept = λ rev.
        subst (Erases (texts rev ++ more rev))
          (append_assoc_4 (text_in rev l.closed) l.tail [] shown
            ∙ ap (λ s. text_in rev l.closed ++ s) (sym (append-nil (l.tail ++ shown))))
          (join (l.kept rev) (e rev));
  }

  -- The buffers are shown as a conflict.
  pub Laid-flush :
      (output : Text) (buffers texts : Revision → Text)
      → Laid settings output buffers texts
      → Laid settings
          (render_conflict settings
            (buffers Revision.base)
            (buffers Revision.left)
            (buffers Revision.right)
            output)
          nothing
          texts
  Laid-flush output buffers texts l = record {
    closed = l.closed ++ (plain l.tail ∷ marked b m r ∷ []);
    tail = [];
    lined =
        subst IsLined (sym printed')
          (conflict_lines-IsLined settings b m r (print settings [] l.closed ++ l.tail));
    printed =
        ap (render_conflict settings b m r) l.printed
        ∙ render_conflict_lem settings b m r (print settings [] l.closed ++ l.tail)
        ∙ sym printed'
        ∙ sym (append-nil _);
    kept = λ rev. subst (Erases (texts rev)) (kept' rev) (l.kept rev);
  }
    where
      b : Text
      b = buffers Revision.base

      m : Text
      m = buffers Revision.left

      r : Text
      r = buffers Revision.right

      printed' :
          print settings [] (l.closed ++ (plain l.tail ∷ marked b m r ∷ []))
          ≡ whole_lines (print settings [] l.closed ++ l.tail) ++ conflict_lines settings b m r
      printed' = print-append settings [] l.closed (plain l.tail ∷ marked b m r ∷ [])

      side : (rev : Revision) → block_in rev (marked b m r) ≡ buffers rev
      side Revision.base = refl
      side Revision.left = refl
      side Revision.right = refl

      kept' :
          (rev : Revision)
          → text_in rev l.closed ++ (l.tail ++ buffers rev)
            ≡ text_in rev (l.closed ++ (plain l.tail ∷ marked b m r ∷ [])) ++ ([] ++ [])
      kept' rev =
          ap (λ s. text_in rev l.closed ++ (l.tail ++ s)) (sym (side rev) ∙ sym (append-nil _))
          ∙ sym (text_in-append rev l.closed (plain l.tail ∷ marked b m r ∷ []))
          ∙ sym (append-nil _)

  -- The unfinished last line is taken out of the output, for each revision alike.
  pub Laid-take_line :
      (output : Text) (texts : Revision → Text)
      → Laid settings output nothing texts
      → Laid settings
          (take (last_line_start output) output)
          (λ _. drop (last_line_start output) output)
          texts
  Laid-take_line output texts l = rw l.printed (record {
    closed = l.closed;
    tail = take k l.tail;
    lined = l.lined;
    printed = ap (λ m. take m whole) at_k ∙ take-append_add head l.tail k;
    kept = λ rev. subst (λ u. Erases (texts rev) (text_in rev l.closed ++ u)) rejoin (l.kept rev);
  })
    where
      head : Text
      head = print settings [] l.closed

      k : ℕ
      k = last_line_start (head ++ l.tail) - length head

      whole : Text
      whole = head ++ l.tail

      at_k : last_line_start whole ≡ length head + k
      at_k = omega (arith, last_line_start-append head l.tail l.lined)

      rejoin : l.tail ++ [] ≡ take k l.tail ++ drop (last_line_start whole) whole
      rejoin =
          append-nil l.tail
          ∙ sym (take-append-drop k l.tail)
          ∙ ap (λ u. take k l.tail ++ u)
              (sym (ap (λ m. drop m whole) at_k ∙ drop-append head l.tail k))
