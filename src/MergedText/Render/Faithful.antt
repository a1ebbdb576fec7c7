-- ===== src/MergedText/Render/Faithful.antt =====
-- `render_full_lines` is faithful: its output can be read as blocks, and of each revision nothing but
-- white space is missing in them.
use mirror_mergiraf.Base.{
  ==_iff, true, false, ◌&&◌, ◌||◌, not, some, List, [], ◌∷◌, ◌++◌, ◌≡◌, inl, inr, refl, sym, ap,
  ◌∙◌, subst, if◌then◌else◌, ◌==◌, foldl, map, take, drop, arith, append_assoc, append-nil,
  Bool-cases, Option-cases,
}
use mirror_mergiraf.Base.Text.{Text, lf, is_empty, is_blank, ends_with, split_once}
use mirror_mergiraf.Revision.{Revision}
use mirror_mergiraf.Settings.{DisplaySettings}
use mirror_mergiraf.MergedText.{
  MergeSection, merged, conflict, MergedText, section_in, concat, reconstruct_revision,
}
use mirror_mergiraf.MergedText.Render.{
  Rendering, no_output, flush, gather_merged, push_blank, last_line_start, start_conflict,
  is_complete, push_sides, close_conflict, render_section, finish, render_full_lines,
}
use mirror_mergiraf.MergedText.Render.Blocks.{
  Block, plain, text_in, print, Erases, keep, drop_blank, join, text_in-append, print-append,
}
use mirror_mergiraf.MergedText.Render.Laid.{
  Laid, nothing, Laid-start, Laid-gather, Laid-show, Laid-flush, Laid-take_line,
}

abbrev buffer : Rendering → Revision → Text
buffer s Revision.base = s.base_buffer
buffer s Revision.left = s.left_buffer
buffer s Revision.right = s.right_buffer

-- What the loop holds back: the buffers, while a conflict is gathered.
abbrev pending : Rendering → Revision → Text
pending s rev = if s.gathering_conflict then buffer s rev else []

module _ (settings : DisplaySettings) where
  Laid-ext :
      (output : Text) (buffers buffers' texts texts' : Revision → Text)
      → ((rev : Revision) → buffers rev ≡ buffers' rev)
      → ((rev : Revision) → texts rev ≡ texts' rev)
      → Laid settings output buffers texts
      → Laid settings output buffers' texts'
  Laid-ext output buffers buffers' texts texts' e f l = record {
    closed = l.closed;
    tail = l.tail;
    lined = l.lined;
    printed = l.printed;
    kept = λ rev.
        subst (λ t. Erases t (text_in rev l.closed ++ (l.tail ++ buffers' rev))) (f rev)
          (subst (λ b. Erases (texts rev) (text_in rev l.closed ++ (l.tail ++ b))) (e rev)
            (l.kept rev));
  }

  abbrev Renders : Rendering → (Revision → Text) → Type 0
  Renders s texts = Laid settings s.output (pending s) texts

  -- A conflict whose sides are in the buffers.
  close_conflict-Renders :
      (s : Rendering) (texts : Revision → Text)
      → Laid settings s.output (buffer s) texts
      → Renders (close_conflict settings s) texts
  unfolding close_conflict flush
  close_conflict-Renders s texts l =
      elim (Bool-cases
        (is_complete s.base_buffer && is_complete s.left_buffer && is_complete s.right_buffer)) [
          | inl closes ↦ rw closes (Laid-flush settings s.output (buffer s) texts l)
          | inr stays ↦ rw stays (
              Laid-ext s.output (buffer s) _ texts texts
                (elim [ Revision.base ↦ refl | Revision.left ↦ refl | Revision.right ↦ refl ])
                (λ _. refl) l)
        ]

  start_conflict-Renders :
      (s : Rendering) (texts : Revision → Text)
      → Laid settings s.output nothing texts
      → Laid settings (start_conflict s).output (buffer (start_conflict s)) texts
  unfolding start_conflict
  start_conflict-Renders s texts l =
      elim (Bool-cases (ends_with lf s.output || is_empty s.output)) [
        | inl whole ↦ rw whole (
            Laid-ext s.output nothing _ texts texts
              (elim [ Revision.base ↦ refl | Revision.left ↦ refl | Revision.right ↦ refl ])
              (λ _. refl) l)
        | inr part ↦ rw part (
            Laid-ext (take (last_line_start s.output) s.output)
              (λ _. drop (last_line_start s.output) s.output) _ texts texts
              (elim [ Revision.base ↦ refl | Revision.left ↦ refl | Revision.right ↦ refl ])
              (λ _. refl) (Laid-take_line settings s.output texts l))
      ]

  push_sides-Renders :
      (s : Rendering) (texts : Revision → Text) (base left right : Text)
      → Laid settings s.output (buffer s) texts
      → Laid settings
          (push_sides s base left right).output
          (buffer (push_sides s base left right))
          (λ rev. texts rev ++ section_in rev (conflict base left right))
  push_sides-Renders s texts base left right l =
      Laid-ext s.output (λ rev. buffer s rev ++ section_in rev (conflict base left right)) _ _ _
        (elim [ Revision.base ↦ refl | Revision.left ↦ refl | Revision.right ↦ refl ]) (λ _. refl)
        (Laid-gather settings s.output (buffer s) texts
          (λ rev. section_in rev (conflict base left right))
          (λ rev. section_in rev (conflict base left right))
          (λ rev. keep (section_in rev (conflict base left right))) l)

  split_once-append : (t a rest : Text) → split_once lf t ≡ some (a, rest) → t ≡ a ++ lf ∷ rest
  unfolding split_once
  split_once-append [] a rest h = absurd (ground arith)
  split_once-append (x ∷ t) a rest h = elim (Bool-cases (x == lf)) [
    | inl here ↦ ground (arith, (==_iff x lf).0 here)
    | inr later ↦ elim (Option-cases (split_once lf t)) [
      | inl e ↦ absurd (ground arith)
      | inr ((b, c), e) ↦ ground (arith, split_once-append t b c e)
    ]
  ]

  -- What `push_blank` appends.
  abbrev unless_blank : Text → Text → Text
  unless_blank buffer contents = if not (is_blank buffer) then contents else []

  push_blank_lem :
      (buffer contents : Text) → buffer ++ unless_blank buffer contents ≡ push_blank buffer contents
  unfolding push_blank
  push_blank_lem buffer contents = elim (Bool-cases (is_blank buffer)) [
    | inl blank ↦ rw blank (append-nil buffer)
    | inr text ↦ rw text
  ]

  unless_blank-Erases :
      (buffer contents : Text)
      → is_blank contents ≡ true
      → Erases contents (unless_blank buffer contents)
  unless_blank-Erases buffer contents blank = elim (Bool-cases (is_blank buffer)) [
    | inl none_there ↦ rw none_there (drop_blank contents blank)
    | inr text ↦ rw text (keep contents)
  ]

  gather_merged-Renders :
      (s : Rendering) (texts : Revision → Text) (contents : Text)
      → s.gathering_conflict ≡ true
      → Laid settings s.output (buffer s) texts
      → Renders (gather_merged settings s contents) (λ rev. texts rev ++ contents)
  unfolding gather_merged flush push_blank
  gather_merged-Renders s texts contents on l = elim (Option-cases (split_once lf contents)) [
    | inr ((a, rest), e) ↦
        rw (e, gather_merged)
          (Laid-ext _ nothing _ (λ rev. (texts rev ++ a) ++ lf ∷ rest)
            (λ rev. texts rev ++ contents) (λ _. refl)
            (λ rev.
              append_assoc (texts rev) a (lf ∷ rest)
              ∙ ap (λ u. texts rev ++ u) (sym (split_once-append contents a rest e)))
            (Laid-show settings _ rest (λ rev. texts rev ++ a) (λ _. lf ∷ rest)
              (λ _. join (drop_blank (lf ∷ []) refl) (keep rest))
              (Laid-flush settings s.output (λ rev. buffer s rev ++ a) (λ rev. texts rev ++ a)
                (Laid-gather settings s.output (buffer s) texts (λ _. a) (λ _. a) (λ _. keep a)
                  l))))
    | inl e ↦ elim (Bool-cases (is_blank contents)) [
      | inl blank ↦
          rw (e, gather_merged, blank)
            (Laid-ext s.output (λ rev. buffer s rev ++ unless_blank (buffer s rev) contents) _ _ _
              (elim [
                | Revision.base ↦ rw on (push_blank_lem s.base_buffer contents)
                | Revision.left ↦ rw on (push_blank_lem s.left_buffer contents)
                | Revision.right ↦ rw on (push_blank_lem s.right_buffer contents)
              ])
              (λ _. refl)
              (Laid-gather settings s.output (buffer s) texts (λ _. contents)
                (λ rev. unless_blank (buffer s rev) contents)
                (λ rev. unless_blank-Erases (buffer s rev) contents blank) l))
      | inr text ↦
          rw (e, gather_merged, text)
            (Laid-ext s.output (λ rev. buffer s rev ++ contents) _ _ _
              (elim [ Revision.base ↦ rw on | Revision.left ↦ rw on | Revision.right ↦ rw on ])
              (λ _. refl)
              (Laid-gather settings s.output (buffer s) texts (λ _. contents) (λ _. contents)
                (λ _. keep contents) l))
    ]
  ]

  -- While no conflict is gathered nothing is held back; otherwise the buffers are.
  pending_off :
      (s : Rendering) (texts : Revision → Text)
      → s.gathering_conflict ≡ false
      → Renders s texts
      → Laid settings s.output nothing texts
  pending_off s texts off l =
      Laid-ext s.output (pending s) nothing texts texts (λ rev. rw off) (λ _. refl) l

  pending_on :
      (s : Rendering) (texts : Revision → Text)
      → s.gathering_conflict ≡ true
      → Renders s texts
      → Laid settings s.output (buffer s) texts
  pending_on s texts on l =
      Laid-ext s.output (pending s) (buffer s) texts texts (λ rev. rw on) (λ _. refl) l

  render_section-Renders :
      (s : Rendering) (texts : Revision → Text) (section : MergeSection)
      → Renders s texts
      → Renders (render_section settings s section) (λ rev. texts rev ++ section_in rev section)
  unfolding render_section close_conflict flush
  render_section-Renders s texts (merged contents) l = elim (Bool-cases s.gathering_conflict) [
    | inl on ↦ simp on (gather_merged-Renders s texts contents on (pending_on s texts on l))
    | inr off ↦ simp off (
        Laid-show settings s.output contents texts (λ _. contents) (λ _. keep contents)
          (pending_off s texts off l))
  ]
  render_section-Renders s texts (conflict base left right) l =
      elim (Bool-cases s.gathering_conflict) [
        | inl on ↦ simp on (
            close_conflict-Renders (push_sides s base left right) _
              (push_sides-Renders s texts base left right (pending_on s texts on l)))
        | inr off ↦ simp off (
            close_conflict-Renders (push_sides (start_conflict s) base left right) _ (
              push_sides-Renders (start_conflict s) texts base left right
                (start_conflict-Renders s texts (pending_off s texts off l))))
      ]

  render_sections-Renders :
      (sections : MergedText) (s : Rendering) (texts : Revision → Text)
      → Renders s texts
      → Renders
          (foldl (render_section settings) s sections)
          (λ rev. texts rev ++ reconstruct_revision sections rev)
  unfolding reconstruct_revision
  render_sections-Renders [] s texts l =
      Laid-ext s.output (pending s) (pending s) texts _ (λ _. refl)
        (λ rev. sym (append-nil (texts rev))) l
  render_sections-Renders (section ∷ sections) s texts l =
      let s' : Rendering =
        foldl (render_section settings) (render_section settings s section) sections in
      Laid-ext s'.output (pending s') (pending s') _ _ (λ _. refl)
        (λ rev.
          append_assoc (texts rev) (section_in rev section)
            (concat (map (section_in rev) sections)))
        (render_sections-Renders sections (render_section settings s section)
          (λ rev. texts rev ++ section_in rev section) (render_section-Renders s texts section l))

  finish-Renders :
      (s : Rendering) (texts : Revision → Text)
      → Renders s texts
      → Laid settings (finish settings s) nothing texts
  unfolding finish flush
  finish-Renders s texts l = elim (Bool-cases s.gathering_conflict) [
    | inl on ↦ simp on (Laid-flush settings s.output (buffer s) texts (pending_on s texts on l))
    | inr off ↦ simp off (pending_off s texts off l)
  ]

  -- The full display of a merged text consists of plain text and of conflicts, each on lines of its own:
  -- the left side, with diff3 the base, and the right side, each after its own marker. The plain texts
  -- and these sides together have every revision that is reconstructed from the merged text, but for
  -- some white space: nothing else of it is left out. (Without diff3 the base of a conflict is not
  -- printed.)
  pub render_full_lines-Erases :
      (sections : MergedText)
      → (blocks : List Block) × (render_full_lines settings sections ≡ print settings [] blocks)
        × ((rev : Revision) → Erases (reconstruct_revision sections rev) (text_in rev blocks))
  unfolding render_full_lines
  render_full_lines-Erases sections =
      let s : Rendering = foldl (render_section settings) no_output sections in
      let l =
        finish-Renders s _
          (render_sections-Renders sections no_output nothing (Laid-start settings)) in
      (
        l.closed ++ plain l.tail ∷ [],
        l.printed ∙ sym (print-append settings [] l.closed (plain l.tail ∷ [])),
        λ rev.
            subst (Erases (reconstruct_revision sections rev))
              (sym (text_in-append rev l.closed (plain l.tail ∷ []))) (l.kept rev),
      )
