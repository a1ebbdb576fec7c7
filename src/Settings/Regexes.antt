-- ===== src/Settings/Regexes.antt =====
-- The invariant that src/settings.rs states: the expressions are those for the marker size in force.
use mirror_mergiraf.Base.{
  ℕ, Bool, Option, ◌==◌, ==_iff, ==_refl, ◌≡◌, refl, ap, ◌∙◌, arith, Bool-cases, inl, inr,
  unwrap_or,
}
use mirror_mergiraf.Base.Run.{done}
use mirror_mergiraf.Base.Text.{Text}
use mirror_mergiraf.ParsedMerge.{ParsedMerge}
use mirror_mergiraf.ParsedMerge.Parse.{ConflictRegexes}
use mirror_mergiraf.Settings.{
  DisplaySettings, SizedRegexes, default_conflict_marker_size, conflict_marker_size_or_default,
  conflict_regexes, calculate_regexes, new, default, default_compact, set_conflict_marker_size,
  add_revision_names,
}

module _ (compile : ℕ → ConflictRegexes) where
  abbrev pub IsConsistent : DisplaySettings → Type 0
  IsConsistent s =
      s.conflict_regexes ≡ calculate_regexes compile (conflict_marker_size_or_default s)

  -- The constructor establishes the invariant, and both mutators keep it.
  pub new-IsConsistent :
      (compact : Option Bool) (size : Option ℕ) (base_name left_name right_name : Option Text)
      → IsConsistent (new compile compact size base_name left_name right_name)
  unfolding new conflict_marker_size_or_default
  new-IsConsistent compact size base_name left_name right_name = refl

  pub set_conflict_marker_size-IsConsistent :
      (s : DisplaySettings) (size : ℕ)
      → IsConsistent s
      → IsConsistent (set_conflict_marker_size compile s size)
  unfolding set_conflict_marker_size conflict_marker_size_or_default
  set_conflict_marker_size-IsConsistent s size h =
      elim (Bool-cases (unwrap_or s.conflict_marker_size default_conflict_marker_size == size)) [
        | inl same ↦ rw same (h ∙ ap (calculate_regexes compile) ((==_iff _ size).0 same))
        | inr other ↦ rw other
      ]

  pub add_revision_names-IsConsistent :
      (s : DisplaySettings) (pm : ParsedMerge)
      → IsConsistent s
      → IsConsistent (add_revision_names s pm)
  unfolding add_revision_names conflict_marker_size_or_default
  add_revision_names-IsConsistent s pm h = ground arith

  -- The settings that the program can make: the constructors, changes of the marker size, revision names
  -- of parsed files, and writes to the public fields.
  pub data Built : DisplaySettings → Type 0 where
    constructed :
        (compact : Option Bool) (size : Option ℕ) (base_name left_name right_name : Option Text)
        → Built (new compile compact size base_name left_name right_name)
    by_default : Built (default compile)
    compact_by_default : Built (default_compact compile)
    resized :
        {s : DisplaySettings} (size : ℕ) → Built s → Built (set_conflict_marker_size compile s size)
    named : {s : DisplaySettings} (pm : ParsedMerge) → Built s → Built (add_revision_names s pm)
    written :
        {s : DisplaySettings} (diff3 : Bool) (compact : Option Bool)
        (base_name left_name right_name : Option Text)
        → Built s
        → Built (record s {
          diff3 = diff3;
          compact = compact;
          base_revision_name = base_name;
          left_revision_name = left_name;
          right_revision_name = right_name;
        })

  Built-IsConsistent : {s : DisplaySettings} → Built s → IsConsistent s
  unfolding default default_compact new conflict_marker_size_or_default
  Built-IsConsistent (constructed compact size base_name left_name right_name) = refl
  Built-IsConsistent by_default = refl
  Built-IsConsistent compact_by_default = refl
  Built-IsConsistent (resized size b) =
      set_conflict_marker_size-IsConsistent _ size (Built-IsConsistent b)
  Built-IsConsistent (named pm b) = add_revision_names-IsConsistent _ pm (Built-IsConsistent b)
  Built-IsConsistent (written diff3 compact base_name left_name right_name b) = Built-IsConsistent b

  of_consistent :
      (s : DisplaySettings)
      → IsConsistent s
      → conflict_regexes s ≡ done (compile (conflict_marker_size_or_default s))
  unfolding conflict_regexes calculate_regexes
  of_consistent s h =
      let size : s.conflict_regexes.marker_size ≡ conflict_marker_size_or_default s =
        ap (λ (r : SizedRegexes). r.marker_size) h in
      let regexes : s.conflict_regexes.regexes ≡ compile (conflict_marker_size_or_default s) =
        ap (λ (r : SizedRegexes). r.regexes) h in
      rw (size, ==_refl (conflict_marker_size_or_default s)) (ap done regexes)

  -- However settings are made by the constructors, by changes of the marker size, by revision names of
  -- parsed files and by writes to the public fields, the assertion in `conflict_regexes` does not fail, and it
  -- returns the expressions for the marker size that is in force.
  pub conflict_regexes_lem :
      {s : DisplaySettings}
      → Built s
      → conflict_regexes s ≡ done (compile (conflict_marker_size_or_default s))
  conflict_regexes_lem b = of_consistent _ (Built-IsConsistent b)
