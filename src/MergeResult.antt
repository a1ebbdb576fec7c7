-- ===== src/MergeResult.antt =====
-- src/merge_result.rs: a merged output with statistics about its conflicts. The two helpers that store
-- it as an attempt only write files.
use mirror_mergiraf.Base.{ℕ, Bool}
use mirror_mergiraf.Base.Text.{Text}

pub record MergeResult : Type 0 where
  pub contents : Text
  pub conflict_count : ℕ
  pub conflict_mass : ℕ
  pub method : Text
  pub has_additional_issues : Bool
