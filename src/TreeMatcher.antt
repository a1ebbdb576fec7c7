-- ===== src/TreeMatcher.antt =====
-- src/tree_matcher.rs: the matcher of two trees.
pub mod PriorityList
pub mod TopDown
pub mod Linear
pub mod Recovery
pub mod BottomUp
mod Examples
