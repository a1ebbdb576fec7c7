-- ===== src/Pcs.antt =====
-- src/pcs.rs: the triples that encode the structure of trees, and `RevNode` and `Leader` of
-- src/class_mapping.rs, their nodes.
pub mod Equality
use mirror_mergiraf.Base.{ℕ, Bool, true, false, ◌&&◌, ◌≡◌, refl, ◌==◌, ==_iff, arith, ◌∙◌, ap, sym}
use mirror_mergiraf.Revision.{Revision, rev_eq, rev_eq_refl, eq_of_rev_eq}
use mirror_mergiraf.RevisionSet.{RevisionSet, RevisionNeSet}
use mirror_mergiraf.Ast.{AstNode, info}

pub record RevNode : Type 0 where
  pub rev : Revision
  pub node : AstNode

-- Nodes of one revision are compared by their ids.
unfoldable pub rev_node_eq : RevNode → RevNode → Bool
rev_node_eq a b = rev_eq a.rev b.rev && (info a.node).id == (info b.node).id

-- `Leader` wraps a `RevNode`.
abbrev pub Leader : Type 0
Leader = RevNode

abbrev flag_eq : Bool → Bool → Bool
flag_eq true b = b
flag_eq false true = false
flag_eq false false = true

unfoldable pub set_eq : RevisionSet → RevisionSet → Bool
set_eq s t = flag_eq s.base t.base && flag_eq s.left t.left && flag_eq s.right t.right

pub data PcsNode : Type 0 where
  virtual_root left_marker : PcsNode
  node : RevisionNeSet → Leader → PcsNode
  right_marker : PcsNode

unfoldable pub pcs_node_eq : PcsNode → PcsNode → Bool
pcs_node_eq virtual_root virtual_root = true
pcs_node_eq left_marker left_marker = true
pcs_node_eq right_marker right_marker = true
pcs_node_eq (node s a) (node t b) = set_eq s.revisions t.revisions && rev_node_eq a b
pcs_node_eq _ _ = false

pub record Pcs : Type 0 where
  pub parent : PcsNode
  pub predecessor : PcsNode
  pub successor : PcsNode
  pub revision : Revision

-- The revision is not compared.
unfoldable pub pcs_eq : Pcs → Pcs → Bool
pcs_eq p q =
    pcs_node_eq p.parent q.parent
    && pcs_node_eq p.predecessor q.predecessor
    && pcs_node_eq p.successor q.successor
