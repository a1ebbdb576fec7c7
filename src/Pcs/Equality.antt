-- ===== src/Pcs/Equality.antt =====
-- The equalities of src/pcs.rs and src/class_mapping.rs are equivalences.
use mirror_mergiraf.Base.{true, ◌≡◌, refl, arith}
use mirror_mergiraf.Base.HashMap.{Eq}
use mirror_mergiraf.Revision.{Revision, rev_eq, rev_eq_refl}
use mirror_mergiraf.RevisionSet.{RevisionSet}
use mirror_mergiraf.Pcs.{
  RevNode, rev_node_eq, set_eq, PcsNode, virtual_root, left_marker, node, right_marker, pcs_node_eq,
  Pcs, pcs_eq,
}

pub rev_node_eq_refl : (a : RevNode) → rev_node_eq a a ≡ true
unfolding rev_node_eq
rev_node_eq_refl a = ground (arith, rev_eq_refl a.rev)

pub rev_eq_sym : (r s : Revision) → rev_eq r s ≡ true → rev_eq s r ≡ true
rev_eq_sym r s h = ground arith

pub rev_node_eq_sym : (a b : RevNode) → rev_node_eq a b ≡ true → rev_node_eq b a ≡ true
unfolding rev_node_eq
rev_node_eq_sym a b h = ground (arith, rev_eq_sym a.rev b.rev)

pub rev_eq_trans : (r s t : Revision) → rev_eq r s ≡ true → rev_eq s t ≡ true → rev_eq r t ≡ true
rev_eq_trans r s t h k = ground arith

pub rev_node_eq_trans :
    (a b c : RevNode) → rev_node_eq a b ≡ true → rev_node_eq b c ≡ true → rev_node_eq a c ≡ true
unfolding rev_node_eq
rev_node_eq_trans a b c h k = ground (arith, rev_eq_trans a.rev b.rev c.rev)

instance unfoldable pub rev_node_Eq : Eq RevNode
rev_node_Eq = record {
  beq = rev_node_eq;
  beq_refl = rev_node_eq_refl;
  beq_sym = rev_node_eq_sym;
  beq_trans = rev_node_eq_trans;
}

pub set_eq_refl : (s : RevisionSet) → set_eq s s ≡ true
unfolding set_eq
set_eq_refl s = ground arith

pub set_eq_sym : (s t : RevisionSet) → set_eq s t ≡ true → set_eq t s ≡ true
unfolding set_eq
set_eq_sym s t h = ground arith

pub set_eq_trans : (s t u : RevisionSet) → set_eq s t ≡ true → set_eq t u ≡ true → set_eq s u ≡ true
unfolding set_eq
set_eq_trans s t u h k = ground arith

pub pcs_node_eq_refl : (a : PcsNode) → pcs_node_eq a a ≡ true
unfolding pcs_node_eq
pcs_node_eq_refl virtual_root = refl
pcs_node_eq_refl left_marker = refl
pcs_node_eq_refl right_marker = refl
pcs_node_eq_refl (node s a) = ground (arith, set_eq_refl s.revisions, rev_node_eq_refl a)

pub pcs_node_eq_sym : (a b : PcsNode) → pcs_node_eq a b ≡ true → pcs_node_eq b a ≡ true
unfolding pcs_node_eq
pcs_node_eq_sym virtual_root virtual_root h = refl
pcs_node_eq_sym left_marker left_marker h = refl
pcs_node_eq_sym right_marker right_marker h = refl
pcs_node_eq_sym (node s a) (node t b) h =
    ground (arith, set_eq_sym s.revisions t.revisions, rev_node_eq_sym a b)
pcs_node_eq_sym _ _ h = absurd (ground arith)

pub pcs_node_eq_trans :
    (a b c : PcsNode) → pcs_node_eq a b ≡ true → pcs_node_eq b c ≡ true → pcs_node_eq a c ≡ true
unfolding pcs_node_eq
pcs_node_eq_trans virtual_root virtual_root c h k = k
pcs_node_eq_trans left_marker left_marker c h k = k
pcs_node_eq_trans right_marker right_marker c h k = k
pcs_node_eq_trans (node s a) (node t b) (node u c) h k =
    ground (arith, set_eq_trans s.revisions t.revisions u.revisions, rev_node_eq_trans a b c)
pcs_node_eq_trans _ _ _ h k = absurd (ground arith)

instance unfoldable pub pcs_node_Eq : Eq PcsNode
pcs_node_Eq = record {
  beq = pcs_node_eq;
  beq_refl = pcs_node_eq_refl;
  beq_sym = pcs_node_eq_sym;
  beq_trans = pcs_node_eq_trans;
}

pub pcs_eq_refl : (p : Pcs) → pcs_eq p p ≡ true
unfolding pcs_eq
pcs_eq_refl p =
    ground (
      arith,
      pcs_node_eq_refl p.parent,
      pcs_node_eq_refl p.predecessor,
      pcs_node_eq_refl p.successor,
    )

pub pcs_eq_sym : (p q : Pcs) → pcs_eq p q ≡ true → pcs_eq q p ≡ true
unfolding pcs_eq
pcs_eq_sym p q h = ground (
  arith,
  pcs_node_eq_sym p.parent q.parent,
  pcs_node_eq_sym p.predecessor q.predecessor,
  pcs_node_eq_sym p.successor q.successor,
)

pub pcs_eq_trans : (p q r : Pcs) → pcs_eq p q ≡ true → pcs_eq q r ≡ true → pcs_eq p r ≡ true
unfolding pcs_eq
pcs_eq_trans p q r h k = ground (
  arith,
  pcs_node_eq_trans p.parent q.parent r.parent,
  pcs_node_eq_trans p.predecessor q.predecessor r.predecessor,
  pcs_node_eq_trans p.successor q.successor r.successor,
)

instance unfoldable pub pcs_Eq : Eq Pcs
pcs_Eq = record {
  beq = pcs_eq;
  beq_refl = pcs_eq_refl;
  beq_sym = pcs_eq_sym;
  beq_trans = pcs_eq_trans;
}
