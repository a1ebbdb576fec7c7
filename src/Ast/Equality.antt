-- ===== src/Ast/Equality.antt =====
-- The equality of nodes in src/ast.rs is an equivalence.
use mirror_mergiraf.Base.{true, [], ◌∷◌, ◌≡◌, refl, arith}
use mirror_mergiraf.Base.HashMap.{Eq}
use mirror_mergiraf.Base.Text.{Text, text_eq}
use mirror_mergiraf.Ast.{AstNode, node, node_eq}

pub text_eq_refl : (s : Text) → text_eq s s ≡ true
text_eq_refl [] = refl
text_eq_refl (c ∷ s) = ground (arith, text_eq_refl s)

pub text_eq_sym : (s t : Text) → text_eq s t ≡ true → text_eq t s ≡ true
text_eq_sym [] [] h = refl
text_eq_sym (c ∷ s) (d ∷ t) h = ground (arith, text_eq_sym s t)
text_eq_sym [] (d ∷ t) h = absurd (ground arith)
text_eq_sym (c ∷ s) [] h = absurd (ground arith)

pub text_eq_trans : (s t u : Text) → text_eq s t ≡ true → text_eq t u ≡ true → text_eq s u ≡ true
text_eq_trans [] [] u h k = k
text_eq_trans (c ∷ s) (d ∷ t) (e ∷ u) h k = ground (arith, text_eq_trans s t u)
text_eq_trans [] (d ∷ t) u h k = absurd (ground arith)
text_eq_trans (c ∷ s) [] u h k = absurd (ground arith)
text_eq_trans (c ∷ s) (d ∷ t) [] h k = absurd (ground arith)

instance unfoldable pub text_Eq : Eq Text
text_Eq = record {
  beq = text_eq;
  beq_refl = text_eq_refl;
  beq_sym = text_eq_sym;
  beq_trans = text_eq_trans;
}

pub node_eq_refl : (a : AstNode) → node_eq a a ≡ true
unfolding node_eq
node_eq_refl (node a _) = ground (arith, text_eq_refl a.kind, text_eq_refl a.lang_name)

pub node_eq_sym : (a b : AstNode) → node_eq a b ≡ true → node_eq b a ≡ true
unfolding node_eq
node_eq_sym (node a _) (node b _) h =
    ground (arith, text_eq_sym a.kind b.kind, text_eq_sym a.lang_name b.lang_name)

pub node_eq_trans : (a b c : AstNode) → node_eq a b ≡ true → node_eq b c ≡ true → node_eq a c ≡ true
unfolding node_eq
node_eq_trans (node a _) (node b _) (node c _) h k =
    ground
      (arith, text_eq_trans a.kind b.kind c.kind, text_eq_trans a.lang_name b.lang_name c.lang_name)

instance unfoldable pub node_Eq : Eq AstNode
node_Eq = record {
  beq = node_eq;
  beq_refl = node_eq_refl;
  beq_sym = node_eq_sym;
  beq_trans = node_eq_trans;
}
