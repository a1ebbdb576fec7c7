-- ===== src/Signature/Originals.antt =====
-- Signatures of nodes of one revision, and of merged trees that are such nodes.
use mirror_mergiraf.Base.{
  List, [], ◌∷◌, ◌++◌, ◌≡◌, refl, map, ℕ, flatten, append-nil, map-append, append_assoc,
}
use mirror_mergiraf.Base.Run.{Run, done}
use mirror_mergiraf.Ast.{AstNode}
use mirror_mergiraf.ClassMapping
use mirror_mergiraf.ClassMapping.{ClassMapping}
use mirror_mergiraf.RevisionSet.{RevisionNeSet}
use mirror_mergiraf.Pcs.{Leader}
use mirror_mergiraf.MergedTree.{MergedTree, exact_tree, node_at_any}
use mirror_mergiraf.Signature.{
  AstNodeEquiv, original, merged, PathStep, field, child_kind, AstPath, SignatureDefinition,
  Signature, node_children_by_field_name, node_children_by_kind, children_by_field_name,
  children_by_kind, children_by_step, for_each, extract_internal, extract, extract_all,
  extract_signature_from_original_node, extract_signature_from_merged_node,
}

-- The children that a step selects, and the descendants that a path leads to, in order.
unfoldable pub step_children : PathStep → AstNode → List AstNode
step_children (field name) n = node_children_by_field_name n name
step_children (child_kind kind) n = node_children_by_kind n kind

unfoldable pub reached : List PathStep → AstNode → List AstNode
reached [] n = n ∷ []
reached (step ∷ rest) n = flatten (map (reached rest) (step_children step n))

children_by_step-original :
    (step : PathStep) (n : AstNode) (cm : ClassMapping)
    → children_by_step step (original n) cm ≡ done (map original (step_children step n))
unfolding children_by_step children_by_field_name children_by_kind step_children
children_by_step-original (field name) n cm = refl
children_by_step-original (child_kind kind) n cm = refl

children_by_step-exact_tree :
    (step : PathStep) (leader : Leader) (revisions : RevisionNeSet) (hash : ℕ) (n : AstNode)
    (cm : ClassMapping)
    → node_at_any cm leader revisions ≡ done n
    → children_by_step step (merged (exact_tree leader revisions hash)) cm
      ≡ done (map original (step_children step n))
unfolding children_by_step children_by_field_name children_by_kind step_children
children_by_step-exact_tree (field name) leader revisions hash n cm e = rw e refl
children_by_step-exact_tree (child_kind kind) leader revisions hash n cm e = rw e refl

for_each-original :
    (body : AstNodeEquiv → List AstNodeEquiv → Run (List AstNodeEquiv)) (f : AstNode → List AstNode)
    → ((n : AstNode) (result : List AstNodeEquiv)
        → body (original n) result ≡ done (result ++ map original (f n)))
    → (ns : List AstNode) (result : List AstNodeEquiv)
    → for_each body (map original ns) result ≡ done (result ++ map original (flatten (map f ns)))
unfolding for_each mathlib.Core.List.flatten
for_each-original body f h [] result = rw append-nil refl
for_each-original body f h (n ∷ ns) result =
    rw (h n result, for_each-original body f h ns, map-append, append_assoc) refl

extract_internal-original :
    (path : List PathStep) (n : AstNode) (result : List AstNodeEquiv) (cm : ClassMapping)
    → extract_internal path (original n) result cm ≡ done (result ++ map original (reached path n))
unfolding extract_internal reached
extract_internal-original [] n result cm = refl
extract_internal-original (step ∷ rest) n result cm = rw children_by_step-original (
    for_each-original (λ child result. extract_internal rest child result cm) (reached rest)
      (λ n result. extract_internal-original rest n result cm) (step_children step n) result)

-- What a path leads to from an exact tree that stands for a node: the tree itself, if the path is empty,
-- and otherwise what it reaches from the node.
abbrev pub reached_from_tree : List PathStep → MergedTree → AstNode → List AstNodeEquiv
unfolding reached
reached_from_tree [] t n = merged t ∷ []
reached_from_tree (step ∷ rest) t n = map original (reached (step ∷ rest) n)

extract_internal-exact_tree :
    (path : List PathStep) (leader : Leader) (revisions : RevisionNeSet) (hash : ℕ) (n : AstNode)
    (cm : ClassMapping)
    → node_at_any cm leader revisions ≡ done n
    → extract_internal path (merged (exact_tree leader revisions hash)) [] cm
      ≡ done (reached_from_tree path (exact_tree leader revisions hash) n)
unfolding extract_internal reached
extract_internal-exact_tree [] leader revisions hash n cm e = refl
extract_internal-exact_tree (step ∷ rest) leader revisions hash n cm e =
    rw (children_by_step-exact_tree step leader revisions hash n cm e) (
      for_each-original (λ child result. extract_internal rest child result cm) (reached rest)
        (λ n result. extract_internal-original rest n result cm) (step_children step n) [])

-- The signature of a node, path by path.
unfoldable pub signature_of : List AstPath → AstNode → Signature
unfolding reached
signature_of paths n = map (λ path. map original (reached path.steps n)) paths

extract_all-original :
    (paths : List AstPath) (n : AstNode) (cm : ClassMapping)
    → extract_all paths (original n) cm ≡ done (signature_of paths n)
unfolding extract_all extract signature_of
extract_all-original [] n cm = refl
extract_all-original (path ∷ paths) n cm =
    rw (extract_internal-original path.steps n [] cm, extract_all-original paths n cm) refl

-- The signature of an exact tree that stands for a node.
unfoldable pub signature_of_tree : List AstPath → MergedTree → AstNode → Signature
signature_of_tree paths t n = map (λ path. reached_from_tree path.steps t n) paths

extract_all-exact_tree :
    (paths : List AstPath) (leader : Leader) (revisions : RevisionNeSet) (hash : ℕ) (n : AstNode)
    (cm : ClassMapping)
    → node_at_any cm leader revisions ≡ done n
    → extract_all paths (merged (exact_tree leader revisions hash)) cm
      ≡ done (signature_of_tree paths (exact_tree leader revisions hash) n)
unfolding extract_all extract signature_of_tree
extract_all-exact_tree [] leader revisions hash n cm e = refl
extract_all-exact_tree (path ∷ paths) leader revisions hash n cm e =
    rw
      (
        extract_internal-exact_tree path.steps leader revisions hash n cm e,
        extract_all-exact_tree paths leader revisions hash n cm e,
      )
      refl

-- If the class of an exact tree has a node at the revision that is picked of the tree's revisions, then
-- the signature of the tree is extracted without a panic: an empty path gives the tree itself, and any
-- other path what it reaches from that node by filtering the children at every step. The signature of
-- the node as an original one has the same for the paths with a step, and the node for an empty path.
pub extract_signature-exact_tree :
    (definition : SignatureDefinition) (leader : Leader) (revisions : RevisionNeSet) (hash : ℕ)
    (n : AstNode) (cm : ClassMapping)
    → node_at_any cm leader revisions ≡ done n
    → (extract_signature_from_merged_node definition (exact_tree leader revisions hash) cm
        ≡ done (signature_of_tree definition.paths (exact_tree leader revisions hash) n))
      × (extract_signature_from_original_node definition n ≡ done (signature_of definition.paths n))
unfolding extract_signature_from_merged_node extract_signature_from_original_node
extract_signature-exact_tree definition leader revisions hash n cm e = (
  extract_all-exact_tree definition.paths leader revisions hash n cm e,
  extract_all-original definition.paths n ClassMapping.new,
)
