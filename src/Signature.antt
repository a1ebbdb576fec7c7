-- ===== src/Signature.antt =====
-- src/signature.rs: the signatures that tell the children of a commutative parent apart.
pub mod Originals
mod Examples
use mirror_mergiraf.Base.{Bool, true, false, Option, none, some, List, [], ◌∷◌, ◌++◌, map, filter}
use mirror_mergiraf.Base.Run.{Run, done, ◌>>=◌}
use mirror_mergiraf.Base.Text.{Text, text_eq}
use mirror_mergiraf.Ast.{AstNode, info, children}
use mirror_mergiraf.ClassMapping
use mirror_mergiraf.ClassMapping.{ClassMapping}
use mirror_mergiraf.MergedTree as MergedTree
use mirror_mergiraf.MergedTree.{
  MergedTree, MergedTrees, nil, cons, exact_tree, mixed_tree, conflict, line_based_merge,
  commutative_child_separator, node_at_any,
}

pub data AstNodeEquiv : Type 0 where
  original : AstNode → AstNodeEquiv
  merged : MergedTree → AstNodeEquiv

pub data PathStep : Type 0 where
  field : Text → PathStep
  child_kind : Text → PathStep

pub record AstPath : Type 0 where
  pub steps : List PathStep

pub record SignatureDefinition : Type 0 where
  pub node_type : Text
  pub paths : List AstPath

-- The inner vectors are the nodes that each path leads to.
abbrev pub Signature : Type 0
Signature = List (List AstNodeEquiv)

-- `== Some(name)`
abbrev pub is_name : Option Text → Text → Bool
is_name none name = false
is_name (some found) name = text_eq found name

-- `AstNode::children_by_field_name`, through the map that `internal_finalize` makes of the children.
unfoldable pub node_children_by_field_name : AstNode → Text → List AstNode
node_children_by_field_name n name = filter (λ c. is_name (info c).field_name name) (children n)

unfoldable pub node_children_by_kind : AstNode → Text → List AstNode
node_children_by_kind n kind = filter (λ c. text_eq (info c).kind kind) (children n)

abbrev pub listed : MergedTrees → List MergedTree
listed nil = []
listed (cons t ts) = t ∷ listed ts

unfoldable pub children_by_field_name : AstNodeEquiv → Text → ClassMapping → Run (List AstNodeEquiv)
unfolding node_children_by_field_name MergedTree.field_name
children_by_field_name (original n) name cm =
    done (map original (node_children_by_field_name n name))
children_by_field_name (merged (exact_tree leader revisions _)) name cm =
    node_at_any cm leader revisions >>= λ representative.
    done (map original (node_children_by_field_name representative name))
children_by_field_name (merged (mixed_tree _ ts _)) name cm =
    done (map merged (filter (λ t. is_name (MergedTree.field_name t cm) name) (listed ts)))
children_by_field_name (merged (conflict _ _ _)) name cm = done []
children_by_field_name (merged (line_based_merge _ _)) name cm = done []
children_by_field_name (merged (commutative_child_separator _)) name cm = done []

unfoldable pub children_by_kind : AstNodeEquiv → Text → ClassMapping → Run (List AstNodeEquiv)
unfolding node_children_by_kind MergedTree.kind
children_by_kind (original n) kind cm = done (map original (node_children_by_kind n kind))
children_by_kind (merged (exact_tree leader revisions _)) kind cm =
    node_at_any cm leader revisions >>= λ representative.
    done (map original (node_children_by_kind representative kind))
children_by_kind (merged (mixed_tree _ ts _)) kind cm =
    done (map merged (filter (λ t. is_name (MergedTree.kind t) kind) (listed ts)))
children_by_kind (merged (conflict _ _ _)) kind cm = done []
children_by_kind (merged (line_based_merge _ _)) kind cm = done []
children_by_kind (merged (commutative_child_separator _)) kind cm = done []

unfoldable pub children_by_step : PathStep → AstNodeEquiv → ClassMapping → Run (List AstNodeEquiv)
unfolding children_by_field_name children_by_kind
children_by_step (field name) n cm = children_by_field_name n name cm
children_by_step (child_kind kind) n cm = children_by_kind n kind cm

-- `for child in children`, with the result that the body extends.
unfoldable pub for_each :
    (AstNodeEquiv → List AstNodeEquiv → Run (List AstNodeEquiv))
    → List AstNodeEquiv
    → List AstNodeEquiv
    → Run (List AstNodeEquiv)
for_each body [] result = done result
for_each body (n ∷ ns) result = body n result >>= λ result. for_each body ns result

unfoldable pub extract_internal :
    List PathStep → AstNodeEquiv → List AstNodeEquiv → ClassMapping → Run (List AstNodeEquiv)
unfolding for_each
extract_internal [] n result cm = done (result ++ n ∷ [])
extract_internal (step ∷ rest) n result cm = children_by_step step n cm >>= λ found.
    for_each (λ child result. extract_internal rest child result cm) found result

unfoldable pub extract : AstPath → AstNodeEquiv → ClassMapping → Run (List AstNodeEquiv)
unfolding extract_internal
extract path n cm = extract_internal path.steps n [] cm

unfoldable pub extract_all : List AstPath → AstNodeEquiv → ClassMapping → Run Signature
unfolding extract
extract_all [] n cm = done []
extract_all (path ∷ paths) n cm =
    extract path n cm >>= λ found. extract_all paths n cm >>= λ others. done (found ∷ others)

unfoldable pub extract_signature_from_original_node : SignatureDefinition → AstNode → Run Signature
unfolding extract_all
extract_signature_from_original_node definition n =
    extract_all definition.paths (original n) ClassMapping.new

unfoldable pub extract_signature_from_merged_node :
    SignatureDefinition → MergedTree → ClassMapping → Run Signature
unfolding extract_all
extract_signature_from_merged_node definition t cm = extract_all definition.paths (merged t) cm
