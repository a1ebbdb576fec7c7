-- ===== src/Signature/Examples.antt =====
-- The signature of a pair with a key and a value, and an instance of the theorem about it.
use mirror_mergiraf.Base.{ℕ, false, some, Option, [], ◌∷◌, ◌≡◌, refl, none}
use mirror_mergiraf.Base.Run.{done}
use mirror_mergiraf.Base.Text.{Text}
use mirror_mergiraf.Ast.{AstNode, Children, node, nil, cons}
use mirror_mergiraf.Revision.{Revision}
use mirror_mergiraf.RevisionSet.Laws.{any_ne-singleton}
use mirror_mergiraf.RevisionSet.{singleton}
use mirror_mergiraf.Pcs.{Leader}
use mirror_mergiraf.Pcs.Equality.{rev_node_Eq}
use mirror_mergiraf.ClassMapping
use mirror_mergiraf.ClassMapping.{ClassMapping, rev_node, node_at_rev}
use mirror_mergiraf.MergedTree.{exact_tree, node_at_any}
use mirror_mergiraf.Signature.{
  SignatureDefinition, field, child_kind, original, node_children_by_field_name,
  node_children_by_kind, extract_signature_from_merged_node, extract_signature_from_original_node,
}
use mirror_mergiraf.Signature.Originals.{
  step_children, reached, signature_of, signature_of_tree, extract_signature-exact_tree,
}

abbrev part : ℕ → Text → Option Text → Children → AstNode
part id kind field_name ns =
    node
      (record {
        hash = id;
        source = [];
        kind = kind;
        field_name = field_name;
        start = id;
        end = id;
        id = id;
        is_extra = false;
        descendant_count = 1;
        lang_name = [];
      })
      ns

abbrev letter : AstNode
letter = part 2 (b'l' ∷ []) none nil

abbrev key : AstNode
key = part 1 (b's' ∷ []) (some (b'k' ∷ [])) (cons letter nil)

abbrev value : AstNode
value = part 3 (b's' ∷ []) (some (b'v' ∷ [])) nil

abbrev pair : AstNode
pair = part 0 (b'p' ∷ []) none (cons key (cons value nil))

-- The key, the letters of all strings, and the pair itself.
abbrev key_and_letters : SignatureDefinition
key_and_letters = record {
  node_type = b'p' ∷ [];
  paths =
      record { steps = field (b'k' ∷ []) ∷ [] }
      ∷ record { steps = child_kind (b's' ∷ []) ∷ child_kind (b'l' ∷ []) ∷ [] }
      ∷ record { steps = [] }
      ∷ [];
}

its_signature :
    signature_of key_and_letters.paths pair
    ≡ (original key ∷ []) ∷ (original letter ∷ []) ∷ (original pair ∷ []) ∷ []
unfolding signature_of reached step_children node_children_by_field_name node_children_by_kind
    mathlib.Core.List.flatten
its_signature = refl

abbrev pair_leader : Leader
pair_leader = rev_node Revision.base pair

at_base : node_at_any ClassMapping.new pair_leader (singleton Revision.base) ≡ done pair
unfolding node_at_any node_at_rev ClassMapping.new
at_base = rw (any_ne-singleton Revision.base, node_at_any) refl

extract_signature-exact_tree_example :
    (extract_signature_from_merged_node key_and_letters
        (exact_tree pair_leader (singleton Revision.base) 0)
        ClassMapping.new
      ≡ done (
          signature_of_tree key_and_letters.paths
            (exact_tree pair_leader (singleton Revision.base) 0)
            pair))
    × (extract_signature_from_original_node key_and_letters pair
        ≡ done (signature_of key_and_letters.paths pair))
extract_signature-exact_tree_example =
    extract_signature-exact_tree key_and_letters pair_leader (singleton Revision.base) 0 pair
      ClassMapping.new at_base
