-- ===== src/MergedTree/Examples.antt =====
-- Trees of one revision and with a conflict, and instances of the theorems about them.
use mirror_mergiraf.Base.{ℕ, ◌+◌, true, false, none, Option, List, [], ◌∷◌, ◌≡◌, refl, all}
use mirror_mergiraf.Base.HashMap
use mirror_mergiraf.Base.Run.{done}
use mirror_mergiraf.Base.Text.{Text}
use mirror_mergiraf.Ast.{AstNode, Children, node, nil, cons, dfs}
use mirror_mergiraf.Revision.{Revision}
use mirror_mergiraf.RevisionSet.{singleton}
use mirror_mergiraf.Pcs.{Leader, rev_node_eq}
use mirror_mergiraf.Pcs.Equality.{rev_node_Eq}
use mirror_mergiraf.ClassMapping
use mirror_mergiraf.ClassMapping.{ClassMapping, rev_node, map_to_leader, node_at_rev}
use mirror_mergiraf.ParsedMerge.{ParsedMerge}
use mirror_mergiraf.RevisionSet.Laws.{any_ne-singleton}
use mirror_mergiraf.MergedTree as MergedTree
use mirror_mergiraf.MergedTree.{exact_tree, force_in_astnode, mixed_tree, conflict, node_at_any}
use mirror_mergiraf.MergedTree.Source.{isomorphic_to_source}
use mirror_mergiraf.MergedTree.Source.Conflicts.{isomorphic_to_source-conflict}
use mirror_mergiraf.MergedTree.Forced.{stays, force_in_astnode-untouched}

abbrev numbered : ℕ → Children → AstNode
numbered id ns =
    node
      (record {
        hash = id;
        source = [];
        kind = [];
        field_name = none;
        start = id;
        end = id + 1;
        id = id;
        is_extra = false;
        descendant_count = 1;
        lang_name = [];
      })
      ns

abbrev pair_tree : AstNode
pair_tree = numbered 0 (cons (numbered 1 nil) (cons (numbered 2 nil) nil))

-- A node of another tree is to be merged by lines.
abbrev forced : List Leader
forced = rev_node Revision.left (numbered 3 nil) ∷ []

abbrev constant_hash : Text → Text → List ℕ → ℕ
constant_hash kind lang_name hashes = 5

abbrev no_lines : Option AstNode → AstNode → AstNode → ParsedMerge
no_lines base left right = record { chunks = []; left = []; right = []; base = [] }

all_stay : all (stays ClassMapping.new forced Revision.left) (dfs pair_tree) ≡ true
unfolding dfs ClassMapping.new node_at_rev map_to_leader HashMap.get rev_node_eq rev_node_Eq
all_stay = refl

force_in_astnode-untouched_example :
    (h : ℕ) × (force_in_astnode constant_hash no_lines Revision.left pair_tree forced
        ClassMapping.new
      ≡ done (
          exact_tree
            (map_to_leader ClassMapping.new (rev_node Revision.left pair_tree))
            (singleton Revision.left)
            h))
force_in_astnode-untouched_example =
    force_in_astnode-untouched constant_hash no_lines ClassMapping.new forced Revision.left
      pair_tree all_stay

-- A node with a text of one letter.
abbrev lettered : ℕ → Children → AstNode
lettered letter ns =
    node
      (record {
        hash = letter;
        source = letter ∷ [];
        kind = [];
        field_name = none;
        start = 0;
        end = 1;
        id = letter;
        is_extra = false;
        descendant_count = 1;
        lang_name = [];
      })
      ns

abbrev ours : AstNode
ours = lettered b'x' nil

abbrev ours_leader : Leader
ours_leader = rev_node Revision.left ours

ours_at_left : node_at_any ClassMapping.new ours_leader (singleton Revision.left) ≡ done ours
unfolding node_at_any node_at_rev ClassMapping.new
ours_at_left = rw (any_ne-singleton Revision.left, node_at_any) refl

-- The left side changed one letter to another, and the right side removed it.
isomorphic_to_source-conflict_example :
    isomorphic_to_source
      (mixed_tree
        (rev_node Revision.base (lettered b'p' nil))
        (MergedTree.cons (conflict (lettered b'a' nil ∷ []) (ours ∷ []) []) MergedTree.nil)
        0)
      (lettered b'p' (cons ours nil))
      Revision.left
      ClassMapping.new
    ≡ isomorphic_to_source
        (mixed_tree
          (rev_node Revision.base (lettered b'p' nil))
          (MergedTree.cons (exact_tree ours_leader (singleton Revision.left) 0) MergedTree.nil)
          1)
        (lettered b'p' (cons ours nil))
        Revision.left
        ClassMapping.new
isomorphic_to_source-conflict_example =
    isomorphic_to_source-conflict (rev_node Revision.base (lettered b'p' nil)) MergedTree.nil
      MergedTree.nil (lettered b'a' nil ∷ []) (ours ∷ []) []
      ((ours_leader, singleton Revision.left, 0) ∷ []) 0 1 (lettered b'p' (cons ours nil))
      Revision.left ClassMapping.new (ours_at_left, tt)
