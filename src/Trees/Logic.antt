-- ===== src/Trees/Logic.antt =====
-- lib/inter/tree.cc: `||` and `&&` on two comparisons or conditions.
use wxcc.Base.{
  ℕ, ◌+◌, ◌<◌, Bool, true, ◌||◌, Option, some, List, ◌∷◌, ◌++◌, codes, ◌≡◌, refl, ◌∙◌, ap, arith,
}
use wxcc.Outcome.{ok}
use wxcc.Types.{CType, int_type}
use wxcc.Ir.{Ptr, null, Ir, Store, unset, write, allocate, label_string, new_label_ir}
use wxcc.Ir.Chain.{has, ◌∉◌, Linked-write}
use wxcc.Ir.Patch.{Allocated-write, aim}
use wxcc.Ir.Insert.{content}
use wxcc.Trees.{NodeOp, nop_lor, nop_land, Members, new_members, Tree, tree, is_cmp, is_log}
use wxcc.Trees.Conditions.{or_tree, and_tree}
use wxcc.Trees.Labels.{below-out, IsJoinable, Joins}
use wxcc.Trees.Joined.{joins}
use wxcc.Trees.Runs.{new_label-ok, and_tree-run, or_tree-run}

-- On two operands that can be joined, `&&` puts a new label in front of the right operand's code and
-- links it there, makes the jumps of the left operand's true case lead to it, and appends the right
-- operand's jumps of the false case to the left operand's; the node's true case is the right
-- operand's.
pub and_tree-Joins :
    (gd : Bool) (left_op right_op : NodeOp) (left_type right_type : CType) (ll lr rl rr : Tree)
    (lm rm : Members) (s : Store) (front : List Ptr) (before b : Ptr) (back : List Ptr)
    (on off added : ℕ)
    → (is_cmp left_op || is_log left_op) ≡ true
    → (is_cmp right_op || is_log right_op) ≡ true
    → lm.true_list ≡ some on
    → lm.false_list ≡ some off
    → rm.codebegin ≡ some b
    → rm.false_list ≡ some added
    → s.label_num + 1 < 1000
    → IsJoinable s front before b back on off added
    → (s' : Store) × (and_tree gd
          (tree left_op left_type ll lr lm)
          (tree right_op right_type rl rr rm)
          s
        ≡ ok (
          tree nop_land int_type
              (tree left_op left_type ll lr lm)
              (tree right_op right_type rl rr rm)
              (record new_members { true_list = rm.true_list; false_list = some off }),
          s',
        ))
      × Joins s front before b back s.label_num on off added s.fresh s'
and_tree-Joins gd left_op right_op left_type right_type ll lr rl rr lm rm s front before b back on
      off added lc rc le fe be ae room j =
    let s1 = record s { label_num = s.label_num + 1 } in
    let j1 : IsJoinable s1 front before b back on off added = record {
      code = record { linked = j.code.linked; below = j.code.below };
      counted = j.counted;
      allocated = j.allocated;
      patched_old = j.patched_old;
      kept_old = j.kept_old;
      added_old = j.added_old;
      kept_ne = j.kept_ne;
      added_ne = j.added_ne;
    } in
    let (t, t1, t2, t3, d, d1, d2, d3, joined) =
      joins s1 front before b back s.label_num on off added right_op right_type rl rr rm j1 be in
    (
      t3,
      and_tree-run gd left_op right_op left_type right_type ll lr rl rr lm rm s s1 t t1 t2 t3
          s.label_num s.fresh_list on off added lc rc le fe ae (new_label-ok s room) d d1 d2 d3,
      record {
        linked = joined.linked;
        text = joined.text;
        jumps = joined.jumps;
        joined = joined.joined;
        others = joined.others;
      },
    )

-- The store behind the label's own instruction, which is not put into the code.
abbrev labelled : Store → Store
labelled s =
    let ir = unset (label_string s.label_num ++ codes " : \n") in
    record s { nodes = write s.nodes s.fresh ir; fresh = s.fresh + 1; label_num = s.label_num + 1 }

labelled-IsJoinable :
    (s : Store) (front : List Ptr) (before b : Ptr) (back : List Ptr) (patched kept added : ℕ)
    → IsJoinable s front before b back patched kept added
    → IsJoinable (labelled s) front before b back patched kept added
labelled-IsJoinable s front before b back patched kept added j =
    let ir = unset (label_string s.label_num ++ codes " : \n") in
    let xs = front ++ before ∷ b ∷ back in
    let out : s.fresh ∉ xs = below-out xs s.fresh s.fresh j.code.below (omega arith) in
    record {
      code = record {
        linked = Linked-write s.nodes s.fresh ir null xs null out j.code.linked;
        below = λ a i. omega (arith, j.code.below a i);
      };
      counted = j.counted;
      allocated = Allocated-write s.nodes s.fresh ir (s.lists patched).irs j.allocated;
      patched_old = j.patched_old;
      kept_old = j.kept_old;
      added_old = j.added_old;
      kept_ne = j.kept_ne;
      added_ne = j.added_ne;
    }

labelled-nodes : (s : Store) (a : Ptr) → a < s.fresh → (labelled s).nodes a ≡ s.nodes a
labelled-nodes s a h = ground arith

new_label_ir-ok :
    (s : Store)
    → new_label_ir s.label_num true (record s { label_num = s.label_num + 1 })
      ≡ ok (s.fresh, labelled s)
unfolding new_label_ir allocate
new_label_ir-ok s = refl

-- On two operands that can be joined, `||` puts a new label in front of the right operand's code and
-- links it there, makes the jumps of the left operand's false case lead to it, and appends the right
-- operand's jumps of the true case to the left operand's; the node's false case is the right
-- operand's, and its code begins with the left operand's.
pub or_tree-Joins :
    (gd : Bool) (left_op right_op : NodeOp) (left_type right_type : CType) (ll lr rl rr : Tree)
    (lm rm : Members) (s : Store) (front : List Ptr) (before b : Ptr) (back : List Ptr)
    (on off added : ℕ)
    → (is_cmp left_op || is_log left_op) ≡ true
    → (is_cmp right_op || is_log right_op) ≡ true
    → lm.true_list ≡ some on
    → lm.false_list ≡ some off
    → rm.codebegin ≡ some b
    → rm.true_list ≡ some added
    → s.label_num + 1 < 1000
    → IsJoinable s front before b back off on added
    → (s' : Store) × (or_tree gd
          (tree left_op left_type ll lr lm)
          (tree right_op right_type rl rr rm)
          s
        ≡ ok (
          tree nop_lor int_type
              (tree left_op left_type ll lr lm)
              (tree right_op right_type rl rr rm)
              (record new_members {
                codebegin = lm.codebegin;
                true_list = some on;
                false_list = rm.false_list;
              }),
          s',
        ))
      × Joins s front before b back s.label_num off on added (s.fresh + 1) s'
or_tree-Joins gd left_op right_op left_type right_type ll lr rl rr lm rm s front before b back on
      off added lc rc le fe be ae room j =
    let s1 = record s { label_num = s.label_num + 1 } in
    let s2 = labelled s in
    let (t, t1, t2, t3, d, d1, d2, d3, joined) =
      joins s2 front before b back s.label_num off on added right_op right_type rl rr rm
        (labelled-IsJoinable s front before b back off on added j) be in
    (
      t3,
      or_tree-run gd left_op right_op left_type right_type ll lr rl rr lm rm s s1 s2 t t1 t2 t3
          s.label_num s.fresh s.fresh_list on off added lc rc le fe ae (new_label-ok s room)
          (new_label_ir-ok s) d d1 d2 d3,
      record {
        linked = joined.linked;
        text = joined.text;
        jumps = λ a h.
            joined.jumps a (omega arith)
            ∙ ap (λ (o : Option Ir). content (aim s.label_num (has a (s.lists off).irs) o))
                (labelled-nodes s a h);
        joined = joined.joined;
        others = joined.others;
      },
    )
