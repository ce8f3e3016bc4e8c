-- ===== src/Trees/Runs.antt =====
-- lib/inter/tree.cc: `||` and `&&` from their parts.
use wxcc.Base.{ℕ, ◌+◌, ◌<◌, Bool, true, false, ◌||◌, some, leb, ◌≡◌, refl, arith}
use wxcc.Outcome.{ok}
use wxcc.Types.{CType, int_type}
use wxcc.Ir.{Store, new_label, new_label_ir, merge_chain, back_patch}
use wxcc.Trees.{NodeOp, nop_lor, nop_land, Members, new_members, Tree, tree, is_cmp, is_log}
use wxcc.Trees.Conditions.{label_in_front, or_tree, and_tree}
use wxcc.Trees.Labels.{as_condition-keeps}

pub new_label-ok :
    (s : Store)
    → s.label_num + 1 < 1000
    → new_label s ≡ ok (s.label_num, record s { label_num = s.label_num + 1 })
unfolding new_label
new_label-ok s h = let small : leb 1000 (s.label_num + 1) ≡ false = ground arith in rw small refl

-- The run of `&&` from those of its parts.
pub and_tree-run :
    (gd : Bool) (left_op right_op : NodeOp) (left_type right_type : CType) (ll lr rl rr : Tree)
    (lm rm : Members) (s s1 t t1 t2 t3 : Store) (n one on off added : ℕ)
    → (is_cmp left_op || is_log left_op) ≡ true
    → (is_cmp right_op || is_log right_op) ≡ true
    → lm.true_list ≡ some on
    → lm.false_list ≡ some off
    → rm.false_list ≡ some added
    → new_label s ≡ ok (n, s1)
    → label_in_front (tree right_op right_type rl rr rm) s1 ≡ ok (one, t)
    → merge_chain on one t ≡ ok (on, t1)
    → back_patch on n t1 ≡ ok (tt, t2)
    → merge_chain off added t2 ≡ ok (off, t3)
    → and_tree gd (tree left_op left_type ll lr lm) (tree right_op right_type rl rr rm) s
      ≡ ok (
        tree nop_land int_type
            (tree left_op left_type ll lr lm)
            (tree right_op right_type rl rr rm)
            (record new_members { true_list = rm.true_list; false_list = some off }),
        t3,
      )
unfolding and_tree
and_tree-run gd left_op right_op left_type right_type ll lr rl rr lm rm s s1 t t1 t2 t3 n one on off
      added lc rc le fe ae made placed d1 d2 d3 =
    rw
      (
        as_condition-keeps gd left_op left_type ll lr lm s lc,
        as_condition-keeps gd right_op right_type rl rr rm s rc,
        made,
        placed,
        le,
        d1,
        d2,
        fe,
        ae,
        d3,
      )
      refl

-- The run of `||` from those of its parts.
pub or_tree-run :
    (gd : Bool) (left_op right_op : NodeOp) (left_type right_type : CType) (ll lr rl rr : Tree)
    (lm rm : Members) (s s1 s2 t t1 t2 t3 : Store) (n p one on off added : ℕ)
    → (is_cmp left_op || is_log left_op) ≡ true
    → (is_cmp right_op || is_log right_op) ≡ true
    → lm.true_list ≡ some on
    → lm.false_list ≡ some off
    → rm.true_list ≡ some added
    → new_label s ≡ ok (n, s1)
    → new_label_ir n true s1 ≡ ok (p, s2)
    → label_in_front (tree right_op right_type rl rr rm) s2 ≡ ok (one, t)
    → merge_chain off one t ≡ ok (off, t1)
    → back_patch off n t1 ≡ ok (tt, t2)
    → merge_chain on added t2 ≡ ok (on, t3)
    → or_tree gd (tree left_op left_type ll lr lm) (tree right_op right_type rl rr rm) s
      ≡ ok (
        tree nop_lor int_type
            (tree left_op left_type ll lr lm)
            (tree right_op right_type rl rr rm)
            (record new_members {
              codebegin = lm.codebegin;
              true_list = some on;
              false_list = rm.false_list;
            }),
        t3,
      )
unfolding or_tree
or_tree-run gd left_op right_op left_type right_type ll lr rl rr lm rm s s1 s2 t t1 t2 t3 n p one on
      off added lc rc le fe ae made label placed d1 d2 d3 =
    rw
      (
        as_condition-keeps gd left_op left_type ll lr lm s lc,
        as_condition-keeps gd right_op right_type rl rr rm s rc,
        made,
        label,
        placed,
        fe,
        d1,
        d2,
        le,
        ae,
        d3,
      )
      refl
