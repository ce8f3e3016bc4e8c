-- ===== src/Trees/Conditions.antt =====
-- lib/inter/tree.cc: `||` and `&&`, which join the code of their operands by a label.
use wxcc.Base.{ℕ, Bool, true, false, not, ◌&&◌, some, codes, if◌then◌else◌}
use wxcc.Types.{int_type}
use wxcc.Ir.{
  Cmd, ◌>>=◌, ◌>>◌, pure, new_ir, new_label_ir, append_ir, get_pre, make_ir_list, merge_chain,
  back_patch, new_label,
}
use wxcc.Trees.{
  nop_land, nop_lor, new_members, Tree, tree, members, get_nop, is_set, lift, is_cmp, is_log,
}
use wxcc.Trees.Build.{compare_tree, eq_tree, const_tree}

-- An operand of `||` or `&&`: one that is no comparison is compared with 0.
unfoldable pub as_condition : Bool → Tree → Cmd Tree
unfolding compare_tree const_tree
as_condition gd_output operand = do
  nop ← lift (get_nop operand)
  if not (is_cmp nop) && not (is_log nop)
      then eq_tree operand (const_tree gd_output 0)
      else pure operand

-- The instruction of a label, put in front of the right operand's code.
unfoldable pub label_in_front : Tree → Cmd ℕ
label_in_front right = do
  first_goto ← new_ir (codes "%s : \n") false
  m ← lift (members right)
  begin ← lift (is_set m.codebegin)
  before ← get_pre begin
  placed ← append_ir before first_goto
  make_ir_list first_goto

-- `Tree::ORtree`
unfoldable pub or_tree : Bool → Tree → Tree → Cmd Tree
unfolding as_condition label_in_front
or_tree gd_output left right = do
  left' ← as_condition gd_output left
  right' ← as_condition gd_output right
  la ← new_label
  ir ← new_label_ir la true
  label_list ← label_in_front right'
  l ← lift (members left')
  r ← lift (members right')
  left_false ← lift (is_set l.false_list)
  merged ← merge_chain left_false label_list
  back_patch left_false la
  left_true ← lift (is_set l.true_list)
  right_true ← lift (is_set r.true_list)
  true_list ← merge_chain left_true right_true
  pure (
      tree nop_lor int_type left' right' (record new_members {
        codebegin = l.codebegin;
        true_list = some true_list;
        false_list = r.false_list;
      }))

-- `Tree::ANDtree`
unfoldable pub and_tree : Bool → Tree → Tree → Cmd Tree
unfolding as_condition label_in_front
and_tree gd_output left right = do
  left' ← as_condition gd_output left
  right' ← as_condition gd_output right
  la ← new_label
  label_list ← label_in_front right'
  l ← lift (members left')
  r ← lift (members right')
  left_true ← lift (is_set l.true_list)
  merged ← merge_chain left_true label_list
  back_patch left_true la
  left_false ← lift (is_set l.false_list)
  right_false ← lift (is_set r.false_list)
  false_list ← merge_chain left_false right_false
  pure (
      tree nop_land int_type left' right'
        (record new_members { true_list = r.true_list; false_list = some false_list }))
