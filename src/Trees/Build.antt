-- ===== src/Trees/Build.antt =====
-- lib/inter/tree.cc: the functions that make expression trees and emit their code. `gd_output` says
-- whether the macro GD_OUTPUT is defined.
use wxcc.Base.{ℕ, Bool, true, ◌||◌, none, some, Bytes, codes, ◌++◌, if◌then◌else◌}
use wxcc.Outcome.{Outcome, ok, fault, assertion, thrown}
use wxcc.Types.{
  to_array, to_function, ◌is◌, CType, get_size, get_tyop, get_base_type, int_type, binary_op,
}
use wxcc.Token.{
  Op, op_mod, op_bitxor, op_bitand, op_mult, op_plus, op_minus, op_bitor, op_div, op_leftshift,
  op_rightshift, op_lt, op_gt, op_le, op_ge, op_eq, op_ne,
}
use wxcc.Ir.{
  Cmd, ◌>>=◌, ◌>>◌, pure, fail, new_ir, make_ir_list, print_into, temporary_string, new_temporary,
}
use wxcc.Trees.{
  NodeOp, nop_add, nop_mul, nop_le, nop_ge, nop_shl, nop_sub, nop_div, nop_eq, nop_less, nop_great,
  nop_shr, nop_xor, nop_lea, nop_bor, nop_mod, nop_indr, nop_cnst, nop_asgn, i_val, new_members,
  Tree, null_tree, tree, get_type, lift, to_string, tmp_string, operand_string, int_string,
}

-- The text of an assignment of an operation; the symbol comes with its blanks.
abbrev pub assignment_text : Bytes → Bytes → Bytes → Bytes → Bytes
assignment_text target left symbol right =
    codes "\t" ++ target ++ codes " = " ++ left ++ symbol ++ right ++ codes "\n"

-- The code of an arithmetic node, written to `char buf[20]`.
unfoldable pub emit_arith : Bytes → ℕ → Tree → Tree → Cmd (Unit {0})
emit_arith symbol t left right = do
  right_str ← lift (operand_string right)
  left_str ← lift (operand_string left)
  buf ← print_into 20 (assignment_text (temporary_string t) left_str symbol right_str)
  ir ← new_ir buf true
  pure tt

-- What PLUStree, MINUStree, MODtree, BITORtree, BITANDtree, MULTtree, BITXORtree, DIVtree, SHLtree
-- and SHRtree have in common.
unfoldable pub arith_tree : Bool → NodeOp → Bytes → Tree → Tree → Cmd Tree
unfolding emit_arith
arith_tree gd_output nop symbol left right = do
  left_type ← lift (get_type left)
  right_type ← lift (get_type right)
  result_type ← lift (binary_op left_type right_type)
  t ← new_temporary
  (if gd_output then emit_arith symbol t left right else pure tt)
  pure (tree nop result_type left right (record new_members { t = some t }))

abbrev pub plus_tree : Bool → Tree → Tree → Cmd Tree
plus_tree gd_output = arith_tree gd_output nop_add (codes " + ")

abbrev pub minus_tree : Bool → Tree → Tree → Cmd Tree
minus_tree gd_output = arith_tree gd_output nop_sub (codes " - ")

abbrev pub mod_tree : Bool → Tree → Tree → Cmd Tree
mod_tree gd_output = arith_tree gd_output nop_mod (codes " % ")

abbrev pub bitor_tree : Bool → Tree → Tree → Cmd Tree
bitor_tree gd_output = arith_tree gd_output nop_bor (codes " | ")

abbrev pub bitand_tree : Bool → Tree → Tree → Cmd Tree
bitand_tree gd_output = arith_tree gd_output nop_add (codes " & ")

abbrev pub mult_tree : Bool → Tree → Tree → Cmd Tree
mult_tree gd_output = arith_tree gd_output nop_mul (codes " * ")

abbrev pub bitxor_tree : Bool → Tree → Tree → Cmd Tree
bitxor_tree gd_output = arith_tree gd_output nop_xor (codes " ^ ")

abbrev pub div_tree : Bool → Tree → Tree → Cmd Tree
div_tree gd_output = arith_tree gd_output nop_div (codes " / ")

abbrev pub shl_tree : Bool → Tree → Tree → Cmd Tree
shl_tree gd_output = arith_tree gd_output nop_shl (codes " <<")

abbrev pub shr_tree : Bool → Tree → Tree → Cmd Tree
shr_tree gd_output = arith_tree gd_output nop_shr (codes " >> ")

abbrev pub jump_text : Bytes → Bytes → Bytes → Bytes
jump_text left symbol right = codes "\tif " ++ left ++ symbol ++ right ++ codes " goto %s \n"

abbrev pub goto_text : Bytes
goto_text = codes "\tgoto %s \n"

-- What LEtree, GTtree, LTtree, GEtree, NEtree and EQtree have in common; the text is written to
-- `char buf[40]`.
unfoldable pub compare_tree : NodeOp → Bytes → Tree → Tree → Cmd Tree
compare_tree nop symbol left right = do
  left_type ← lift (get_type left)
  right_type ← lift (get_type right)
  result_type ← lift (binary_op left_type right_type)
  left_str ← lift (to_string left)
  right_str ← lift (to_string right)
  buf ← print_into 40 (jump_text left_str symbol right_str)
  true_ir ← new_ir buf true
  false_ir ← new_ir goto_text true
  true_list ← make_ir_list true_ir
  false_list ← make_ir_list false_ir
  pure (
      tree nop result_type left right (record new_members {
        codebegin = some true_ir;
        true_list = some true_list;
        false_list = some false_list;
      }))

abbrev pub le_tree : Tree → Tree → Cmd Tree
le_tree = compare_tree nop_le (codes " <= ")

abbrev pub gt_tree : Tree → Tree → Cmd Tree
gt_tree = compare_tree nop_great (codes " > ")

abbrev pub lt_tree : Tree → Tree → Cmd Tree
lt_tree = compare_tree nop_less (codes " < ")

abbrev pub ge_tree : Tree → Tree → Cmd Tree
ge_tree = compare_tree nop_ge (codes " >= ")

abbrev pub ne_tree : Tree → Tree → Cmd Tree
ne_tree = compare_tree nop_div (codes " <> ")

abbrev pub eq_tree : Tree → Tree → Cmd Tree
eq_tree = compare_tree nop_eq (codes " = ")

-- `NS_EXPRE_IR::op2fun`
unfoldable pub op2fun : Bool → Op → Outcome (Tree → Tree → Cmd Tree)
op2fun gd_output op_plus = ok (plus_tree gd_output)
op2fun gd_output op_minus = ok (minus_tree gd_output)
op2fun gd_output op_mod = ok (mod_tree gd_output)
op2fun gd_output op_bitor = ok (bitor_tree gd_output)
op2fun gd_output op_bitand = ok (bitand_tree gd_output)
op2fun gd_output op_mult = ok (mult_tree gd_output)
op2fun gd_output op_bitxor = ok (bitxor_tree gd_output)
op2fun gd_output op_div = ok (div_tree gd_output)
op2fun gd_output op_leftshift = ok (shl_tree gd_output)
op2fun gd_output op_rightshift = ok (shr_tree gd_output)
op2fun gd_output op_le = ok le_tree
op2fun gd_output op_gt = ok gt_tree
op2fun gd_output op_lt = ok lt_tree
op2fun gd_output op_ge = ok ge_tree
op2fun gd_output op_eq = ok eq_tree
op2fun gd_output op_ne = ok ne_tree
op2fun gd_output _ = fault assertion

-- `Tree::CONSTtree`
unfoldable pub const_tree : Bool → ℕ → Tree
const_tree gd_output i = tree nop_cnst int_type null_tree null_tree (record new_members {
  x = i_val i;
  tree_string = if gd_output then some (int_string i) else none;
})

-- `Tree::INDRtree(const Tree *, const Type &)`, with `char buf[20]`.
unfoldable pub indr_tree : Bool → Tree → CType → Cmd Tree
indr_tree gd_output operand ty =
    if gd_output
    then (do
      indr ← lift (tmp_string operand)
      t ← new_temporary
      buf ←
          print_into 20 (codes "\t" ++ temporary_string t ++ codes " = [ " ++ indr ++ codes " ]\n")
      ir ← new_ir buf true
      pure (tree nop_indr ty operand null_tree (record new_members { t = some t })))
    else pure (tree nop_indr ty operand null_tree new_members)

-- `Tree::ARRAYtree`
unfoldable pub array_tree : Bool → Tree → Tree → Cmd Tree
unfolding const_tree arith_tree indr_tree
array_tree gd_output ty subscript = do
  array_type ← lift (get_type ty)
  element_type ← lift (get_base_type array_type)
  element_size ← lift (get_size element_type)
  offset ← mult_tree gd_output (const_tree gd_output element_size) subscript
  mult_str ← lift (tmp_string offset)
  offset' ← plus_tree gd_output ty offset
  indr_tree gd_output offset' element_type

-- `Tree::ASGNtree`, with `char buf[20]`.
unfoldable pub asgn_tree : Tree → Tree → Cmd Tree
asgn_tree left right = do
  left_type ← lift (get_type left)
  op ← lift (get_tyop left_type)
  if op is to_array || op is to_function then fail thrown else (do
    right_str ← lift (operand_string right)
    left_str ← lift (operand_string left)
    buf ← print_into 20 (codes "\t" ++ left_str ++ codes " = " ++ right_str ++ codes "\n")
    ir ← new_ir buf true
    pure (tree nop_asgn left_type left right (record new_members { codebegin = some ir })))

-- `Tree::LEAtree`
abbrev pub lea_tree : Tree → CType → Tree
lea_tree operand ty = tree nop_lea ty operand null_tree new_members

-- `Tree::CONDtree`
abbrev pub cond_tree : Tree → Tree → Tree → Outcome Tree
cond_tree cond left right = fault assertion
