-- ===== src/Parser/Levels.antt =====
-- lib/parser/parser.cc, lib/parser/expr.cc: the levels of operators, and assignments.
use wxcc.Base.{ℕ, Bool, true, false, ◌&&◌, ◌||◌, leb, ◌==◌, ◌≡◌, arith, if◌then◌else◌}
use wxcc.Outcome.{Outcome, ok, fault, assertion}
use wxcc.Token.{
  Op, op_lognot, op_mod, op_bitxor, op_bitand, op_mult, op_plus, op_minus, op_bitnot, op_bitor,
  op_div, op_question, op_pointer, op_inc, op_dec, op_leftshift, op_rightshift, op_lt, op_gt, op_le,
  op_ge, op_eq, op_ne, op_logand, op_logor, op_comma, op_colon, op_assign, op_alplus, op_alminus,
  op_almult, op_aldiv, op_almod, op_alleftshift, op_alrightshift, op_albitand, op_albitxor,
  op_albitor,
}
use wxcc.Ir.{Cmd, ◌>>=◌, fail}
use wxcc.Trees.{Tree}
use wxcc.Trees.Build.{
  plus_tree, minus_tree, mult_tree, div_tree, mod_tree, shl_tree, shr_tree, bitand_tree,
  bitxor_tree, bitor_tree, asgn_tree, op2fun,
}
use wxcc.Parser.{op_code}

-- `Parser::op2l`; a level that is not set is 0.
unfoldable pub op2l : Op → ℕ
op2l op_comma = 1
op2l op_alplus = 2
op2l op_alminus = 2
op2l op_almult = 2
op2l op_aldiv = 2
op2l op_almod = 2
op2l op_alleftshift = 2
op2l op_alrightshift = 2
op2l op_albitand = 2
op2l op_albitxor = 2
op2l op_albitor = 2
op2l op_assign = 2
op2l op_colon = 3
op2l op_question = 3
op2l op_logor = 4
op2l op_logand = 5
op2l op_bitor = 6
op2l op_bitxor = 7
op2l op_bitand = 8
op2l op_eq = 9
op2l op_ne = 9
op2l op_lt = 10
op2l op_gt = 10
op2l op_le = 10
op2l op_ge = 10
op2l op_leftshift = 11
op2l op_rightshift = 11
op2l op_plus = 12
op2l op_minus = 12
op2l op_mod = 13
op2l op_mult = 13
op2l op_div = 13
op2l op_pointer = 14
op2l op_inc = 14
op2l op_dec = 14
op2l op_lognot = 14
op2l op_bitnot = 14
op2l _ = 0

-- Whether `c_parser_expressions_1` goes on behind its first operand.
unfoldable pub takes_assignment : Op → Bool
unfolding op2l
takes_assignment o =
    let level = op2l o in
    if op_code o == op_code op_assign || leb 6 level && leb level 8 || leb 11 level && leb level 13
    then level == 2
    else false

abbrev assigns : (Tree → Tree → Cmd Tree) → Tree → Tree → Cmd Tree
assigns f left right = do t ← f left right; asgn_tree left t

-- The switch of `c_parser_dispatch_comp_assignment`, on its two operands.
unfoldable pub comp_assignment : Bool → Op → Tree → Tree → Cmd Tree
comp_assignment gd_output op_assign = asgn_tree
comp_assignment gd_output op_alplus = plus_tree gd_output
comp_assignment gd_output op_alminus = assigns (minus_tree gd_output)
comp_assignment gd_output op_almult = assigns (mult_tree gd_output)
comp_assignment gd_output op_aldiv = assigns (div_tree gd_output)
comp_assignment gd_output op_almod = assigns (mod_tree gd_output)
comp_assignment gd_output op_alleftshift = assigns (shl_tree gd_output)
comp_assignment gd_output op_alrightshift = assigns (shr_tree gd_output)
comp_assignment gd_output op_albitand = assigns (bitand_tree gd_output)
comp_assignment gd_output op_albitxor = assigns (bitxor_tree gd_output)
comp_assignment gd_output op_albitor = assigns (bitor_tree gd_output)
comp_assignment gd_output _ = λ left right. fail assertion

abbrev pub is_ok : {A : Type 0} → Outcome A → Bool
is_ok (ok a) = true
is_ok (fault e) = false

-- The operators to which `op2fun` gives a function are those of the levels 6 to 13; and an operand is
-- assigned to behind `=` only, not behind `+=` and the like.
pub op2l-op2fun :
    (gd : Bool) (o : Op)
    → (is_ok (op2fun gd o) ≡ (leb 6 (op2l o) && leb (op2l o) 13))
      × (takes_assignment o ≡ (op_code o == op_code op_assign))
unfolding op2l op2fun takes_assignment
op2l-op2fun gd o = ground arith
