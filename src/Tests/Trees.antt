-- ===== src/Tests/Trees.antt =====
-- lib/inter/tree.cc: runs and instances.
use wxcc.Base.{◌<◌, true, false, some, [], ◌∷◌, codes, Bytes, length, ◌≡◌, refl, arith}
use wxcc.Outcome.{ok, fault, uninitialised, overflow}
use wxcc.Types.{int_type, binary_op}
use wxcc.Ir.{Ptr, Store, new_ir}
use wxcc.Ir.Append.{Appends}
use wxcc.Trees.{nop_id, nop_add, nop_less, string, new_members, Tree, null_tree, tree}
use wxcc.Trees.Build.{plus_tree, lt_tree, arith_tree, jump_text}
use wxcc.Trees.Result.{compare_tree-arith_tree}
use wxcc.Trees.Branch.{Branches, compare_tree-Branches}
use wxcc.Trees.Emit.{arith_tree-Appends, arith_tree-overflow}
use wxcc.Tests.Ir.{two_irs, two_irs-IsCode}

abbrev variable : Bytes → Tree
variable name =
    tree nop_id int_type null_tree null_tree
      (record new_members { x = string name; tree_string = some name })

abbrev a : Tree
a = variable (codes "a")

abbrev b : Tree
b = variable (codes "b")

-- Another temporary variable can be made here.
abbrev early : Store
early = record two_irs { current_id = 0 }

int_of_ints : binary_op int_type int_type ≡ ok int_type
unfolding binary_op
int_of_ints = refl

sum_text : length (jump_text (codes "a") (codes " < ") (codes "b")) < 40
sum_text = omega arith

arith_tree-Appends_example :
    (s' : Store) × (plus_tree true a b early
      ≡ ok (tree nop_add int_type a b (record new_members { t = some 1 }), s'))
    × Appends early (1 ∷ []) (codes "\tt1 = a + b\n") 4 s'
unfolding wxcc.Ir.Names.decimal
arith_tree-Appends_example =
    arith_tree-Appends nop_add (codes " + ") a b int_type int_type int_type (codes "a") (codes "b")
      early (1 ∷ []) refl refl int_of_ints refl refl (omega arith) (omega arith)
      (record { linked = two_irs-IsCode.linked; below = two_irs-IsCode.below })

abbrev width : Tree
width = variable (codes "width")

abbrev height : Tree
height = variable (codes "height")

long_names : plus_tree true width height early ≡ fault overflow
long_names =
    arith_tree-overflow nop_add (codes " + ") width height int_type int_type int_type
      (codes "width") (codes "height") early refl refl int_of_ints refl refl (omega arith)

compare_tree-Branches_example :
    (t : Tree) × (s' : Store) × (lt_tree a b two_irs ≡ ok (t, s'))
    × Branches two_irs (1 ∷ []) (codes "\tif a < b goto %s \n") nop_less int_type a b t s'
compare_tree-Branches_example =
    compare_tree-Branches nop_less (codes " < ") a b int_type int_type int_type (codes "a")
      (codes "b") two_irs (1 ∷ []) refl refl int_of_ints refl refl sum_text two_irs-IsCode

abbrev sum : Tree
sum = tree nop_add int_type a b (record new_members { t = some 1 })

sum_run : plus_tree false a b early ≡ ok (sum, record early { current_id = 1 })
unfolding arith_tree binary_op wxcc.Ir.new_temporary wxcc.Ir.Names.decimal
sum_run = refl

compare_tree-arith_tree_example : lt_tree sum b early ≡ fault uninitialised
compare_tree-arith_tree_example =
    compare_tree-arith_tree false nop_add nop_less (codes " + ") (codes " < ") a b sum b int_type
      early (record early { current_id = 1 }) early sum_run refl
