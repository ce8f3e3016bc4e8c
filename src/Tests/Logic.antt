-- ===== src/Tests/Logic.antt =====
-- lib/inter/tree.cc: `||` and `&&` on two comparisons.
use wxcc.Base.{
  ◌+◌, ◌-◌, ◌<◌, ◌&&◌, Bool-cases, inl, inr, true, false, none, some, [], ◌∷◌, codes, ltb, leb,
  ◌==◌, ◌≡◌, refl, arith, if◌then◌else◌,
}
use wxcc.Outcome.{ok}
use wxcc.Types.{int_type}
use wxcc.Ir.{Ptr, null, IrList, Store}
use wxcc.Ir.Chain.{Nodes, has, Linked}
use wxcc.Ir.Patch.{IsCounted}
use wxcc.Trees.{nop_less, nop_lor, nop_land, new_members, Tree, null_tree, tree}
use wxcc.Trees.Conditions.{or_tree, and_tree}
use wxcc.Trees.Labels.{IsSplit, IsJoinable, Joins}
use wxcc.Trees.Logic.{or_tree-Joins, and_tree-Joins}

-- The jumps of two comparisons, from 2 and from 4 on, behind an empty instruction.
abbrev five : Nodes
five p =
    if leb 1 p && leb p 5
    then some (record {
      next_ir = some (if p == 5 then null else p + 1);
      pre_ir = some (p - 1);
      dest = none;
      ir_string = codes "jump";
    })
    else none

-- A list for each jump.
abbrev four : Ptr → IrList
four l =
    if ltb l 4
    then record { irs = (l + 2) ∷ []; ir_count = 1 }
    else record { irs = []; ir_count = 0 }

abbrev compared : Store
compared = record {
  nodes = five;
  fresh = 6;
  current = 5;
  lists = four;
  fresh_list = 4;
  label_num = 7;
  current_id = 0;
}

abbrev comparison : (first l : Ptr) → Tree
comparison first l =
    tree nop_less int_type null_tree null_tree
      (record new_members { codebegin = some first; true_list = some l; false_list = some (l + 1) })

five-Linked : Linked five null (1 ∷ 2 ∷ 3 ∷ 4 ∷ 5 ∷ []) null
five-Linked = (
  λ h. omega (arith, h),
  refl,
  (none, codes "jump", refl),
  (
    λ h. omega (arith, h),
    refl,
    (none, codes "jump", refl),
    (
      λ h. omega (arith, h),
      refl,
      (none, codes "jump", refl),
      (
        λ h. omega (arith, h),
        refl,
        (none, codes "jump", refl),
        (λ h. omega (arith, h), refl, (none, codes "jump", refl), tt),
      ),
    ),
  ),
)

five_below : (a : Ptr) → has a (1 ∷ 2 ∷ 3 ∷ 4 ∷ 5 ∷ []) ≡ true → a < 6
five_below a h = ground (arith, h)

four-IsCounted : IsCounted compared
four-IsCounted l = elim (Bool-cases (ltb l 4)) [ inl small ↦ rw small refl | inr big ↦ rw big refl ]

compared-IsSplit : IsSplit compared (1 ∷ 2 ∷ []) 3 4 (5 ∷ [])
compared-IsSplit = record { linked = five-Linked; below = five_below }

or-IsJoinable : IsJoinable compared (1 ∷ 2 ∷ []) 3 4 (5 ∷ []) 1 0 2
or-IsJoinable = record {
  code = compared-IsSplit;
  counted = four-IsCounted;
  allocated = ((λ h. omega (arith, h)), (_, refl), tt);
  patched_old = omega arith;
  kept_old = omega arith;
  added_old = omega arith;
  kept_ne = λ h. omega (arith, h);
  added_ne = λ h. omega (arith, h);
}

or_tree-Joins_example :
    (s' : Store) × (or_tree false (comparison 2 0) (comparison 4 2) compared
      ≡ ok (
        tree nop_lor int_type
            (comparison 2 0)
            (comparison 4 2)
            (record new_members { codebegin = some 2; true_list = some 0; false_list = some 3 }),
        s',
      ))
    × Joins compared (1 ∷ 2 ∷ []) 3 4 (5 ∷ []) 7 1 0 2 7 s'
or_tree-Joins_example =
    or_tree-Joins false nop_less nop_less int_type int_type null_tree null_tree null_tree null_tree
      _ _ compared (1 ∷ 2 ∷ []) 3 4 (5 ∷ []) 0 1 2 refl refl refl refl refl refl (omega arith)
      or-IsJoinable

and-IsJoinable : IsJoinable compared (1 ∷ 2 ∷ []) 3 4 (5 ∷ []) 0 1 3
and-IsJoinable = record {
  code = compared-IsSplit;
  counted = four-IsCounted;
  allocated = ((λ h. omega (arith, h)), (_, refl), tt);
  patched_old = omega arith;
  kept_old = omega arith;
  added_old = omega arith;
  kept_ne = λ h. omega (arith, h);
  added_ne = λ h. omega (arith, h);
}

and_tree-Joins_example :
    (s' : Store) × (and_tree false (comparison 2 0) (comparison 4 2) compared
      ≡ ok (
        tree nop_land int_type
            (comparison 2 0)
            (comparison 4 2)
            (record new_members { true_list = some 2; false_list = some 1 }),
        s',
      ))
    × Joins compared (1 ∷ 2 ∷ []) 3 4 (5 ∷ []) 7 0 1 3 6 s'
and_tree-Joins_example =
    and_tree-Joins false nop_less nop_less int_type int_type null_tree null_tree null_tree null_tree
      _ _ compared (1 ∷ 2 ∷ []) 3 4 (5 ∷ []) 0 1 3 refl refl refl refl refl refl (omega arith)
      and-IsJoinable
