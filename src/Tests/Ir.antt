-- ===== src/Tests/Ir.antt =====
-- lib/inter/semantic.cc: runs and instances.
use wxcc.Base.{true, none, some, [], ◌∷◌, codes, Bytes, ◌==◌, ◌≡◌, ◌≢◌, refl, arith, if◌then◌else◌}
use wxcc.Outcome.{ok, fault, overflow}
use wxcc.Ir.{
  Ptr, null, Ir, IrList, Store, unset, new_ir, re_set_current, back_patch, new_label, label_string,
  new_temporary,
}
use wxcc.Ir.Chain.{Nodes, has, Linked}
use wxcc.Ir.Append.{IsCode, Appends, new_ir-Appends}
use wxcc.Ir.Insert.{Inserts, append_ir-Inserts}
use wxcc.Ir.Walk.{re_set_current-Linked}
use wxcc.Ir.Patch.{Allocated, aim, back_patch-aim}
use wxcc.Ir.Limits.{new_temporary_limit, label_string-new_label}

abbrev node : (next pre : Ptr) → Bytes → Ir
node next pre text = record {
  next_ir = some next;
  pre_ir = some pre;
  dest = none;
  ir_string = text;
}

-- Two linked instructions, and a third that is not linked.
abbrev nodes : Nodes
nodes p =
    if p == 1
    then some (node 2 null (codes "a"))
    else if p == 2
    then some (node null 1 (codes "b"))
    else if p == 3
    then some (unset (codes "c"))
    else none

abbrev lists : Ptr → IrList
lists l =
    if l == 0
    then record { irs = 1 ∷ 3 ∷ []; ir_count = 2 }
    else if l == 1
    then record { irs = 2 ∷ []; ir_count = 1 }
    else record { irs = []; ir_count = 0 }

abbrev pub two_irs : Store
two_irs = record {
  nodes = nodes;
  fresh = 4;
  current = 2;
  lists = lists;
  fresh_list = 2;
  label_num = 7;
  current_id = 99;
}

start_Linked : Linked nodes null (1 ∷ 2 ∷ []) null
start_Linked = (
  (λ h. omega (arith, h)),
  refl,
  (none, codes "a", refl),
  ((λ h. omega (arith, h)), refl, (none, codes "b", refl), tt),
)

pub two_irs-IsCode : IsCode two_irs (1 ∷ [])
two_irs-IsCode = record { linked = start_Linked; below = λ a h. ground (arith, h) }

new_ir-Appends_example :
    (s' : Store) × (new_ir (codes "d") true two_irs ≡ ok (4, s'))
    × Appends two_irs (1 ∷ []) (codes "d") 4 s'
new_ir-Appends_example = new_ir-Appends two_irs (1 ∷ []) (codes "d") two_irs-IsCode

append_ir-Inserts_example : Inserts two_irs [] 1 3 (2 ∷ [])
append_ir-Inserts_example =
    append_ir-Inserts two_irs [] 1 3 (2 ∷ []) (unset (codes "c")) start_Linked
      (λ h. omega (arith, h)) refl refl

re_set_current-Linked_example : re_set_current 2 (record two_irs { current = 1 }) ≡ ok (tt, two_irs)
re_set_current-Linked_example =
    re_set_current-Linked (2 ∷ []) 2 (record two_irs { current = 1 }) null start_Linked
      (omega arith)

list_Allocated : Allocated nodes (1 ∷ 3 ∷ [])
list_Allocated = ((λ h. omega (arith, h)), (_, refl), ((λ h. omega (arith, h)), (_, refl), tt))

back_patch-aim_example :
    (nodes' : Nodes) × (back_patch 0 5 two_irs ≡ ok (tt, record two_irs { nodes = nodes' }))
    × ((a : Ptr) → nodes' a ≡ aim 5 (has a (1 ∷ 3 ∷ [])) (nodes a))
back_patch-aim_example = back_patch-aim 0 5 two_irs list_Allocated

new_temporary_limit_example : new_temporary two_irs ≡ fault overflow
new_temporary_limit_example = new_temporary_limit two_irs

abbrev later : Store
later = record two_irs { label_num = 8 }

first_label : new_label two_irs ≡ ok (7, later)
unfolding new_label
first_label = refl

second_label : new_label later ≡ ok (8, record two_irs { label_num = 9 })
unfolding new_label
second_label = refl

label_names : label_string 7 ≢ label_string 8
label_names =
    label_string-new_label two_irs later later (record two_irs { label_num = 9 }) 7 8 first_label
      (omega arith) second_label
