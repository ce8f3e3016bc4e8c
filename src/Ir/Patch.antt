-- ===== src/Ir/Patch.antt =====
-- lib/inter/semantic.cc: the lists of instructions to patch.
use wxcc.Base.{
  ℕ, ◌+◌, Bool, true, false, Option, none, some, List, [], ◌∷◌, ◌++◌, append-nil, append_assoc,
  length, length-append, ◌==◌, ==_iff, Bool-cases, inl, inr, ◌≡◌, ◌≢◌, refl, ap, subst, sym, ◌∙◌,
  arith, if◌then◌else◌,
}
use wxcc.Outcome.{ok}
use wxcc.Ir.{
  Ptr, null, Ir, IrList, Store, write, load, set_dest, merge_ir, merge_all, merge_chain, patch_all,
  back_patch,
}
use wxcc.Ir.Chain.{Nodes, has}

-- The count of a list is its length.
abbrev pub IsCounted : Store → Type 0
IsCounted s = (l : ℕ) → (s.lists l).ir_count ≡ length (s.lists l).irs

abbrev pub with_list : Store → ℕ → IrList → Store
with_list s l v = record s { lists = λ i. if i == l then v else s.lists i }

-- Merging puts the instructions behind those of the first list, in order, and touches no other list
-- and no instruction.
merge_all-append :
    (irs : List Ptr) (s : Store) (l : ℕ)
    → (s' : Store) × (merge_all l irs s ≡ ok (l, s'))
      × (s'.nodes ≡ s.nodes)
      × ((s'.lists l).irs ≡ (s.lists l).irs ++ irs)
      × ((s'.lists l).ir_count ≡ (s.lists l).ir_count + length irs)
      × ((i : ℕ) → i ≢ l → s'.lists i ≡ s.lists i)
unfolding merge_all merge_ir
merge_all-append [] s l = (s, refl, refl, sym (append-nil _), omega arith, λ i n. refl)
merge_all-append (ir ∷ irs) s l =
    let v : IrList = record {
      irs = (s.lists l).irs ++ ir ∷ [];
      ir_count = (s.lists l).ir_count + 1;
    } in
    let here : (with_list s l v).lists l ≡ v = ground arith in
    let (s', done, same, merged, counted, others) = merge_all-append irs (with_list s l v) l in
    (
      s',
      done,
      same,
      merged ∙ ap (λ (x : IrList). x.irs ++ irs) here ∙ append_assoc (s.lists l).irs (ir ∷ []) irs,
      counted ∙ ap (λ (x : IrList). x.ir_count + length irs) here ∙ omega arith,
      λ i n. others i n ∙ ground arith,
    )

-- `mergeChain` of two lists appends the second to the first, also when they are one list, keeps the
-- counts right, and leaves the other lists and the instructions.
pub merge_chain-append :
    (s : Store) (first second : ℕ)
    → IsCounted s
    → (s' : Store) × (merge_chain first second s ≡ ok (first, s'))
      × ((s'.lists first).irs ≡ (s.lists first).irs ++ (s.lists second).irs)
      × ((i : ℕ) → i ≢ first → s'.lists i ≡ s.lists i)
      × (s'.nodes ≡ s.nodes)
      × IsCounted s'
unfolding merge_chain
merge_chain-append s first second counted =
    let (s', done, same, merged, count, others) = merge_all-append (s.lists second).irs s first in
    (
      s',
      done,
      merged,
      others,
      same,
      λ l. elim (Bool-cases (l == first)) [
        | inl here ↦
            let e = (==_iff l first).0 here in
            subst (λ (i : ℕ). (s'.lists i).ir_count ≡ length (s'.lists i).irs) (sym e)
              (omega (
                arith,
                count,
                counted first,
                counted second,
                ap length merged,
                length-append (s.lists first).irs (s.lists second).irs,
              ))
        | inr there ↦ rw (others l (λ e. ground (arith, there))) (counted l)
      ],
    )

-- The instructions of a list are allocated.
abbrev pub Allocated : Nodes → List Ptr → Type 0
Allocated nodes [] = Unit
Allocated nodes (x ∷ xs) = (x ≢ null) × ((ir : Ir) × (nodes x ≡ some ir)) × Allocated nodes xs

abbrev pub aim : ℕ → Bool → Option Ir → Option Ir
aim label true (some ir) = some (record ir { dest = some label })
aim label true none = none
aim label false o = o

pub Allocated-write :
    (nodes : Nodes) (p : Ptr) (ir : Ir) (xs : List Ptr)
    → Allocated nodes xs
    → Allocated (write nodes p ir) xs
Allocated-write nodes p ir [] a = tt
Allocated-write nodes p ir (x ∷ xs) (n, (ir', e), a) = elim (Bool-cases (x == p)) [
  | inl same ↦ (n, (ir, rw same refl), Allocated-write nodes p ir xs a)
  | inr other ↦ (n, (ir', rw other e), Allocated-write nodes p ir xs a)
]

set_dest-ok :
    (s : Store) (x label : ℕ) (ir : Ir)
    → x ≢ null
    → s.nodes x ≡ some ir
    → set_dest x label s
      ≡ ok (tt, record s { nodes = write s.nodes x (record ir { dest = some label }) })
unfolding set_dest load
set_dest-ok s x label ir n e = let n' : (x == null) ≡ false = ground arith in rw (n', e) refl

aim-write :
    (label : ℕ) (nodes : Nodes) (x : Ptr) (ir : Ir) (irs : List Ptr) (b : Ptr)
    → nodes x ≡ some ir
    → aim label (has b irs) (write nodes x (record ir { dest = some label }) b)
      ≡ aim label (has b (x ∷ irs)) (nodes b)
aim-write label nodes x ir irs b e = elim (Bool-cases (b == x)) [
  | inl same ↦
      let here : nodes b ≡ some ir = ap nodes ((==_iff b x).0 same) ∙ e in
      elim (Bool-cases (has b irs)) [
        | inl more ↦ rw (same, more, here) refl
        | inr last ↦ rw (same, last, here) refl
      ]
  | inr other ↦ rw other refl
]

patch_all-aim :
    (irs : List Ptr) (s : Store) (label : ℕ)
    → Allocated s.nodes irs
    → (nodes' : Nodes) × (patch_all label irs s ≡ ok (tt, record s { nodes = nodes' }))
      × ((a : Ptr) → nodes' a ≡ aim label (has a irs) (s.nodes a))
unfolding patch_all
patch_all-aim [] s label a = (s.nodes, refl, λ a. refl)
patch_all-aim (x ∷ irs) s label (n, (ir, e), a) =
    let ir' = record ir { dest = some label } in
    let s1 = record s { nodes = write s.nodes x ir' } in
    let (nodes', done, same) = patch_all-aim irs s1 label (Allocated-write s.nodes x ir' irs a) in
    (
      nodes',
      rw (set_dest-ok s x label ir n e) done,
      λ b. same b ∙ aim-write label s.nodes x ir irs b e,
    )

-- `backPatch` of a list of allocated instructions gives each of them the label and changes nothing
-- else.
pub back_patch-aim :
    (l label : ℕ) (s : Store)
    → Allocated s.nodes (s.lists l).irs
    → (nodes' : Nodes) × (back_patch l label s ≡ ok (tt, record s { nodes = nodes' }))
      × ((a : Ptr) → nodes' a ≡ aim label (has a (s.lists l).irs) (s.nodes a))
unfolding back_patch
back_patch-aim l label s a = patch_all-aim (s.lists l).irs s label a
