-- ===== src/Trees/Joined.antt =====
-- lib/inter/tree.cc: what `||` and `&&` do with the code and the lists of their operands.
use wxcc.Base.{
  ℕ, ◌<◌, Bool, true, false, Bool-cases, inl, inr, Option, none, some, List, [], ◌∷◌, ◌++◌, ◌==◌,
  ==_iff, ◌≡◌, ◌≢◌, refl, ◌∙◌, ap, arith,
}
use wxcc.Outcome.{ok}
use wxcc.Types.{CType}
use wxcc.Ir.{Ptr, null, Ir, Store, write, merge_chain, back_patch}
use wxcc.Ir.Chain.{Nodes, has, Holds, head_or, Linked, has-append}
use wxcc.Ir.Patch.{IsCounted, Allocated, aim, Allocated-write, merge_chain-append, back_patch-aim}
use wxcc.Ir.Insert.{content}
use wxcc.Trees.{NodeOp, Members, Tree, tree}
use wxcc.Trees.Conditions.{label_in_front}
use wxcc.Trees.Labels.{label_ir, with_label, fresh_ne, label_in_front-Linked, IsJoinable, Joins}

-- What merging a list into the one to patch, patching it and merging two others leaves.
abbrev Merged : (t : Store) (n patched one kept added : ℕ) → Store → Type 0
Merged t n patched one kept added t' =
    ((a : Ptr)
      → t'.nodes a ≡ aim n (has a ((t.lists patched).irs ++ (t.lists one).irs)) (t.nodes a))
    × ((t'.lists kept).irs ≡ (t.lists kept).irs ++ (t.lists added).irs)
    × ((l : ℕ) → l ≢ kept → l ≢ patched → t'.lists l ≡ t.lists l)

merges :
    (t : Store) (n patched one kept added : ℕ)
    → IsCounted t
    → Allocated t.nodes ((t.lists patched).irs ++ (t.lists one).irs)
    → kept ≢ patched
    → added ≢ patched
    → (t1 t2 t3 : Store) × (merge_chain patched one t ≡ ok (patched, t1))
      × (back_patch patched n t1 ≡ ok (tt, t2))
      × (merge_chain kept added t2 ≡ ok (kept, t3))
      × Merged t n patched one kept added t3
merges t n patched one kept added counted alloc kept_ne added_ne =
    let (t1, d1, m1, o1, n1, c1) = merge_chain-append t patched one counted in
    let (nodes, d2, a2) = back_patch-aim patched n t1 (rw (n1, m1) alloc) in
    let t2 = record t1 { nodes = nodes } in
    let (t3, d3, m3, o3, n3, c3) = merge_chain-append t2 kept added c1 in
    (
      t1,
      t2,
      t3,
      d1,
      d2,
      d3,
      (
        λ a. ap (λ (f : Nodes). f a) n3 ∙ a2 a ∙ rw (n1, m1) refl,
        m3 ∙ rw (o1 kept kept_ne, o1 added added_ne) refl,
        λ l k p. o3 l k ∙ o1 l p,
      ),
    )

Allocated-content :
    (nodes nodes' : Nodes) (xs : List Ptr)
    → ((a : Ptr) → content (nodes' a) ≡ content (nodes a))
    → Allocated nodes xs
    → Allocated nodes' xs
Allocated-content nodes nodes' [] same a = tt
Allocated-content nodes nodes' (x ∷ xs) same (n, (ir, e), a) = (
  n,
  content-some (nodes' x) ir (same x ∙ ap content e),
  Allocated-content nodes nodes' xs same a,
)
  where
    content-some :
        (o : Option Ir) (ir : Ir) → content o ≡ content (some ir) → (ir' : Ir) × (o ≡ some ir')
    content-some none ir h = cc
    content-some (some ir') ir h = (ir', refl)

Allocated-append :
    (nodes : Nodes) (xs : List Ptr) (p : Ptr) (ir : Ir)
    → p ≢ null
    → nodes p ≡ some ir
    → Allocated nodes xs
    → Allocated nodes (xs ++ p ∷ [])
Allocated-append nodes [] p ir n e a = (n, (ir, e), tt)
Allocated-append nodes (x ∷ xs) p ir n e (nx, ex, a) =
    (nx, ex, Allocated-append nodes xs p ir n e a)

aim-Holds :
    (nodes nodes' : Nodes) (n : ℕ) (b : Bool) (p pre next : Ptr)
    → nodes' p ≡ aim n b (nodes p)
    → Holds nodes p pre next
    → Holds nodes' p pre next
aim-Holds nodes nodes' n true p pre next same (d, t, e) = (some n, t, same ∙ ap (aim n true) e)
aim-Holds nodes nodes' n false p pre next same (d, t, e) = (d, t, same ∙ e)

Linked-aim :
    (nodes nodes' : Nodes) (n : ℕ) (f : Ptr → Bool)
    → ((a : Ptr) → nodes' a ≡ aim n (f a) (nodes a))
    → (pre : Ptr) (xs : List Ptr) (stop : Ptr) → Linked nodes pre xs stop
    → Linked nodes' pre xs stop
Linked-aim nodes nodes' n f same pre [] stop l = tt
Linked-aim nodes nodes' n f same pre (x ∷ xs) stop (nx, out, h, l) = (
  nx,
  out,
  aim-Holds nodes nodes' n (f x) x pre (head_or xs stop) (same x) h,
  Linked-aim nodes nodes' n f same x xs stop l,
)

content-aim :
    (n : ℕ) (b : Bool) (o o' : Option Ir)
    → content o ≡ content o'
    → content (aim n b o) ≡ content (aim n b o')
content-aim n true none none h = refl
content-aim n true none (some y) h = cc
content-aim n true (some x) none h = cc
content-aim n true (some x) (some y) h = ground arith
content-aim n false o o' h = h

with_label-IsCounted : (s : Store) (nodes : Nodes) → IsCounted s → IsCounted (with_label s nodes)
with_label-IsCounted s nodes counted l = elim (Bool-cases (l == s.fresh_list)) [
  | inl here ↦ rw here refl
  | inr there ↦ rw there (counted l)
]

-- The lists that were there, and the new one.
with_label-lists :
    (s : Store) (nodes : Nodes)
    → ((with_label s nodes).lists s.fresh_list ≡ record { irs = s.fresh ∷ []; ir_count = 1 })
      × ((l : ℕ) → l < s.fresh_list → (with_label s nodes).lists l ≡ s.lists l)
with_label-lists s nodes = (ground arith, λ l h. ground arith)

has_last : (xs : List Ptr) (p : Ptr) → has p (xs ++ p ∷ []) ≡ true
has_last xs p = has-append p xs (p ∷ []) ∙ ground arith

has_other : (xs : List Ptr) (a p : Ptr) → a ≢ p → has a (xs ++ p ∷ []) ≡ has a xs
has_other xs a p n = has-append a xs (p ∷ []) ∙ ground arith

write_here : (nodes : Nodes) (p : Ptr) (ir : Ir) → write nodes p ir p ≡ some ir
write_here nodes p ir = rw ((==_iff p p).1 refl) refl

write_there : (nodes : Nodes) (p a : Ptr) (ir : Ir) → a ≢ p → write nodes p ir a ≡ nodes a
write_there nodes p a ir n = ground arith

pub joins :
    (s : Store) (front : List Ptr) (before b : Ptr) (back : List Ptr) (n patched kept added : ℕ)
    (op : NodeOp) (ty : CType) (left right : Tree) (m : Members)
    → IsJoinable s front before b back patched kept added
    → m.codebegin ≡ some b
    → (t t1 t2 t3 : Store) × (label_in_front (tree op ty left right m) s ≡ ok (s.fresh_list, t))
      × (merge_chain patched s.fresh_list t ≡ ok (patched, t1))
      × (back_patch patched n t1 ≡ ok (tt, t2))
      × (merge_chain kept added t2 ≡ ok (kept, t3))
      × Joins s front before b back n patched kept added s.fresh t3
joins s front before b back n patched kept added op ty left right m j e =
    let (nodes, done, linked, same) =
      label_in_front-Linked s front before b back op ty left right m j.code e in
    let t = with_label s nodes in
    let (new, old) = with_label-lists s nodes in
    let irs : (t.lists patched).irs ++ (t.lists s.fresh_list).irs
        ≡ (s.lists patched).irs ++ s.fresh ∷ [] =
      rw (new, old patched j.patched_old) refl in
    let alloc : Allocated nodes ((s.lists patched).irs ++ s.fresh ∷ []) =
      Allocated-content (write s.nodes s.fresh label_ir) nodes
        ((s.lists patched).irs ++ s.fresh ∷ []) same
        (Allocated-append (write s.nodes s.fresh label_ir) (s.lists patched).irs s.fresh label_ir
          (fresh_ne s front before b back j.code) (write_here s.nodes s.fresh label_ir)
          (Allocated-write s.nodes s.fresh label_ir (s.lists patched).irs j.allocated)) in
    let (t1, t2, t3, d1, d2, d3, (aimed, joined, others)) =
      merges t n patched s.fresh_list kept added (with_label-IsCounted s nodes j.counted)
        (rw irs alloc) j.kept_ne j.added_ne in
    (
      t,
      t1,
      t2,
      t3,
      done,
      d1,
      d2,
      d3,
      record {
        linked =
            Linked-aim nodes t3.nodes n
              (λ a. has a ((t.lists patched).irs ++ (t.lists s.fresh_list).irs)) aimed null
              (front ++ before ∷ s.fresh ∷ b ∷ back) null linked;
        text =
            ap content (aimed s.fresh)
            ∙ rw (irs, has_last (s.lists patched).irs s.fresh)
                (content-aim n true (nodes s.fresh) (some label_ir)
                  (same s.fresh ∙ ap content (write_here s.nodes s.fresh label_ir)));
        jumps = λ a h.
            let other : a ≢ s.fresh = λ e. omega (arith, e, h) in
            ap content (aimed a)
            ∙ rw (irs, has_other (s.lists patched).irs a s.fresh other)
                (content-aim n (has a (s.lists patched).irs) (nodes a) (s.nodes a)
                  (same a ∙ ap content (write_there s.nodes s.fresh a label_ir other)));
        joined = joined ∙ rw (old kept j.kept_old, old added j.added_old) refl;
        others = λ l h k p. others l k p ∙ old l h;
      },
    )
