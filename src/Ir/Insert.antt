-- ===== src/Ir/Insert.antt =====
-- lib/inter/semantic.cc: an instruction that is put into the middle of the code.
use wxcc.Base.{
  ℕ, true, Option, none, some, List, [], ◌∷◌, ◌++◌, Bytes, ◌==◌, ◌≡◌, ◌≢◌, refl, sym, ◌∙◌, arith,
}
use wxcc.Outcome.{ok}
use wxcc.Ir.{Ptr, null, Ir, Store, write, load, append_ir}
use wxcc.Ir.Chain.{
  Nodes, has, ◌∉◌, head_or, last_or, Linked, has-append, or_false, Linked-frame, Linked-split,
  Linked-append,
}

-- An instruction without its links: its destination and its text.
abbrev pub content : Option Ir → Option (Option ℕ × Bytes)
content none = none
content (some ir) = some (ir.dest, ir.ir_string)

abbrev linked_ir : (next pre : Ptr) → Option ℕ → Bytes → Ir
linked_ir next pre d t = record { next_ir = some next; pre_ir = some pre; dest = d; ir_string = t }

-- The heap after an insertion behind the last instruction, and in front of `b`.
abbrev inserted_last : Nodes → (first second : Ptr) (irf ir2 : Ir) → Nodes
inserted_last nodes first second irf ir2 =
    write
      (write (write nodes second (record ir2 { next_ir = some null })) second
        (record ir2 { next_ir = some null; pre_ir = some first }))
      first (record irf { next_ir = some second })

abbrev inserted : Nodes → (first second b : Ptr) (irf ir2 irb : Ir) → Nodes
inserted nodes first second b irf ir2 irb =
    write
      (write
        (write (write nodes second (record ir2 { next_ir = some b })) b
          (record irb { pre_ir = some second }))
        second (record ir2 { next_ir = some b; pre_ir = some first }))
      first (record irf { next_ir = some second })

last_same :
    (nodes : Nodes) (first second : Ptr) (irf ir2 : Ir) (a : Ptr)
    → a ∉ (first ∷ [])
    → a ≢ second
    → inserted_last nodes first second irf ir2 a ≡ nodes a
last_same nodes first second irf ir2 a out n = ground arith

last_content :
    (nodes : Nodes) (first second : Ptr) (irf ir2 : Ir) (a : Ptr)
    → nodes first ≡ some irf
    → nodes second ≡ some ir2
    → content (inserted_last nodes first second irf ir2 a) ≡ content (nodes a)
last_content nodes first second irf ir2 a ef e2 = ground arith

inner_same :
    (nodes : Nodes) (first second b : Ptr) (irf ir2 irb : Ir) (a : Ptr)
    → a ≢ first
    → a ≢ second
    → a ≢ b
    → inserted nodes first second b irf ir2 irb a ≡ nodes a
inner_same nodes first second b irf ir2 irb a nf n2 nb = ground arith

inner_content :
    (nodes : Nodes) (first second b : Ptr) (irf ir2 irb : Ir) (a : Ptr)
    → nodes first ≡ some irf
    → nodes second ≡ some ir2
    → nodes b ≡ some irb
    → content (inserted nodes first second b irf ir2 irb a) ≡ content (nodes a)
inner_content nodes first second b irf ir2 irb a ef e2 eb = ground arith

append_ir-last :
    (s : Store) (first second : Ptr) (irf ir2 : Ir)
    → first ≢ null
    → second ≢ null
    → second ≢ first
    → s.nodes first ≡ some irf
    → irf.next_ir ≡ some null
    → s.nodes second ≡ some ir2
    → append_ir first second s
      ≡ ok (first, record s { nodes = inserted_last s.nodes first second irf ir2 })
unfolding append_ir load
append_ir-last s first second irf ir2 nf n2 ne ef ex e2 = ground arith

append_ir-inner :
    (s : Store) (first second b : Ptr) (irf ir2 irb : Ir)
    → first ≢ null
    → second ≢ null
    → second ≢ first
    → b ≢ null
    → b ≢ first
    → b ≢ second
    → s.nodes first ≡ some irf
    → irf.next_ir ≡ some b
    → s.nodes second ≡ some ir2
    → s.nodes b ≡ some irb
    → append_ir first second s
      ≡ ok (first, record s { nodes = inserted s.nodes first second b irf ir2 irb })
unfolding append_ir load
append_ir-inner s first second b irf ir2 irb nf n2 ne nb bf b2 ef ex e2 eb = ground arith

-- An insertion that links `second` between `first` and what followed it, and keeps all texts and destinations.
abbrev pub Inserts : Store → List Ptr → (first second : Ptr) → List Ptr → Type 0
Inserts s front first second back =
    (nodes' : Nodes) × (append_ir first second s ≡ ok (first, record s { nodes = nodes' }))
    × Linked nodes' null (front ++ first ∷ second ∷ back) null
    × ((a : Ptr) → content (nodes' a) ≡ content (s.nodes a))

apart_more :
    (a first second : Ptr) (front back : List Ptr)
    → a ∉ (first ∷ back)
    → a ≢ second
    → a ∉ (first ∷ second ∷ back)
apart_more a first second front back out n = ground arith

ne_of_front : (a second : Ptr) (front : List Ptr) → has a front ≡ true → second ∉ front → a ≢ second
ne_of_front a second front i out same = cc

insert_last :
    (s : Store) (front : List Ptr) (first second : Ptr) (ir2 : Ir)
    → Linked s.nodes null (front ++ first ∷ []) null
    → second ≢ null
    → second ∉ (front ++ first ∷ [])
    → s.nodes second ≡ some ir2
    → Inserts s front first second []
insert_last s front first second ir2 l n2 out e2 =
    let (before, (nf, _, (d, t, ef), _), apart) = Linked-split s.nodes null front first [] null l in
    let irf = linked_ir null (last_or null front) d t in
    let N = inserted_last s.nodes first second irf ir2 in
    let (out_front, out_first) =
      or_false (has second front) (has second (first ∷ []))
        (sym (has-append second front (first ∷ [])) ∙ out) in
    let ne : second ≢ first = ground arith in
    let same : (a : Ptr) → has a front ≡ true → N a ≡ s.nodes a = λ a i.
      last_same s.nodes first second irf ir2 a (apart a i)
        (ne_of_front a second front i out_front) in
    (
      N,
      append_ir-last s first second irf ir2 nf n2 ne ef refl e2,
      Linked-append N null front first (second ∷ []) null
          (Linked-frame s.nodes N null front first before same)
          (
            nf,
            ground arith,
            (d, t, ground arith),
            (n2, refl, (ir2.dest, ir2.ir_string, ground arith), tt),
          )
          (λ a i.
            apart_more a first second front [] (apart a i)
              (ne_of_front a second front i out_front)),
      λ a. last_content s.nodes first second irf ir2 a ef e2,
    )

apart_parts : (a x : Ptr) (xs : List Ptr) → a ∉ (x ∷ xs) → (a ≢ x) × (a ∉ xs)
apart_parts a x xs out =
    let (n, rest) = or_false (a == x) (has a xs) out in ((λ same. ground (arith, n)), rest)

-- The instructions that an insertion in front of `b` changes.
inserted_parts :
    (nodes : Nodes) (first second b : Ptr) (irf ir2 irb : Ir)
    → second ≢ first
    → b ≢ first
    → b ≢ second
    → (inserted nodes first second b irf ir2 irb first
        ≡ some (record irf { next_ir = some second }))
      × (inserted nodes first second b irf ir2 irb second
          ≡ some (record ir2 { next_ir = some b; pre_ir = some first }))
      × (inserted nodes first second b irf ir2 irb b ≡ some (record irb { pre_ir = some second }))
inserted_parts nodes first second b irf ir2 irb ne nb n2 =
    (ground arith, ground arith, ground arith)

out_more : (a second : Ptr) (xs : List Ptr) → a ≢ second → a ∉ xs → a ∉ (second ∷ xs)
out_more a second xs n out = ground arith

insert_inner :
    (s : Store) (front : List Ptr) (first second b : Ptr) (back : List Ptr) (ir2 : Ir)
    → Linked s.nodes null (front ++ first ∷ b ∷ back) null
    → second ≢ null
    → second ∉ (front ++ first ∷ b ∷ back)
    → s.nodes second ≡ some ir2
    → Inserts s front first second (b ∷ back)
insert_inner s front first second b back ir2 l n2 out e2 =
    let (before, (nf, f_out, (d, t, ef), (nb, b_out, (db, tb, eb), l')), apart) =
      Linked-split s.nodes null front first (b ∷ back) null l in
    let irf = linked_ir b (last_or null front) d t in
    let irb = linked_ir (head_or back null) first db tb in
    let N = inserted s.nodes first second b irf ir2 irb in
    let (out_front, out_first) =
      or_false (has second front) (has second (first ∷ b ∷ back))
        (sym (has-append second front (first ∷ b ∷ back)) ∙ out) in
    let (ne, out_b) = apart_parts second first (b ∷ back) out_first in
    let (neb, out_back) = apart_parts second b back out_b in
    let (fb, f_back) = apart_parts first b back f_out in
    let same : (a : Ptr) → a ≢ first → a ≢ second → a ≢ b → N a ≡ s.nodes a =
      inner_same s.nodes first second b irf ir2 irb in
    let front_same : (a : Ptr) → has a front ≡ true → N a ≡ s.nodes a = λ a i.
      let (na, rest) = apart_parts a first (b ∷ back) (apart a i) in
      same a na (ne_of_front a second front i out_front) (apart_parts a b back rest).0 in
    let back_same : (a : Ptr) → has a back ≡ true → N a ≡ s.nodes a = λ a i.
      same a (ne_of_front a first back i f_back) (ne_of_front a second back i out_back)
        (ne_of_front a b back i b_out) in
    let (at_first, at_second, at_b) =
      inserted_parts s.nodes first second b irf ir2 irb ne (λ e. fb (sym e)) (λ e. neb (sym e)) in
    (
      N,
      append_ir-inner s first second b irf ir2 irb nf n2 ne nb (λ e. fb (sym e)) (λ e. neb (sym e))
          ef refl e2 eb,
      Linked-append N null front first (second ∷ b ∷ back) null
          (Linked-frame s.nodes N null front first before front_same)
          (
            nf,
            out_more first second (b ∷ back) (λ e. ne (sym e)) f_out,
            (d, t, at_first),
            (
              n2,
              out_b,
              (ir2.dest, ir2.ir_string, at_second),
              (nb, b_out, (db, tb, at_b), Linked-frame s.nodes N b back null l' back_same),
            ),
          )
          (λ a i.
            apart_more a first second front (b ∷ back) (apart a i)
              (ne_of_front a second front i out_front)),
      λ a. inner_content s.nodes first second b irf ir2 irb a ef e2 eb,
    )

-- `appendIR(first, second)` on linked code puts an instruction that is not part of it behind
-- `first`: the code stays linked in both directions, with `second` between `first` and what followed
-- it, and every text and destination is kept. The current instruction stays the one it was.
pub append_ir-Inserts :
    (s : Store) (front : List Ptr) (first second : Ptr) (back : List Ptr) (ir2 : Ir)
    → Linked s.nodes null (front ++ first ∷ back) null
    → second ≢ null
    → second ∉ (front ++ first ∷ back)
    → s.nodes second ≡ some ir2
    → Inserts s front first second back
append_ir-Inserts s front first second [] ir2 l n2 out e2 =
    insert_last s front first second ir2 l n2 out e2
append_ir-Inserts s front first second (b ∷ back) ir2 l n2 out e2 =
    insert_inner s front first second b back ir2 l n2 out e2
