-- ===== src/Ir.antt =====
-- includes/semantic.h, lib/inter/semantic.cc: the instructions `IR` on a heap, the lists `IRList` of
-- instructions to patch, labels and temporary variables. A label is its number.
pub mod Names
pub mod Chain
pub mod Append
pub mod Walk
pub mod Patch
pub mod Limits
pub mod Insert
use wxcc.Base.{
  ℕ, zero, suc, ◌+◌, Bool, true, false, not, Option, none, some, List, [], ◌∷◌, ◌++◌, Bytes, codes,
  length, ltb, leb, ◌==◌, if◌then◌else◌,
}
use wxcc.Outcome.{
  Fault, null_dereference, uninitialised, wild_pointer, overflow, assertion, out_of_fuel, Outcome,
  ok, fault,
}
use wxcc.Ir.Names.{decimal}

abbrev pub Ptr : Type 0
Ptr = ℕ

abbrev pub null : Ptr
null = 0

-- The members of an instruction; `none` is one that no constructor sets.
pub record Ir : Type 0 where
  pub next_ir : Option Ptr
  pub pre_ir : Option Ptr
  pub dest : Option ℕ
  pub ir_string : Bytes

pub record IrList : Type 0 where
  pub irs : List Ptr
  pub ir_count : ℕ

-- The heap, and the static members `currentIR`, `labelNum` and `currentID`. The addresses from
-- `fresh` and `fresh_list` on are free.
pub record Store : Type 0 where
  pub nodes : Ptr → Option Ir
  pub fresh : Ptr
  pub current : Ptr
  pub lists : ℕ → IrList
  pub fresh_list : ℕ
  pub label_num : ℕ
  pub current_id : ℕ

abbrev pub Cmd : Type 0 → Type 0
Cmd A = Store → Outcome (A × Store)

abbrev pub pure : {A : Type 0} → A → Cmd A
pure a s = ok (a, s)

abbrev pub fail : {A : Type 0} → Fault → Cmd A
fail e s = fault e

module _ {A B : Type 0} where
  abbrev pub and_then : Outcome (A × Store) → (A → Cmd B) → Outcome (B × Store)
  and_then (ok (a, s)) k = k a s
  and_then (fault e) k = fault e

  infixl 5 ◌>>=◌ ◌>>◌
  abbrev pub ◌>>=◌ : Cmd A → (A → Cmd B) → Cmd B
  m >>= k = λ s. and_then (m s) k

  abbrev pub ◌>>◌ : Cmd A → Cmd B → Cmd B
  m >> k = m >>= λ _. k

abbrev pub write : (Ptr → Option Ir) → Ptr → Ir → Ptr → Option Ir
write nodes p ir a = if a == p then some ir else nodes a

abbrev pub store : Ptr → Ir → Cmd (Unit {0})
store p ir s = ok (tt, record s { nodes = write s.nodes p ir })

-- `*p`
unfoldable pub load : Ptr → Cmd Ir
load p s =
    if p == null
    then fault null_dereference
    else elim (s.nodes p) [ none ↦ fault wild_pointer | some ir ↦ ok (ir, s) ]

-- A member that must have been set.
abbrev pub set_member : Option Ptr → Cmd Ptr
set_member none = fail uninitialised
set_member (some q) = pure q

unfoldable pub get_next : Ptr → Cmd Ptr
unfolding load
get_next p = do ir ← load p; set_member ir.next_ir

unfoldable pub get_pre : Ptr → Cmd Ptr
unfolding load
get_pre p = do ir ← load p; set_member ir.pre_ir

unfoldable pub set_next : Ptr → Ptr → Cmd (Unit {0})
unfolding load
set_next p q = do ir ← load p; store p (record ir { next_ir = some q })

unfoldable pub set_pre : Ptr → Ptr → Cmd (Unit {0})
unfolding load
set_pre p q = do ir ← load p; store p (record ir { pre_ir = some q })

unfoldable pub set_dest : Ptr → ℕ → Cmd (Unit {0})
unfolding load
set_dest p label = do ir ← load p; store p (record ir { dest = some label })

abbrev pub set_current : Ptr → Cmd (Unit {0})
set_current p s = ok (tt, record s { current = p })

abbrev pub get_current : Cmd Ptr
get_current s = ok (s.current, s)

-- `new IR` before its constructor runs.
unfoldable pub allocate : Ir → Cmd Ptr
allocate ir s = ok (s.fresh, record s { nodes = write s.nodes s.fresh ir; fresh = s.fresh + 1 })

abbrev pub unset : Bytes → Ir
unset text = record { next_ir = none; pre_ir = none; dest = none; ir_string = text }

-- `IR::appendIR(IR *)`
unfoldable pub append_current : Ptr → Cmd Ptr
unfolding set_next set_pre
append_current ir = do
  c ← get_current
  set_next c ir
  set_pre ir c
  set_next ir null
  set_current ir
  pure ir

-- `IR::IR(const char *, bool)`
unfoldable pub new_ir : Bytes → Bool → Cmd Ptr
unfolding allocate append_current
new_ir text append = do p ← allocate (unset text); if append then append_current p else pure p

-- `Label::toString`
abbrev pub label_string : ℕ → Bytes
label_string label = b'L' ∷ decimal label

-- `IR::IR(Label &, bool)`, which appends when it is told not to.
unfoldable pub new_label_ir : ℕ → Bool → Cmd Ptr
unfolding allocate append_current
new_label_ir label append = do
  p ← allocate (unset (label_string label ++ codes " : \n"))
  if not append then append_current p else pure p

-- `IR::IR()`
unfoldable pub new_empty_ir : Cmd Ptr
unfolding allocate
new_empty_ir = do
  p ← allocate (record { next_ir = some null; pre_ir = some null; dest = none; ir_string = [] })
  set_current p
  pure p

-- `IR::appendIR(IR *, IR *)`
unfoldable pub append_ir : Ptr → Ptr → Cmd Ptr
unfolding get_next set_next set_pre
append_ir first second = do
  next ← get_next first
  set_next second next
  if next == null then pure tt else set_pre next second
  set_pre second first
  set_next first second
  pure first

-- The loop of `reSetCurrent`, from an instruction on.
unfoldable pub last_from : ℕ → Ptr → Cmd Ptr
last_from zero p = fail out_of_fuel
last_from (suc fuel) p = do next ← get_next p; if next == null then pure p else last_from fuel next

-- `IR::reSetCurrent()`
unfoldable pub re_set_current : ℕ → Cmd (Unit {0})
re_set_current fuel = do c ← get_current; last ← last_from fuel c; set_current last

-- `IR::reSetCurrentFirst`
unfoldable pub re_set_current_first : ℕ → Ptr → Cmd Ptr
re_set_current_first zero p = fail out_of_fuel
re_set_current_first (suc fuel) p = do
  pre ← get_pre p
  if pre == null then pure p else re_set_current_first fuel pre

-- `IR::appendIRBlock`
unfoldable pub append_ir_block : ℕ → Ptr → Ptr → Cmd Ptr
unfolding get_next get_pre set_next set_pre last_from re_set_current
append_ir_block fuel place block = do
  place_next ← get_next place
  before ← get_pre block
  set_next before null
  block_end ← last_from fuel block
  set_next place block
  set_pre block place
  set_next block_end place_next
  set_pre place_next block_end
  before' ← get_pre block
  set_next before' null
  re_set_current fuel
  get_pre block

-- `IRList::makeIRList`
unfoldable pub make_ir_list : Ptr → Cmd ℕ
make_ir_list ir s =
    let l : IrList = record { irs = ir ∷ []; ir_count = 1 } in
    ok (
      s.fresh_list,
      record s {
        lists = λ i. if i == s.fresh_list then l else s.lists i;
        fresh_list = s.fresh_list + 1;
      },
    )

-- `IRList::mergeChain(IRList &, IR *)`
unfoldable pub merge_ir : ℕ → Ptr → Cmd ℕ
merge_ir l ir s = ok (
  l,
  record s {
    lists = λ i.
        if i == l
        then record { irs = (s.lists l).irs ++ ir ∷ []; ir_count = (s.lists l).ir_count + 1 }
        else s.lists i;
  },
)

-- The rounds of `mergeChain`, with the instructions of the second list from the start.
unfoldable pub merge_all : ℕ → List Ptr → Cmd ℕ
merge_all l [] = pure l
merge_all l (ir ∷ irs) = do l' ← merge_ir l ir; merge_all l irs

-- `IRList::mergeChain(IRList &, const IRList &)`
unfoldable pub merge_chain : ℕ → ℕ → Cmd ℕ
unfolding merge_all
merge_chain first second s = merge_all first (s.lists second).irs s

unfoldable pub patch_all : ℕ → List Ptr → Cmd (Unit {0})
patch_all label [] = pure tt
patch_all label (ir ∷ irs) = do set_dest ir label; patch_all label irs

-- `IRList::backPatch(IRList &, Label &)`; `set_dest` is the one on a single instruction.
unfoldable pub back_patch : ℕ → ℕ → Cmd (Unit {0})
unfolding patch_all
back_patch l label s = patch_all label (s.lists l).irs s

-- `Label::Label`
unfoldable pub new_label : Cmd ℕ
new_label s =
    if leb 1000 (s.label_num + 1)
    then fault assertion
    else ok (s.label_num, record s { label_num = s.label_num + 1 })

-- `sprintf` into an array of `size` bytes, the NUL included.
abbrev pub print_into : ℕ → Bytes → Cmd Bytes
print_into size text s = if ltb (length text) size then ok (text, s) else fault overflow

abbrev pub temporary_string : ℕ → Bytes
temporary_string t = b't' ∷ decimal t

-- `TemportaryVariable::TemportaryVariable`, on `char idString[4]`.
unfoldable pub new_temporary : Cmd ℕ
new_temporary s =
    let t = s.current_id + 1 in
    (do text ← print_into 4 (temporary_string t); pure t) (record s { current_id = t })
