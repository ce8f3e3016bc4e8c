-- ===== src/Ir/Append.antt =====
-- lib/inter/semantic.cc: the code as a list of texts, to which a new instruction is appended.
use wxcc.Base.{
  ℕ, ◌+◌, ◌<◌, true, Option, none, some, List, [], ◌∷◌, ◌++◌, append_assoc, Bytes, Bool-cases, inl,
  inr, ◌≡◌, ◌≢◌, refl, ap, ap₂, sym, ◌∙◌, arith,
}
use wxcc.Outcome.{ok}
use wxcc.Ir.{Ptr, null, Ir, Store, write, load, unset, allocate, append_current, new_ir}
use wxcc.Ir.Chain.{
  Nodes, has, ◌∉◌, last_or, Linked, has-append, has_self, Linked-frame, Linked-split, Linked-append,
}

-- The code: the linked instructions `front` and then the current one, all of them allocated.
pub record IsCode (s : Store) (front : List Ptr) : Type 0 where
  pub linked : Linked s.nodes null (front ++ s.current ∷ []) null
  pub below : (a : Ptr) → has a (front ++ s.current ∷ []) ≡ true → a < s.fresh

abbrev pub text_of : Option Ir → Bytes
text_of none = []
text_of (some ir) = ir.ir_string

-- The texts of instructions.
abbrev pub listing : Nodes → List Ptr → List Bytes
listing nodes [] = []
listing nodes (x ∷ xs) = text_of (nodes x) ∷ listing nodes xs

-- The heap when `p` has been allocated and appended behind `c`.
abbrev appended : Nodes → (c p : Ptr) (irc irp : Ir) → Nodes
appended nodes c p irc irp =
    write
      (write (write nodes c (record irc { next_ir = some p })) p (record irp { pre_ir = some c })) p
      (record irp { pre_ir = some c; next_ir = some null })

append_current-ok :
    (s : Store) (p : Ptr) (irc irp : Ir)
    → s.current ≢ null
    → p ≢ null
    → p ≢ s.current
    → s.nodes s.current ≡ some irc
    → s.nodes p ≡ some irp
    → append_current p s
      ≡ ok (p, record s { nodes = appended s.nodes s.current p irc irp; current = p })
unfolding append_current load
append_current-ok s p irc irp nc np ne ec ep = ground arith

has_end : (front : List Ptr) (x : Ptr) → has x (front ++ x ∷ []) ≡ true
has_end [] x = has_self x []
has_end (f ∷ front) x = let ih = has_end front x in ground (arith, ih)

has_front : (front : List Ptr) (x a : Ptr) → has a front ≡ true → has a (front ++ x ∷ []) ≡ true
has_front front x a i = rw (has-append a front (x ∷ []), i) refl

has_ne : (a b : Ptr) (xs : List Ptr) → has a xs ≡ true → b ∉ xs → a ≢ b
has_ne a b xs i out same = cc

out_ne : (a b : Ptr) (xs : List Ptr) → a ∉ (b ∷ xs) → a ≢ b
out_ne a b xs out same = let i = has_self b xs in cc

ne_out : (a b c : Ptr) → a ≢ b → a ≢ c → a ∉ (b ∷ c ∷ [])
ne_out a b c n m = ground arith

-- The addresses from `fresh` on are in no code.
fresh-out : (s : Store) (front : List Ptr) → IsCode s front → s.fresh ∉ (front ++ s.current ∷ [])
fresh-out s front c = elim (Bool-cases (has s.fresh (front ++ s.current ∷ []))) [
  | inl i ↦ absurd (omega (arith, c.below s.fresh i))
  | inr out ↦ out
]

listing-same :
    (nodes nodes' : Nodes) (xs : List Ptr)
    → ((a : Ptr) → has a xs ≡ true → text_of (nodes' a) ≡ text_of (nodes a))
    → listing nodes' xs ≡ listing nodes xs
listing-same nodes nodes' [] same = refl
listing-same nodes nodes' (x ∷ xs) same =
    ap₂ ◌∷◌ (same x (has_self x xs)) (listing-same nodes nodes' xs (λ a i. same a (ground arith)))

listing-append :
    (nodes : Nodes) (xs ys : List Ptr)
    → listing nodes (xs ++ ys) ≡ listing nodes xs ++ listing nodes ys
listing-append nodes [] ys = refl
listing-append nodes (x ∷ xs) ys = ap (◌∷◌ (text_of (nodes x))) (listing-append nodes xs ys)

-- What appending does: the code grows by the new instruction, and the lists stay as they are.
pub record Appends (s : Store) (front : List Ptr) (text : Bytes) (p : Ptr) (s' : Store)
    : Type 0 where
  pub is_current : s'.current ≡ p
  pub is_code : IsCode s' (front ++ s.current ∷ [])
  pub texts :
      listing s'.nodes (front ++ s.current ∷ s'.current ∷ [])
      ≡ listing s.nodes (front ++ s.current ∷ []) ++ text ∷ []
  pub next_fresh : s'.fresh ≡ s.fresh + 1
  pub lists_kept : s'.lists ≡ s.lists
  pub fresh_list_kept : s'.fresh_list ≡ s.fresh_list

current_below : (s : Store) (front : List Ptr) → IsCode s front → s.current < s.fresh
current_below s front c = c.below s.current (has_end front s.current)

appended_same :
    (nodes : Nodes) (c p : Ptr) (text : Bytes) (irc : Ir) (a : Ptr)
    → a ≢ c
    → a ≢ p
    → appended (write nodes p (unset text)) c p irc (unset text) a ≡ nodes a
appended_same nodes c p text irc a n m = ground arith

appended_text :
    (nodes : Nodes) (c p : Ptr) (text : Bytes) (irc : Ir) (a : Ptr)
    → nodes c ≡ some irc
    → a ≢ p
    → text_of (appended (write nodes p (unset text)) c p irc (unset text) a) ≡ text_of (nodes a)
appended_text nodes c p text irc a e n = ground arith

appended-listing :
    (nodes : Nodes) (front : List Ptr) (c p : Ptr) (text : Bytes) (irc : Ir)
    → p ∉ (front ++ c ∷ [])
    → nodes c ≡ some irc
    → listing (appended (write nodes p (unset text)) c p irc (unset text)) (front ++ c ∷ p ∷ [])
      ≡ listing nodes (front ++ c ∷ []) ++ text ∷ []
appended-listing nodes front c p text irc out e =
    let N = appended (write nodes p (unset text)) c p irc (unset text) in
    let new : text_of (N p) ≡ text = ground arith in
    let old =
      listing-same nodes N (front ++ c ∷ [])
        (λ a i. appended_text nodes c p text irc a e (has_ne a p (front ++ c ∷ []) i out)) in
    ap (listing N) (sym (append_assoc front (c ∷ []) (p ∷ [])))
    ∙ listing-append N (front ++ c ∷ []) (p ∷ [])
    ∙ ap₂ ◌++◌ old (ap (λ (x : Bytes). x ∷ []) new)

appended-Linked :
    (nodes : Nodes) (front : List Ptr) (c p : Ptr) (text : Bytes) (d : Option ℕ) (t : Bytes)
    → Linked nodes null (front ++ c ∷ []) null
    → p ∉ (front ++ c ∷ [])
    → p ≢ null
    → nodes c
      ≡ some (record {
        next_ir = some null;
        pre_ir = some (last_or null front);
        dest = d;
        ir_string = t;
      })
    → Linked
        (appended
          (write nodes p (unset text))
          c
          p
          (record {
            next_ir = some null;
            pre_ir = some (last_or null front);
            dest = d;
            ir_string = t;
          })
          (unset text))
        null
        (front ++ c ∷ p ∷ [])
        null
appended-Linked nodes front c p text d t l out np e =
    let irc : Ir = record {
      next_ir = some null;
      pre_ir = some (last_or null front);
      dest = d;
      ir_string = t;
    } in
    let N = appended (write nodes p (unset text)) c p irc (unset text) in
    let (before, (nc, _, _, _), apart) = Linked-split nodes null front c [] null l in
    let ne : c ≢ p = has_ne c p (front ++ c ∷ []) (has_end front c) out in
    let same : (a : Ptr) → has a front ≡ true → N a ≡ nodes a = λ a i.
      appended_same nodes c p text irc a (out_ne a c [] (apart a i))
        (has_ne a p (front ++ c ∷ []) (has_front front c a i) out) in
    Linked-append N null front c (p ∷ []) null (Linked-frame nodes N null front c before same)
      (nc, ground arith, (d, t, ground arith), (np, refl, (none, text, ground arith), tt))
      (λ a i.
        ne_out a c p (out_ne a c [] (apart a i))
          (has_ne a p (front ++ c ∷ []) (has_front front c a i) out))

-- On code, `new IR(text)` makes an instruction and appends it to the list of texts.
pub new_ir-Appends :
    (s : Store) (front : List Ptr) (text : Bytes)
    → IsCode s front
    → (s' : Store) × (new_ir text true s ≡ ok (s.fresh, s')) × Appends s front text s.fresh s'
unfolding new_ir allocate
new_ir-Appends s front text c =
    let p = s.fresh in
    let out = fresh-out s front c in
    let (before, (nc, _, (d, t, e), _), apart) =
      Linked-split s.nodes null front s.current [] null c.linked in
    let irc : Ir = record {
      next_ir = some null;
      pre_ir = some (last_or null front);
      dest = d;
      ir_string = t;
    } in
    let s1 = record s { nodes = write s.nodes p (unset text); fresh = p + 1 } in
    let s' = record s1 { nodes = appended s1.nodes s.current p irc (unset text); current = p } in
    let small = current_below s front c in
    let np : p ≢ null = λ h. omega arith in
    let ne : p ≢ s.current = λ h. omega arith in
    (
      s',
      append_current-ok s1 p irc (unset text) nc np ne (ground (arith, e)) (ground arith),
      record {
        is_current = refl;
        is_code = record {
          linked =
              rw (append_assoc front (s.current ∷ []) (p ∷ []))
                (appended-Linked s.nodes front s.current p text d t c.linked out np e);
          below = λ a i. ground (arith, has-append a (front ++ s.current ∷ []) (p ∷ []), c.below a);
        };
        texts = appended-listing s.nodes front s.current p text irc out e;
        next_fresh = refl;
        lists_kept = refl;
        fresh_list_kept = refl;
      },
    )
