-- ===== src/Ir/Chain.antt =====
-- lib/inter/semantic.cc: instructions that are linked in both directions.
use wxcc.Base.{
  ℕ, Bool, true, false, ◌||◌, Option, some, List, [], ◌∷◌, ◌++◌, Bytes, ◌==◌, ==_iff, Bool-cases,
  inl, inr, ◌≡◌, ◌≢◌, refl, subst, sym, ◌∙◌, arith,
}
use wxcc.Ir.{Ptr, null, Ir, write}

abbrev pub Nodes : Type 0
Nodes = Ptr → Option Ir

abbrev pub has : Ptr → List Ptr → Bool
has a [] = false
has a (x ∷ xs) = (a == x) || has a xs

infix 40 ◌∉◌
abbrev pub ◌∉◌ : Ptr → List Ptr → Type 0
a ∉ xs = has a xs ≡ false

-- An instruction with its links, whatever its text and destination.
abbrev pub Holds : Nodes → Ptr → (pre next : Ptr) → Type 0
Holds nodes p pre next =
    (d : Option ℕ) × (text : Bytes) × (nodes p
      ≡ some (record { next_ir = some next; pre_ir = some pre; dest = d; ir_string = text }))

abbrev pub head_or : List Ptr → Ptr → Ptr
head_or [] q = q
head_or (x ∷ xs) q = x

abbrev pub last_or : Ptr → List Ptr → Ptr
last_or p [] = p
last_or p (x ∷ xs) = last_or x xs

-- The different instructions `xs`, from the one behind `pre` to the one in front of `stop`.
abbrev pub Linked : Nodes → (pre : Ptr) → List Ptr → (stop : Ptr) → Type 0
Linked nodes pre [] stop = Unit
Linked nodes pre (x ∷ xs) stop =
    (x ≢ null) × (x ∉ xs) × Holds nodes x pre (head_or xs stop) × Linked nodes x xs stop

pub has-append : (a : Ptr) (xs ys : List Ptr) → has a (xs ++ ys) ≡ (has a xs || has a ys)
has-append a [] ys = refl
has-append a (x ∷ xs) ys = ground (arith, has-append a xs ys)

pub head_or-append :
    (front : List Ptr) (x : Ptr) (back : List Ptr) (stop : Ptr)
    → head_or (front ++ x ∷ back) stop ≡ head_or front x
head_or-append [] x back stop = refl
head_or-append (f ∷ front) x back stop = refl

pub has_self : (x : Ptr) (xs : List Ptr) → has x (x ∷ xs) ≡ true
has_self x xs = rw ((==_iff x x).1 refl) refl

pub or_false : (a b : Bool) → (a || b) ≡ false → (a ≡ false) × (b ≡ false)
or_false true b h = cc
or_false false b h = (refl, h)

apart_cons :
    (a f : Ptr) (front rest : List Ptr)
    → f ∉ rest
    → (has a front ≡ true → a ∉ rest)
    → has a (f ∷ front) ≡ true
    → a ∉ rest
apart_cons a f front rest out apart i = elim (Bool-cases (a == f)) [
  | inl same ↦ subst (λ (b : Ptr). b ∉ rest) (sym ((==_iff a f).0 same)) out
  | inr other ↦ apart (rw other at i)
]

module _ (nodes : Nodes) where
  pub Linked-frame :
      (nodes' : Nodes) (pre : Ptr) (xs : List Ptr) (stop : Ptr)
      → Linked nodes pre xs stop
      → ((a : Ptr) → has a xs ≡ true → nodes' a ≡ nodes a)
      → Linked nodes' pre xs stop
  Linked-frame nodes' pre [] stop l same = tt
  Linked-frame nodes' pre (x ∷ xs) stop (n, out, (d, text, e), l) same = (
    n,
    out,
    (d, text, same x (ground arith) ∙ e),
    Linked-frame nodes' x xs stop l (λ a i. same a (ground arith)),
  )

  pub Linked-write :
      (p : Ptr) (ir : Ir) (pre : Ptr) (xs : List Ptr) (stop : Ptr)
      → p ∉ xs
      → Linked nodes pre xs stop
      → Linked (write nodes p ir) pre xs stop
  Linked-write p ir pre xs stop out l =
      Linked-frame (write nodes p ir) pre xs stop l (λ a i. ground arith)

  -- A chain in front of an instruction and the chain from it on.
  pub Linked-split :
      (pre : Ptr) (front : List Ptr) (x : Ptr) (back : List Ptr) (stop : Ptr)
      → Linked nodes pre (front ++ x ∷ back) stop
      → Linked nodes pre front x
        × Linked nodes (last_or pre front) (x ∷ back) stop
        × ((a : Ptr) → has a front ≡ true → a ∉ (x ∷ back))
  Linked-split pre [] x back stop l = (tt, l, λ a i. cc)
  Linked-split pre (f ∷ front) x back stop (n, out, e, l) =
      let (before, behind, apart) = Linked-split f front x back stop l in
      let parts =
        or_false (has f front) (has f (x ∷ back)) (sym (has-append f front (x ∷ back)) ∙ out) in
      (
        (n, parts.0, subst (Holds nodes f pre) (head_or-append front x back stop) e, before),
        behind,
        λ a. apart_cons a f front (x ∷ back) parts.1 (apart a),
      )

  pub Linked-append :
      (pre : Ptr) (front : List Ptr) (x : Ptr) (back : List Ptr) (stop : Ptr)
      → Linked nodes pre front x
      → Linked nodes (last_or pre front) (x ∷ back) stop
      → ((a : Ptr) → has a front ≡ true → a ∉ (x ∷ back))
      → Linked nodes pre (front ++ x ∷ back) stop
  Linked-append pre [] x back stop before behind apart = behind
  Linked-append pre (f ∷ front) x back stop (n, out, e, before) behind apart =
      let out' = has-append f front (x ∷ back) in
      (
        n,
        rw (out', out) (apart f (has_self f front)),
        subst (Holds nodes f pre) (sym (head_or-append front x back stop)) e,
        Linked-append f front x back stop before behind (λ a i. apart a (ground arith)),
      )
