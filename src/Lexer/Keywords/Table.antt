-- ===== src/Lexer/Keywords/Table.antt =====
-- lib/lex/lex.cc: the tests of `Lex::letter` spell the keywords of the language and no other word.
use wxcc.Base.{
  ℕ, Bool, true, not, ◌&&◌, Option, none, some, List, [], ◌∷◌, ◌++◌, Bytes, equal, codes, ◌≡◌, refl,
  ap, ◌∙◌, arith, ◌==◌, ==_iff, Bool-cases, inl, inr, if◌then◌else◌,
}
use wxcc.Lexer.{Letters, last, follow, last_or, Branches, other, branch}
use wxcc.Lexer.Keywords.{letters}
use wxcc.Lexer.Keywords.Match.{lookup, lookup_in}
use wxcc.Token.{
  Keyword, key_auto, key_extern, key_register, key_static, key_typedef, key_char, key_float,
  key_int, key_long, key_union, key_enum, key_signed, key_short, key_unsigned, key_struct,
  key_double, key_volatile, key_const, key_continue, key_default, key_do, key_break, key_case,
  key_else, key_for, key_goto, key_if, key_return, key_sizeof, key_switch, key_kvoid, key_while,
}

abbrev pub Dictionary : Type 0
Dictionary = List (Bytes × Keyword)

unfoldable pub find : Bytes → Dictionary → Option Keyword
unfolding equal
find w [] = none
find w ((v, k) ∷ m) = if equal w v then some k else find w m

-- The keywords of the language.
abbrev pub keywords : Dictionary
keywords =
    (codes "auto", key_auto)
    ∷ (codes "break", key_break)
    ∷ (codes "case", key_case)
    ∷ (codes "char", key_char)
    ∷ (codes "const", key_const)
    ∷ (codes "continue", key_continue)
    ∷ (codes "default", key_default)
    ∷ (codes "do", key_do)
    ∷ (codes "double", key_double)
    ∷ (codes "else", key_else)
    ∷ (codes "enum", key_enum)
    ∷ (codes "extern", key_extern)
    ∷ (codes "for", key_for)
    ∷ (codes "float", key_float)
    ∷ (codes "goto", key_goto)
    ∷ (codes "if", key_if)
    ∷ (codes "int", key_int)
    ∷ (codes "long", key_long)
    ∷ (codes "register", key_register)
    ∷ (codes "return", key_return)
    ∷ (codes "short", key_short)
    ∷ (codes "signed", key_signed)
    ∷ (codes "sizeof", key_sizeof)
    ∷ (codes "static", key_static)
    ∷ (codes "struct", key_struct)
    ∷ (codes "switch", key_switch)
    ∷ (codes "typedef", key_typedef)
    ∷ (codes "union", key_union)
    ∷ (codes "unsigned", key_unsigned)
    ∷ (codes "void", key_kvoid)
    ∷ (codes "volatile", key_volatile)
    ∷ (codes "while", key_while)
    ∷ []

-- The words that tests spell.
prefixed : ℕ → Dictionary → Dictionary
prefixed x [] = []
prefixed x ((v, k) ∷ m) = (x ∷ v, k) ∷ prefixed x m

mutual
  unfolding prefixed

  entries : Letters → Dictionary
  entries (last k) = ([], k) ∷ []
  entries (follow bs) = entries_in bs
  entries (last_or k bs) = ([], k) ∷ entries_in bs

  entries_in : Branches → Dictionary
  entries_in other = []
  entries_in (branch x t bs) = prefixed x (entries t) ++ entries_in bs

-- No byte is tested for twice at one place.
absent : ℕ → Branches → Bool
absent x other = true
absent x (branch y t bs) = not (x == y) && absent x bs

mutual
  unfolding absent

  distinct : Letters → Bool
  distinct (last k) = true
  distinct (follow bs) = distinct_in bs
  distinct (last_or k bs) = distinct_in bs

  distinct_in : Branches → Bool
  distinct_in other = true
  distinct_in (branch x t bs) = absent x bs && (distinct t && distinct_in bs)

or_else : Option Keyword → Option Keyword → Option Keyword
or_else none o = o
or_else (some k) o = some k

find-append : (w : Bytes) (a b : Dictionary) → find w (a ++ b) ≡ or_else (find w a) (find w b)
unfolding find or_else
find-append w [] b = refl
find-append w ((v, k) ∷ a) b = ground (arith, find-append w a b)

find-prefixed :
    (x c : ℕ) (w : Bytes) (m : Dictionary)
    → find (c ∷ w) (prefixed x m) ≡ (if c == x then find w m else none)
unfolding find prefixed
find-prefixed x c w [] = ground arith
find-prefixed x c w ((v, k) ∷ m) = ground (arith, find-prefixed x c w m)

find-prefixed_nil : (x : ℕ) (m : Dictionary) → find [] (prefixed x m) ≡ none
unfolding find prefixed
find-prefixed_nil x [] = refl
find-prefixed_nil x ((v, k) ∷ m) = find-prefixed_nil x m

find-absent :
    (x : ℕ) (w : Bytes) (bs : Branches) → absent x bs ≡ true → find (x ∷ w) (entries_in bs) ≡ none
unfolding absent entries or_else
find-absent x w other h = unfold find in refl
find-absent x w (branch y t bs) h =
    rw (find-append, find-prefixed) (ground (arith, find-absent x w bs))

find-entries_nil : (bs : Branches) → find [] (entries_in bs) ≡ none
unfolding entries or_else
find-entries_nil other = unfold find in refl
find-entries_nil (branch y t bs) = rw (find-append, find-prefixed_nil, find-entries_nil bs)

or_else-none : (o : Option Keyword) → or_else o none ≡ o
unfolding or_else
or_else-none none = refl
or_else-none (some k) = refl

distinct-parts : (p q r : Bool) → (p && (q && r)) ≡ true → (p ≡ true) × (q ≡ true) × (r ≡ true)
distinct-parts p q r h = ground arith

mutual
  unfolding lookup entries distinct or_else find

  lookup-find : (t : Letters) (w : Bytes) → distinct t ≡ true → lookup t w ≡ find w (entries t)
  lookup-find (last k) [] d = refl
  lookup-find (last k) (c ∷ w) d = refl
  lookup-find (follow bs) w d = lookup_in-find bs w d
  lookup-find (last_or k bs) [] d = refl
  lookup-find (last_or k bs) (c ∷ w) d = lookup_in-find bs (c ∷ w) d

  lookup_in-find :
      (bs : Branches) (w : Bytes) → distinct_in bs ≡ true → lookup_in bs w ≡ find w (entries_in bs)
  lookup_in-find other w d = refl
  lookup_in-find (branch x t bs) [] d =
      let (_, _, rest) = distinct-parts (absent x bs) (distinct t) _ d in
      rw (find-append, find-prefixed_nil) (lookup_in-find bs [] rest)
  lookup_in-find (branch x t bs) (c ∷ w) d =
      let (alone, here, rest) = distinct-parts (absent x bs) (distinct t) _ d in
      elim (Bool-cases (c == x)) [
        | inl hit ↦
            let others : find (c ∷ w) (entries_in bs) ≡ none =
              rw ((==_iff c x).0 hit) (find-absent x w bs alone) in
            rw (find-append, find-prefixed, hit, others, or_else-none) (lookup-find t w here)
        | inr miss ↦ rw (find-append, find-prefixed, miss) (lookup_in-find bs (c ∷ w) rest)
      ]

letters-keywords : entries_in letters ≡ keywords
unfolding entries
letters-keywords = refl

letters-distinct : distinct_in letters ≡ true
unfolding distinct
letters-distinct = refl

-- The tests of `letter` are the dictionary of the keywords, for every word.
pub lookup-keywords : (w : Bytes) → lookup_in letters w ≡ find w keywords
lookup-keywords w = lookup_in-find letters w letters-distinct ∙ ap (find w) letters-keywords
