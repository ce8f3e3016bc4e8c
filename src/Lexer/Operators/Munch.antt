-- ===== src/Lexer/Operators/Munch.antt =====
-- lib/lex/lex.cc: `Lex::operators` against the longest operator that the input begins with.
use wxcc.Base.{
  ℕ, ◌≢◌, Bool, true, false, Option, none, some, List, [], ◌∷◌, ◌++◌, Bytes, codes, ◌≡◌, refl, sym,
  ap, subst, arith, ◌==◌, ==_iff, ◌||◌, Bool-cases, inl, inr, if◌then◌else◌, append-nil,
}
use Prim.Native.String.{String}
use wxcc.Input.{MemorySource, advance}
use wxcc.Input.View.{
  Views-InInt, Views, next-get_char, advance-Views, unmoved-Views, next-push_back,
}
use wxcc.Lexer.{back}
use wxcc.Lexer.Operators.{
  Seconds, find_second, after_second, second_or_back, bang_seconds, percent_seconds, caret_seconds,
  ampersand_seconds, star_seconds, plus_seconds, minus_seconds, bar_seconds, operator,
}
use wxcc.Token.{
  Op, op_none, op_lognot, op_mod, op_bitxor, op_bitand, op_mult, op_plus, op_minus, op_bitnot,
  op_bitor, op_div, op_question, op_pointer, op_inc, op_dec, op_leftshift, op_rightshift, op_lt,
  op_gt, op_le, op_ge, op_eq, op_ne, op_logand, op_logor, op_leftbrack, op_rightbrack,
  op_leftsqbrac, op_rightsqbrac, op_leftbrace, op_rightbrace, op_comma, op_colon, op_semicolon,
  op_eppipsis, op_period, op_assign, op_alplus, op_alminus, op_almult, op_aldiv, op_almod,
  op_alleftshift, op_alrightshift, op_albitand, op_albitxor, op_albitor,
}

-- The operators of the language, the longer ones first.
abbrev pub spellings : List (String × Op)
spellings =
    ("...", op_eppipsis)
    ∷ ("<<=", op_alleftshift)
    ∷ (">>=", op_alrightshift)
    ∷ ("->", op_pointer)
    ∷ ("++", op_inc)
    ∷ ("--", op_dec)
    ∷ ("<<", op_leftshift)
    ∷ (">>", op_rightshift)
    ∷ ("<=", op_le)
    ∷ (">=", op_ge)
    ∷ ("==", op_eq)
    ∷ ("!=", op_ne)
    ∷ ("&&", op_logand)
    ∷ ("||", op_logor)
    ∷ ("+=", op_alplus)
    ∷ ("-=", op_alminus)
    ∷ ("*=", op_almult)
    ∷ ("/=", op_aldiv)
    ∷ ("%=", op_almod)
    ∷ ("&=", op_albitand)
    ∷ ("^=", op_albitxor)
    ∷ ("|=", op_albitor)
    ∷ ("!", op_lognot)
    ∷ ("%", op_mod)
    ∷ ("^", op_bitxor)
    ∷ ("&", op_bitand)
    ∷ ("*", op_mult)
    ∷ ("+", op_plus)
    ∷ ("-", op_minus)
    ∷ ("~", op_bitnot)
    ∷ ("|", op_bitor)
    ∷ ("/", op_div)
    ∷ ("?", op_question)
    ∷ ("<", op_lt)
    ∷ (">", op_gt)
    ∷ ("(", op_leftbrack)
    ∷ (")", op_rightbrack)
    ∷ ("[", op_leftsqbrac)
    ∷ ("]", op_rightsqbrac)
    ∷ ("{", op_leftbrace)
    ∷ ("}", op_rightbrace)
    ∷ (",", op_comma)
    ∷ (":", op_colon)
    ∷ (";", op_semicolon)
    ∷ (".", op_period)
    ∷ ("=", op_assign)
    ∷ []

-- What follows a prefix.
abbrev pub strip : Bytes → Bytes → Option Bytes
strip [] w = some w
strip (x ∷ v) [] = none
strip (x ∷ v) (c ∷ w) = if c == x then strip v w else none

-- The first operator of the list that the text begins with, and the text behind it.
abbrev pub munch_in : List (String × Op) → Bytes → Op × Bytes
munch_in [] w = (op_none, w)
munch_in ((v, o) ∷ m) w = elim (strip (codes v) w) [ some r ↦ (o, r) | none ↦ munch_in m w ]

unfoldable pub munch : Bytes → Op × Bytes
munch = munch_in spellings

-- The operator `o` was returned, and of `rest` exactly `rest'` is left to read.
pub record OperatorIs (read rest : Bytes) (o : Op) (rest' : Bytes) (r : Op × MemorySource)
    : Type 0 where
  pub op_is : r.0 ≡ o
  pub taken : Bytes
  pub split : taken ++ rest' ≡ rest
  pub views : Views (read ++ taken) rest' r.1

-- The outcome of a second byte that is, or is not, part of an operator.
abbrev pick : Option Op → Op → ℕ → Bytes → Op × Bytes
pick (some o') o c rest = (o', rest)
pick none o c rest = (o, c ∷ rest)

-- One byte is taken, or given back.
module _ {read rest : Bytes} {c : ℕ} (s : MemorySource) (v : Views read (c ∷ rest) s)
    (nz : c ≢ 0) where
  pub took : (o : Op) → OperatorIs read (c ∷ rest) o rest (o, advance c s)
  took o = record { op_is = refl; taken = c ∷ []; split = refl; views = advance-Views s v }

  pub gave : (o : Op) → OperatorIs read (c ∷ rest) o (c ∷ rest) (o, back (advance c s))
  gave o = record {
    op_is = refl;
    taken = [];
    split = refl;
    views = rw (next-push_back s v.rest_is (Views-InInt s v), append-nil) (unmoved-Views c s v);
  }

  after_second-OperatorIs :
      (o : Op) (f : Option Op)
      → OperatorIs read
          (c ∷ rest)
          (pick f o c rest).0
          (pick f o c rest).1
          (after_second f o (advance c s))
  after_second-OperatorIs o (some o') = took o'
  after_second-OperatorIs o none = gave o

  second_or_back-OperatorIs :
      (m : Seconds) (o : Op) (r : Op × Bytes)
      → r ≡ pick (find_second m c) o c rest
      → OperatorIs read (c ∷ rest) r.0 r.1 (second_or_back m o s)
  unfolding second_or_back
  second_or_back-OperatorIs m o r e =
      let got : second_or_back m o s ≡ after_second (find_second m c) o (advance c s) =
        ap (λ (g : ℕ × MemorySource). after_second (find_second m g.0) o g.1)
          (next-get_char s v.rest_is nz) in
      rw (got, e) (after_second-OperatorIs o (find_second m c))

-- What `operators` does on a first byte, where another byte follows: it returns the longest
-- operator, and leaves all that follows it to read.
abbrev pub Munches : ℕ → Type 0
Munches c₀ =
    (read rest : Bytes) (c : ℕ) (s : MemorySource)
    → Views read (c ∷ rest) s
    → c ≢ 0
    → OperatorIs read (c ∷ rest) (munch (c₀ ∷ c ∷ rest)).0 (munch (c₀ ∷ c ∷ rest)).1 (operator c₀ s)

bang-munch :
    (c : ℕ) (rest : Bytes)
    → munch (b'!' ∷ c ∷ rest) ≡ pick (find_second bang_seconds c) op_lognot c rest
unfolding munch find_second
bang-munch c rest = ground arith

percent-munch :
    (c : ℕ) (rest : Bytes)
    → munch (b'%' ∷ c ∷ rest) ≡ pick (find_second percent_seconds c) op_mod c rest
unfolding munch find_second
percent-munch c rest = ground arith

caret-munch :
    (c : ℕ) (rest : Bytes)
    → munch (b'^' ∷ c ∷ rest) ≡ pick (find_second caret_seconds c) op_bitxor c rest
unfolding munch find_second
caret-munch c rest = ground arith

ampersand-munch :
    (c : ℕ) (rest : Bytes)
    → munch (b'&' ∷ c ∷ rest) ≡ pick (find_second ampersand_seconds c) op_bitand c rest
unfolding munch find_second
ampersand-munch c rest = ground arith

star-munch :
    (c : ℕ) (rest : Bytes)
    → munch (b'*' ∷ c ∷ rest) ≡ pick (find_second star_seconds c) op_mult c rest
unfolding munch find_second
star-munch c rest = ground arith

plus-munch :
    (c : ℕ) (rest : Bytes)
    → munch (b'+' ∷ c ∷ rest) ≡ pick (find_second plus_seconds c) op_plus c rest
unfolding munch find_second
plus-munch c rest = ground arith

minus-munch :
    (c : ℕ) (rest : Bytes)
    → munch (b'-' ∷ c ∷ rest) ≡ pick (find_second minus_seconds c) op_minus c rest
unfolding munch find_second
minus-munch c rest = ground arith

bar-munch :
    (c : ℕ) (rest : Bytes)
    → munch (b'|' ∷ c ∷ rest) ≡ pick (find_second bar_seconds c) op_bitor c rest
unfolding munch find_second
bar-munch c rest = ground arith

bang-Munches : Munches b'!'
unfolding operator
bang-Munches read rest c s v nz =
    second_or_back-OperatorIs s v nz bang_seconds op_lognot _ (bang-munch c rest)

percent-Munches : Munches b'%'
unfolding operator
percent-Munches read rest c s v nz =
    second_or_back-OperatorIs s v nz percent_seconds op_mod _ (percent-munch c rest)

caret-Munches : Munches b'^'
unfolding operator
caret-Munches read rest c s v nz =
    second_or_back-OperatorIs s v nz caret_seconds op_bitxor _ (caret-munch c rest)

ampersand-Munches : Munches b'&'
unfolding operator
ampersand-Munches read rest c s v nz =
    second_or_back-OperatorIs s v nz ampersand_seconds op_bitand _ (ampersand-munch c rest)

star-Munches : Munches b'*'
unfolding operator
star-Munches read rest c s v nz =
    second_or_back-OperatorIs s v nz star_seconds op_mult _ (star-munch c rest)

plus-Munches : Munches b'+'
unfolding operator
plus-Munches read rest c s v nz =
    second_or_back-OperatorIs s v nz plus_seconds op_plus _ (plus-munch c rest)

minus-Munches : Munches b'-'
unfolding operator
minus-Munches read rest c s v nz =
    second_or_back-OperatorIs s v nz minus_seconds op_minus _ (minus-munch c rest)

bar-Munches : Munches b'|'
unfolding operator
bar-Munches read rest c s v nz =
    second_or_back-OperatorIs s v nz bar_seconds op_bitor _ (bar-munch c rest)

-- An operator that begins no other: nothing more is read.
untouched :
    (o : Op) (read rest : Bytes) (c : ℕ) (s : MemorySource)
    → Views read (c ∷ rest) s
    → c ≢ 0
    → OperatorIs read (c ∷ rest) o (c ∷ rest) (o, s)
untouched o read rest c s v nz = record {
  op_is = refl;
  taken = [];
  split = refl;
  views = rw append-nil v;
}

abbrev pub All {ℓ} : (ℕ → Type ℓ) → Bytes → Type ℓ
All P [] = Unit
All P (c ∷ cs) = P c × All P cs

abbrev pub occurs : ℕ → Bytes → Bool
occurs c [] = false
occurs c (x ∷ xs) = c == x || occurs c xs

pub of_All : (P : ℕ → Type 0) (c : ℕ) (xs : Bytes) → All P xs → occurs c xs ≡ true → P c
of_All P c [] a h = cc
of_All P c (x ∷ xs) a h = elim (Bool-cases (c == x)) [
  | inl hit ↦ subst P (sym ((==_iff c x).0 hit)) a.0
  | inr miss ↦ of_All P c xs a.1 (rw miss at h)
]

singles-Munches : All Munches (codes "~?()[]{},;:")
unfolding operator munch
singles-Munches = (
  untouched op_bitnot,
  (
    untouched op_question,
    (
      untouched op_leftbrack,
      (
        untouched op_rightbrack,
        (
          untouched op_leftsqbrac,
          (
            untouched op_rightsqbrac,
            (
              untouched op_leftbrace,
              (
                untouched op_rightbrace,
                (untouched op_comma, (untouched op_semicolon, (untouched op_colon, tt))),
              ),
            ),
          ),
        ),
      ),
    ),
  ),
)

-- `operators` on a first byte whose operators are read with the byte behind given back where it is
-- no part of them: the longest operator of the language comes back, and what follows it is left.
-- The input is shorter than 2 ^ 31 - 1 bytes.
pub operator-munch : (c₀ : ℕ) → occurs c₀ (codes "!%^&*+-|~?()[]{},;:") ≡ true → Munches c₀
operator-munch c₀ h =
    of_All Munches c₀ (codes "!%^&*+-|~?()[]{},;:")
      (
        bang-Munches,
        (
          percent-Munches,
          (
            caret-Munches,
            (
              ampersand-Munches,
              (star-Munches, (plus-Munches, (minus-Munches, (bar-Munches, singles-Munches)))),
            ),
          ),
        ),
      )
      h
