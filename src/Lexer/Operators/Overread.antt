-- ===== src/Lexer/Operators/Overread.antt =====
-- lib/lex/lex.cc: `Lex::operators` at `/`, `=`, `<` and `>`, whose default branches do not give the
-- byte behind back.
use wxcc.Base.{
  ℕ, ◌≢◌, Bool, true, false, [], ◌∷◌, ◌++◌, Bytes, codes, ◌≡◌, refl, ap, subst, ◌∙◌, arith, ◌==◌,
  ◌||◌, if◌then◌else◌, append_assoc,
}
use wxcc.Input.{get_char, MemorySource, next, advance}
use wxcc.Input.View.{Views, next-get_char, advance-Views}
use wxcc.Lexer.{back}
use wxcc.Lexer.Operators.{after_angle, after_equals, angle, with_equals, operator}
use wxcc.Lexer.Operators.Munch.{munch, OperatorIs, took, gave, occurs, of_All}
use wxcc.Token.{
  Op, op_lt, op_le, op_gt, op_ge, op_leftshift, op_rightshift, op_alleftshift, op_alrightshift,
  op_div, op_aldiv, op_eq, op_assign,
}

-- A byte `c` that is no part of an operator beginning with `c₀` is taken all the same.
abbrev Overreads : ℕ → Type 0
Overreads c₀ =
    (read rest : Bytes) (c : ℕ) (s : MemorySource)
    → Views read (c ∷ rest) s
    → c ≢ 0
    → (c == b'=' || c == c₀) ≡ false
    → (OperatorIs read (c ∷ rest) (munch (c₀ ∷ c ∷ rest)).0 rest (operator c₀ s))
      × ((munch (c₀ ∷ c ∷ rest)).1 ≡ c ∷ rest)

angle-got :
    (x : ℕ) (one with_eq twice twice_eq : Op) (read rest : Bytes) (c : ℕ) (s : MemorySource)
    → Views read (c ∷ rest) s
    → c ≢ 0
    → angle x one with_eq twice twice_eq s
      ≡ after_angle x one with_eq twice twice_eq c (advance c s)
unfolding angle
angle-got x one with_eq twice twice_eq read rest c s v nz =
    ap (λ (g : ℕ × MemorySource). after_angle x one with_eq twice twice_eq g.0 g.1)
      (next-get_char s v.rest_is nz)

equals-got :
    (with_eq one : Op) (read rest : Bytes) (c : ℕ) (s : MemorySource)
    → Views read (c ∷ rest) s
    → c ≢ 0
    → with_equals with_eq one s ≡ after_equals with_eq one c (advance c s)
unfolding with_equals
equals-got with_eq one read rest c s v nz =
    ap (λ (g : ℕ × MemorySource). after_equals with_eq one g.0 g.1) (next-get_char s v.rest_is nz)

lost :
    (o : Op) (m : Op × Bytes) (read rest : Bytes) (c : ℕ) (s : MemorySource) {r : Op × MemorySource}
    → Views read (c ∷ rest) s
    → c ≢ 0
    → m ≡ (o, c ∷ rest)
    → r ≡ (o, advance c s)
    → (OperatorIs read (c ∷ rest) m.0 rest r) × (m.1 ≡ c ∷ rest)
lost o m read rest c s v nz e f = rw (e, f) (took s v nz o, refl)

after_angle_alone :
    (x : ℕ) (one with_eq twice twice_eq : Op) (c : ℕ) (s : MemorySource)
    → (c == b'=' || c == x) ≡ false
    → after_angle x one with_eq twice twice_eq c s ≡ (one, s)
after_angle_alone x one with_eq twice twice_eq c s h = ground arith

after_equals_alone :
    (with_eq one : Op) (c x : ℕ) (s : MemorySource)
    → (c == b'=' || c == x) ≡ false
    → after_equals with_eq one c s ≡ (one, s)
after_equals_alone with_eq one c x s h = ground arith

less_alone :
    (c : ℕ) (rest : Bytes)
    → (c == b'=' || c == b'<') ≡ false
    → munch (b'<' ∷ c ∷ rest) ≡ (op_lt, c ∷ rest)
unfolding munch
less_alone c rest h = ground arith

less-Overreads : Overreads b'<'
unfolding operator
less-Overreads read rest c s v nz h =
    let taken : operator b'<' s ≡ (op_lt, advance c s) =
      angle-got b'<' op_lt op_le op_leftshift op_alleftshift read rest c s v nz
      ∙ after_angle_alone b'<' op_lt op_le op_leftshift op_alleftshift c _ h in
    lost op_lt (munch (b'<' ∷ c ∷ rest)) read rest c s v nz (less_alone c rest h) taken

greater_alone :
    (c : ℕ) (rest : Bytes)
    → (c == b'=' || c == b'>') ≡ false
    → munch (b'>' ∷ c ∷ rest) ≡ (op_gt, c ∷ rest)
unfolding munch
greater_alone c rest h = ground arith

greater-Overreads : Overreads b'>'
unfolding operator
greater-Overreads read rest c s v nz h =
    let taken : operator b'>' s ≡ (op_gt, advance c s) =
      angle-got b'>' op_gt op_ge op_rightshift op_alrightshift read rest c s v nz
      ∙ after_angle_alone b'>' op_gt op_ge op_rightshift op_alrightshift c _ h in
    lost op_gt (munch (b'>' ∷ c ∷ rest)) read rest c s v nz (greater_alone c rest h) taken

slash_alone :
    (c : ℕ) (rest : Bytes)
    → (c == b'=' || c == b'/') ≡ false
    → munch (b'/' ∷ c ∷ rest) ≡ (op_div, c ∷ rest)
unfolding munch
slash_alone c rest h = ground arith

slash-Overreads : Overreads b'/'
unfolding operator
slash-Overreads read rest c s v nz h =
    let taken : operator b'/' s ≡ (op_div, advance c s) =
      equals-got op_aldiv op_div read rest c s v nz
      ∙ after_equals_alone op_aldiv op_div c b'/' _ h in
    lost op_div (munch (b'/' ∷ c ∷ rest)) read rest c s v nz (slash_alone c rest h) taken

equals_alone :
    (c : ℕ) (rest : Bytes)
    → (c == b'=' || c == b'=') ≡ false
    → munch (b'=' ∷ c ∷ rest) ≡ (op_assign, c ∷ rest)
unfolding munch
equals_alone c rest h = ground arith

equals-Overreads : Overreads b'='
unfolding operator
equals-Overreads read rest c s v nz h =
    let taken : operator b'=' s ≡ (op_assign, advance c s) =
      equals-got op_eq op_assign read rest c s v nz
      ∙ after_equals_alone op_eq op_assign c b'=' _ h in
    lost op_assign (munch (b'=' ∷ c ∷ rest)) read rest c s v nz (equals_alone c rest h) taken

-- `operators` at `<`, `>`, `/` or `=`, in front of a byte that continues no operator there: the
-- operator returned is the right one, but that byte, which the operator leaves to be read, is lost.
-- The input is shorter than 2 ^ 31 - 1 bytes.
pub operator-Overreads : (c₀ : ℕ) → occurs c₀ (codes "<>/=") ≡ true → Overreads c₀
operator-Overreads c₀ h =
    of_All Overreads c₀ (codes "<>/=")
      (less-Overreads, (greater-Overreads, (slash-Overreads, (equals-Overreads, tt)))) h

-- Where a byte follows that makes the operator longer, and one more byte behind it.
abbrev MunchesOn : ℕ → Type 0
MunchesOn c₀ =
    (read rest : Bytes) (c d : ℕ) (s : MemorySource)
    → Views read (c ∷ d ∷ rest) s
    → c ≢ 0
    → d ≢ 0
    → (c == b'=' || c == c₀) ≡ true
    → OperatorIs read (c ∷ d ∷ rest) (munch (c₀ ∷ c ∷ d ∷ rest)).0 (munch (c₀ ∷ c ∷ d ∷ rest)).1
        (operator c₀ s)

after_angle_on :
    (x : ℕ) (one with_eq twice twice_eq : Op) (c d : ℕ) (u : MemorySource)
    → next get_char u ≡ (d, advance d u)
    → (c == b'=' || c == x) ≡ true
    → after_angle x one with_eq twice twice_eq c u ≡ (
        if c == b'='
        then (with_eq, u)
        else if d == b'='
        then (twice_eq, advance d u)
        else (twice, back (advance d u)))
after_angle_on x one with_eq twice twice_eq c d u e h = ground arith

behind :
    (c : ℕ) (read rest rest' : Bytes) (o : Op) (r : Op × MemorySource)
    → OperatorIs (read ++ c ∷ []) rest o rest' r
    → OperatorIs read (c ∷ rest) o rest' r
behind c read rest rest' o r i = record {
  op_is = i.op_is;
  taken = c ∷ i.taken;
  split = ap (◌∷◌ c) i.split;
  views = subst (λ p. Views p rest' r.1) (append_assoc read (c ∷ []) i.taken) i.views;
}

module _ (with_eq twice twice_eq : Op) {read rest : Bytes} {c d : ℕ} (s : MemorySource)
    (v : Views read (c ∷ d ∷ rest) s) (nz : c ≢ 0) (nz' : d ≢ 0) where
  doubled :
      (p q : Bool)
      → let m : Op × Bytes =
          if p then (with_eq, d ∷ rest) else if q then (twice_eq, rest) else (twice, d ∷ rest) in
        let u = advance c s in
        OperatorIs read (c ∷ d ∷ rest) m.0 m.1 (
          if p
          then (with_eq, u)
          else if q
          then (twice_eq, advance d u)
          else (twice, back (advance d u)))
  doubled true q = took s v nz with_eq
  doubled false true =
      behind c read (d ∷ rest) rest twice_eq _ (took (advance c s) (advance-Views s v) nz' twice_eq)
  doubled false false =
      behind c read (d ∷ rest) (d ∷ rest) twice _ (gave (advance c s) (advance-Views s v) nz' twice)

angle-MunchesOn :
    (x : ℕ) (one with_eq twice twice_eq : Op) (m : Op × Bytes) (read rest : Bytes) (c d : ℕ)
    (s : MemorySource)
    → Views read (c ∷ d ∷ rest) s
    → c ≢ 0
    → d ≢ 0
    → (c == b'=' || c == x) ≡ true
    → m ≡ (
        if c == b'='
        then (with_eq, d ∷ rest)
        else if d == b'='
        then (twice_eq, rest)
        else (twice, d ∷ rest))
    → OperatorIs read (c ∷ d ∷ rest) m.0 m.1 (angle x one with_eq twice twice_eq s)
angle-MunchesOn x one with_eq twice twice_eq m read rest c d s v nz nz' h e =
    let w = advance-Views s v in
    let u = advance c s in
    let g = angle-got x one with_eq twice twice_eq read (d ∷ rest) c s v nz in
    let run =
      g ∙ after_angle_on x one with_eq twice twice_eq c d u (next-get_char u w.rest_is nz') h in
    rw (e, run) (doubled with_eq twice twice_eq s v nz nz' (c == b'=') (d == b'='))

less_on :
    (c d : ℕ) (rest : Bytes)
    → (c == b'=' || c == b'<') ≡ true
    → munch (b'<' ∷ c ∷ d ∷ rest) ≡ (
        if c == b'='
        then (op_le, d ∷ rest)
        else if d == b'='
        then (op_alleftshift, rest)
        else (op_leftshift, d ∷ rest))
unfolding munch
less_on c d rest h = ground arith

less-MunchesOn : MunchesOn b'<'
unfolding operator
less-MunchesOn read rest c d s v nz nz' h =
    angle-MunchesOn b'<' op_lt op_le op_leftshift op_alleftshift _ read rest c d s v nz nz' h
      (less_on c d rest h)

greater_on :
    (c d : ℕ) (rest : Bytes)
    → (c == b'=' || c == b'>') ≡ true
    → munch (b'>' ∷ c ∷ d ∷ rest) ≡ (
        if c == b'='
        then (op_ge, d ∷ rest)
        else if d == b'='
        then (op_alrightshift, rest)
        else (op_rightshift, d ∷ rest))
unfolding munch
greater_on c d rest h = ground arith

greater-MunchesOn : MunchesOn b'>'
unfolding operator
greater-MunchesOn read rest c d s v nz nz' h =
    angle-MunchesOn b'>' op_gt op_ge op_rightshift op_alrightshift _ read rest c d s v nz nz' h
      (greater_on c d rest h)

equals_on :
    (c : ℕ) (rest : Bytes)
    → (c == b'=' || c == b'=') ≡ true
    → munch (b'=' ∷ c ∷ rest) ≡ (op_eq, rest)
unfolding munch
equals_on c rest h = ground arith

equals-MunchesOn : MunchesOn b'='
unfolding operator
equals-MunchesOn read rest c d s v nz nz' h =
    let run : with_equals op_eq op_assign s ≡ (op_eq, advance c s) =
      equals-got op_eq op_assign read (d ∷ rest) c s v nz ∙ ground arith in
    rw (equals_on c (d ∷ rest) h, run) (took s v nz op_eq)

-- `operators` at `<`, `>` or `=`, where the next byte continues an operator and another one stands
-- behind it: the longest operator comes back, shifts and their assignments included, and what
-- follows it is left to read.
-- The input is shorter than 2 ^ 31 - 1 bytes.
pub operator_munch_on : (c₀ : ℕ) → occurs c₀ (codes "<>=") ≡ true → MunchesOn c₀
operator_munch_on c₀ h =
    of_All MunchesOn c₀ (codes "<>=") (less-MunchesOn, (greater-MunchesOn, (equals-MunchesOn, tt)))
      h
