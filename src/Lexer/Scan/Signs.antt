-- ===== src/Lexer/Scan/Signs.antt =====
-- lib/lex/lex.cc: each operator of the language, with a blank behind it.
use wxcc.Base.{
  ℕ, ◌≢◌, ◌⊎◌, inl, inr, true, false, List, [], ◌∷◌, ◌++◌, Bytes, codes, ◌≡◌, refl, ap, length, ◌≤◌,
  subst, ◌∙◌, arith, ◌==◌, ◌||◌,
}
use Prim.Native.String.{String}
use wxcc.Input.{MemorySource, advance}
use wxcc.Input.View.{
  Views-InInt, Views, next-get_char, advance-Views, next-push_back, unmoved-Views,
}
use wxcc.Lexer.Operators.{operator, period, with_equals}
use wxcc.Lexer.Operators.Munch.{spellings, munch, occurs, OperatorIs, operator-munch}
use wxcc.Lexer.Operators.Overread.{operator-Overreads, operator_munch_on}
use wxcc.Lexer.Scan.{operator_kind, kind_of, reported}
use wxcc.Lexer.Scan.Blanks.{AllBlank, NoBlank}
use wxcc.Token.{
  Op, op_lognot, op_mod, op_bitxor, op_bitand, op_mult, op_plus, op_minus, op_bitnot, op_bitor,
  op_div, op_question, op_pointer, op_inc, op_dec, op_leftshift, op_rightshift, op_lt, op_gt, op_le,
  op_ge, op_eq, op_ne, op_logand, op_logor, op_leftbrack, op_rightbrack, op_leftsqbrac,
  op_rightsqbrac, op_leftbrace, op_rightbrace, op_comma, op_colon, op_semicolon, op_eppipsis,
  op_period, op_assign, op_alplus, op_alminus, op_almult, op_aldiv, op_almod, op_alleftshift,
  op_alrightshift, op_albitand, op_albitxor, op_albitor, op,
}

-- The source stands in front of `rest`, or of blanks that are left there.
pub record Behind (rest : Bytes) (s : MemorySource) : Type 0 where
  pub read : Bytes
  pub blanks : Bytes
  pub all_blank : AllBlank blanks
  pub few : length blanks ≤ 1
  pub views : Views read (blanks ++ rest) s

-- The operator was returned; the blank behind it may be gone.
pub record Returns (o : Op) (rest : Bytes) (r : Op × MemorySource) : Type 0 where
  pub op_is : r.0 ≡ o
  pub behind : Behind rest r.1

-- The first byte of a spelling was got, and the others with a blank are in front.
abbrev pub SignIs : Bytes → Op → Type 0
SignIs [] o = ⊥
SignIs (c ∷ v) o =
    (kind_of c ≡ operator_kind)
    × NoBlank (c ∷ [])
    × (reported (op o) ≡ [])
    × ((read rest : Bytes) (s : MemorySource)
        → Views read (v ++ b' ' ∷ rest) s
        → Returns o rest (operator c s))

one_blank : AllBlank (b' ' ∷ [])
one_blank = (refl, tt)

-- The blank is left, or lost.
of_left :
    {read w rest : Bytes} {o : Op} {r : Op × MemorySource} {n : Op × Bytes}
    → n ≡ (o, b' ' ∷ rest)
    → OperatorIs read w n.0 n.1 r
    → Returns o rest r
of_left {read} {rest = rest} {r = r} e i = record {
  op_is = i.op_is ∙ ap (λ (p : Op × Bytes). p.0) e;
  behind = record {
    read = read ++ i.taken;
    blanks = b' ' ∷ [];
    all_blank = one_blank;
    few = omega arith;
    views = subst (λ (p : Op × Bytes). Views (read ++ i.taken) p.1 r.1) e i.views;
  };
}

of_lost :
    {read w rest : Bytes} {o o' : Op} {r : Op × MemorySource}
    → o' ≡ o
    → OperatorIs read w o' rest r
    → Returns o rest r
of_lost {read} e i = record {
  op_is = i.op_is ∙ e;
  behind = record {
    read = read ++ i.taken;
    blanks = [];
    all_blank = tt;
    few = omega arith;
    views = i.views;
  };
}

one_byte :
    (c : ℕ) (o : Op)
    → kind_of c ≡ operator_kind
    → NoBlank (c ∷ [])
    → reported (op o) ≡ []
    → occurs c (codes "!%^&*+-|~?()[]{},;:") ≡ true
    → ((rest : Bytes) → munch (c ∷ b' ' ∷ rest) ≡ (o, b' ' ∷ rest))
    → SignIs (c ∷ []) o
one_byte c o k b r h e = (
  k,
  b,
  r,
  λ read rest s v. of_left (e rest) (operator-munch c h read rest b' ' s v (omega arith)),
)

two_bytes :
    (c d : ℕ) (o : Op)
    → kind_of c ≡ operator_kind
    → NoBlank (c ∷ [])
    → reported (op o) ≡ []
    → occurs c (codes "!%^&*+-|~?()[]{},;:") ≡ true
    → d ≢ 0
    → ((rest : Bytes) → munch (c ∷ d ∷ b' ' ∷ rest) ≡ (o, b' ' ∷ rest))
    → SignIs (c ∷ d ∷ []) o
two_bytes c d o k b r h nz e =
    (k, b, r, λ read rest s v. of_left (e rest) (operator-munch c h read (b' ' ∷ rest) d s v nz))

-- A sign whose operator loses the blank.
lost_byte :
    (c : ℕ) (o : Op)
    → kind_of c ≡ operator_kind
    → NoBlank (c ∷ [])
    → reported (op o) ≡ []
    → occurs c (codes "<>/=") ≡ true
    → (c == b' ') ≡ false
    → ((rest : Bytes) → (munch (c ∷ b' ' ∷ rest)).0 ≡ o)
    → SignIs (c ∷ []) o
lost_byte c o k b r h n e = (
  k,
  b,
  r,
  λ read rest s v.
      of_lost (e rest) (operator-Overreads c h read rest b' ' s v (omega arith) (ground arith)).0,
)

continued :
    (c d : ℕ) (o : Op)
    → kind_of c ≡ operator_kind
    → NoBlank (c ∷ [])
    → reported (op o) ≡ []
    → occurs c (codes "<>=") ≡ true
    → d ≢ 0
    → (d == b'=' || d == c) ≡ true
    → ((rest : Bytes) → munch (c ∷ d ∷ b' ' ∷ rest) ≡ (o, b' ' ∷ rest))
    → SignIs (c ∷ d ∷ []) o
continued c d o k b r h nz on e = (
  k,
  b,
  r,
  λ read rest s v.
      of_left (e rest) (operator_munch_on c h read rest d b' ' s v nz (omega arith) on),
)

continued_twice :
    (c : ℕ) (o : Op)
    → kind_of c ≡ operator_kind
    → NoBlank (c ∷ [])
    → reported (op o) ≡ []
    → occurs c (codes "<>=") ≡ true
    → c ≢ 0
    → (c == b'=' || c == c) ≡ true
    → ((rest : Bytes) → munch (c ∷ c ∷ b'=' ∷ b' ' ∷ rest) ≡ (o, b' ' ∷ rest))
    → SignIs (c ∷ c ∷ b'=' ∷ []) o
continued_twice c o k b r h nz on e = (
  k,
  b,
  r,
  λ read rest s v.
      of_left (e rest) (operator_munch_on c h read (b' ' ∷ rest) c b'=' s v nz (omega arith) on),
)

at_blank : {read rest : Bytes} {s : MemorySource} → Views read (b' ' ∷ rest) s → Behind rest s
at_blank {read} v = record {
  read = read;
  blanks = b' ' ∷ [];
  all_blank = one_blank;
  few = omega arith;
  views = v;
}

divide_sign : SignIs (codes "/=") op_aldiv
unfolding kind_of operator with_equals
divide_sign = (
  refl,
  (refl, omega arith),
  refl,
  λ read rest s v.
      rw (next-get_char s v.rest_is (omega arith))
        (record { op_is = refl; behind = at_blank (advance-Views s v) }),
)

period_sign : SignIs (codes ".") op_period
unfolding kind_of operator period
period_sign = (
  refl,
  (refl, omega arith),
  refl,
  λ read rest s v. rw (next-get_char s v.rest_is (omega arith)) (record {
    op_is = refl;
    behind =
        at_blank {read = read}
          (rw (next-push_back s v.rest_is (Views-InInt s v)) (unmoved-Views b' ' s v));
  }),
)

dots_sign : SignIs (codes "...") op_eppipsis
unfolding kind_of operator period
dots_sign = (
  refl,
  (refl, omega arith),
  refl,
  λ read rest s v.
      let w = advance-Views s v in
      let u = advance b'.' s in
      rw (next-get_char s v.rest_is (omega arith), next-get_char u w.rest_is (omega arith))
        (record { op_is = refl; behind = at_blank (advance-Views u w) }),
)

-- `w` spells `o` in a list.
abbrev pub Among : Bytes → Op → List (String × Op) → Type 0
Among w o [] = ⊥
Among w o ((v, o') ∷ m) = ((codes v ≡ w) × (o' ≡ o)) ⊎ Among w o m

abbrev AllSigns : List (String × Op) → Type 0
AllSigns [] = Unit
AllSigns ((v, o) ∷ m) = SignIs (codes v) o × AllSigns m

of_Among : (w : Bytes) (o : Op) (m : List (String × Op)) → AllSigns m → Among w o m → SignIs w o
of_Among w o [] a h = absurd h
of_Among w o ((v, o') ∷ m) a (inl (e, f)) =
    subst (λ u. SignIs u o) e (subst (SignIs (codes v)) f a.0)
of_Among w o ((v, o') ∷ m) a (inr h) = of_Among w o m a.1 h

all_signs : AllSigns spellings
unfolding kind_of munch
all_signs = (
  dots_sign,
  (
    continued_twice b'<' op_alleftshift refl (refl, omega arith) refl refl (omega arith) refl
        (λ rest. refl),
    (
      continued_twice b'>' op_alrightshift refl (refl, omega arith) refl refl (omega arith) refl
          (λ rest. refl),
      (
        two_bytes b'-' b'>' op_pointer refl (refl, omega arith) refl refl (omega arith)
            (λ rest. refl),
        (
          two_bytes b'+' b'+' op_inc refl (refl, omega arith) refl refl (omega arith)
              (λ rest. refl),
          (
            two_bytes b'-' b'-' op_dec refl (refl, omega arith) refl refl (omega arith)
                (λ rest. refl),
            (
              continued b'<' b'<' op_leftshift refl (refl, omega arith) refl refl (omega arith) refl
                  (λ rest. refl),
              (
                continued b'>' b'>' op_rightshift refl (refl, omega arith) refl refl (omega arith)
                    refl (λ rest. refl),
                (
                  continued b'<' b'=' op_le refl (refl, omega arith) refl refl (omega arith) refl
                      (λ rest. refl),
                  (
                    continued b'>' b'=' op_ge refl (refl, omega arith) refl refl (omega arith) refl
                        (λ rest. refl),
                    (
                      continued b'=' b'=' op_eq refl (refl, omega arith) refl refl (omega arith)
                          refl (λ rest. refl),
                      (
                        two_bytes b'!' b'=' op_ne refl (refl, omega arith) refl refl (omega arith)
                            (λ rest. refl),
                        (
                          two_bytes b'&' b'&' op_logand refl (refl, omega arith) refl refl
                              (omega arith) (λ rest. refl),
                          (
                            two_bytes b'|' b'|' op_logor refl (refl, omega arith) refl refl
                                (omega arith) (λ rest. refl),
                            (
                              two_bytes b'+' b'=' op_alplus refl (refl, omega arith) refl refl
                                  (omega arith) (λ rest. refl),
                              (
                                two_bytes b'-' b'=' op_alminus refl (refl, omega arith) refl refl
                                    (omega arith) (λ rest. refl),
                                (
                                  two_bytes b'*' b'=' op_almult refl (refl, omega arith) refl refl
                                      (omega arith) (λ rest. refl),
                                  (
                                    divide_sign,
                                    (
                                      two_bytes b'%' b'=' op_almod refl (refl, omega arith) refl
                                          refl (omega arith) (λ rest. refl),
                                      (
                                        two_bytes b'&' b'=' op_albitand refl (refl, omega arith)
                                            refl refl (omega arith) (λ rest. refl),
                                        (
                                          two_bytes b'^' b'=' op_albitxor refl (refl, omega arith)
                                              refl refl (omega arith) (λ rest. refl),
                                          (
                                            two_bytes b'|' b'=' op_albitor refl (refl, omega arith)
                                                refl refl (omega arith) (λ rest. refl),
                                            (
                                              one_byte b'!' op_lognot refl (refl, omega arith) refl
                                                  refl (λ rest. refl),
                                              (
                                                one_byte b'%' op_mod refl (refl, omega arith) refl
                                                    refl (λ rest. refl),
                                                (
                                                  one_byte b'^' op_bitxor refl (refl, omega arith)
                                                      refl refl (λ rest. refl),
                                                  (
                                                    one_byte b'&' op_bitand refl (refl, omega arith)
                                                        refl refl (λ rest. refl),
                                                    (
                                                      one_byte b'*' op_mult refl (refl, omega arith)
                                                          refl refl (λ rest. refl),
                                                      (
                                                        one_byte b'+' op_plus refl
                                                            (refl, omega arith) refl refl
                                                            (λ rest. refl),
                                                        (
                                                          one_byte b'-' op_minus refl
                                                            (refl, omega arith) refl refl
                                                            (λ rest. refl),
                                                          (
                                                            one_byte b'~' op_bitnot refl
                                                            (refl, omega arith) refl refl
                                                            (λ rest. refl),
                                                            (
                                                            one_byte b'|' op_bitor refl
                                                            (refl, omega arith) refl refl
                                                            (λ rest. refl),
                                                            (
                                                            lost_byte b'/' op_div refl
                                                            (refl, omega arith) refl refl refl
                                                            (λ rest. refl),
                                                            (
                                                            one_byte b'?' op_question refl
                                                            (refl, omega arith) refl refl
                                                            (λ rest. refl),
                                                            (
                                                            lost_byte b'<' op_lt refl
                                                            (refl, omega arith) refl refl refl
                                                            (λ rest. refl),
                                                            (
                                                            lost_byte b'>' op_gt refl
                                                            (refl, omega arith) refl refl refl
                                                            (λ rest. refl),
                                                            (
                                                            one_byte b'(' op_leftbrack refl
                                                            (refl, omega arith) refl refl
                                                            (λ rest. refl),
                                                            (
                                                            one_byte b')' op_rightbrack refl
                                                            (refl, omega arith) refl refl
                                                            (λ rest. refl),
                                                            (
                                                            one_byte b'[' op_leftsqbrac refl
                                                            (refl, omega arith) refl refl
                                                            (λ rest. refl),
                                                            (
                                                            one_byte b']' op_rightsqbrac refl
                                                            (refl, omega arith) refl refl
                                                            (λ rest. refl),
                                                            (
                                                            one_byte b'{' op_leftbrace refl
                                                            (refl, omega arith) refl refl
                                                            (λ rest. refl),
                                                            (
                                                            one_byte b'}' op_rightbrace refl
                                                            (refl, omega arith) refl refl
                                                            (λ rest. refl),
                                                            (
                                                            one_byte b',' op_comma refl
                                                            (refl, omega arith) refl refl
                                                            (λ rest. refl),
                                                            (
                                                            one_byte b':' op_colon refl
                                                            (refl, omega arith) refl refl
                                                            (λ rest. refl),
                                                            (
                                                            one_byte b';' op_semicolon refl
                                                            (refl, omega arith) refl refl
                                                            (λ rest. refl),
                                                            (
                                                            period_sign,
                                                            (
                                                            lost_byte b'=' op_assign refl
                                                            (refl, omega arith) refl refl refl
                                                            (λ rest. refl),
                                                            tt,
                                                            ),
                                                            ),
                                                            ),
                                                            ),
                                                            ),
                                                            ),
                                                            ),
                                                            ),
                                                            ),
                                                            ),
                                                            ),
                                                            ),
                                                            ),
                                                            ),
                                                            ),
                                                            ),
                                                          ),
                                                        ),
                                                      ),
                                                    ),
                                                  ),
                                                ),
                                              ),
                                            ),
                                          ),
                                        ),
                                      ),
                                    ),
                                  ),
                                ),
                              ),
                            ),
                          ),
                        ),
                      ),
                    ),
                  ),
                ),
              ),
            ),
          ),
        ),
      ),
    ),
  ),
)

-- Each operator of the language, its first byte got and a blank behind it: it is returned, and what
-- follows the blank is left to read.
pub sign-SignIs : (w : Bytes) (o : Op) → Among w o spellings → SignIs w o
sign-SignIs w o = of_Among w o spellings all_signs
