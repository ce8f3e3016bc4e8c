-- ===== src/Lexer/Scan/Dispatch.antt =====
-- lib/lex/lex.cc: the switch of `Lex::getNextToken` behind the blanks.
use wxcc.Base.{
  ℕ, suc, ◌<◌, true, false, ◌||◌, none, ◌∷◌, ◌++◌, Bytes, ◌≡◌, refl, ap, ◌∙◌, arith, ◌==◌, isdigit,
  isalnum,
}
use wxcc.Input.{MemorySource, advance}
use wxcc.Input.View.{Views, next-get_char}
use wxcc.Lexer.{Run, ◌>>=◌, is_word, Branches, other, branch}
use wxcc.Lexer.Keywords.{letters}
use wxcc.Lexer.Keywords.Match.{lookup_in}
use wxcc.Lexer.Letter.{has_case}
use wxcc.Lexer.Numbers.Floats.{CLibrary}
use wxcc.Lexer.Scan.{
  Scanner, at_source, digit_kind, letter_kind, identifier_kind, kind_of, of_kind, dispatch,
  get_next_token,
}
use wxcc.Lexer.Scan.Blanks.{NoBlank, skip_blank-SkipsTo}
use wxcc.Lexer.Scan.Signs.{Behind}
use wxcc.Token.{Token}

-- The branch that `getNextToken` takes in front of `c ∷ w`, with the source before that byte.
abbrev pub Dispatches : CLibrary → ℕ → Scanner → ℕ → Bytes → Type 0
Dispatches lib fuel l c w =
    (read : Bytes) × (s : MemorySource) × (get_next_token lib (suc fuel) l
      ≡ of_kind lib (suc fuel) (get_next_token lib fuel) (kind_of c) c (at_source (advance c s) l))
    × Views read (c ∷ w) s

dispatch-of_kind :
    (lib : CLibrary) (fuel : ℕ) (loop : Scanner → Run (Token × Scanner)) (l : Scanner) (c : ℕ)
    (w : Bytes) (s : MemorySource) {read : Bytes}
    → NoBlank (c ∷ w)
    → Views read (c ∷ w) s
    → dispatch lib fuel loop l s ≡ of_kind lib fuel loop (kind_of c) c (at_source (advance c s) l)
unfolding dispatch
dispatch-of_kind lib fuel loop l c w s n v = rw (next-get_char s v.rest_is n.1) refl

pub get_next_token-Dispatches :
    (lib : CLibrary) (fuel : ℕ) (l : Scanner) (c : ℕ) (w : Bytes)
    → NoBlank (c ∷ w)
    → Behind (c ∷ w) l.source
    → 0 < fuel
    → Dispatches lib fuel l c w
unfolding get_next_token
get_next_token-Dispatches lib fuel l c w n b h =
    let few = b.few in
    let (s, e, v) =
      skip_blank-SkipsTo (suc fuel) b.read b.blanks (c ∷ w) l.source b.all_blank n b.views
        (omega arith) in
    (
      b.read ++ b.blanks,
      s,
      ap (λ r. r >>= dispatch lib (suc fuel) (get_next_token lib fuel) l) e
          ∙ dispatch-of_kind lib (suc fuel) (get_next_token lib fuel) l c w s n v,
      v,
    )

pub digit-kind_of : (c : ℕ) → isdigit c ≡ true → kind_of c ≡ digit_kind
unfolding kind_of isdigit
digit-kind_of c h = ground arith

not_skipped :
    (c : ℕ)
    → is_word c ≡ true
    → ((c == b'\n' || c == 11 || c == 12 || c == b'\r' || c == b' ' || c == 255) ≡ false)
      × ((c == b'#') ≡ false)
unfolding is_word isalnum isdigit
not_skipped c w = ground arith

pub letter-kind_of :
    (c : ℕ)
    → is_word c ≡ true
    → isdigit c ≡ false
    → has_case c letters ≡ true
    → kind_of c ≡ letter_kind
unfolding kind_of
letter-kind_of c w d h = let (a, b) = not_skipped c w in rw (a, b, d, h) refl

pub identifier-kind_of :
    (c : ℕ)
    → is_word c ≡ true
    → isdigit c ≡ false
    → has_case c letters ≡ false
    → kind_of c ≡ identifier_kind
unfolding kind_of is_word isalnum isdigit
identifier-kind_of c w d h = let (a, b) = not_skipped c w in rw (a, b, h) (ground arith)

-- No keyword begins with a byte that has no test.
pub no_case :
    (bs : Branches) (c : ℕ) (w : Bytes) → has_case c bs ≡ false → lookup_in bs (c ∷ w) ≡ none
unfolding has_case lookup_in
no_case other c w h = refl
no_case (branch x t bs) c w h = let ih = no_case bs c w in ground arith
