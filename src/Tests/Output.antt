-- ===== src/Tests/Output.antt =====
-- lib/lex/output.cc: runs and instances.
use wxcc.Base.{
  ℕ, zero, suc, ◌≡◌, ◌≢◌, refl, ap, [], ◌∷◌, ◌++◌, some, false, isdigit, isalnum, Bytes, codes,
  get_or, arith,
}
use wxcc.Lexer.Keywords.Table.{find, keywords}
use wxcc.Lexer.Scan.Print.{Formats, format_token}
use wxcc.Lexer.Scan.Print.Source.{word_kind, format_token_shows_source}
use wxcc.Lexer.{ok, is_word}
use wxcc.Lexer.Words.{AllWord}
use wxcc.Lexer.Numbers.Floats.{CLibrary}
use wxcc.Lexer.Scan.{Scanner, scanner, get_next_token}
use wxcc.Lexer.Scan.Breaks.{newline}
use wxcc.Lexer.Scan.Lexemes.{word, IsLexeme}
use wxcc.Lexer.Scan.Signs.{Behind}
use wxcc.Lexer.Scan.Yields.{stands}
use wxcc.Tests.Sources.{loaded, loaded-Views}
use wxcc.Token.{Token, op, op_pointer}

-- Blanks up to a width.
abbrev blanks_behind : ℕ → Bytes → Bytes
blanks_behind zero w = w
blanks_behind (suc n) [] = b' ' ∷ blanks_behind n []
blanks_behind (suc n) (c ∷ w) = c ∷ blanks_behind n w

abbrev formats : Formats
formats = record { left = blanks_behind; double = λ d. codes "1"; double_of = λ n. codes "0" }

int_is_not_sizeof : codes "int" ≢ codes "sizeof"
int_is_not_sizeof e = let first = ap (λ (s : Bytes). get_or s 0 0) e in omega arith

-- A C library that finds every number in range.
abbrev c_library : CLibrary
c_library = record { erange = λ _. false; beyond_float = λ _. false }

int-AllWord : AllWord (codes "int")
unfolding is_word isalnum
int-AllWord = (refl, (refl, (refl, tt)))

int_is_word : IsLexeme (word (codes "int"))
unfolding isdigit
int_is_word = (refl, int-AllWord, refl, omega arith)

format_token_shows_source_example :
    (t : Token) × (l' : Scanner) × (get_next_token c_library 20 (scanner (loaded (codes "\nint x")))
      ≡ ok (t, l'))
    × (format_token formats t.token_value
        ≡ some (
            blanks_behind 20 (word_kind (find (codes "int") keywords))
            ++ b'|' ∷ b' ' ∷ codes "int"))
    × Behind (codes "x") l'.source
format_token_shows_source_example =
    format_token_shows_source c_library formats 19 (newline ∷ []) (word (codes "int")) (codes "x")
      (scanner (loaded (codes "\nint x"))) int_is_not_sizeof (tt, tt) int_is_word tt
      (stands (loaded-Views (codes "\nint x") (omega arith))) (omega arith)

pointer_printed :
    format_token formats (op op_pointer) ≡ some (codes "Operator            | POINTER      \t->")
unfolding format_token
pointer_printed = refl
