-- ===== src/Lexer/Scan/RoundTrip.antt =====
-- lib/lex/output.cc, lib/lex/lex.cc: what is written with lexemes comes back as their tokens.
use wxcc.Base.{
  ℕ, zero, suc, ◌<◌, Option, none, some, List, [], ◌∷◌, ◌++◌, Bytes, length, ◌+◌, ◌-◌, subst,
  append_assoc, append-nil, sym, ◌≡◌, refl, ap, ◌∙◌, arith, length-append,
}
use wxcc.Input.{MemorySource}
use wxcc.Input.View.{Views, next_at_end}
use wxcc.Lexer.{Run, ok, ◌>>=◌}
use wxcc.Lexer.Keywords.Table.{find, keywords}
use wxcc.Lexer.Letter.{reclassify}
use wxcc.Lexer.Letter.Longest.{keyword_or_ident}
use wxcc.Lexer.Numbers.Floats.{CLibrary}
use wxcc.Lexer.Scan.{Scanner, no_token, at_source, kind_of, of_kind, dispatch, get_next_token}
use wxcc.Lexer.Scan.Breaks.{Gap, gap_bytes, IsGap, gap-GoesOn, length-gap_bytes}
use wxcc.Lexer.Scan.Blanks.{skip_blank-SkipsTo}
use wxcc.Lexer.Scan.Lexemes.{
  Lexeme, word, constant, sign, quoted, spelled, lexeme_value, IsLexeme, Allows,
}
use wxcc.Lexer.Scan.Output.{print_then, output}
use wxcc.Lexer.Scan.Signs.{Behind}
use wxcc.Lexer.Scan.Yields.{lexeme-Yields}
use wxcc.Token.{Keyword, key_sizeof, TokenValue, key, Token}

-- A program: its lexemes, with the newlines and the lines of the preprocessor before each.
abbrev pub Program : Type 0
Program = List (Gap × Lexeme)

abbrev pub render : Program → Bytes
render [] = []
render ((g, x) ∷ xs) = gap_bytes g ++ (spelled x ++ render xs)

abbrev pub lexeme_values : Program → List TokenValue
lexeme_values [] = []
lexeme_values ((g, x) ∷ xs) = lexeme_value x ∷ lexeme_values xs

-- Each is a lexeme of the language, and no text stands right behind another: those are one lexeme.
-- Behind the last one stands `end`.
abbrev pub AllLexemes : Program → Bytes → Type 0
AllLexemes [] end = Unit
AllLexemes ((g, x) ∷ xs) end =
    (IsGap g × IsLexeme x × Allows x (render xs ++ end)) × AllLexemes xs end

-- The token of a value, and what is printed behind it.
abbrev pub then_more : TokenValue → Run (List TokenValue) → Run (List TokenValue)
then_more v r = r >>= λ vs. ok (v ∷ vs)

prints_key :
    (k : Keyword) (r : Run (List TokenValue))
    → print_then (reclassify (key k)) r ≡ then_more (reclassify (key k)) r
unfolding print_then
prints_key key_sizeof r = refl
prints_key k r = refl

prints_word :
    (o : Option Keyword) (w : Bytes) (r : Run (List TokenValue))
    → let v = reclassify (keyword_or_ident o w) in print_then v r ≡ then_more v r
unfolding print_then
prints_word none w r = refl
prints_word (some k) w r = prints_key k r

-- A lexeme's token is one.
prints :
    (x : Lexeme) (r : Run (List TokenValue))
    → print_then (lexeme_value x) r ≡ then_more (lexeme_value x) r
unfolding print_then
prints (word w) r = prints_word (find w keywords) w r
prints (constant n) r = refl
prints (sign w o) r = refl
prints (quoted w bs ps) r = refl

dispatch_end :
    (lib : CLibrary) (fuel : ℕ) (loop : Scanner → Run (Token × Scanner)) (l : Scanner)
    (s : MemorySource) {read : Bytes}
    → Views read [] s
    → (l' : Scanner) × (dispatch lib fuel loop l s ≡ ok (no_token, l'))
unfolding dispatch kind_of of_kind
dispatch_end lib fuel loop l s v = rw (next_at_end s v.rest_is).0 (at_source s l, refl)

-- At the end of the input, one blank before it at most.
at_end :
    (lib : CLibrary) (fuel : ℕ) (l : Scanner)
    → Behind [] l.source
    → 0 < fuel
    → (l' : Scanner) × (get_next_token lib (suc fuel) l ≡ ok (no_token, l'))
unfolding get_next_token
at_end lib fuel l b h =
    let few = b.few in
    let (s, e, v) =
      skip_blank-SkipsTo (suc fuel) b.read b.blanks [] l.source b.all_blank tt b.views
        (omega arith) in
    let (l', f) = dispatch_end lib (suc fuel) (get_next_token lib fuel) l s v in
    (l', ap (λ r. r >>= dispatch lib (suc fuel) (get_next_token lib fuel) l) e ∙ f)

pub render_split :
    (g : Gap) (x : Lexeme) (xs : Program) (end : Bytes)
    → render ((g, x) ∷ xs) ++ end ≡ gap_bytes g ++ (spelled x ++ (render xs ++ end))
render_split g x xs end =
    append_assoc (gap_bytes g) (spelled x ++ render xs) end
    ∙ ap (◌++◌ (gap_bytes g)) (append_assoc (spelled x) (render xs) end)

output-end :
    (lib : CLibrary) (fuel n : ℕ) (g : Gap) (l : Scanner)
    → IsGap g
    → Behind (gap_bytes g) l.source
    → length (gap_bytes g) < fuel
    → output lib (suc fuel) (suc n) l ≡ ok []
unfolding output print_then
output-end lib fuel n g l i b h =
    let few = length-gap_bytes g in
    let rounds : length g + suc (fuel - length g) ≡ suc fuel = omega arith in
    let on =
      gap-GoesOn lib (suc (fuel - length g)) g l [] i (rw (append-nil (gap_bytes g)) b)
        (omega arith) in
    let (l', e) = at_end lib (fuel - length g) on.after on.behind (omega arith) in
    let whole : get_next_token lib (suc fuel) l ≡ ok (no_token, l') =
      ap (λ k. get_next_token lib k l) (sym rounds) ∙ (on.same ∙ e) in
    rw whole refl

-- The token of a lexeme.
pub next-lexeme :
    (lib : CLibrary) (fuel : ℕ) (g : Gap) (x : Lexeme) (rest : Bytes) (l : Scanner)
    → IsGap g
    → IsLexeme x
    → Allows x rest
    → Behind (gap_bytes g ++ (spelled x ++ rest)) l.source
    → length (gap_bytes g) + length (spelled x) < fuel
    → (t : Token) × (l' : Scanner) × (get_next_token lib (suc fuel) l ≡ ok (t, l'))
      × (t.token_value ≡ lexeme_value x)
      × Behind rest l'.source
next-lexeme lib fuel g x rest l gap i a b h =
    let few = length-gap_bytes g in
    let rounds : length g + suc (fuel - length g) ≡ suc fuel = omega arith in
    let on = gap-GoesOn lib (suc (fuel - length g)) g l (spelled x ++ rest) gap b (omega arith) in
    let y = lexeme-Yields lib (fuel - length g) x rest on.after i a on.behind (omega arith) in
    let whole : get_next_token lib (suc fuel) l ≡ ok (y.token, y.after) =
      ap (λ k. get_next_token lib k l) (sym rounds) ∙ (on.same ∙ y.returned) in
    (y.token, y.after, whole, y.value_is, y.behind)

-- A lexeme, and then the rest.
output-more :
    (lib : CLibrary) (fuel n : ℕ) (g : Gap) (x : Lexeme) (rest : Bytes) (l : Scanner)
    → IsGap g
    → IsLexeme x
    → Allows x rest
    → Behind (gap_bytes g ++ (spelled x ++ rest)) l.source
    → length (gap_bytes g) + length (spelled x) < fuel
    → (l' : Scanner) × Behind rest l'.source
      × (output lib (suc fuel) (suc n) l ≡ then_more (lexeme_value x) (output lib (suc fuel) n l'))
unfolding output
output-more lib fuel n g x rest l gap i a b h =
    let (t, l', whole, v, b') = next-lexeme lib fuel g x rest l gap i a b h in
    (l', b', rw (whole, v) (prints x (output lib (suc fuel) n l')))

-- The tokens of `n` calls of `getNextToken`, and the lexer behind them.
unfoldable pub take_tokens : CLibrary → ℕ → ℕ → Scanner → Run (List TokenValue × Scanner)
take_tokens lib fuel zero l = ok ([], l)
take_tokens lib fuel (suc n) l = do
  (t, l') ← get_next_token lib fuel l
  (vs, l'') ← take_tokens lib fuel n l'
  ok (t.token_value ∷ vs, l'')

-- In front of the lexemes of a program and of any end behind it, so many calls return their tokens.
pub take_tokens-program :
    (lib : CLibrary) (fuel : ℕ) (xs : Program) (end : Bytes) (l : Scanner)
    → AllLexemes xs end
    → Behind (render xs ++ end) l.source
    → length (render xs) < fuel
    → (l' : Scanner) × (take_tokens lib (suc fuel) (length xs) l ≡ ok (lexeme_values xs, l'))
      × Behind end l'.source
unfolding take_tokens
take_tokens-program lib fuel [] end l a b h = (l, refl, b)
take_tokens-program lib fuel ((g, x) ∷ xs) end l a b h =
    let size = length-append {0} (gap_bytes g) (spelled x ++ render xs) in
    let size' = length-append {0} (spelled x) (render xs) in
    let (t, l', e, v, b') =
      next-lexeme lib fuel g x (render xs ++ end) l a.0.0 a.0.1 a.0.2
        (subst (λ p. Behind p l.source) (render_split g x xs end) b) (omega arith) in
    let (l'', f, b'') = take_tokens-program lib fuel xs end l' a.1 b' (omega arith) in
    (l'', rw (e, f, v) refl, b'')

-- A program written with lexemes, a blank behind each, with newlines and lines that begin with `#`
-- between them, is printed as the list of the lexemes' tokens, in order and up to the end: words that
-- do not begin with `do_` are keywords or identifiers, integers that fit have their values by the
-- digits of C, operators are themselves, and texts that follow each other are one. Each word, each
-- joined text and each line behind its `#` is shorter than 512 bytes. Fuel that exceeds the length
-- of the text is enough for each token, and one round more than there are lexemes.
-- The input is shorter than 2 ^ 31 - 1 bytes.
pub output-render :
    (lib : CLibrary) (fuel n : ℕ) (xs : Program) (g : Gap) (l : Scanner)
    → AllLexemes xs (gap_bytes g)
    → IsGap g
    → Behind (render xs ++ gap_bytes g) l.source
    → length (render xs) + length (gap_bytes g) < fuel
    → length xs < n
    → output lib (suc fuel) n l ≡ ok (lexeme_values xs)
output-render lib fuel zero xs g l a i b h m = absurd (omega arith)
output-render lib fuel (suc n) [] g l a i b h m = output-end lib fuel n g l i b (omega arith)
output-render lib fuel (suc n) ((f, x) ∷ xs) g l a i b h m =
    let size = length-append {0} (gap_bytes f) (spelled x ++ render xs) in
    let size' = length-append {0} (spelled x) (render xs) in
    let (l', b', e) =
      output-more lib fuel n f x (render xs ++ gap_bytes g) l a.0.0 a.0.1 a.0.2
        (subst (λ p. Behind p l.source) (render_split f x xs (gap_bytes g)) b) (omega arith) in
    e
    ∙ ap (then_more (lexeme_value x))
        (output-render lib fuel n xs g l' a.1 i b' (omega arith) (omega arith))
