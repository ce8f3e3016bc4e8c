-- ===== src/Lexer/Words.antt =====
-- lib/lex/lex.cc: `Lex::identifier` takes the longest run of word bytes.
use wxcc.Base.{
  lt→ltb, ℕ, zero, suc, ◌+◌, ◌<◌, ◌≢◌, true, false, [], ◌∷◌, ◌++◌, Bytes, length, ◌≡◌, refl, sym,
  ap, subst, ◌∙◌, arith, ◌==◌, if◌then◌else◌, append_assoc, append-nil, length-append,
}
use wxcc.Input.{get_char, MemorySource, next, advance}
use wxcc.Input.View.{
  Views-InInt, Views, advance-Views, unmoved-Views, next-get_char, next-push_back, next_at_end,
}
use wxcc.Lexer.{Run, ok, tmpbuffer_size, back, is_word, new_identifier, identifier}
use wxcc.Token.{Token}

-- The byte `t` was just got, from a source that had read `read` and had `rest` in front of it.
abbrev pub Got : Bytes → Bytes → ℕ → MemorySource → Type 0
Got read [] t s = (t ≡ 0) × Views read [] s
Got read (c ∷ rest) t s =
    (t ≡ c) × (c ≢ 0) × (s₀ : MemorySource) × Views read (c ∷ rest) s₀ × (s ≡ advance c s₀)

abbrev pub AllWord : Bytes → Type 0
AllWord [] = Unit
AllWord (c ∷ cs) = (is_word c ≡ true) × AllWord cs

-- A word ends here: at the end of the input, or at a byte that is no part of a word.
abbrev pub Ends : Bytes → Type 0
Ends [] = Unit
Ends (c ∷ cs) = (is_word c ≡ false) × (c ≢ 0)

-- No NUL in front.
abbrev pub Starts : Bytes → Type 0
Starts [] = Unit
Starts (c ∷ cs) = c ≢ 0

pub ne-zero_of_word : (c : ℕ) → is_word c ≡ true → c ≢ 0
unfolding is_word
ne-zero_of_word c h = ground arith

pub append-Starts : (w rest : Bytes) → AllWord w → Ends rest → Starts (w ++ rest)
append-Starts [] [] a e = tt
append-Starts [] (c ∷ rest) a e = e.1
append-Starts (c ∷ w) rest a e = ne-zero_of_word c a.0

pub get-Got :
    {read : Bytes} (rest : Bytes) (s : MemorySource)
    → Views read rest s
    → Starts rest
    → Got read rest (next get_char s).0 (next get_char s).1
get-Got [] s v h = rw (next_at_end s v.rest_is).0 (refl, v)
get-Got (c ∷ rest) s v h = rw (next-get_char s v.rest_is h) (refl, h, s, v, refl)

pub Got-Views :
    {read : Bytes} (c : ℕ) (rest : Bytes) (t : ℕ) (s : MemorySource)
    → Got read (c ∷ rest) t s
    → Views (read ++ c ∷ []) rest s
Got-Views {read} c rest t s g =
    subst (Views (read ++ c ∷ []) rest) (sym g.4) (advance-Views g.2 g.3)

pub back-Views :
    {read : Bytes} (c : ℕ) (rest : Bytes) (t : ℕ) (s : MemorySource)
    → Got read (c ∷ rest) t s
    → Views read (c ∷ rest) (back s)
back-Views {read} c rest t s g =
    subst (Views read (c ∷ rest))
      (sym (ap back g.4 ∙ next-push_back g.2 g.3.rest_is (Views-InInt g.2 g.3)))
      (unmoved-Views c g.2 g.3)

-- The byte is given back, unless it is the NUL behind the input.
abbrev pub give_back : ℕ → MemorySource → MemorySource
give_back t s = if t == 0 then s else back s

pub give_back-Views :
    {read : Bytes} (rest : Bytes) (t : ℕ) (s : MemorySource)
    → Got read rest t s
    → Views read rest (give_back t s)
give_back-Views [] t s g = ground arith
give_back-Views (c ∷ rest) t s g =
    let nonzero : (t == 0) ≡ false = ground arith in rw nonzero (back-Views c rest t s g)

-- What `identifier` returns: this word at the position behind it, and what follows is unread.
abbrev pub IdentifierIs : Bytes → Bytes → Bytes → Run (Token × MemorySource) → Type 0
IdentifierIs name read rest r =
    (s : MemorySource) × (r ≡ ok (new_identifier name s, s)) × Views read rest s

pub not_word :
    (read rest : Bytes) (t : ℕ) (s : MemorySource)
    → Ends rest
    → Got read rest t s
    → is_word t ≡ false
not_word read [] t s e g = rw g.0 (unfold is_word in refl)
not_word read (c ∷ rest) t s e g = rw g.0 e.0

-- `identifier`, with a byte just got, takes the longest run of word bytes and gives the byte
-- behind it back, if `tmpBuffer` has room for the word and its terminator.
pub identifier-word :
    (fuel : ℕ) (buffer read w rest : Bytes) (t : ℕ) (s : MemorySource)
    → AllWord w
    → Ends rest
    → Got read (w ++ rest) t s
    → length buffer + length w < tmpbuffer_size
    → length w < fuel
    → IdentifierIs (buffer ++ w) (read ++ w) rest (identifier fuel buffer t s)
unfolding identifier
identifier-word zero buffer read w rest t s a e g room h = absurd (omega arith)
identifier-word (suc fuel) buffer read [] rest t s a e g room h =
    rw
      (
        append-nil,
        append-nil,
        lt→ltb (length buffer) tmpbuffer_size (omega arith),
        not_word read rest t s e g,
      )
      (give_back t s, refl, give_back-Views rest t s g)
identifier-word (suc fuel) buffer read (c ∷ w) rest t s a e g room h =
    let v = Got-Views c (w ++ rest) t s g in
    let (s', r, v') =
      identifier-word fuel (buffer ++ t ∷ []) (read ++ c ∷ []) w rest _ _ a.1 e
        (get-Got (w ++ rest) s v (append-Starts w rest a.1 e))
        (omega (arith, length-append {0} buffer (t ∷ []))) (omega arith) in
    let word : is_word t ≡ true = rw g.0 a.0 in
    let whole : (buffer ++ t ∷ []) ++ w ≡ buffer ++ c ∷ w =
      append_assoc buffer (t ∷ []) w ∙ ap (λ x. buffer ++ x ∷ w) g.0 in
    (
      s',
      rw (lt→ltb (length buffer) tmpbuffer_size (omega arith), word, r, whole),
      subst (λ p. Views p rest s') (append_assoc read (c ∷ []) w) v',
    )
