-- ===== src/Lexer/Letter/Longest.antt =====
-- lib/lex/lex.cc: `Lex::letter` on a whole word.
use wxcc.Base.{
  ℕ, ◌+◌, ◌<◌, ◌≢◌, Bool, true, false, ◌&&◌, Option, none, some, [], ◌∷◌, ◌++◌, Bytes, length, ◌≡◌,
  refl, sym, ap, subst, ◌∙◌, arith, ◌==◌, ==_iff, length-append,
}
use wxcc.Input.{MemorySource, position}
use wxcc.Input.View.{Views}
use wxcc.Lexer.{
  Run, ok, tmpbuffer_size, Letters, last, follow, last_or, Branches, other, branch, Matched,
  match_branches,
}
use wxcc.Lexer.Keywords.{spell, letters, letters_from_e, letter_a, letter_b, letter_c, letter_d}
use wxcc.Lexer.Keywords.Match.{Confirms, ConfirmsIn, word_branches, Leaves, match_branches-Leaves}
use wxcc.Lexer.Keywords.Table.{find, keywords, lookup-keywords}
use wxcc.Lexer.Letter.{after_match, letter, has_case}
use wxcc.Lexer.Words.{Got, AllWord, Ends, identifier-word}
use wxcc.Token.{Keyword, key_default, key_double, TokenValue, key, ident, Token}

-- No test in the tree is confirmed by `isalnum` alone.
mutual
  plain : Letters → Bool
  plain (last k) = true
  plain (follow bs) = plain_in bs
  plain (last_or k bs) = false

  plain_in : Branches → Bool
  plain_in other = true
  plain_in (branch x t bs) = plain t && plain_in bs

and_true : (p q : Bool) → (p && q) ≡ true → (p ≡ true) × (q ≡ true)
and_true p q h = ground arith

mutual
  unfolding plain

  plain-Confirms : (t : Letters) (w rest : Bytes) → plain t ≡ true → Confirms t w rest
  plain-Confirms (last k) w rest h = tt
  plain-Confirms (follow bs) w rest h = plain_in-Confirms bs w rest h
  plain-Confirms (last_or k bs) [] rest h = cc
  plain-Confirms (last_or k bs) (c ∷ w) rest h = cc

  plain_in-Confirms : (bs : Branches) (w rest : Bytes) → plain_in bs ≡ true → ConfirmsIn bs w rest
  plain_in-Confirms other w rest h = tt
  plain_in-Confirms (branch x t bs) [] rest h =
      plain_in-Confirms bs [] rest (and_true (plain t) _ h).1
  plain_in-Confirms (branch x t bs) (c ∷ w) rest h = (
    λ _. plain-Confirms t w rest (and_true (plain t) _ h).0,
    plain_in-Confirms bs (c ∷ w) rest (and_true (plain t) _ h).1,
  )

-- `do` is followed by something, and no word begins with `do_`.
abbrev pub begins_do_ : Bytes → Bool
begins_do_ (a ∷ b ∷ c ∷ w) = a == b'd' && (b == b'o' && c == b'_')
begins_do_ _ = false

abbrev pub is_do : Bytes → Bool
is_do (a ∷ b ∷ []) = a == b'd' && b == b'o'
is_do _ = false

abbrev pub DoIsDelimited : Bytes → Bytes → Type 0
DoIsDelimited word rest = (begins_do_ word ≡ false) × (is_do word ≡ true → rest ≢ [])

letter_d-Confirms : (w rest : Bytes) → DoIsDelimited (b'd' ∷ w) rest → Confirms letter_d w rest
unfolding plain
letter_d-Confirms [] rest h = tt
letter_d-Confirms (c ∷ []) rest h = (λ _. tt, (λ e. h.1 e, tt))
letter_d-Confirms (c ∷ d ∷ w) rest h = (
  λ _. plain-Confirms (spell "fault" key_default) (d ∷ w) rest refl,
  (
    λ e. (
      λ u. cc (rw (e, u) at h.0),
      plain_in-Confirms (branch b'u' (spell "ble" key_double) other) (d ∷ w) rest refl,
    ),
    tt,
  ),
)

letters-Confirms :
    (x : ℕ) (w rest : Bytes) → DoIsDelimited (x ∷ w) rest → ConfirmsIn letters (x ∷ w) rest
unfolding plain
letters-Confirms x w rest h = (
  λ _. plain-Confirms letter_a w rest refl,
  (
    λ _. plain-Confirms letter_b w rest refl,
    (
      λ _. plain-Confirms letter_c w rest refl,
      (
        λ e.
            letter_d-Confirms w rest
              (subst (λ d. DoIsDelimited (d ∷ w) rest) ((==_iff x b'd').0 e) h),
        plain_in-Confirms letters_from_e (x ∷ w) rest refl,
      ),
    ),
  ),
)

letters-word : word_branches letters ≡ true
unfolding word_branches
letters-word = refl

-- The value of a word's token, by the dictionary of the keywords.
abbrev pub keyword_or_ident : Option Keyword → Bytes → TokenValue
keyword_or_ident none w = ident w
keyword_or_ident (some k) w = key k

abbrev pub word_value : Bytes → TokenValue
word_value w = keyword_or_ident (find w keywords) w

-- What the lexer returns for a word: its token at the position behind it, and the source there.
abbrev pub WordIs : Bytes → Bytes → TokenValue → Run (Token × MemorySource) → Type 0
WordIs read rest v r =
    (s : MemorySource) × (r ≡ ok (record { token_value = v; token_pos = position s }, s))
    × Views read rest s

after_match-WordIs :
    (fuel : ℕ) (o : Option Keyword) (read w rest : Bytes) (m : Matched)
    → Leaves [] read w rest o m
    → Ends rest
    → length w < tmpbuffer_size
    → length w < fuel
    → WordIs (read ++ w) rest (keyword_or_ident o w) (after_match fuel m)
unfolding after_match
after_match-WordIs fuel (some k) read w rest m (s, e, v) ends room f = (s, rw e, v)
after_match-WordIs fuel none read w rest m (b, r, w', t, s, e, a, p, q, g) ends room f =
    let size : length b + length w' ≡ length w = sym (length-append b w') ∙ ap length p in
    let (s', i, v) = identifier-word fuel b r w' rest t s a ends g (omega arith) (omega arith) in
    (s', rw e (rw (i, p)), subst (λ r. Views r rest s') q v)

-- `letter`, at a byte that it has a case for, on a whole word that `tmpBuffer` has room for: the
-- token is the keyword that the word is, or an identifier with the word's bytes, and what follows
-- the word is left to read. At the word `do` the input must not end, and the word must not begin
-- with `do_`.
-- The input is shorter than 2 ^ 31 - 1 bytes.
pub letter-word :
    (fuel x : ℕ) (read w rest : Bytes) (s : MemorySource)
    → has_case x letters ≡ true
    → AllWord (x ∷ w)
    → Ends rest
    → DoIsDelimited (x ∷ w) rest
    → Got read (x ∷ (w ++ rest)) x s
    → length (x ∷ w) < tmpbuffer_size
    → length (x ∷ w) < fuel
    → WordIs (read ++ x ∷ w) rest (word_value (x ∷ w)) (letter fuel x s)
unfolding letter
letter-word fuel x read w rest s known a e sure g room f = rw known (
    after_match-WordIs fuel (find (x ∷ w) keywords) read (x ∷ w) rest _
      (subst (λ o. Leaves [] read (x ∷ w) rest o (match_branches letters [] x s))
        (lookup-keywords (x ∷ w))
        (match_branches-Leaves letters [] read (x ∷ w) rest x s letters-word a e
          (letters-Confirms x w rest sure) g))
      e room f)
