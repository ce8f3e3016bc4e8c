-- ===== src/Lexer/Keywords/Match.antt =====
-- lib/lex/lex.cc: the tests of `Lex::letter` read as a dictionary, and what they leave behind.
use wxcc.Base.{
  ℕ, ◌≢◌, Bool, true, false, ◌&&◌, Option, none, some, [], ◌∷◌, ◌++◌, Bytes, ◌≡◌, refl, ap, subst,
  ◌∙◌, arith, ◌==◌, ==_iff, Bool-cases, inl, inr, if◌then◌else◌, isalnum, append_assoc,
}
use wxcc.Input.{get_char, MemorySource, next}
use wxcc.Input.View.{Views, next-look_ahead, next_at_end}
use wxcc.Lexer.{
  back, is_word, check_next, Letters, last, follow, last_or, Branches, other, branch, Matched,
  keyword, not_keyword, match_letters, match_branches,
}
use wxcc.Lexer.Words.{
  Got, AllWord, Ends, ne-zero_of_word, append-Starts, not_word, get-Got, Got-Views, back-Views,
}
use wxcc.Token.{Keyword}

-- The keyword that the tests spell by these bytes.
unfoldable mutual
  pub lookup : Letters → Bytes → Option Keyword
  lookup (last k) [] = some k
  lookup (last k) (c ∷ w) = none
  lookup (follow bs) w = lookup_in bs w
  lookup (last_or k bs) [] = some k
  lookup (last_or k bs) (c ∷ w) = lookup_in bs (c ∷ w)

  pub lookup_in : Branches → Bytes → Option Keyword
  lookup_in other w = none
  lookup_in (branch x t bs) [] = lookup_in bs []
  lookup_in (branch x t bs) (c ∷ w) = if c == x then lookup t w else lookup_in bs (c ∷ w)

-- Every byte that is tested for is a word byte.
unfoldable mutual
  unfolding is_word

  pub word_letters : Letters → Bool
  word_letters (last k) = true
  word_letters (follow bs) = word_branches bs
  word_letters (last_or k bs) = word_branches bs

  pub word_branches : Branches → Bool
  word_branches other = true
  word_branches (branch x t bs) = is_word x && (word_letters t && word_branches bs)

-- The tests confirm a keyword by `isalnum` alone at `last_or`: there the word must not go on by
-- an underscore, nor end with the input.
abbrev mutual
  pub Confirms : Letters → Bytes → Bytes → Type 0
  Confirms (last k) w rest = Unit
  Confirms (follow bs) w rest = ConfirmsIn bs w rest
  Confirms (last_or k bs) [] rest = rest ≢ []
  Confirms (last_or k bs) (c ∷ w) rest = (c ≢ b'_') × ConfirmsIn bs (c ∷ w) rest

  pub ConfirmsIn : Branches → Bytes → Bytes → Type 0
  ConfirmsIn other w rest = Unit
  ConfirmsIn (branch x t bs) [] rest = ConfirmsIn bs [] rest
  ConfirmsIn (branch x t bs) (c ∷ w) rest =
      ((c == x) ≡ true → Confirms t w rest) × ConfirmsIn bs (c ∷ w) rest

-- What the tests come to on the word `w`, of which a byte was just got: the keyword with the word
-- read, or the point where `identifier` takes over.
abbrev pub Leaves : Bytes → Bytes → Bytes → Bytes → Option Keyword → Matched → Type 0
Leaves buffer read w rest (some k) m =
    (s : MemorySource) × (m ≡ keyword k s) × Views (read ++ w) rest s
Leaves buffer read w rest none m =
    (buffer' : Bytes) × (read' : Bytes) × (w' : Bytes) × (t : ℕ) × (s : MemorySource) × (m
      ≡ not_keyword buffer' t s)
    × AllWord w'
    × (buffer' ++ w' ≡ buffer ++ w)
    × (read' ++ w' ≡ read ++ w)
    × Got read' (w' ++ rest) t s

Leaves-shift :
    (buffer read w rest : Bytes) (c : ℕ) (o : Option Keyword) (m : Matched)
    → Leaves (buffer ++ c ∷ []) (read ++ c ∷ []) w rest o m
    → Leaves buffer read (c ∷ w) rest o m
Leaves-shift buffer read w rest c (some k) m (s, e, v) =
    (s, e, subst (λ r. Views r rest s) (append_assoc read (c ∷ []) w) v)
Leaves-shift buffer read w rest c none m (b, r, w', t, s, e, a, p, q, g) =
    (b, r, w', t, s, e, a, p ∙ append_assoc buffer (c ∷ []) w, q ∙ append_assoc read (c ∷ []) w, g)

check_next-Ends :
    (read rest : Bytes) (s : MemorySource)
    → Views read rest s
    → Ends rest
    → check_next s ≡ (true, s)
unfolding check_next is_word
check_next-Ends read [] s v e = rw ((next_at_end s v.rest_is).1, (next_at_end s v.rest_is).1)
check_next-Ends read (c ∷ rest) s v e =
    let l = next-look_ahead s v.rest_is in rw (l, l) (ground arith)

check_next-word :
    (read rest : Bytes) (c : ℕ) (s : MemorySource)
    → Views read (c ∷ rest) s
    → is_word c ≡ true
    → check_next s ≡ (false, s)
unfolding check_next is_word
check_next-word read rest c s v h = let l = next-look_ahead s v.rest_is in rw (l, l) (ground arith)

pub isalnum_of_word :
    (c : ℕ)
    → (is_word c ≡ false → isalnum c ≡ false) × (is_word c ≡ true → c ≢ b'_' → isalnum c ≡ true)
unfolding is_word
isalnum_of_word c = (λ h. ground arith, λ h n. ground arith)

differs_of_word : (t x : ℕ) → is_word t ≡ false → is_word x ≡ true → (t == x) ≡ false
differs_of_word t x h k = elim (Bool-cases (t == x)) [
  | inl same ↦ cc (ap is_word ((==_iff t x).0 same))
  | inr differs ↦ differs
]

and_true : (p q : Bool) → (p && q) ≡ true → (p ≡ true) × (q ≡ true)
and_true p q h = ground arith

last_or-Leaves :
    (k : Keyword) (bs : Branches) (buffer read rest : Bytes) (c : ℕ) (s : MemorySource)
    → Ends rest
    → rest ≢ []
    → Got read (c ∷ rest) c s
    → Leaves buffer read (c ∷ []) rest (some k) (match_letters (last_or k bs) buffer c s)
unfolding match_letters
last_or-Leaves k bs buffer read [] c s e more g = absurd (more refl)
last_or-Leaves k bs buffer read (d ∷ rest) c s e more g =
    let g' = get-Got (d ∷ rest) s (Got-Views c (d ∷ rest) c s g) e.1 in
    let stops : isalnum (next get_char s).0 ≡ false = rw g'.0 ((isalnum_of_word d).0 e.0) in
    rw stops (back (next get_char s).1, refl, back-Views d rest _ _ g')

mutual
  unfolding match_letters lookup word_letters

  match_letters-Leaves :
      (t : Letters) (buffer read w rest : Bytes) (c : ℕ) (s : MemorySource)
      → word_letters t ≡ true
      → is_word c ≡ true
      → AllWord w
      → Ends rest
      → Confirms t w rest
      → Got read (c ∷ (w ++ rest)) c s
      → Leaves buffer read (c ∷ w) rest (lookup t w) (match_letters t buffer c s)
  match_letters-Leaves (last k) buffer read [] rest c s tree word a e sure g =
      let v = Got-Views c rest c s g in
      rw (check_next-Ends (read ++ c ∷ []) rest s v e) (s, refl, v)
  match_letters-Leaves (last k) buffer read (d ∷ w) rest c s tree word a e sure g =
      let v = Got-Views c (d ∷ (w ++ rest)) c s g in
      rw (check_next-word (read ++ c ∷ []) (w ++ rest) d s v a.0)
        (buffer, read, c ∷ d ∷ w, c, s, refl, (word, a), refl, refl, g)
  match_letters-Leaves (follow bs) buffer read w rest c s tree word a e sure g =
      let v = Got-Views c (w ++ rest) c s g in
      let g' = get-Got (w ++ rest) s v (append-Starts w rest a e) in
      Leaves-shift buffer read w rest c (lookup_in bs w) _ (
        match_branches-Leaves bs (buffer ++ c ∷ []) (read ++ c ∷ []) w rest (next get_char s).0
          (next get_char s).1 tree a e sure g')
  match_letters-Leaves (last_or k bs) buffer read [] rest c s tree word a e sure g =
      last_or-Leaves k bs buffer read rest c s e sure g
  match_letters-Leaves (last_or k bs) buffer read (d ∷ w) rest c s tree word a e sure g =
      let v = Got-Views c (d ∷ (w ++ rest)) c s g in
      let g' = get-Got (d ∷ (w ++ rest)) s v (ne-zero_of_word d a.0) in
      let more : isalnum (next get_char s).0 ≡ true = rw g'.0 ((isalnum_of_word d).1 a.0 sure.0) in
      rw more (
        Leaves-shift buffer read (d ∷ w) rest c (lookup_in bs (d ∷ w)) _ (
          match_branches-Leaves bs (buffer ++ c ∷ []) (read ++ c ∷ []) (d ∷ w) rest
            (next get_char s).0 (next get_char s).1 tree a e sure.1 g'))

  pub match_branches-Leaves :
      (bs : Branches) (buffer read w rest : Bytes) (t : ℕ) (s : MemorySource)
      → word_branches bs ≡ true
      → AllWord w
      → Ends rest
      → ConfirmsIn bs w rest
      → Got read (w ++ rest) t s
      → Leaves buffer read w rest (lookup_in bs w) (match_branches bs buffer t s)
  match_branches-Leaves other buffer read w rest t s tree a e sure g =
      (buffer, read, w, t, s, refl, a, refl, refl, g)
  match_branches-Leaves (branch x l bs) buffer read [] rest t s tree a e sure g =
      let (this, others) = and_true _ _ tree in
      rw (differs_of_word t x (not_word read rest t s e g) this)
        (match_branches-Leaves bs buffer read [] rest t s (and_true _ _ others).1 a e sure g)
  match_branches-Leaves (branch x l bs) buffer read (c ∷ w) rest t s tree a e sure g =
      let below = and_true _ _ (and_true (is_word x) _ tree).1 in
      let g' : Got read (c ∷ (w ++ rest)) c s = (refl, g.1, g.2, g.3, g.4) in
      elim (Bool-cases (c == x)) [
        | inl hit ↦
            rw (g.0, hit)
              (match_letters-Leaves l buffer read w rest c s below.0 a.0 a.1 e (sure.0 hit) g')
        | inr miss ↦
            rw (g.0, miss)
              (match_branches-Leaves bs buffer read (c ∷ w) rest c s below.1 a e sure.1 g')
      ]
