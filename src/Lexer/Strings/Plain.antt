-- ===== src/Lexer/Strings/Plain.antt =====
-- lib/lex/lex.cc: `Lex::parseString` on texts with no escapes.
use wxcc.Base.{
  lt→ltb, ℕ, zero, suc, ◌+◌, ◌<◌, ◌≢◌, Bool, true, false, not, ◌&&◌, ◌||◌, List, [], ◌∷◌, ◌++◌,
  Bytes, length, ◌≡◌, refl, subst, sym, ap, arith, ◌∙◌, ◌==◌, append_assoc, append-nil,
  length-append,
}
use wxcc.Input.{look_ahead, MemorySource, next, advance}
use wxcc.Input.View.{Views, advance-Views, next-get_char, next-look_ahead, next_at_end}
use wxcc.Lexer.{Run, ok, ◌>>=◌, tmpbuffer_size}
use wxcc.Lexer.Scan.Blanks.{AllBlank, NoBlank, skip_blank-SkipsTo}
use wxcc.Lexer.Strings.{
  Text, store_byte, store_char, string_byte, unless_closed, string_loop, join_next, close_text,
  parse_string,
}

-- A byte that is stored and does not end the loop.
abbrev pub is_stored : ℕ → Bool
is_stored c = not (c == b'"' || c == b'\n' || c == b'\\' || c == 255)

-- A byte that stands for itself.
abbrev pub is_plain : ℕ → Bool
is_plain c = is_stored c && not (c == 0)

abbrev pub AllPlain : Bytes → Type 0
AllPlain [] = Unit
AllPlain (c ∷ cs) = (is_plain c ≡ true) × AllPlain cs

pub plain_nonzero : (c : ℕ) → is_plain c ≡ true → c ≢ 0
plain_nonzero c h = ground arith

pub plain_stored : (c : ℕ) → is_plain c ≡ true → is_stored c ≡ true
plain_stored c h = ground arith

pub string_byte-is_stored :
    (c : ℕ) (u : Text)
    → is_stored c ≡ true
    → u.length_count < tmpbuffer_size
    → length u.buffer < tmpbuffer_size
    → string_byte c u
      ≡ ok (false, record u { buffer = u.buffer ++ c ∷ []; length_count = u.length_count + 1 })
unfolding string_byte store_char store_byte
string_byte-is_stored c u h n l = ground arith

-- A loop stopped with this text and this count, in front of `rest`; nothing was reported.
abbrev pub TextIs : Text → Bytes → ℕ → Bytes → Bytes → Run Text → Type 0
TextIs u text count read rest r =
    (s : MemorySource) × (n : ℕ) × (r
      ≡ ok (record u { source = s; buffer = text; length_count = n }))
    × (n ≡ count)
    × Views read rest s

pub string_loop-TextIs :
    (fuel : ℕ) (read w rest : Bytes) (u : Text)
    → AllPlain w
    → Views read (w ++ b'"' ∷ rest) u.source
    → u.length_count + length w < tmpbuffer_size
    → length u.buffer + length w < tmpbuffer_size
    → length w < fuel
    → TextIs u
        (u.buffer ++ w)
        (u.length_count + length w)
        (read ++ (w ++ b'"' ∷ []))
        rest
        (string_loop fuel u)
unfolding string_loop unless_closed
string_loop-TextIs zero read w rest u a v n l h = absurd (omega arith)
string_loop-TextIs (suc fuel) read [] rest u a v n l h =
    rw (next-get_char u.source v.rest_is (omega arith), append-nil)
      (advance b'"' u.source, u.length_count, refl, omega arith, advance-Views u.source v)
string_loop-TextIs (suc fuel) read (c ∷ w) rest u a v n l h =
    let u' = record u {
      source = advance c u.source;
      buffer = u.buffer ++ c ∷ [];
      length_count = u.length_count + 1;
    } in
    let (s', m, e, q, v') =
      string_loop-TextIs fuel (read ++ c ∷ []) w rest u' a.1 (advance-Views u.source v)
        (omega arith) (omega (arith, length-append {0} u.buffer (c ∷ []))) (omega arith) in
    (
      s',
      m,
      rw
          (
            next-get_char u.source v.rest_is (plain_nonzero c a.0),
            string_byte-is_stored c (record u { source = advance c u.source }) (plain_stored c a.0)
                (omega arith) (omega arith),
            e,
            append_assoc,
          )
          refl,
      omega arith,
      subst (λ p. Views p rest s') (append_assoc read (c ∷ []) (w ++ b'"' ∷ [])) v',
    )

-- Texts with the blanks behind each, and the input from behind the first quote on.
abbrev pub Pieces : Type 0
Pieces = List (Bytes × Bytes)

abbrev pub inside : Bytes → Bytes → Pieces → Bytes
inside w bs [] = w ++ b'"' ∷ bs
inside w bs ((w', bs') ∷ ps) = w ++ b'"' ∷ (bs ++ b'"' ∷ inside w' bs' ps)

-- The text that they are together.
abbrev pub joined : Bytes → Pieces → Bytes
joined w [] = w
joined w ((w', bs) ∷ ps) = w ++ joined w' ps

abbrev pub AllPieces : Pieces → Type 0
AllPieces [] = Unit
AllPieces ((w, bs) ∷ ps) = (AllPlain w × AllBlank bs) × AllPieces ps

-- What follows the texts is no blank and no text.
abbrev pub NoText : Bytes → Type 0
NoText [] = Unit
NoText (c ∷ cs) = c ≢ b'"'

no_quote :
    {read : Bytes} (rest : Bytes) (s : MemorySource)
    → NoText rest
    → Views read rest s
    → (next look_ahead s).0 == b'"' ≡ false × ((next look_ahead s).1 ≡ s)
no_quote [] s n v = rw (next_at_end s v.rest_is).1 (refl, refl)
no_quote (c ∷ rest) s n v = rw (next-look_ahead s v.rest_is) (ground arith, refl)

-- Behind a text and its blanks.
close_text-join_next :
    (fuel : ℕ) (loop : Text → Run Text) (read bs rest : Bytes) (v : Text)
    → AllBlank bs
    → NoBlank rest
    → Views read (bs ++ rest) v.source
    → length v.buffer < tmpbuffer_size
    → length bs < fuel
    → (s : MemorySource) × (close_text fuel loop v ≡ join_next loop v s) × Views (read ++ bs) rest s
unfolding close_text
close_text-join_next fuel loop read bs rest v a n w l h =
    let (s, e, w') = skip_blank-SkipsTo fuel read bs rest v.source a n w h in
    (s, rw (lt→ltb (length v.buffer) tmpbuffer_size l, e) refl, w')

-- One text, up to what stands behind its blanks.
abbrev OneText : ℕ → Bytes → Bytes → Bytes → Text → Type 0
OneText fuel read w rest u =
    (s₀ : MemorySource) × (s : MemorySource) × (n : ℕ) × (parse_string (suc fuel) u
      ≡ join_next (parse_string fuel)
          (record u { source = s₀; buffer = u.buffer ++ w; length_count = n }) s)
    × (n ≡ u.length_count + length w)
    × Views read rest s

one_text :
    (fuel : ℕ) (read w bs rest : Bytes) (u : Text)
    → AllPlain w
    → AllBlank bs
    → NoBlank rest
    → Views read (w ++ b'"' ∷ (bs ++ rest)) u.source
    → u.length_count + length w < tmpbuffer_size
    → length u.buffer + length w < tmpbuffer_size
    → length w + length bs < fuel
    → OneText fuel (read ++ (w ++ b'"' ∷ bs)) w rest u
unfolding parse_string
one_text fuel read w bs rest u a b q v n l h =
    let (s₀, m, e, i, v₀) =
      string_loop-TextIs (suc fuel) read w (bs ++ rest) u a v n l (omega arith) in
    let t = record u { source = s₀; buffer = u.buffer ++ w; length_count = m } in
    let (s, f, v₁) =
      close_text-join_next (suc fuel) (parse_string fuel) (read ++ (w ++ b'"' ∷ [])) bs rest t b q
        v₀ (omega (arith, length-append {0} u.buffer w)) (omega arith) in
    let whole : (read ++ (w ++ b'"' ∷ [])) ++ bs ≡ read ++ (w ++ b'"' ∷ bs) =
      append_assoc read (w ++ b'"' ∷ []) bs ∙ ap (◌++◌ read) (append_assoc w (b'"' ∷ []) bs) in
    (
      s₀,
      s,
      m,
      ap (λ r. r >>= close_text (suc fuel) (parse_string fuel)) e ∙ f,
      i,
      subst (λ p. Views p rest s) whole v₁,
    )

join_next_ends :
    (loop : Text → Run Text) {read : Bytes} (rest : Bytes) (v : Text) (s : MemorySource)
    → NoText rest
    → Views read rest s
    → join_next loop v s ≡ ok (record v { source = s })
unfolding join_next
join_next_ends loop rest v s n w = let (e, f) = no_quote rest s n w in rw (e, f) refl

join_next_on :
    (loop : Text → Run Text) {read : Bytes} (rest : Bytes) (v : Text) (s : MemorySource)
    → Views read (b'"' ∷ rest) s
    → join_next loop v s ≡ loop (record v { source = advance b'"' s })
unfolding join_next
join_next_on loop rest v s w =
    rw (next-look_ahead s w.rest_is) (rw (next-get_char s w.rest_is (omega arith)) refl)

pub parse_string-TextIs :
    (fuel : ℕ) (read w bs : Bytes) (ps : Pieces) (rest : Bytes) (u : Text)
    → AllPieces ((w, bs) ∷ ps)
    → NoBlank rest
    → NoText rest
    → Views read (inside w bs ps ++ rest) u.source
    → u.length_count + length (joined w ps) < tmpbuffer_size
    → length u.buffer + length (joined w ps) < tmpbuffer_size
    → length (inside w bs ps) < fuel
    → TextIs u
        (u.buffer ++ joined w ps)
        (u.length_count + length (joined w ps))
        (read ++ inside w bs ps)
        rest
        (parse_string fuel u)
parse_string-TextIs zero read w bs ps rest u a b q v n l h = absurd (omega arith)
parse_string-TextIs (suc fuel) read w bs [] rest u a b q v n l h =
    let v₀ = subst (λ p. Views read p u.source) (append_assoc w (b'"' ∷ bs) rest) v in
    let (s₀, s, m, e, i, v₁) =
      one_text fuel read w bs rest u a.0.0 a.0.1 b v₀ n l
        (omega (arith, length-append {0} w (b'"' ∷ bs))) in
    (s, m, e ∙ join_next_ends (parse_string fuel) rest _ s q v₁, i, v₁)
parse_string-TextIs (suc fuel) read w bs ((w', bs') ∷ ps) rest u a b q v n l h =
    let more = inside w' bs' ps in
    let split : inside w bs ((w', bs') ∷ ps) ++ rest ≡ w ++ b'"' ∷ (bs ++ b'"' ∷ (more ++ rest)) =
      append_assoc w (b'"' ∷ (bs ++ b'"' ∷ more)) rest
      ∙ ap (λ p. w ++ b'"' ∷ p) (append_assoc bs (b'"' ∷ more) rest) in
    let text_size = length-append {0} w (joined w' ps) in
    let size = length-append {0} w (b'"' ∷ (bs ++ b'"' ∷ more)) in
    let more_size = length-append {0} bs (b'"' ∷ more) in
    let buffer_size = length-append {0} u.buffer w in
    let (s₀, s, m, e, i, v₁) =
      one_text fuel read w bs (b'"' ∷ (more ++ rest)) u a.0.0 a.0.1 (refl, omega arith)
        (subst (λ p. Views read p u.source) split v) (omega arith) (omega arith) (omega arith) in
    let u' = record u { source = advance b'"' s; buffer = u.buffer ++ w; length_count = m } in
    let (s', k, e', i', v₂) =
      parse_string-TextIs fuel ((read ++ (w ++ b'"' ∷ bs)) ++ b'"' ∷ []) w' bs' ps rest u' a.1 b q
        (advance-Views s v₁) (omega arith) (omega arith) (omega arith) in
    let whole : ((read ++ (w ++ b'"' ∷ bs)) ++ b'"' ∷ []) ++ more
        ≡ read ++ (w ++ b'"' ∷ (bs ++ b'"' ∷ more)) =
      append_assoc (read ++ (w ++ b'"' ∷ bs)) (b'"' ∷ []) more
      ∙ append_assoc read (w ++ b'"' ∷ bs) (b'"' ∷ more)
      ∙ ap (◌++◌ read) (append_assoc w (b'"' ∷ bs) (b'"' ∷ more)) in
    (
      s',
      k,
      rw (sym (append_assoc u.buffer w (joined w' ps)))
          (e ∙ (join_next_on (parse_string fuel) (more ++ rest) _ s v₁ ∙ e')),
      omega arith,
      subst (λ p. Views p rest s') whole v₂,
    )
