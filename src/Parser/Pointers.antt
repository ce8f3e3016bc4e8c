-- ===== src/Parser/Pointers.antt =====
-- lib/parser/decl.cc: which types pointers and their qualifiers give.
use wxcc.Base.{
  ℕ, zero, suc, ◌<◌, true, false, List, [], ◌∷◌, ◌++◌, append_assoc, length, length-append, ◌≡◌,
  refl, sym, ap, subst, arith,
}
use wxcc.Outcome.{ok}
use wxcc.Token.{op_mult, TokenValue, none_token, key, op, ident, text, number, Token}
use wxcc.Types.{to_pointer, CType, plain_type}
use wxcc.Parser.{
  is_none, Window, match_op_value, qualifier_value, qualifier_op_value, type_qualifier_list,
  pointer,
}
use wxcc.Parser.Stream.{Before, At-Before, next-At, push_back-Before}

abbrev pub AreQualifiers : List Token → Type 0
AreQualifiers [] = Unit
AreQualifiers (t ∷ ts) = (qualifier_value t.token_value ≡ true) × AreQualifiers ts

-- A star and the qualifiers behind it.
pub record Level : Type 0 where
  pub star : Token
  pub qualifiers : List Token

abbrev pub AreLevels : List Level → Type 0
AreLevels [] = Unit
AreLevels (l ∷ ls) =
    (match_op_value l.star.token_value op_mult ≡ true) × AreQualifiers l.qualifiers × AreLevels ls

abbrev pub tokens_of : List Level → List Token
tokens_of [] = []
tokens_of (l ∷ ls) = l.star ∷ l.qualifiers ++ tokens_of ls

-- The first qualifier is the innermost.
abbrev pub qualified : List Token → CType → CType
qualified [] ty = ty
qualified (t ∷ ts) ty = qualified ts (plain_type (qualifier_op_value t.token_value) ty)

abbrev pub pointed : List Level → CType → CType
pointed [] ty = ty
pointed (l ∷ ls) ty = pointed ls (qualified l.qualifiers (plain_type to_pointer ty))

qualifier_set : (v : TokenValue) → qualifier_value v ≡ true → is_none v ≡ false
qualifier_set none_token h = cc
qualifier_set (key k) h = refl
qualifier_set (op o) h = refl
qualifier_set (ident x) h = refl
qualifier_set (text x) h = refl
qualifier_set (number x) h = refl

star_set :
    (v : TokenValue)
    → match_op_value v op_mult ≡ true
    → (is_none v ≡ false) × (qualifier_value v ≡ false)
star_set none_token h = cc
star_set (key k) h = cc
star_set (op o) h = (refl, refl)
star_set (ident x) h = cc
star_set (text x) h = cc
star_set (number x) h = cc

-- A token that ends a declarator's pointers.
abbrev pub Ends : Token → Type 0
Ends t =
    (is_none t.token_value ≡ false)
    × (qualifier_value t.token_value ≡ false)
    × (match_op_value t.token_value op_mult ≡ false)

pub type_qualifier_list-qualified :
    (qs : List Token) (fuel : ℕ) (ty : CType) (w : Window) (t : Token) (rest : List Token)
    → AreQualifiers qs
    → is_none t.token_value ≡ false
    → qualifier_value t.token_value ≡ false
    → Before w (qs ++ t ∷ rest)
    → length qs < fuel
    → (w' : Window) × (type_qualifier_list fuel ty w ≡ ok (qualified qs ty, w'))
      × Before w' (t ∷ rest)
unfolding type_qualifier_list
type_qualifier_list-qualified qs zero ty w t rest q set other b h = absurd (omega arith)
type_qualifier_list-qualified [] (suc fuel) ty w t rest q set other b h =
    let (w1, e1, a1) = next-At w t rest set b in
    let (w2, e2, b2) = push_back-Before w1 t rest set a1 in
    (w2, rw (e1, a1.current, other, e2) refl, b2)
type_qualifier_list-qualified (x ∷ qs) (suc fuel) ty w t rest (q, more) set other b h =
    let (w1, e1, a1) = next-At w x (qs ++ t ∷ rest) (qualifier_set x.token_value q) b in
    let (w2, e2, b2) =
      type_qualifier_list-qualified qs fuel (plain_type (qualifier_op_value x.token_value) ty) w1 t
        rest more set other (At-Before w1 x (qs ++ t ∷ rest) a1) (omega arith) in
    (w2, rw (e1, a1.current, q, e2) refl, b2)

-- What stands behind the qualifiers of a level: the next star, or the end.
levels_front :
    (ls : List Level) (t : Token) (rest : List Token)
    → AreLevels ls
    → Ends t
    → (u : Token) × (us : List Token) × (tokens_of ls ++ t ∷ rest ≡ u ∷ us)
      × (is_none u.token_value ≡ false)
      × (qualifier_value u.token_value ≡ false)
levels_front [] t rest a (set, other, last) = (t, rest, refl, set, other)
levels_front (l ∷ ls) t rest (s, q, a) ends =
    let (set, other) = star_set l.star.token_value s in (l.star, _, refl, set, other)

-- `c_parser_pointer`, in front of stars, each with its qualifiers, and of a token that is neither,
-- reads just these and gives the type of pointers that they declare, the last star outermost; more
-- fuel than there are tokens is enough.
pub pointer-pointed :
    (ls : List Level) (fuel : ℕ) (ty : CType) (w : Window) (t : Token) (rest : List Token)
    → AreLevels ls
    → Ends t
    → Before w (tokens_of ls ++ t ∷ rest)
    → length (tokens_of ls) < fuel
    → (w' : Window) × (pointer fuel ty w ≡ ok (pointed ls ty, w')) × Before w' (t ∷ rest)
unfolding pointer
pointer-pointed ls zero ty w t rest a ends b h = absurd (omega arith)
pointer-pointed [] (suc fuel) ty w t rest a (set, other, last) b h =
    let (w1, e1, a1) = next-At w t rest set b in
    let (w2, e2, b2) = push_back-Before w1 t rest set a1 in
    (w2, rw (e1, a1.current, other, last, e2) refl, b2)
pointer-pointed (l ∷ ls) (suc fuel) ty w t rest (s, q, a) ends b h =
    let tail = tokens_of ls ++ t ∷ rest in
    let (set, other) = star_set l.star.token_value s in
    let (w1, e1, a1) = next-At w l.star (l.qualifiers ++ tail) set (
      subst (Before w) (ap (◌∷◌ l.star) (append_assoc l.qualifiers (tokens_of ls) (t ∷ rest))) b) in
    let (u, us, front, u_set, u_other) = levels_front ls t rest a ends in
    let size = length-append l.qualifiers (tokens_of ls) in
    let (w2, e2, b2) =
      type_qualifier_list-qualified l.qualifiers fuel (plain_type to_pointer ty) w1 u us q u_set
        u_other
        (subst (λ (x : List Token). Before w1 (l.qualifiers ++ x)) front
          (At-Before w1 l.star (l.qualifiers ++ tail) a1))
        (omega (arith, size)) in
    let (w3, e3, b3) =
      pointer-pointed ls fuel (qualified l.qualifiers (plain_type to_pointer ty)) w2 t rest a ends
        (subst (Before w2) (sym front) b2) (omega (arith, size)) in
    (w3, rw (e1, a1.current, s, e2, e3) refl, b3)
