-- ===== src/Parser/Declarators/Specifiers.antt =====
-- lib/parser/decl.cc: what `Parser::c_parser_declaration_specifiers` gives.
use wxcc.Base.{
  ℕ, zero, suc, ◌<◌, true, false, none, List, [], ◌∷◌, ◌++◌, length, ◌≡◌, refl, sym, ap, ◌∙◌,
  Bool-cases, inl, inr, arith,
}
use wxcc.Outcome.{ok, ◌>>=◌, ok-injective, >>=-eq-ok}
use wxcc.Token.{op_mult, op_leftbrack, TokenValue, none_token, key, op, ident, text, number, Token}
use wxcc.Types.{CType, int_type, plain_type}
use wxcc.Parser.{
  is_none, match_op, match_op_value, is_token, match_qualifier, qualifier_op, Slot, held, cleared,
  no_token, copy_token, clear, Window, next, push_back, qualifier_value, type_qualifier_list,
}
use wxcc.Parser.Declarators.{
  Parsing, parser_error, base_type_slot, base_type_value, is_id, is_id_slot, declarator, by_name,
  type_specifiers, declaration_specifiers,
}
use wxcc.Parser.Pointers.{AreQualifiers, qualified, type_qualifier_list-qualified, pointer-pointed}
use wxcc.Parser.Stream.{At, Before, next-At}

copy_cleared : (s : Slot) → copy_token (clear s) ≡ ok none_token
unfolding copy_token
copy_cleared (held t) = refl
copy_cleared (cleared t) = refl
copy_cleared no_token = refl

no_base_type : (s : Slot) → base_type_slot (clear s) ≡ false
unfolding base_type_slot
no_base_type (held t) = refl
no_base_type (cleared t) = refl
no_base_type no_token = refl

push_back-cleared : (w w' : Window) → push_back w ≡ ok w' → w'.cur ≡ clear w.cur
unfolding push_back
push_back-cleared w w' h = elim (Bool-cases (is_token w.pre)) [
  | inr free ↦ sym (ap (λ (u : Window). u.cur) (ok-injective (rw free at h)))
  | inl taken ↦ elim (Bool-cases (is_token w.prepre)) [
    | inr free ↦ sym (ap (λ (u : Window). u.cur) (ok-injective (rw (taken, free) at h)))
    | inl both ↦ cc (rw (taken, both) at h)
  ]
]

-- The list of qualifiers ends by pushing a token back, so that there is no current one.
type_qualifier_list-cleared :
    (fuel : ℕ) (ty : CType) (w : Window) (r : CType × Window)
    → type_qualifier_list fuel ty w ≡ ok r
    → (s : Slot) × (r.1.cur ≡ clear s)
unfolding type_qualifier_list
type_qualifier_list-cleared zero ty w r h = cc
type_qualifier_list-cleared (suc fuel) ty w r h =
    let (w', e, k) = >>=-eq-ok (next w) _ h in
    elim (Bool-cases (match_qualifier w'.cur)) [
      | inl more ↦
          type_qualifier_list-cleared fuel (plain_type (qualifier_op w'.cur) ty) w' r (rw more at k)
      | inr last ↦
          let (w'', f, g) = >>=-eq-ok (push_back w') _ (rw last at k) in
          (
            w'.cur,
            ap (λ (u : CType × Window). u.1.cur) (sym (ok-injective g))
                ∙ push_back-cleared w' w'' f,
          )
    ]

-- In front of qualifiers and of any other token, also one that names a type: the type is `int`,
-- without the qualifiers; an error is reported, the qualifiers are read, and that token is not.
declaration_specifiers_always_int :
    (qs : List Token) (fuel : ℕ) (ty : CType) (p : Parsing) (t : Token) (rest : List Token)
    → AreQualifiers qs
    → is_none t.token_value ≡ false
    → qualifier_value t.token_value ≡ false
    → Before p.window (qs ++ t ∷ rest)
    → length qs < fuel
    → (w : Window) × (declaration_specifiers fuel ty p
        ≡ ok (int_type, parser_error (record p { window = w })))
      × Before w (t ∷ rest)
unfolding declaration_specifiers type_specifiers
declaration_specifiers_always_int qs fuel ty p t rest q set other b h =
    let (w, e, b') = type_qualifier_list-qualified qs fuel ty p.window t rest q set other b h in
    let (s, c) = type_qualifier_list-cleared fuel ty p.window (qualified qs ty, w) e in
    (w, rw (e, c, copy_cleared s, no_base_type s) refl, b')

base_type_lem :
    (v : TokenValue)
    → base_type_value v ≡ true
    → (is_none v ≡ false)
      × (match_op_value v op_mult ≡ false)
      × (match_op_value v op_leftbrack ≡ false)
      × (is_id v ≡ false)
base_type_lem none_token h = cc
base_type_lem (key k) h = (refl, refl, refl, refl)
base_type_lem (op o) h = cc
base_type_lem (ident x) h = cc
base_type_lem (text x) h = cc
base_type_lem (number x) h = cc

-- A declarator in front of a type keyword.
declarator-none :
    (fuel : ℕ) (ty : CType) (p : Parsing) (t : Token) (rest : List Token)
    → base_type_value t.token_value ≡ true
    → qualifier_value t.token_value ≡ false
    → Before p.window (t ∷ rest)
    → (w : Window) × (declarator (suc (suc (suc fuel))) ty p ≡ ok (none, record p { window = w }))
      × At w t rest
unfolding declarator
declarator-none fuel ty p t rest base q b =
    let (set, m, l, i) = base_type_lem t.token_value base in
    let (w1, e1, b1) =
      pointer-pointed [] (suc (suc fuel)) ty p.window t rest tt (set, q, m) b (omega arith) in
    let (w2, e2, a2) = next-At w1 t rest set b1 in
    let p' = record p { window = w2 } in
    let no_name : is_id_slot w2.cur ≡ false = ap is_id_slot a2.current ∙ i in
    let no_bracket : match_op w2.cur op_leftbrack ≡ false =
      ap (λ u. match_op u op_leftbrack) a2.current ∙ l in
    (w2, rw (e1, e2) (ap (λ o. by_name (suc fuel) o ty p') no_name ∙ rw no_bracket refl), a2)

-- `c_parser_declaration_specifiers` and then `c_parser_declarator`, as a declaration and a parameter
-- call them, in front of qualifiers and of a keyword that names a type: an error is reported, and
-- there is no declarator, whatever follows the keyword. The keyword, which the specifiers leave, is
-- the token that the declarator stops at. More fuel than
-- there are qualifiers, and at least three, is enough.
pub declarator_never_found :
    (qs : List Token) (fuel : ℕ) (ty : CType) (p : Parsing) (t : Token) (rest : List Token)
    → AreQualifiers qs
    → base_type_value t.token_value ≡ true
    → qualifier_value t.token_value ≡ false
    → Before p.window (qs ++ t ∷ rest)
    → length qs < suc (suc (suc fuel))
    → (w : Window) × ((declaration_specifiers (suc (suc (suc fuel))) ty p >>= λ r.
          declarator (suc (suc (suc fuel))) r.0 r.1)
        ≡ ok (none, parser_error (record p { window = w })))
      × At w t rest
declarator_never_found qs fuel ty p t rest q base other b h =
    let set = (base_type_lem t.token_value base).0 in
    let (w, e, b') =
      declaration_specifiers_always_int qs (suc (suc (suc fuel))) ty p t rest q set other b h in
    let (w', f, a) =
      declarator-none fuel int_type (parser_error (record p { window = w })) t rest base other b' in
    (w', ap (λ r. r >>= λ x. declarator (suc (suc (suc fuel))) x.0 x.1) e ∙ f, a)
