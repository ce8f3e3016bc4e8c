-- ===== src/Parser/Stream.antt =====
-- lib/parser/parser.cc: the window as a stream of tokens.
use wxcc.Base.{false, List, ◌∷◌, ◌≡◌, refl, Bool-cases, inl, inr, ap, ◌∙◌, arith, if◌then◌else◌}
use wxcc.Outcome.{ok}
use wxcc.Token.{Token}
use wxcc.Parser.{Slot, held, cleared, no_token, is_none, is_token, clear, Window, next, push_back}

-- The token is the current one, and nothing has been pushed back.
pub record At (w : Window) (t : Token) (rest : List Token) : Type 0 where
  pub current : w.cur ≡ held t
  pub none_before : is_token w.pre ≡ false
  pub none_before_that : is_token w.prepre ≡ false
  pub behind : w.source ≡ rest

-- The tokens that are still to be read: one that has been pushed back, and those of the scanner.
abbrev pub upcoming : Slot → List Token → List Token
upcoming (held t) source = if is_none t.token_value then source else t ∷ source
upcoming (cleared t) source = source
upcoming no_token source = source

pub record Before (w : Window) (tokens : List Token) : Type 0 where
  pub none_before_that : is_token w.prepre ≡ false
  pub still : upcoming w.pre w.source ≡ tokens

cons_head : {a b : Token} {xs ys : List Token} → a ∷ xs ≡ b ∷ ys → a ≡ b
cons_head e = cc

cons_tail : {a b : Token} {xs ys : List Token} → a ∷ xs ≡ b ∷ ys → xs ≡ ys
cons_tail e = cc

from_source :
    (w : Window) (t : Token) (rest : List Token)
    → is_none t.token_value ≡ false
    → is_token w.prepre ≡ false
    → is_token w.pre ≡ false
    → w.source ≡ t ∷ rest
    → (w' : Window) × (next w ≡ ok w') × At w' t rest
unfolding next
from_source w t rest set p2 p1 e = (
  record w { cur = held t; source = rest },
  rw (p2, p1, e, set) refl,
  record { current = refl; none_before = p1; none_before_that = p2; behind = refl },
)

-- With the slot of `pre` apart.
next_slot :
    (pre : Slot) (w : Window) (t : Token) (rest : List Token)
    → is_none t.token_value ≡ false
    → is_token w.prepre ≡ false
    → upcoming pre w.source ≡ t ∷ rest
    → (w' : Window) × (next (record w { pre = pre }) ≡ ok w') × At w' t rest
unfolding next
next_slot (held u) w t rest set p2 still = elim (Bool-cases (is_none u.token_value)) [
  | inl none ↦
      from_source (record w { pre = held u }) t rest set p2 (rw none refl) (rw none at still)
  | inr some_u ↦
      let both : u ∷ w.source ≡ t ∷ rest = rw some_u at still in
      (
        record w { cur = held u; pre = cleared u },
        rw (p2, some_u) refl,
        record {
          current = ap held (cons_head both);
          none_before = refl;
          none_before_that = p2;
          behind = cons_tail both;
        },
      )
]
next_slot (cleared u) w t rest set p2 still =
    from_source (record w { pre = cleared u }) t rest set p2 refl still
next_slot no_token w t rest set p2 still =
    from_source (record w { pre = no_token }) t rest set p2 refl still

-- In front of a token, `next` makes it the current one, wherever it comes from.
pub next-At :
    (w : Window) (t : Token) (rest : List Token)
    → is_none t.token_value ≡ false
    → Before w (t ∷ rest)
    → (w' : Window) × (next w ≡ ok w') × At w' t rest
next-At w t rest set b = next_slot w.pre w t rest set b.none_before_that b.still

-- `pushBack` of the current token puts the window in front of it again.
pub push_back-Before :
    (w : Window) (t : Token) (rest : List Token)
    → is_none t.token_value ≡ false
    → At w t rest
    → (w' : Window) × (push_back w ≡ ok w') × Before w' (t ∷ rest)
unfolding push_back
push_back-Before w t rest set a = (
  record w { pre = w.cur; cur = clear w.cur },
  rw a.none_before refl,
  record { none_before_that = a.none_before_that; still = rw (a.current, a.behind, set) refl },
)

pub At-Before : (w : Window) (t : Token) (rest : List Token) → At w t rest → Before w rest
At-Before w t rest a = record {
  none_before_that = a.none_before_that;
  still = skip w.pre a.none_before ∙ a.behind;
}
  where
    skip : (pre : Slot) → is_token pre ≡ false → upcoming pre w.source ≡ w.source
    skip (held u) h = ground arith
    skip (cleared u) h = refl
    skip no_token h = refl
