-- ===== src/Ir/Limits.antt =====
-- lib/inter/semantic.cc: how many temporary variables and labels there can be, and their names.
use wxcc.Base.{
  ℕ, ◌+◌, ◌≤◌, [], ◌∷◌, Bytes, length, ltb, Bool-cases, inl, inr, ◌≡◌, ◌≢◌, refl, ap, arith,
  if◌then◌else◌,
}
use wxcc.Outcome.{ok, fault, overflow}
use wxcc.Ir.{Store, temporary_string, new_temporary, label_string, new_label}
use wxcc.Ir.Names.{decimal-injective, length-decimal}

-- The first 99 temporary variables have their names; each later one is written past its array.
pub new_temporary_limit :
    (s : Store)
    → new_temporary s ≡ (
        if ltb s.current_id 99
        then ok (s.current_id + 1, record s { current_id = s.current_id + 1 })
        else fault overflow)
unfolding new_temporary
new_temporary_limit s =
    let fits : ltb (length (temporary_string (s.current_id + 1))) 4 ≡ ltb s.current_id 99 =
      ground (arith, length-decimal (s.current_id + 1)) in
    elim (Bool-cases (ltb s.current_id 99)) [
      | inl small ↦ rw (fits, small) refl
      | inr big ↦ rw (fits, big) refl
    ]

tail_of : Bytes → Bytes
tail_of [] = []
tail_of (c ∷ cs) = cs

-- A label that is made later, while fewer than 1000 have been, has another name.
pub label_string-new_label :
    (s s' t t' : Store) (a b : ℕ)
    → new_label s ≡ ok (a, s')
    → s'.label_num ≤ t.label_num
    → new_label t ≡ ok (b, t')
    → label_string a ≢ label_string b
unfolding new_label tail_of
label_string-new_label s s' t t' a b first later second same =
    let e = decimal-injective a b (ap tail_of same) in ground (arith, e)
