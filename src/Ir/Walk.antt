-- ===== src/Ir/Walk.antt =====
-- lib/inter/semantic.cc: the loops that follow the links of the code to one of its ends.
use wxcc.Base.{
  ℕ, zero, suc, ◌<◌, false, Option, some, List, [], ◌∷◌, Bytes, length, ◌==◌, ◌≡◌, ◌≢◌, refl, arith,
}
use wxcc.Outcome.{ok}
use wxcc.Ir.{Ptr, null, Store, load, get_next, get_pre, last_from, re_set_current}
use wxcc.Ir.Chain.{Holds, last_or, Linked}

nonnull : (p : Ptr) → p ≢ null → (p == null) ≡ false
nonnull p n = ground arith

load-Holds :
    (s : Store) (p pre next : Ptr) (d : Option ℕ) (t : Bytes)
    → p ≢ null
    → s.nodes p ≡ some (record { next_ir = some next; pre_ir = some pre; dest = d; ir_string = t })
    → load p s ≡ ok (record { next_ir = some next; pre_ir = some pre; dest = d; ir_string = t }, s)
unfolding load
load-Holds s p pre next d t n e = rw (nonnull p n, e) refl

pub get_next-Holds :
    (s : Store) (p pre next : Ptr)
    → p ≢ null
    → Holds s.nodes p pre next
    → get_next p s ≡ ok (next, s)
unfolding get_next
get_next-Holds s p pre next n (d, t, e) = rw (load-Holds s p pre next d t n e) refl

pub get_pre-Holds :
    (s : Store) (p pre next : Ptr) → p ≢ null → Holds s.nodes p pre next → get_pre p s ≡ ok (pre, s)
unfolding get_pre
get_pre-Holds s p pre next n (d, t, e) = rw (load-Holds s p pre next d t n e) refl

-- From an instruction of linked code, the loop of `reSetCurrent` ends at the last one.
pub last_from-Linked :
    (xs : List Ptr) (fuel : ℕ) (s : Store) (pre x : Ptr)
    → Linked s.nodes pre (x ∷ xs) null
    → length xs < fuel
    → last_from fuel x s ≡ ok (last_or x xs, s)
unfolding last_from
last_from-Linked xs zero s pre x l h = absurd (omega arith)
last_from-Linked [] (suc fuel) s pre x (n, out, e, l) h = rw (get_next-Holds s x pre null n e) refl
last_from-Linked (y ∷ xs) (suc fuel) s pre x (n, out, e, l) h =
    rw (get_next-Holds s x pre y n e, nonnull y l.0)
      (last_from-Linked xs fuel s x y l (omega arith))

-- `reSetCurrent` ends on linked code with as many rounds as there are instructions from the current
-- one on: it makes the last of them the current one and changes nothing else.
pub re_set_current-Linked :
    (xs : List Ptr) (fuel : ℕ) (s : Store) (pre : Ptr)
    → Linked s.nodes pre (s.current ∷ xs) null
    → length xs < fuel
    → re_set_current fuel s ≡ ok (tt, record s { current = last_or s.current xs })
unfolding re_set_current
re_set_current-Linked xs fuel s pre l h = rw (last_from-Linked xs fuel s pre s.current l h) refl
