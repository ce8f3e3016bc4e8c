-- ===== src/Symbols/Scopes/Sound.antt =====
-- lib/env/environment.cc: `Env::newIdentifier` keeps what the tables of an environment hold.
use wxcc.Base.{Option, none, some, Bytes, ◌≡◌, refl, arith, ap, subst, Bool-cases, inl, inr}
use wxcc.Symbols.{Identifier}
use wxcc.Symbols.Table.{Checked, ok, out_of_bounds, null_dereference, Table, base_size, find, put}
use wxcc.Symbols.Table.Lookup.{IsProbed, put-IsPut, put-IsProbed, new_table-IsProbed, find-put_kept}
use wxcc.Symbols.Scopes.{
  Env, new_env, Declared, declared, with_id, with_func, unless_found, new_identifier,
}

-- The tables are filled by `put`, and the counters count them.
pub IsSound : Env → Type 0
IsSound env =
    IsProbed env.local_id
    × IsProbed env.local_func
    × (env.id_counts ≡ env.local_id.stored)
    × (env.func_counts ≡ env.local_func.stored)

pub new_env-IsSound : IsSound new_env
unfolding IsSound
new_env-IsSound = (new_table-IsProbed base_size, new_table-IsProbed base_size, refl, refl)

-- What is found stays found.
pub Grown : Env → Env → Type 0
Grown env env' =
    IsSound env'
    × ((name : Bytes) (k : Identifier)
        → find env.local_id name ≡ ok (some k)
        → find env'.local_id name ≡ ok (some k))
    × ((name : Bytes) (k : Identifier)
        → find env.local_func name ≡ ok (some k)
        → find env'.local_func name ≡ ok (some k))

declared-injective : {a b : Env} → ok (declared a) ≡ ok (declared b) → a ≡ b
declared-injective h = cc

with_id-Grown :
    (env : Env) (id : Identifier) (c : Checked Table) (env' : Env)
    → IsSound env
    → put env.local_id id ≡ c
    → with_id env c ≡ ok (declared env')
    → Grown env env'
unfolding IsSound Grown
with_id-Grown env id out_of_bounds env' s e h = cc
with_id-Grown env id null_dereference env' s e h = cc
with_id-Grown env id (ok t) env' (a, b, c, d) e h =
    let grown = ap Table.stored (put-IsPut env.local_id id t e).grown in
    subst (Grown env) (declared-injective h) (
      (put-IsProbed env.local_id t id a e, b, omega arith, d),
      λ name k f. find-put_kept env.local_id t id k name a e f,
      λ name k f. f,
    )

with_func-Grown :
    (env : Env) (id : Identifier) (c : Checked Table) (env' : Env)
    → IsSound env
    → put env.local_func id ≡ c
    → with_func env c ≡ ok (declared env')
    → Grown env env'
unfolding IsSound Grown
with_func-Grown env id out_of_bounds env' s e h = cc
with_func-Grown env id null_dereference env' s e h = cc
with_func-Grown env id (ok t) env' (a, b, c, d) e h =
    let grown = ap Table.stored (put-IsPut env.local_func id t e).grown in
    subst (Grown env) (declared-injective h) (
      (a, put-IsProbed env.local_func t id b e, c, omega arith),
      λ name k f. f,
      λ name k f. find-put_kept env.local_func t id k name b e f,
    )

declared-unless_found :
    (c : Checked (Option Identifier)) (r : Checked Declared) (env' : Env)
    → unless_found c r ≡ ok (declared env')
    → r ≡ ok (declared env')
declared-unless_found (ok none) r env' h = h
declared-unless_found (ok (some k)) r env' h = cc
declared-unless_found out_of_bounds r env' h = cc
declared-unless_found null_dereference r env' h = cc

-- `new_identifier` keeps the tables and the counters sound, and each name that was found in the
-- environment is still found as the same identifier.
pub new_identifier-Grown :
    (env env' : Env) (id : Identifier)
    → IsSound env
    → new_identifier env id ≡ ok (declared env')
    → Grown env env'
unfolding new_identifier
new_identifier-Grown env env' id s h = elim (Bool-cases id.is_function) [
  | inl function ↦
      with_func-Grown env id (put env.local_func id) env' s refl
        (declared-unless_found (find env.local_func id.name) _ env' (simp function at h))
  | inr variable ↦
      with_id-Grown env id (put env.local_id id) env' s refl
        (declared-unless_found (find env.local_id id.name) _ env' (simp variable at h))
]
