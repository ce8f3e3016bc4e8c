-- ===== src/Symbols/Scopes/Nesting.antt =====
-- lib/env/environment.cc: which declaration a name means in nested blocks.
use wxcc.Base.{
  ℕ, zero, suc, ◌+◌, false, none, some, List, ◌∷◌, pos, get_elem?, ◌≡◌, refl, arith, ap, ◌∙◌, ◌<◌,
}
use wxcc.Symbols.{Identifier}
use wxcc.Symbols.Table.{Checked, ok, out_of_bounds, null_dereference, find}
use wxcc.Symbols.Table.Lookup.{home}
use wxcc.Symbols.Table.Insert.{find-put}
use wxcc.Symbols.Scopes.{
  Env, new_env, enter_env, exit_env, or_above, exist_all_scope, find_id, declared, new_identifier,
}

-- A variable hides the declarations around its block: where its name is not found in the innermost
-- environment and has an empty home slot, and the table has room, the declaration succeeds and the
-- name means it, whatever the enclosing environments hold.
pub find_id-new_identifier :
    (env : Env) (envs : List Env) (id : Identifier)
    → id.is_function ≡ false
    → find env.local_id id.name ≡ ok none
    → env.local_id.stored < env.local_id.threshold
    → get_elem? env.local_id.slots (home env.local_id id.name) ≡ some none
    → (env' : Env) × (new_identifier env id ≡ ok (declared env'))
      × (find_id (env' ∷ envs) id.name ≡ ok (some id))
unfolding new_identifier exist_all_scope or_above
find_id-new_identifier env envs id variable fresh room empty =
    let (t, done, found) = find-put env.local_id id room empty in
    (
      record env { local_id = t; id_counts = env.id_counts + 1 },
      rw (done, fresh, variable) refl,
      rw found refl,
    )

-- Blocks without declarations, one after the other.
unfoldable pub after_block : Checked (List Env) → Checked (List Env)
unfolding exit_env
after_block (ok envs) = exit_env (enter_env new_env envs)
after_block out_of_bounds = out_of_bounds
after_block null_dereference = null_dereference

unfoldable pub blocks : ℕ → List Env → Checked (List Env)
unfolding after_block
blocks zero envs = ok envs
blocks (suc n) envs = after_block (blocks n envs)

-- Each block that ends takes one from the level of the environment around it: after `n` blocks the
-- level `n + k` is `k`.
pub scope_level-blocks :
    (n k : ℕ) (env : Env) (envs : List Env)
    → env.scope_level ≡ pos (n + k)
    → blocks n (env ∷ envs) ≡ ok (record env { scope_level = pos k } ∷ envs)
unfolding blocks after_block exit_env
scope_level-blocks zero k env envs e =
    ap (λ l. ok (record env { scope_level = l } ∷ envs)) (e ∙ ap pos (omega arith))
scope_level-blocks (suc n) k env envs e =
    let ih = scope_level-blocks n (suc k) env envs (e ∙ ap pos (omega arith)) in rw ih refl
