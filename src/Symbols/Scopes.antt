-- ===== src/Symbols/Scopes.antt =====
-- includes/environment.h, lib/env/environment.cc: the `Env`s of nested blocks. `up` links become a
-- list, the innermost environment first; the tables of its environments are linked alike.
pub mod Nesting
pub mod Sound
use wxcc.Base.{
  ℕ, ◌+◌, Bool, true, false, Option, none, some, List, [], ◌∷◌, Bytes, ℤ, pos, suc_ℤ, pred_ℤ,
  if◌then◌else◌,
}
use wxcc.Symbols.{Identifier}
use wxcc.Symbols.Table.{
  Checked, ok, out_of_bounds, null_dereference, Table, new_table, base_size, find, put,
}

-- `scope::Scope`
pub data Scope : Type 0 where
  s_none s_constants s_labels s_global s_parameter s_local : Scope

pub record Env : Type 0 where
  pub sc : Scope
  pub scope_level : ℤ
  pub id_counts : ℕ
  pub func_counts : ℕ
  pub local_id : Table
  pub local_func : Table

-- `Env()`
abbrev pub new_env : Env
new_env = record {
  sc = s_local;
  scope_level = pos 1;
  id_counts = 0;
  func_counts = 0;
  local_id = new_table base_size;
  local_func = new_table base_size;
}

-- `Env::setGlobal`
abbrev pub set_global : Env → Env
set_global env = record env { scope_level = pos 0; sc = s_global }

-- `Env::EnterEnv`
abbrev pub enter_env : Env → List Env → List Env
enter_env down envs = record down { scope_level = suc_ℤ down.scope_level; sc = s_local } ∷ envs

-- `Env::ExitEnv`; without an enclosing environment it returns a reference to nothing.
unfoldable pub exit_env : List Env → Checked (List Env)
exit_env [] = null_dereference
exit_env (env ∷ []) = null_dereference
exit_env (env ∷ up ∷ envs) = ok (record up { scope_level = pred_ℤ up.scope_level } ∷ envs)

-- `Table::existAllScope`
unfoldable pub or_above :
    Checked (Option Identifier) → Checked (Option Identifier) → Checked (Option Identifier)
or_above (ok none) above = above
or_above (ok (some id)) above = ok (some id)
or_above out_of_bounds above = out_of_bounds
or_above null_dereference above = null_dereference

unfoldable pub exist_all_scope : List Table → Bytes → Checked (Option Identifier)
unfolding or_above
exist_all_scope [] name = ok none
exist_all_scope (t ∷ up) name = or_above (find t name) (exist_all_scope up name)

abbrev pub local_ids : List Env → List Table
local_ids [] = []
local_ids (env ∷ envs) = env.local_id ∷ local_ids envs

abbrev pub local_funcs : List Env → List Table
local_funcs [] = []
local_funcs (env ∷ envs) = env.local_func ∷ local_funcs envs

-- `Env::findID` and `Env::findFUNC`
abbrev pub find_id : List Env → Bytes → Checked (Option Identifier)
find_id envs = exist_all_scope (local_ids envs)

abbrev pub find_func : List Env → Bytes → Checked (Option Identifier)
find_func envs = exist_all_scope (local_funcs envs)

-- What `Env::newIdentifier` does: it declares the identifier, or it reports the earlier one.
pub data Declared : Type 0 where
  declared : Env → Declared
  redeclared : Identifier → Declared

abbrev pub with_id : Env → Checked Table → Checked Declared
with_id env (ok t) = ok (declared (record env { local_id = t; id_counts = env.id_counts + 1 }))
with_id env out_of_bounds = out_of_bounds
with_id env null_dereference = null_dereference

abbrev pub with_func : Env → Checked Table → Checked Declared
with_func env (ok t) =
    ok (declared (record env { local_func = t; func_counts = env.func_counts + 1 }))
with_func env out_of_bounds = out_of_bounds
with_func env null_dereference = null_dereference

abbrev pub unless_found : Checked (Option Identifier) → Checked Declared → Checked Declared
unless_found (ok none) r = r
unless_found (ok (some earlier)) r = ok (redeclared earlier)
unless_found out_of_bounds r = out_of_bounds
unless_found null_dereference r = null_dereference

-- `Env::newIdentifier`
unfoldable pub new_identifier : Env → Identifier → Checked Declared
new_identifier env id =
    if id.is_function
    then unless_found (find env.local_func id.name) (with_func env (put env.local_func id))
    else unless_found (find env.local_id id.name) (with_id env (put env.local_id id))
