-- ===== src/Store/DeployKeys.antt =====
-- internal/store/deploykeys.go: the SSH keys that apps read their repositories with. App 0 is none.
pub mod Binding
use xdev.Prelude.{
  ℕ, suc, ◌+◌, ◌&&◌, Bool, not, List, [], ◌∷◌, ◌++◌, Option, none, some, ltb, leb, ◌==◌,
  if◌then◌else◌, Text, find, filter, any,
}
use xdev.Prelude.Result.{Result, ok, err}
use xdev.Store.Schema.{StoreError, not_found}
use xdev.Store.Table.{order_by, update_where}

pub record DeployKey : Type 0 where
  pub id : ℕ
  pub app_id : ℕ
  pub public_key : Text
  pub private_key : Text
  pub fingerprint : Text
  pub created_at : ℕ

-- The table and its AUTOINCREMENT counter.
pub record Keys : Type 0 where
  pub rows : List DeployKey
  pub last : ℕ

pub data BindError : Type 0 where
  not_available : BindError

abbrev pub day : ℕ
day = 86400

unfoldable pub found_key : Option DeployKey → Result StoreError DeployKey
found_key none = err not_found
found_key (some k) = ok k

unfoldable pub deploy_key_by_id : ℕ → Keys → Result StoreError DeployKey
unfolding found_key find
deploy_key_by_id id t = found_key (find (λ k. k.id == id) t.rows)

unfoldable pub create_deploy_key : ℕ → DeployKey → Keys → Result StoreError DeployKey × Keys
create_deploy_key now k t =
    let t' : Keys = record {
      rows = t.rows ++ record k { id = suc t.last; created_at = now } ∷ [];
      last = suc t.last;
    } in
    (deploy_key_by_id (suc t.last) t', t')

-- ORDER BY id DESC
unfoldable pub newer_key : DeployKey → DeployKey → Bool
newer_key a b = leb b.id a.id

unfoldable pub first_key : List DeployKey → Option DeployKey
first_key [] = none
first_key (k ∷ rows) = some k

unfoldable pub deploy_key_for_app : ℕ → Keys → Result StoreError DeployKey
unfolding found_key first_key order_by newer_key filter
deploy_key_for_app app t =
    if app == 0
    then err not_found
    else found_key (first_key (order_by newer_key (filter (λ k. k.app_id == app) t.rows)))

unfoldable pub unbound : ℕ → DeployKey → Bool
unbound id k = (k.id == id) && (k.app_id == 0)

unfoldable pub bind_deploy_key : ℕ → ℕ → Keys → Result BindError (Unit {0}) × Keys
unfolding unbound any update_where
bind_deploy_key id app t =
    if any (unbound id) t.rows
    then (
      ok tt,
      record t { rows = update_where (unbound id) (λ k. record k { app_id = app }) t.rows },
    )
    else (err not_available, t)

unfoldable pub delete_deploy_keys_for_app : ℕ → Keys → Keys
unfolding filter
delete_deploy_keys_for_app app t =
    if app == 0 then t else record t { rows = filter (λ k. not (k.app_id == app)) t.rows }

-- created_at < now - 1 day
unfoldable pub prune_unbound_deploy_keys : ℕ → Keys → Keys
unfolding filter
prune_unbound_deploy_keys now t = record t {
  rows = filter (λ k. not ((k.app_id == 0) && ltb (k.created_at + day) now)) t.rows;
}
