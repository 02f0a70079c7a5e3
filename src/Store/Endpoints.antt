-- ===== src/Store/Endpoints.antt =====
-- The deploy endpoints of internal/store/deployments.go: the webhook and the push token.
pub mod Hook
use xdev.Prelude.{
  ℕ, ◌&&◌, ◌||◌, Bool, not, List, [], ◌∷◌, ◌++◌, ◌==◌, if◌then◌else◌, is_empty, Text, codes,
  text_eq, find, filter, any,
}
use xdev.Prelude.Result.{Result, err}
use xdev.Store.Schema.{Db, Write, StoreError, not_found, constraint, App}
use xdev.Store.Apps.{update_app_row, or_not_found}

abbrev pub hook_path_prefix : Text
hook_path_prefix = codes "/_xdev/hook/"

abbrev pub push_path : Text
push_path = codes "/_xdev/deploy"

unfoldable pub hook_path : App → Text
hook_path a = if is_empty a.hook_id then [] else hook_path_prefix ++ a.hook_id

unfoldable pub endpoint_paths : App → List Text
unfolding hook_path
endpoint_paths a =
    (if is_empty a.hook_id then [] else hook_path a ∷ [])
    ++ (if is_empty a.push_token_hash then [] else push_path ∷ [])

unfoldable pub app_by_hook_id : Text → Db → Result StoreError App
unfolding find
app_by_hook_id hook_id db =
    if is_empty hook_id
    then err not_found
    else or_not_found (find (λ a. text_eq a.hook_id hook_id) db.apps)

-- The unique index on hook_id, which leaves out the empty ones, refuses an id of another app.
unfoldable pub set_app_hook : ℕ → ℕ → Text → Text → Write (Unit {0})
unfolding update_app_row any
set_app_hook now id hook_id secret db =
    if not (is_empty hook_id)
      && any (λ a. a.id == id) db.apps
      && any (λ a. not (a.id == id) && text_eq a.hook_id hook_id) db.apps
    then (err constraint, db)
    else update_app_row id
        (λ r. record r { hook_id = hook_id; hook_secret = secret; updated_at = now }) db

unfoldable pub set_app_push_token : ℕ → ℕ → Text → Text → Write (Unit {0})
unfolding update_app_row
set_app_push_token now id hash hint =
    update_app_row id
      λ r. record r { push_token_hash = hash; push_token_hint = hint; updated_at = now }

unfoldable pub set_skip_db_dump : ℕ → ℕ → Bool → Write (Unit {0})
unfolding update_app_row
set_skip_db_dump now id skip =
    update_app_row id λ r. record r { skip_db_dump = skip; updated_at = now }

unfoldable pub apps_with_endpoints : Db → List App
unfolding filter
apps_with_endpoints db =
    filter (λ a. not (is_empty a.hook_id) || not (is_empty a.push_token_hash)) db.apps
