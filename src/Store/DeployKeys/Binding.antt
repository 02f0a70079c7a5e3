-- ===== src/Store/DeployKeys/Binding.antt =====
-- A deploy key belongs to one app.
use xdev.Prelude.{ℕ, ◌≡◌, ◌≢◌, refl, inl, inr, false, List, [], ◌∷◌, arith, Bool-cases, any}
use xdev.Prelude.Result.{ok, err}
use xdev.Store.Table.{update_where}
use xdev.Store.DeployKeys.{Keys, DeployKey, not_available, unbound, bind_deploy_key}

none-unbound :
    (id app : ℕ) (rows : List DeployKey)
    → app ≢ 0
    → any (unbound id) (update_where (unbound id) (λ k. record k { app_id = app }) rows) ≡ false
unfolding any update_where unbound
none-unbound id app [] ne = refl
none-unbound id app (k ∷ rows) ne = ground (arith, none-unbound id app rows ne)

-- A key that was bound to an app (one that is not 0) cannot be bound again: a second BindDeployKey of it, to whatever app,
-- is refused and leaves the table as the first left it.
pub bind_deploy_key-once :
    (id app other : ℕ) (t : Keys)
    → app ≢ 0
    → (bind_deploy_key id app t).0 ≡ ok tt
    → bind_deploy_key id other (bind_deploy_key id app t).1
      ≡ (err not_available, (bind_deploy_key id app t).1)
unfolding bind_deploy_key
bind_deploy_key-once id app other t ne bound = elim (Bool-cases (any (unbound id) t.rows)) [
  | inl e ↦ ground (arith, none-unbound id app t.rows ne)
  | inr e ↦ absurd (ground arith)
]
