-- ===== src/Reconciler/Live.antt =====
-- When routing is live.
use xdev.Prelude.{◌≡◌, [], ◌∷◌, ◌&&◌, ◌||◌, Bool, true, List, arith, any}
use xdev.Store.Schema.{Db}
use xdev.Reconciler.{Config, Answers, State, sync, retry_until_live}

-- After Sync routing is live exactly if Caddy was live or answered the probe, and the push landed.
pub sync-enabled :
    (cfg : Config) (ans : Answers) (db : Db) (s : State)
    → (sync cfg ans db s).1.enabled ≡ ((s.enabled || ans.reachable) && ans.push_lands)
unfolding sync
sync-enabled cfg ans db s = ground arith

abbrev pub lands : Answers × Db → Bool
lands round = round.0.reachable && round.0.push_lands

stays_live :
    (cfg : Config) (rounds : List (Answers × Db)) (s : State)
    → s.enabled ≡ true
    → (retry_until_live cfg rounds s).enabled ≡ true
unfolding retry_until_live
stays_live cfg [] s h = h
stays_live cfg (round ∷ more) s h = ground arith

-- RetryUntilLive ends with routing live exactly if it was live before, or in some round before the
-- context was done Caddy answered the probe and took the push.
pub retry_until_live-enabled :
    (cfg : Config) (rounds : List (Answers × Db)) (s : State)
    → (retry_until_live cfg rounds s).enabled ≡ (s.enabled || any lands rounds)
unfolding retry_until_live any
retry_until_live-enabled cfg [] s = ground arith
retry_until_live-enabled cfg (round ∷ more) s = ground (
  arith,
  sync-enabled cfg round.0 round.1 s,
  retry_until_live-enabled cfg more (sync cfg round.0 round.1 s).1,
)
