-- ===== src/Reach.antt =====
-- internal/apps/address.go: where an app is reachable. Ports are natural numbers; 0 is none.
use xdev.Prelude.{
  ℕ, ◌&&◌, Bool, not, ◌++◌, [], if◌then◌else◌, ltb, ◌==◌, is_empty, Text, codes, itoa,
}
use xdev.Store.Schema.{App}

pub record Reach : Type 0 where
  pub public_host : Text
  pub proxy_enabled : Bool
  pub https_port : ℕ

unfoldable pub host : Reach → Text
host r = if not (is_empty r.public_host) then r.public_host else codes "127.0.0.1"

unfoldable pub port_address : Reach → ℕ → Text
port_address r port =
    if not (ltb 0 port) then [] else codes "http://" ++ host r ++ codes ":" ++ itoa port

unfoldable pub address : Reach → App → Text
address r app =
    if not (is_empty app.domain) && r.proxy_enabled
    then (if not (r.https_port == 0) && not (r.https_port == 443)
        then codes "https://" ++ app.domain ++ codes ":" ++ itoa r.https_port
        else codes "https://" ++ app.domain)
    else if ltb 0 app.port
    then codes "http://" ++ host r ++ codes ":" ++ itoa app.port
    else []

unfoldable pub port_only : Reach → Bool
port_only r = not (is_empty r.public_host)
