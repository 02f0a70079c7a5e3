-- ===== src/Proxy.antt =====
-- internal/proxy/proxy.go: the configuration that Caddy gets. What packages net and net/url say of an
-- address is a `Net`; a port is printed by `decimal`, which is %d.
pub mod Values
pub mod Sites
pub mod Build
pub mod Served
pub mod Certified
mod Examples
use xdev.Prelude.{
  ℕ, ◌==◌, ◌&&◌, ◌||◌, Bool, true, false, not, List, [], ◌∷◌, ◌++◌, map, Option, none, some,
  if◌then◌else◌, is_empty, Text, codes, text_eq, contains, trim_suffix,
}
use xdev.Prelude.Int.{ℤ, pos, lt_int}
use xdev.Reconciler.{Route}
use xdev.Proxy.Values.{Json, text, number, flag, array, object, Items, Fields, items, texts, fields}

-- What url.Parse answers.
pub record Url : Type 0 where
  pub scheme : Text
  pub host : Text
  pub hostname : Text
  pub port : Text
  pub escaped_path : Text

-- url.Parse, net.SplitHostPort, net.JoinHostPort, and of net.ParseIP whether it is a loopback.
pub record Net : Type 0 where
  pub parse_url : Text → Option Url
  pub split_host_port : Text → Option (Text × Text)
  pub join_host_port : Text → Text → Text
  pub parse_ip : Text → Option Bool
  pub decimal : ℤ → Text

pub record Manager : Type 0 where
  pub admin_addr : Text
  pub https_port : ℤ
  pub http_port : ℤ
  pub acme_email : Text
  pub leaf_lifetime : Text
  pub intermediate_lifetime : Text
  pub upstream_host : Text
  pub admin_listen : Text
  pub disable_https_redirect : Bool
  pub root_prefix : Text

-- The variables of the environment that NewManager reads.
pub record Environment : Type 0 where
  pub upstream_host_var : Text
  pub admin_listen_var : Text
  pub disable_redirect_var : Text
  pub root_prefix_var : Text

unfoldable pub new_manager : Environment → Text → ℤ → ℤ → Text → Text → Manager
new_manager env admin_addr https_port http_port acme_email leaf_lifetime = record {
  admin_addr = admin_addr;
  https_port = https_port;
  http_port = http_port;
  acme_email = acme_email;
  leaf_lifetime = if is_empty leaf_lifetime then codes "2160h" else leaf_lifetime;
  intermediate_lifetime = codes "8760h";
  upstream_host =
      if is_empty env.upstream_host_var then codes "127.0.0.1" else env.upstream_host_var;
  admin_listen = env.admin_listen_var;
  disable_https_redirect = text_eq env.disable_redirect_var (codes "true");
  root_prefix = trim_suffix env.root_prefix_var (codes "/");
}

unfoldable pub host_path : Manager → Text → Text
host_path m dir =
    if is_empty m.root_prefix || is_empty dir
    then dir
    else trim_suffix m.root_prefix (codes "/") ++ dir

abbrev pub set : Text → List (Text × Json) → Json
set handler rest = object (fields ((codes "handler", text handler) ∷ rest))

unfoldable pub is_loopback : Net → Text → Bool
is_loopback net host =
    if text_eq host (codes "localhost")
    then true
    else elim (net.parse_ip host) [ none ↦ false | some loopback ↦ loopback ]

unfoldable pub swap_loopback_host : Net → Text → Text → Text
unfolding is_loopback
swap_loopback_host net dial upstream_host = elim (net.split_host_port dial) [
  | none ↦ dial
  | some (host, port) ↦
      if not (is_loopback net host) then dial else net.join_host_port upstream_host port
]

unfoldable pub admin_origins : Net → Text → List Text
admin_origins net admin_addr = elim (net.split_host_port admin_addr) [
  | none ↦ admin_addr ∷ []
  | some (host, port) ↦
      admin_addr
      ∷ net.join_host_port (codes "localhost") port
      ∷ net.join_host_port (codes "::1") port
      ∷ []
]

-- Where a proxy route goes: the address to dial, the path in front, and the transport.
pub record Target : Type 0 where
  pub dial : Text
  pub prefix : Text
  pub transport : List (Text × Json)

unfoldable pub server_name : Net → Text → List (Text × Json)
server_name net host = elim (net.parse_ip host) [
  | none ↦ (codes "server_name", text host) ∷ []
  | some _ ↦ []
]

unfoldable pub skip_verify : Net → Text → List (Text × Json)
unfolding is_loopback
skip_verify net host =
    if is_loopback net host then (codes "insecure_skip_verify", flag true) ∷ [] else []

unfoldable pub tls_transport : Net → Url → List (Text × Json)
unfolding server_name skip_verify
tls_transport net u =
    if text_eq u.scheme (codes "https")
    then (
      codes "transport",
      object (
          fields (
            (codes "protocol", text (codes "http"))
            ∷ (
              codes "tls",
              object (fields (server_name net u.hostname ++ skip_verify net u.hostname)),
            )
            ∷ [])),
    )
      ∷ []
    else []

unfoldable pub url_port : Url → Text
url_port u =
    if not (is_empty u.port)
    then u.port
    else if text_eq u.scheme (codes "https")
    then codes "443"
    else codes "80"

unfoldable pub plain_target : Text → Target
plain_target upstream = record { dial = upstream; prefix = []; transport = [] }

unfoldable pub target_of : Net → Text → Target
unfolding plain_target tls_transport url_port
target_of net upstream =
    if not (contains upstream (codes "://"))
    then plain_target upstream
    else elim (net.parse_url upstream) [
      | none ↦ plain_target upstream
      | some u ↦ if is_empty u.host then plain_target upstream else record {
        dial = net.join_host_port u.hostname (url_port u);
        prefix = trim_suffix u.escaped_path (codes "/");
        transport = tls_transport net u;
      }
    ]

unfoldable pub upstreams : Text → Text × Json
upstreams dial =
    (codes "upstreams", array (items (object (fields ((codes "dial", text dial) ∷ [])) ∷ [])))

unfoldable pub reverse_proxy_handlers : Net → Text → Text → List Json
unfolding target_of upstreams swap_loopback_host
reverse_proxy_handlers net upstream upstream_host =
    let t = target_of net upstream in
    let h =
      set (codes "reverse_proxy")
        (t.transport ++ upstreams (swap_loopback_host net t.dial upstream_host) ∷ []) in
    if is_empty t.prefix
    then h ∷ []
    else set (codes "rewrite") ((codes "uri", text (t.prefix ++ codes "{http.request.uri}")) ∷ [])
      ∷ h
      ∷ []
