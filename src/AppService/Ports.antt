-- ===== src/AppService/Ports.antt =====
-- Host ports of apps (internal/apps/apps.go), and portTaken of internal/apps/compose.go. Whether the
-- host can bind a port is `free`; SQLite's CAST in UsedPorts is `cast`.
pub mod Pick
pub mod Alloc
use xdev.Prelude.{
  ℕ, zero, suc, ◌+◌, ◌-◌, ◌&&◌, ◌||◌, Bool, true, false, not, List, [], ◌∷◌, ◌++◌, Option, none,
  some, ltb, ◌==◌, if◌then◌else◌, length, Text, codes, text_eq,
}
use xdev.Prelude.Int.{ℤ}
use xdev.Prelude.Result.{Result, ok, err}
use xdev.Store.Ranking.{member}
use xdev.Store.Routes.{used_ports}
use xdev.Store.Schema.{Db, type_static, type_proxy, serve_command}

abbrev pub port_min : ℕ
port_min = 20000

abbrev pub port_max : ℕ
port_max = 29999

-- The loop of pickPorts from port `p`, with `rounds` ports to look at and `n` still wanted.
unfoldable pub pick_from : ℕ → ℕ → ℕ → List ℕ → (ℕ → Bool) → List ℕ
unfolding member
pick_from zero p n skip free = []
pick_from (suc rounds) p zero skip free = []
pick_from (suc rounds) p (suc n) skip free =
    let passed = pick_from rounds (suc p) (suc n) skip free in
    let picked = p ∷ pick_from rounds (suc p) n (p ∷ skip) free in
    if member p skip || not (free p) then passed else picked

unfoldable pub pick_ports : ℕ → List ℕ → (ℕ → Bool) → List ℕ
pick_ports n taken free = pick_from (suc port_max - port_min) port_min n taken free

pub data PortError : Type 0 where
  none_free unusable invalid_port : PortError
  used_by_app in_use published_elsewhere : ℕ → PortError

unfoldable pub alloc_ports : (Text → ℤ) → (ℕ → Bool) → ℕ → List ℕ → Db → Result PortError (List ℕ)
alloc_ports cast free n avoid db =
    let out = pick_ports n (used_ports cast db ++ avoid) free in
    if ltb (length out) n then err none_free else ok out

unfoldable pub valid_port : ℕ → Option PortError
valid_port p = if ltb p 1024 || ltb 65535 p then some unusable else none

-- `own` are the ports that the app holds already.
unfoldable pub port_taken : (Text → ℤ) → ℕ → List ℕ → Db → Option PortError
unfolding member
port_taken cast port own db =
    if (port == 0) || ltb 65535 port
    then some invalid_port
    else if member port own
    then none
    else if member port (used_ports cast db)
    then some (used_by_app port)
    else none

unfoldable pub check_chosen_port : (Text → ℤ) → (ℕ → Bool) → ℕ → Db → Option PortError
unfolding valid_port
check_chosen_port cast free p db = elim (valid_port p) [
  | some e ↦ some e
  | none ↦ elim (port_taken cast p [] db) [
    | some e ↦ some (used_by_app p)
    | none ↦ if not (free p) then some (in_use p) else none
  ]
]

unfoldable pub with_chosen : ℕ → Result PortError (List ℕ) → Result PortError (List ℕ)
with_chosen want (ok rest) = ok (want ∷ rest)
with_chosen want (err e) = err e

-- The ports of a new app, its own first; `want` is the port that the user chose, or 0.
unfoldable pub app_ports : (Text → ℤ) → (ℕ → Bool) → ℕ → ℕ → List ℕ → Db → Result PortError (List ℕ)
unfolding with_chosen member
app_ports cast free n want avoid db =
    if want == 0
    then alloc_ports cast free n avoid db
    else elim (check_chosen_port cast free want db) [
      | some e ↦ err e
      | none ↦
          if member want avoid
          then err (published_elsewhere want)
          else with_chosen want (alloc_ports cast free (n - 1) (avoid ++ want ∷ []) db)
    ]

abbrev pub type_wordpress : Text
type_wordpress = codes "wordpress"

abbrev pub wp_separate : Text
wp_separate = codes "separate"

-- Whether an app of a type, WordPress mode and serve mode runs a server on a port of its own.
unfoldable pub takes_port : Text → Text → Text → Bool
takes_port type wp_mode serve_mode =
    if text_eq type type_proxy
    then false
    else if text_eq type type_wordpress && not (text_eq wp_mode wp_separate)
    then false
    else if text_eq type type_static && not (text_eq serve_mode serve_command)
    then false
    else true

unfoldable pub describe_type : Text → Text
describe_type type =
    if text_eq type type_wordpress
    then codes "shared-host wordpress"
    else if text_eq type type_static
    then codes "file-served static"
    else type
