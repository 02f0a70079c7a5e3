-- ===== src/Proxy/Certified.antt =====
-- Which hostnames Caddy is told to certify, and by whom.
use xdev.Prelude.{
  ◌≡◌, refl, ap, sym, ◌∙◌, inl, inr, ◌&&◌, ◌||◌, not, Bool, true, false, List, [], ◌∷◌, Option,
  none, some, arith, Bool-cases, any, is_empty, Text, codes, text_eq,
}
use xdev.Reconciler.{Route}
use xdev.Proxy.Values.{
  Json, text, number, flag, array, object, Items, end, item, items, texts, lookup, get_field,
}
use xdev.Proxy.{Net, Manager}
use xdev.Proxy.Served.{at}
use xdev.Proxy.Build.{
  internal_hosts, public_hosts, policy, internal_issuer, acme_issuer, policies, tls_app, pki_app,
  build_config,
}

abbrev has_text : Text → Items → Bool
has_text h end = false
has_text h (item (text t) js) = text_eq t h || has_text h js
has_text h (item (number n) js) = has_text h js
has_text h (item (flag b) js) = has_text h js
has_text h (item (array is) js) = has_text h js
has_text h (item (object fs) js) = has_text h js

abbrev is_text : Text → Option Json → Bool
is_text m none = false
is_text m (some (text t)) = text_eq t m
is_text m (some (number n)) = false
is_text m (some (flag b)) = false
is_text m (some (array js)) = false
is_text m (some (object fs)) = false

abbrev lists : Text → Option Json → Bool
lists h none = false
lists h (some (text t)) = false
lists h (some (number n)) = false
lists h (some (flag b)) = false
lists h (some (array js)) = has_text h js
lists h (some (object fs)) = false

-- Whether one of the issuers is of a module.
abbrev of_module : Text → Items → Bool
of_module m end = false
of_module m (item j js) = is_text m (lookup (codes "module") (some j)) || of_module m js

abbrev issued_by : Text → Option Json → Bool
issued_by m none = false
issued_by m (some (text t)) = false
issued_by m (some (number n)) = false
issued_by m (some (flag b)) = false
issued_by m (some (array js)) = of_module m js
issued_by m (some (object fs)) = false

-- Whether a policy has an issuer of a module, and a hostname among its subjects.
abbrev certified_by : Text → Text → Json → Bool
certified_by m h p =
    issued_by m (lookup (codes "issuers") (some p)) && lists h (lookup (codes "subjects") (some p))

abbrev some_policy : Text → Text → Items → Bool
some_policy m h end = false
some_policy m h (item p ps) = certified_by m h p || some_policy m h ps

abbrev pub certifies : Text → Text → Option Json → Bool
certifies by h none = false
certifies by h (some (text t)) = false
certifies by h (some (number n)) = false
certifies by h (some (flag b)) = false
certifies by h (some (array ps)) = some_policy by h ps
certifies by h (some (object fs)) = false

has_text-texts : (h : Text) (ts : List Text) → has_text h (texts ts) ≡ any (λ t. text_eq t h) ts
unfolding any
has_text-texts h [] = refl
has_text-texts h (t ∷ ts) = ground (arith, has_text-texts h ts)

once : (a b d : Bool) → b ≡ d → ((a || false) && b) ≡ (a && d)
once a b d e = ground arith

internal-policy :
    (by h : Text) (subjects : List Text) (m : Manager)
    → certified_by by h (policy subjects (internal_issuer m))
      ≡ (text_eq (codes "internal") by && any (λ t. text_eq t h) subjects)
unfolding policy lookup get_field internal_issuer text_eq
internal-policy by h subjects m =
    once (text_eq (codes "internal") by) _ _ (has_text-texts h subjects)

acme-policy :
    (by h : Text) (subjects : List Text) (m : Manager)
    → certified_by by h (policy subjects (acme_issuer m))
      ≡ (text_eq (codes "acme") by && any (λ t. text_eq t h) subjects)
unfolding policy lookup get_field acme_issuer text_eq
acme-policy by h subjects m = once (text_eq (codes "acme") by) _ _ (has_text-texts h subjects)

any-none : (h : Text) (ts : List Text) → is_empty ts ≡ true → any (λ t. text_eq t h) ts ≡ false
unfolding any
any-none h [] e = refl
any-none h (t ∷ ts) e = absurd (ground (arith, e))

certified-policies :
    (by h : Text) (m : Manager) (routes : List Route)
    → some_policy by h (items (policies m routes)) ≡ (
        (text_eq (codes "internal") by && any (λ t. text_eq t h) (internal_hosts routes))
        || (text_eq (codes "acme") by && any (λ t. text_eq t h) (public_hosts routes)))
unfolding policies
certified-policies by h m routes = ground (
  arith,
  internal-policy by h (internal_hosts routes) m,
  acme-policy by h (public_hosts routes) m,
  any-none h (internal_hosts routes),
  any-none h (public_hosts routes),
)

none_left : (ps : List Json) → is_empty ps ≡ true → ps ≡ []
none_left [] e = refl
none_left (p ∷ ps) e = absurd (ground (arith, e))

uncertified-tls :
    (net : Net) (m : Manager) (routes : List Route) (by h : Text)
    → is_empty (policies m routes) ≡ true
    → certifies by h (
        at
          (codes "apps" ∷ codes "tls" ∷ codes "automation" ∷ codes "policies" ∷ [])
          (some (build_config net m routes)))
      ≡ false
unfolding build_config lookup get_field text_eq
uncertified-tls net m routes by h e = elim (Bool-cases (is_empty (internal_hosts routes))) [
  | inl i ↦ rw (tls_app, e, pki_app, i) refl
  | inr i ↦ rw (tls_app, e, pki_app, i) refl
]

certified-tls :
    (net : Net) (m : Manager) (routes : List Route) (by h : Text)
    → certifies by h (
        at
          (codes "apps" ∷ codes "tls" ∷ codes "automation" ∷ codes "policies" ∷ [])
          (some (build_config net m routes)))
      ≡ some_policy by h (items (policies m routes))
unfolding build_config lookup get_field text_eq
certified-tls net m routes by h = elim (Bool-cases (is_empty (policies m routes))) [
  | inr e ↦ rw (tls_app, e) refl
  | inl e ↦
      uncertified-tls net m routes by h e
      ∙ ap (λ ps. some_policy by h (items ps)) (sym (none_left (policies m routes) e))
]

internal_hosts-any :
    (h : Text) (routes : List Route)
    → any (λ t. text_eq t h) (internal_hosts routes)
      ≡ any (λ r. is_empty r.paths && (r.internal && text_eq r.host h)) routes
unfolding any internal_hosts
internal_hosts-any h [] = refl
internal_hosts-any h (r ∷ routes) = ground (arith, internal_hosts-any h routes)

public_hosts-any :
    (h : Text) (routes : List Route)
    → any (λ t. text_eq t h) (public_hosts routes)
      ≡ any (λ r. is_empty r.paths && (not r.internal && text_eq r.host h)) routes
unfolding any public_hosts
public_hosts-any h [] = refl
public_hosts-any h (r ∷ routes) = ground (arith, public_hosts-any h routes)

certified_hosts :
    (net : Net) (m : Manager) (routes : List Route) (by h : Text)
    → certifies by h (
        at
          (codes "apps" ∷ codes "tls" ∷ codes "automation" ∷ codes "policies" ∷ [])
          (some (build_config net m routes)))
      ≡ ((text_eq (codes "internal") by && any (λ t. text_eq t h) (internal_hosts routes))
          || (text_eq (codes "acme") by && any (λ t. text_eq t h) (public_hosts routes)))
certified_hosts net m routes by h =
    certified-tls net m routes by h ∙ certified-policies by h m routes

-- Caddy gets a policy that certifies a hostname by its own authority exactly if some internal route
-- without paths has that hostname, and one that certifies it by ACME exactly if some route without
-- paths that is not internal has it.
pub build_config-certifies :
    (net : Net) (m : Manager) (routes : List Route) (h : Text)
    → (certifies (codes "internal") h (
          at
            (codes "apps" ∷ codes "tls" ∷ codes "automation" ∷ codes "policies" ∷ [])
            (some (build_config net m routes)))
        ≡ any (λ r. is_empty r.paths && (r.internal && text_eq r.host h)) routes)
      × (certifies (codes "acme") h (
            at
              (codes "apps" ∷ codes "tls" ∷ codes "automation" ∷ codes "policies" ∷ [])
              (some (build_config net m routes)))
          ≡ any (λ r. is_empty r.paths && (not r.internal && text_eq r.host h)) routes)
unfolding text_eq
build_config-certifies net m routes h = (
  ground (arith, certified_hosts net m routes (codes "internal") h, internal_hosts-any h routes),
  ground (arith, certified_hosts net m routes (codes "acme") h, public_hosts-any h routes),
)
