-- ===== src/AppService/Hostnames/Parse.antt =====
-- Which fields parseHosts accepts.
use xdev.Prelude.{
  ℕ, ◌≡◌, refl, ◌⊎◌, ◌||◌, inl, inr, false, List, [], ◌∷◌, ◌++◌, map, none, arith, Bool-cases,
  Option-cases, any, All, append_assoc, Text, text_eq, one_of, fields_func, sym, ap, append-nil,
  ◌∙◌,
}
use xdev.Prelude.Result.{ok, err}
use xdev.Store.Rows.{Unique}
use xdev.AppService.Hostnames.{
  HostError, normalize_host, valid_host, is_separator, parse_fields, parse_hosts, listed_twice,
}

-- Names that are valid, pairwise different, and not among those before.
abbrev Good : List Text → List Text → Type 0
Good out names =
    All (λ h. valid_host h ≡ none) names
    × Unique text_eq names
    × All (λ h. one_of h out ≡ false) names

one_of-snoc :
    (g h : Text) (out : List Text) → one_of g (out ++ h ∷ []) ≡ (one_of g out || text_eq h g)
unfolding one_of
one_of-snoc g h [] = ground arith
one_of-snoc g h (o ∷ out) = ground (arith, one_of-snoc g h out)

apart-snoc :
    (h : Text) (out names : List Text)
    → any (text_eq h) names ≡ false
    → All (λ g. one_of g out ≡ false) names
    → All (λ g. one_of g (out ++ h ∷ []) ≡ false) names
unfolding any
apart-snoc h out [] u a = tt
apart-snoc h out (g ∷ names) u a =
    (ground (arith, one_of-snoc g h out), apart-snoc h out names (ground arith) a.1)

snoc-apart :
    (h : Text) (out names : List Text)
    → All (λ g. one_of g (out ++ h ∷ []) ≡ false) names
    → (any (text_eq h) names ≡ false) × All (λ g. one_of g out ≡ false) names
unfolding any
snoc-apart h out [] a = (refl, tt)
snoc-apart h out (g ∷ names) a =
    let (u, rest) = snoc-apart h out names a.1 in
    (ground (arith, one_of-snoc g h out), (ground (arith, one_of-snoc g h out), rest))

parse_fields-accepts :
    (fold : ℕ → ℕ) (fields out : List Text)
    → (Good out (map (normalize_host fold) fields)
        × (parse_fields fold fields out ≡ ok (out ++ map (normalize_host fold) fields)))
      ⊎ ((¬ Good out (map (normalize_host fold) fields))
          × (e : HostError) × (parse_fields fold fields out ≡ err e))
unfolding parse_fields
parse_fields-accepts fold [] out = inl ((tt, tt, tt), ap ok (sym (append-nil out)))
parse_fields-accepts fold (f ∷ fields) out =
    let host = normalize_host fold f in
    elim (Option-cases (valid_host host)) [
      | inr (e, bad) ↦ inr ((λ g. cc (g.0.0, bad)), e, rw (bad, parse_fields) refl)
      | inl valid ↦ elim (Bool-cases (one_of host out)) [
        | inl twice ↦
            inr (
              (λ g. cc (g.2.0, twice)),
              listed_twice host,
              rw (valid, parse_fields) (rw twice refl),
            )
        | inr fresh ↦ elim (parse_fields-accepts fold fields (out ++ host ∷ [])) [
          | inl (good, e) ↦
              let (u, a) = snoc-apart host out _ good.2 in
              inl (
                ((valid, good.0), (u, good.1), (fresh, a)),
                rw (valid, parse_fields)
                    (rw fresh (
                      e ∙ ap ok (append_assoc out (host ∷ []) (map (normalize_host fold) fields)))),
              )
          | inr (bad, why, e) ↦ inr (
            (λ g. bad (g.0.1, g.1.1, apart-snoc host out _ g.1.0 g.2.1)),
            why,
            rw (valid, parse_fields) (rw fresh e),
          )
        ]
      ]
    ]

all_apart : (names : List Text) → All (λ h. one_of h [] ≡ false) names
unfolding one_of
all_apart [] = tt
all_apart (h ∷ names) = (refl, all_apart names)

-- parseHosts accepts a field exactly if its names, normalized, are valid hostnames and pairwise
-- different; it then returns them all in the order in which they stand.
pub parse_hosts-accepts :
    (fold : ℕ → ℕ) (raw : Text)
    → ((All (λ h. valid_host h ≡ none) (map (normalize_host fold) (fields_func is_separator [] raw))
          × Unique text_eq (map (normalize_host fold) (fields_func is_separator [] raw)))
        × (parse_hosts fold raw ≡ ok (map (normalize_host fold) (fields_func is_separator [] raw))))
      ⊎ ((¬ (
            All
              (λ h. valid_host h ≡ none)
              (map (normalize_host fold) (fields_func is_separator [] raw))
            × Unique text_eq (map (normalize_host fold) (fields_func is_separator [] raw))))
          × (e : HostError) × (parse_hosts fold raw ≡ err e))
unfolding parse_hosts
parse_hosts-accepts fold raw =
    elim (parse_fields-accepts fold (fields_func is_separator [] raw) []) [
      | inl (good, e) ↦ inl ((good.0, good.1), e)
      | inr (bad, why, e) ↦ inr ((λ g. bad (g.0, g.1, all_apart _)), why, e)
    ]
