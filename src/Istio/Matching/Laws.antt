-- ===== src/Istio/Matching/Laws.antt =====
-- What it means for a request to fit a match of an HTTP route, and that the matcher of
-- internal/check/istio_matching.go decides it.
use mathlib.Core.List.{Permᴰ}
use kube_net_mods.Prelude.{
  Bool, true, false, ◌&&◌, not, ◌≡◌, refl, sym, ◌↔◌, ◌⊎◌, inl, inr, List, ◌++◌, Option, none, some,
  Str, str_eq, str_eq_iff, has_prefix_iff, to_lower, ℤ, pos, int_eq, int_eq_iff, any_iff, all,
  all_iff, all_perm, Exists, Each, is_empty, arith, Bool-cases, Option-cases, not_iff,
}
use kube_net_mods.Prelude.{pass_guard, pass_test}
use kube_net_mods.Cluster.{Labels, lookup, Selectors}
use kube_net_mods.Istio.Request.{Request}
use kube_net_mods.Istio.Matching.{
  StringMatch, exact, prefix, regex, unset, Matches, HttpMatch, Regexps, folded,
  istio_string_match_matches, istio_authority_matches, entry_matches, istio_header_matches,
  istio_without_header_matches, istio_query_params_match, istio_http_match_request_matches,
}

-- A test that is skipped when its criterion is not given.
or_else :
    (absent holds : Bool) {P : Type 0}
    → (holds ≡ true → P)
    → (not absent && not holds) ≡ false
    → (absent ≡ true) ⊎ P
or_else true holds f h = inl refl
or_else false true f h = inr (f refl)
or_else false false f h = cc

port_cases :
    (a b : ℤ)
    → (not (int_eq a (pos 0)) && not (int_eq b (pos 0)) && not (int_eq a b)) ≡ false
    → (a ≡ pos 0) ⊎ (b ≡ pos 0) ⊎ (a ≡ b)
port_cases a b h = elim (Bool-cases (int_eq a (pos 0))) [
  | inl e ↦ inl ((int_eq_iff a (pos 0)).0 e)
  | inr e ↦ elim (Bool-cases (int_eq b (pos 0))) [
    | inl k ↦ inr (inl ((int_eq_iff b (pos 0)).0 k))
    | inr k ↦ inr (inr ((int_eq_iff a b).0 (ground arith)))
  ]
]

port_test :
    (a b : ℤ)
    → (a ≡ pos 0) ⊎ (b ≡ pos 0) ⊎ (a ≡ b)
    → (not (int_eq a (pos 0)) && not (int_eq b (pos 0)) && not (int_eq a b)) ≡ false
port_test a b (inl e) = ground (arith, (int_eq_iff a (pos 0)).1 e)
port_test a b (inr (inl e)) = ground (arith, (int_eq_iff b (pos 0)).1 e)
port_test a b (inr (inr e)) = ground (arith, (int_eq_iff a b).1 e)

skip_test :
    (absent holds : Bool) → (absent ≡ true) ⊎ (holds ≡ true) → (not absent && not holds) ≡ false
skip_test absent holds (inl e) = ground arith
skip_test absent holds (inr e) = ground arith

namespace_test :
    (match : HttpMatch) (request : Request)
    → (is_empty match.source_namespace ≡ true) ⊎ (match.source_namespace ≡ request.source_namespace)
    → (is_empty match.source_namespace ≡ true)
      ⊎ (str_eq match.source_namespace request.source_namespace ≡ true)
namespace_test match request (inl e) = inl e
namespace_test match request (inr e) = inr ((str_eq_iff _ _).1 e)

module _ (R : Regexps) where
  -- A value fits a string match: it is the text, begins with it, or the expression finds it.
  pub data Fits (ignore_case : Bool) (value : Str) : Option StringMatch → Type 0 where
    no_match : Fits ignore_case value none
    no_type : Fits ignore_case value (some unset)
    same :
        {text : Str}
        → folded ignore_case value ≡ folded ignore_case text
        → Fits ignore_case value (some (exact text))
    begins :
        {text : Str} (rest : Str)
        → folded ignore_case value ≡ folded ignore_case text ++ rest
        → Fits ignore_case value (some (prefix text))
    found : {text : Str} → R text value ≡ some true → Fits ignore_case value (some (regex text))

  Fits_sound :
      (m : Option StringMatch) (value : Str) (ignore_case : Bool)
      → istio_string_match_matches R m value ignore_case ≡ true
      → Fits ignore_case value m
  unfolding istio_string_match_matches
  Fits_sound none value i h = no_match
  Fits_sound (some (exact text)) value i h = same ((str_eq_iff _ _).0 h)
  Fits_sound (some (prefix text)) value i h =
      let (rest, e) = (has_prefix_iff (folded i value) (folded i text)).0 h in begins rest e
  Fits_sound (some (regex text)) value i h = found (ground arith)
  Fits_sound (some unset) value i h = no_type

  Fits_complete :
      {ignore_case : Bool} {value : Str} {m : Option StringMatch}
      → Fits ignore_case value m
      → istio_string_match_matches R m value ignore_case ≡ true
  unfolding istio_string_match_matches
  Fits_complete no_match = refl
  Fits_complete no_type = refl
  Fits_complete (same e) = (str_eq_iff _ _).1 e
  Fits_complete (begins rest e) = (has_prefix_iff _ _).1 (rest, e)
  Fits_complete (found e) = rw (e, istio_string_match_matches)

  string_match_iff :
      (m : Option StringMatch) (value : Str) (ignore_case : Bool)
      → (istio_string_match_matches R m value ignore_case ≡ true) ↔ Fits ignore_case value m
  string_match_iff m value i = (Fits_sound m value i, Fits_complete)

  -- A match under a key of a map: the value under the lowered key is there and fits.
  abbrev pub FitsKey : Labels → (Str × Option StringMatch) → Type 0
  FitsKey values (key, m) = (v : Str) × (lookup (to_lower key) values ≡ some v) × Fits false v m

  entry_iff :
      (values : Labels) (entry : Str × Option StringMatch)
      → (entry_matches R false values entry ≡ true) ↔ FitsKey values entry
  entry_iff values (key, m) = (sound, complete)
    where
      sound : entry_matches R false values (key, m) ≡ true → FitsKey values (key, m)
      sound h = elim (Option-cases (lookup (to_lower key) values)) [
        | inl e ↦ absurd (ground arith)
        | inr (v, e) ↦ (v, e, Fits_sound m v false (ground arith))
      ]

      complete : FitsKey values (key, m) → entry_matches R false values (key, m) ≡ true
      complete (v, e, f) = rw (e, entry_matches) (Fits_complete f)

  all_entries_iff :
      (values : Labels) (entries : Matches)
      → (all (entry_matches R false values) entries ≡ true) ↔ Each (FitsKey values) entries
  all_entries_iff values entries =
      let (to, from) = all_iff (entry_matches R false values) entries in
      (
        λ h x m. (entry_iff values x).0 (to h x m),
        λ f. from (λ x m. (entry_iff values x).1 (f x m)),
      )

  no_entries_iff :
      (values : Labels) (entries : Matches)
      → (all (λ entry. not (entry_matches R false values entry)) entries ≡ true)
        ↔ Each (λ entry. ¬ FitsKey values entry) entries
  no_entries_iff values entries =
      let (to, from) = all_iff (λ entry. not (entry_matches R false values entry)) entries in
      (
        λ h x m k. (not_iff _).0 (to h x m) ((entry_iff values x).1 k),
        λ f. from (λ x m. (not_iff _).1 (λ h. f x m ((entry_iff values x).0 h))),
      )

  authority_iff :
      (m : Option StringMatch) (hosts : List Str)
      → (istio_authority_matches R m hosts ≡ true)
        ↔ ((m ≡ none) ⊎ Exists (λ host. Fits false host m) hosts)
  unfolding istio_authority_matches
  authority_iff none hosts = (λ _. inl refl, λ _. refl)
  authority_iff (some m) hosts =
      let (to, from) = any_iff (λ host. istio_string_match_matches R (some m) host false) hosts in
      (
        λ h. let (host, at, hit) = to h in inr (host, at, Fits_sound (some m) host false hit),
        λ k. elim k [ inl e ↦ cc | inr (host, at, f) ↦ from (host, at, Fits_complete f) ],
      )

  module _ (K : Selectors) where
    -- A request fits a match: each of its ten criteria is absent or holds.
    pub record FitsRequest (match : HttpMatch) (request : Request) : Type 0 where
      pub uri : Fits match.ignore_uri_case request.path match.uri
      pub scheme : Fits false request.scheme match.scheme
      pub method : Fits false request.method match.method
      pub port : (match.port ≡ pos 0) ⊎ (request.port ≡ pos 0) ⊎ (match.port ≡ request.port)
      pub source_namespace :
          (is_empty match.source_namespace ≡ true)
          ⊎ (match.source_namespace ≡ request.source_namespace)
      pub source_labels :
          (is_empty match.source_labels ≡ true)
          ⊎ (K.set_matches match.source_labels request.source_labels ≡ true)
      pub authority :
          (match.authority ≡ none)
          ⊎ Exists (λ host. Fits false host match.authority) request.authority_hosts
      pub headers : Each (FitsKey request.headers) match.headers
      pub without_headers : Each (λ entry. ¬ FitsKey request.headers entry) match.without_headers
      pub query_params : Each (FitsKey request.query_params) match.query_params

    FitsRequest-sound :
        (match : HttpMatch) (request : Request)
        → istio_http_match_request_matches R K match request ≡ true
        → FitsRequest match request
    unfolding istio_http_match_request_matches istio_header_matches istio_without_header_matches
        istio_query_params_match
    FitsRequest-sound match request h = record {
      uri = Fits_sound match.uri request.path match.ignore_uri_case (ground arith);
      scheme = Fits_sound match.scheme request.scheme false (ground arith);
      method = Fits_sound match.method request.method false (ground arith);
      port = port_cases match.port request.port (ground arith);
      source_namespace = or_else _ _ (λ k. (str_eq_iff _ _).0 k) (ground arith);
      source_labels = or_else _ _ (λ k. k) (ground arith);
      authority = (authority_iff match.authority request.authority_hosts).0 (ground arith);
      headers = (all_entries_iff request.headers match.headers).0 (ground arith);
      without_headers = (no_entries_iff request.headers match.without_headers).0 (ground arith);
      query_params = (all_entries_iff request.query_params match.query_params).0 (ground arith);
    }

    FitsRequest-complete :
        (match : HttpMatch) (request : Request)
        → FitsRequest match request
        → istio_http_match_request_matches R K match request ≡ true
    unfolding istio_http_match_request_matches istio_header_matches istio_without_header_matches
        istio_query_params_match
    FitsRequest-complete match request f = pass_guard _ _ (Fits_complete f.uri) (
        pass_guard _ _ (Fits_complete f.scheme) (
          pass_guard _ _ (Fits_complete f.method) (
            pass_test _ _ (port_test match.port request.port f.port) (
              pass_test _ _ (skip_test _ _ (namespace_test match request f.source_namespace)) (
                pass_test _ _ (skip_test _ _ f.source_labels) (
                  pass_guard _ _
                    ((authority_iff match.authority request.authority_hosts).1 f.authority)
                    (pass_guard _ _ ((all_entries_iff request.headers match.headers).1 f.headers) (
                      pass_guard _ _
                        ((no_entries_iff request.headers match.without_headers).1 f.without_headers)
                        ((all_entries_iff request.query_params match.query_params).1
                          f.query_params)))))))))

    -- A match accepts a request exactly when the path, scheme, method and an authority fit what it asks
    -- of them, the ports are equal where both are given, the request's source namespace is the match's
    -- whenever the match gives one (a request without a source namespace is then refused), the source
    -- has the labels, each header and query parameter that it names is there and fits, and no header
    -- that it excludes does.
    pub istio_http_match_request_matches_iff :
        (match : HttpMatch) (request : Request)
        → (istio_http_match_request_matches R K match request ≡ true) ↔ FitsRequest match request
    istio_http_match_request_matches_iff match request =
        (FitsRequest-sound match request, FitsRequest-complete match request)

    -- The order in which Go walks the three maps of a match does not change the answer.
    pub istio_http_match_request_matches_order :
        (match : HttpMatch) (request : Request) (headers without params : Matches)
        → Permᴰ match.headers headers
        → Permᴰ match.without_headers without
        → Permᴰ match.query_params params
        → istio_http_match_request_matches R K
            (record match { headers = headers; without_headers = without; query_params = params })
            request
          ≡ istio_http_match_request_matches R K match request
    unfolding istio_http_match_request_matches istio_header_matches istio_without_header_matches
        istio_query_params_match
    istio_http_match_request_matches_order match request headers without params p q r = simp (
      sym (all_perm (entry_matches R false request.headers) p),
      sym (all_perm (λ entry. not (entry_matches R false request.headers entry)) q),
      sym (all_perm (entry_matches R false request.query_params) r),
    )
