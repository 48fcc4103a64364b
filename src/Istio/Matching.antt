-- ===== src/Istio/Matching.antt =====
-- HTTP route matching of internal/check/istio_matching.go. Regular expressions and label sets are
-- arguments; a Go map is the list of its entries, in whatever order Go walks it.
pub mod Laws
pub mod Routes
use kube_net_mods.Prelude.{
  Bool, true, false, ◌||◌, ◌&&◌, not, List, [], ◌∷◌, ◌++◌, map, Option, none, some, Str, codes,
  str_eq, if◌then◌else◌, ℤ, pos, int_eq, any, all, is_empty, has_prefix, decimal, to_lower, quote,
  join, concat, sort_strings, find, is_some,
}
use kube_net_mods.Cluster.{Labels, lookup, Selectors}
use kube_net_mods.Istio.Request.{Request}

-- networkingapi.StringMatch; `unset` is a match with no type.
pub data StringMatch : Type 0 where
  exact prefix regex : Str → StringMatch
  unset : StringMatch

abbrev pub Matches : Type 0
Matches = List (Str × Option StringMatch)

-- networkingapi.HTTPMatchRequest
pub record HttpMatch : Type 0 where
  pub uri : Option StringMatch
  pub scheme : Option StringMatch
  pub method : Option StringMatch
  pub authority : Option StringMatch
  pub port : ℤ
  pub source_namespace : Str
  pub source_labels : Labels
  pub headers : Matches
  pub without_headers : Matches
  pub query_params : Matches
  pub ignore_uri_case : Bool

-- regexp.MatchString; `none` is an expression that does not compile.
abbrev pub Regexps : Type 0
Regexps = Str → Str → Option Bool

abbrev pub folded : Bool → Str → Str
folded ignore_case s = if ignore_case then to_lower s else s

unfoldable pub istio_string_match_summary : Str → Option StringMatch → Str
unfolding quote concat
istio_string_match_summary name none = []
istio_string_match_summary name (some (exact text)) = name ++ codes "=" ++ quote text
istio_string_match_summary name (some (prefix text)) = name ++ codes " prefix " ++ quote text
istio_string_match_summary name (some (regex text)) = name ++ codes " regex " ++ quote text
istio_string_match_summary name (some unset) = []

-- A part that is there only if its text is not empty.
abbrev part : Str → List Str
part text = if is_empty text then [] else text ∷ []

abbrev match_or_nil : Option (Option StringMatch) → Option StringMatch
match_or_nil none = none
match_or_nil (some match) = match

-- A part for each key of a map, by the keys in order.
keyed_parts : Str → Str → Matches → List Str
unfolding istio_string_match_summary sort_strings
keyed_parts before kind matches =
    map
      (λ key.
        before ++ istio_string_match_summary (kind ++ key) (match_or_nil (lookup key matches)))
      (sort_strings (map (λ entry. entry.0) matches))

module _ (K : Selectors) where
  open K use {set_string}

  unfoldable pub istio_http_match_request_summary : HttpMatch → Str
  unfolding istio_string_match_summary keyed_parts decimal join
  istio_http_match_request_summary match =
      let parts =
        part (istio_string_match_summary (codes "uri") match.uri)
        ++ (part (istio_string_match_summary (codes "method") match.method)
            ++ (part (istio_string_match_summary (codes "scheme") match.scheme)
                ++ ((if int_eq match.port (pos 0)
                      then []
                      else (codes "port=" ++ decimal match.port) ∷ [])
                    ++ ((if is_empty match.source_namespace
                          then []
                          else (codes "sourceNamespace=" ++ match.source_namespace) ∷ [])
                        ++ ((if is_empty match.source_labels
                              then []
                              else (codes "sourceLabels " ++ set_string match.source_labels) ∷ [])
                            ++ (part
                                  (istio_string_match_summary (codes "authority") match.authority)
                                ++ (keyed_parts [] (codes "header ") match.headers
                                    ++ (keyed_parts (codes "without ") (codes "header ")
                                          match.without_headers
                                        ++ keyed_parts [] (codes "query ")
                                            match.query_params)))))))) in
      if is_empty parts then codes "empty match" else join parts (codes ", ")

module _ (R : Regexps) where
  unfoldable pub istio_string_match_matches : Option StringMatch → Str → Bool → Bool
  unfolding str_eq to_lower has_prefix
  istio_string_match_matches none value ignore_case = true
  istio_string_match_matches (some (exact text)) value ignore_case =
      str_eq (folded ignore_case value) (folded ignore_case text)
  istio_string_match_matches (some (prefix text)) value ignore_case =
      has_prefix (folded ignore_case value) (folded ignore_case text)
  istio_string_match_matches (some (regex text)) value ignore_case = elim (R text value) [
    | none ↦ false
    | some matched ↦ matched
  ]
  istio_string_match_matches (some unset) value ignore_case = true

  unfoldable pub istio_authority_matches : Option StringMatch → List Str → Bool
  unfolding istio_string_match_matches
  istio_authority_matches none authorities = true
  istio_authority_matches (some match) authorities =
      any (λ authority. istio_string_match_matches (some match) authority false) authorities

  -- A key that is there and matches; one that is there and does not; with `absent` where it is not.
  abbrev pub entry_matches : Bool → Labels → (Str × Option StringMatch) → Bool
  entry_matches absent values (key, match) = elim (lookup (to_lower key) values) [
    | none ↦ absent
    | some value ↦ istio_string_match_matches match value false
  ]

  unfoldable pub istio_header_matches : Matches → Labels → Bool
  unfolding istio_string_match_matches
  istio_header_matches matches headers = all (entry_matches false headers) matches

  unfoldable pub istio_without_header_matches : Matches → Labels → Bool
  unfolding istio_string_match_matches
  istio_without_header_matches matches headers =
      all (λ entry. not (entry_matches false headers entry)) matches

  unfoldable pub istio_query_params_match : Matches → Labels → Bool
  unfolding istio_string_match_matches
  istio_query_params_match matches params = all (entry_matches false params) matches

  module _ (K : Selectors) where
    open K use {set_matches}

    unfoldable pub istio_http_match_request_matches : HttpMatch → Request → Bool
    istio_http_match_request_matches match request =
        if not (istio_string_match_matches match.uri request.path match.ignore_uri_case)
        then false
        else if not (istio_string_match_matches match.scheme request.scheme false)
        then false
        else if not (istio_string_match_matches match.method request.method false)
        then false
        else if not (int_eq match.port (pos 0))
            && not (int_eq request.port (pos 0))
            && not (int_eq match.port request.port)
        then false
        else if not (is_empty match.source_namespace)
            && not (str_eq match.source_namespace request.source_namespace)
        then false
        else if not (is_empty match.source_labels)
            && not (set_matches match.source_labels request.source_labels)
        then false
        else if not (istio_authority_matches match.authority request.authority_hosts)
        then false
        else if not (istio_header_matches match.headers request.headers)
        then false
        else if not (istio_without_header_matches match.without_headers request.headers)
        then false
        else istio_query_params_match match.query_params request.query_params

    -- One round of the loop over a route's matches; a nil match is passed over.
    abbrev pub route_match_hits : Request → Option HttpMatch → Bool
    route_match_hits request none = false
    route_match_hits request (some match) = istio_http_match_request_matches match request

    abbrev summary_of : Option (Option HttpMatch) → Option Str
    summary_of none = none
    summary_of (some none) = none
    summary_of (some (some match)) = some (istio_http_match_request_summary K match)

    -- The text of the first match that fits the request; `none` is the pair of "" and false.
    unfoldable pub istio_http_route_match_text : List (Option HttpMatch) → Request → Option Str
    unfolding istio_http_match_request_matches istio_http_match_request_summary
    istio_http_route_match_text [] request = some (codes "catch-all route")
    istio_http_route_match_text (m ∷ matches) request =
        summary_of (find (route_match_hits request) (m ∷ matches))

    unfoldable pub istio_http_route_matches_request : List (Option HttpMatch) → Request → Bool
    istio_http_route_matches_request matches request =
        is_some (istio_http_route_match_text matches request)
