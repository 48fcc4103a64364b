-- ===== src/Istio/Matching/Routes.antt =====
-- Which requests a route takes, and which of its matches it reports
-- (internal/check/istio_matching.go).
use kube_net_mods.Prelude.{
  true, false, ◌≡◌, refl, sym, ◌∙◌, ◌↔◌, ◌⊎◌, inl, inr, List, [], ◌∷◌, ◌++◌, Option, none, some,
  Str, any, any_iff, Exists, find, find-some, arith, cons_ne,
}
use kube_net_mods.Prelude.{is_some, is_some-find}
use kube_net_mods.Istio.Matching.{istio_http_route_matches_request}
use kube_net_mods.Cluster.{Selectors}
use kube_net_mods.Istio.Request.{Request}
use kube_net_mods.Istio.Matching.{
  HttpMatch, Regexps, istio_http_match_request_summary, route_match_hits, summary_of,
  istio_http_route_match_text,
}
use kube_net_mods.Istio.Matching.Laws.{FitsRequest, istio_http_match_request_matches_iff}

module _ (R : Regexps) (K : Selectors) where
  -- A nil match fits nothing.
  abbrev pub FitsRoute : Request → Option HttpMatch → Type 0
  FitsRoute request none = ⊥
  FitsRoute request (some match) = FitsRequest R K match request

  -- The text of a route with matches that takes a request sums up a match that the request fits,
  -- and every match before that one refuses the request.
  pub istio_http_route_match_text_first :
      (matches : List (Option HttpMatch)) (request : Request) (text : Str)
      → istio_http_route_match_text R K matches request ≡ some text
      → (matches ≡ [])
        ⊎ ((before : List (Option HttpMatch)) × (match : HttpMatch) × (after : List
              (Option HttpMatch))
            × (matches ≡ before ++ (some match ∷ after))
            × FitsRequest R K match request
            × (any (route_match_hits R K request) before ≡ false)
            × (text ≡ istio_http_match_request_summary K match))
  unfolding istio_http_route_match_text
  istio_http_route_match_text_first [] request text h = inl refl
  istio_http_route_match_text_first (m ∷ matches) request text h =
      inr (first_hit (find (route_match_hits R K request) (m ∷ matches)) refl h)
    where
      first_hit :
          (o : Option (Option HttpMatch))
          → find (route_match_hits R K request) (m ∷ matches) ≡ o
          → summary_of R K o ≡ some text
          → (before : List (Option HttpMatch)) × (match : HttpMatch) × (after : List
              (Option HttpMatch))
            × ((m ∷ matches) ≡ before ++ (some match ∷ after))
            × FitsRequest R K match request
            × (any (route_match_hits R K request) before ≡ false)
            × (text ≡ istio_http_match_request_summary K match)
      first_hit none e k = absurd (ground arith)
      first_hit (some none) e k = absurd (ground arith)
      first_hit (some (some match)) e k =
          let (before, after, split, hit, none_before) =
            find-some (route_match_hits R K request) (m ∷ matches) e in
          (
            before,
            match,
            after,
            split,
            (istio_http_match_request_matches_iff R K match request).0 hit,
            none_before,
            ground arith,
          )

  route_hit_iff :
      (request : Request) (m : Option HttpMatch)
      → (route_match_hits R K request m ≡ true) ↔ FitsRoute request m
  route_hit_iff request none = (λ h. ground arith, λ k. absurd k)
  route_hit_iff request (some match) = istio_http_match_request_matches_iff R K match request

  summary_found :
      (request : Request) (o : Option (Option HttpMatch))
      → ((m : Option HttpMatch) → o ≡ some m → route_match_hits R K request m ≡ true)
      → is_some (summary_of R K o) ≡ is_some o
  summary_found request none f = refl
  summary_found request (some none) f = absurd (ground (arith, f none refl))
  summary_found request (some (some match)) f = refl

  -- A route takes a request exactly when it has no matches, or the request fits one of them.
  pub istio_http_route_matches_request_iff :
      (matches : List (Option HttpMatch)) (request : Request)
      → (istio_http_route_matches_request R K matches request ≡ true)
        ↔ ((matches ≡ []) ⊎ Exists (FitsRoute request) matches)
  unfolding istio_http_route_matches_request istio_http_route_match_text
  istio_http_route_matches_request_iff [] request = (λ _. inl refl, λ _. refl)
  istio_http_route_matches_request_iff (m ∷ matches) request =
      let hits = route_match_hits R K request in
      let (to, from) = any_iff hits (m ∷ matches) in
      let same : is_some (summary_of R K (find hits (m ∷ matches))) ≡ any hits (m ∷ matches) =
        summary_found request (find hits (m ∷ matches)) (λ x e.
          let (before, after, split, hit, none_before) = find-some hits (m ∷ matches) e in hit)
        ∙ is_some-find hits (m ∷ matches) in
      (
        λ h. let (x, at, hit) = to (sym same ∙ h) in inr (x, at, (route_hit_iff request x).0 hit),
        λ k. elim k [
          | inl e ↦ absurd (cons_ne e)
          | inr (x, at, f) ↦ same ∙ from (x, at, (route_hit_iff request x).1 f)
        ],
      )
