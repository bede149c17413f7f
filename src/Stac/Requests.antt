-- ===== src/Stac/Requests.antt =====
-- app/services/stac_federation.py: how often a catalog is asked, and which pages its answer is made of.
use geofastmap_api.Prelude.{
  ℕ, zero, suc, ◌+◌, ◌-◌, ◌*◌, ◌≤◌, ◌≡◌, refl, inl, inr, String, true, not, is_some, ◌&&◌, Option,
  none, some, List, [], ◌∷◌, ◌==◌, max, truthy, arith, Bool-cases, Option-cases,
}
use geofastmap_api.Json.{Json, Items, Fields, get}
use geofastmap_api.Stac.{
  Builtins, Request, NextLink, Reply, Upstream, attempt, is_suc, request_json_with_retries,
  features_of, append_items, extract_next_link, request_of, go_on, next_pages, with_features,
  with_collections, filters_clouds, text_error, second_search, after_search,
  post_search_with_retries, remove_field, is_text_set, post_request,
}

request_bound :
    (upstream : Upstream) (request : Request) (left n : ℕ)
    → (request_json_with_retries upstream request left n).1 ≤ n + left
unfolding request_json_with_retries
request_bound upstream request zero n = omega arith
request_bound upstream request (suc left) n =
    elim (Option-cases (attempt (is_suc left) (upstream request n))) [
      | inl e ↦
          rw (e, request_json_with_retries)
            (omega (arith, request_bound upstream request left (suc n)))
      | inr (reply, e) ↦ rw (e, request_json_with_retries) (omega arith)
    ]

module _ (python : Builtins) (upstream : Upstream) (max_attempts : ℕ) where
  -- The pages after one, by their next links, and why there is no other.
  pub data Chain : (left n : ℕ) → Fields → List Fields → Type 0 where
    limit : {n : ℕ} {cur : Fields} → Chain zero n cur []
    no_link :
        {left n : ℕ} {cur : Fields}
        → extract_next_link python cur ≡ none
        → Chain (suc left) n cur []
    breaks :
        {left n : ℕ} {cur : Fields} (nxt : NextLink)
        → extract_next_link python cur ≡ some nxt
        → (request_json_with_retries upstream (request_of python nxt) max_attempts n).0.json ≡ none
        → Chain (suc left) n cur []
    follows :
        {left n : ℕ} {cur : Fields} {parts : List Fields} (nxt : NextLink) (part : Fields)
        → extract_next_link python cur ≡ some nxt
        → (request_json_with_retries upstream (request_of python nxt) max_attempts n).0.json
          ≡ some part
        → Chain left
            (request_json_with_retries upstream (request_of python nxt) max_attempts n).1
            part
            parts
        → Chain (suc left) n cur (part ∷ parts)

  abbrev pub all_features : Items → List Fields → Items
  all_features feats [] = feats
  all_features feats (part ∷ parts) = all_features (append_items feats (features_of part)) parts

  next_pages-Chain :
      (left n : ℕ) (cur : Fields) (feats : Items)
      → let (found, sent) = next_pages python upstream max_attempts left n cur feats in
        (sent ≤ n + left * max_attempts)
        × ((parts : List Fields) × Chain left n cur parts × (found ≡ all_features feats parts))
  unfolding next_pages go_on
  next_pages-Chain zero n cur feats = (omega arith, ([], limit, refl))
  next_pages-Chain (suc left) n cur feats = elim (Option-cases (extract_next_link python cur)) [
    | inl e ↦ rw (e, next_pages) (omega arith, ([], no_link e, refl))
    | inr (nxt, e) ↦
        let request = request_of python nxt in
        let (reply, n') = request_json_with_retries upstream request max_attempts n in
        let few = request_bound upstream request max_attempts n in
        elim (Option-cases (reply.json)) [
          | inl stop ↦
              rw (e, next_pages, stop, go_on) (grind (arith, few), ([], breaks nxt e stop, refl))
          | inr (part, found) ↦
              let (sent, (parts, chain, same)) =
                next_pages-Chain left n' part (append_items feats (features_of part)) in
              rw (e, next_pages, found, go_on)
                (grind (arith, few, sent), (part ∷ parts, follows nxt part e found chain, same))
        ]
  ]

pages_bound :
    (attempts page_max n sent : ℕ)
    → n ≤ attempts
    → sent ≤ n + (max 1 page_max - 1) * attempts
    → sent ≤ attempts * max 2 page_max
pages_bound attempts zero n sent h k = grind arith
pages_bound attempts (suc p) n sent h k = grind arith

twice_bound :
    (attempts page_max n sent : ℕ)
    → n ≤ attempts
    → sent ≤ n + attempts
    → sent ≤ attempts * max 2 page_max
twice_bound attempts page_max n sent h k = grind arith

module _ (python : Builtins) (upstream : Upstream) (max_retries page_max : ℕ) where
  abbrev pub search_request : String → Json → Fields → Request
  search_request url default_collections body = record {
    method = post_request;
    url = url;
    body = some (with_collections python default_collections body);
  }

  abbrev pub first_reply : String → Json → Fields → Reply × ℕ
  first_reply url default_collections body =
      request_json_with_retries upstream (search_request url default_collections body)
        (suc max_retries) 0

  text_error-set : (e : Option String) → truthy (text_error python e) ≡ true
  text_error-set none = refl
  text_error-set (some e) = elim (Bool-cases (truthy e)) [
    | inl full ↦ rw full full
    | inr empty ↦ rw empty refl
  ]

  second_lem :
      (first : Option String) (r : Reply × ℕ)
      → ((second_search python first r).2 ≡ r.1)
        × (is_text_set (second_search python first r).1
            ≡ not (is_some (second_search python first r).0))
  unfolding second_search
  second_lem first (reply, n) = elim (Option-cases (reply.json)) [
    | inl e ↦ rw (e, second_search) (refl, text_error-set _)
    | inr (part, e) ↦ rw (e, second_search) (refl, refl)
  ]

  after_bounds :
      (request : Request) (body : Fields) (r : Reply × ℕ)
      → r.1 ≤ suc max_retries
      → let (part, error, sent) =
          after_search python upstream max_retries page_max request body r in
        (sent ≤ suc max_retries * max 2 page_max) × (is_text_set error ≡ not (is_some part))
  unfolding after_search
  after_bounds request body (reply, n) few = elim (Option-cases (reply.json)) [
    | inr (part, e) ↦
        rw (e, after_search)
          (
            pages_bound (suc max_retries) page_max n _ few
                (next_pages-Chain python upstream (suc max_retries) (max 1 page_max - 1) n part
                  (features_of part)).0,
            refl,
          )
    | inl e ↦ elim (Bool-cases (reply.status == 400 && filters_clouds python (get body "query"))) [
      | inl again ↦
          let without = record request { body = some (remove_field "query" body) } in
          let second = request_json_with_retries upstream without (suc max_retries) n in
          let (counted, told) = second_lem reply.error second in
          rw (e, after_search, again, counted)
            (
              twice_bound (suc max_retries) page_max n _ few
                  (request_bound upstream without (suc max_retries) n),
              told,
            )
      | inr over ↦
          rw (e, after_search, over)
            (
              twice_bound (suc max_retries) page_max n n few (omega arith),
              text_error-set reply.error,
            )
    ]
  ]

  -- A search sends a catalog no more requests than its attempts for each page that may be read, or
  -- for each of the two searches, and gives an error, which is not empty, exactly where it gives no
  -- answer.
  pub search_bounds :
      (url : String) (default_collections : Json) (body : Fields)
      → let (part, error, sent) =
          post_search_with_retries python upstream max_retries page_max url default_collections
            body in
        (sent ≤ suc max_retries * max 2 page_max) × (is_text_set error ≡ (not (is_some part)))
  unfolding post_search_with_retries after_search second_search
  search_bounds url default_collections body =
      after_bounds (search_request url default_collections body)
        (with_collections python default_collections body)
        (first_reply url default_collections body)
        (omega (
          arith,
          request_bound upstream (search_request url default_collections body) (suc max_retries) 0,
        ))

  -- Where the first search of a catalog is answered, the answer is its first page, with the
  -- features of all pages that follow by the next links, in their order: as far as there is a link,
  -- its request is answered, and the limit of pages is not reached.
  pub search_pages :
      (url : String) (default_collections : Json) (body first : Fields)
      → (first_reply url default_collections body).0.json ≡ some first
      → let (part, error, sent) =
          post_search_with_retries python upstream max_retries page_max url default_collections
            body in
        (parts : List Fields) × Chain python upstream
          (suc max_retries)
          (max 1 page_max - 1)
          (first_reply url default_collections body).1
          first
          parts
        × (part
            ≡ some (
                with_features python first
                  (all_features python upstream (suc max_retries) (features_of first) parts)))
  unfolding post_search_with_retries after_search
  search_pages url default_collections body first e =
      let (reply, n) = first_reply url default_collections body in
      let (_, (parts, chain, same)) =
        next_pages-Chain python upstream (suc max_retries) (max 1 page_max - 1) n first
          (features_of first) in
      (parts, chain, rw (e, after_search, same) refl)
