-- ===== src/Stac.antt =====
-- app/services/stac_federation.py: the search in one catalog, with its retries and pages, and the
-- merge over the catalogs. What the upstream replies is a parameter: the n-th reply of a catalog, by
-- number. Waits, headers and log lines are left out. A reply that is JSON is a dictionary whose
-- features, if it has any, are a list; other shapes raise in the source.
pub mod Merge
pub mod Requests
use Prim.Native.String.{◌++◌}
use geofastmap_api.Prelude.{
  ℕ, zero, suc, pos, ◌-◌, ◌+◌, String, Bool, true, false, not, ◌&&◌, ◌||◌, Option, none, some, List,
  [], ◌∷◌, if◌then◌else◌, ◌==◌, ltb, leb, max, str_eq, truthy, is_some, strip,
}
use geofastmap_api.Json.{
  Json, null, bool, num, real, str, arr, obj, Items, nil, cons, Fields, end, field, to_bool,
  or_else, lookup, get,
}

-- `str(v)` of what is no text, `s.lower()` and `s.upper()`.
pub record Builtins : Type 0 where
  pub repr : Json → String
  pub lower : String → String
  pub upper : String → String

abbrev pub str_of : Builtins → Json → String
str_of python (str s) = s
str_of python v = python.repr v

pub data Method : Type 0 where
  get_request post_request : Method

pub record NextLink : Type 0 where
  pub href : String
  pub method : Method
  pub body : Option Fields

pub record Request : Type 0 where
  pub method : Method
  pub url : String
  pub body : Option Fields

-- The n-th reply, to a request.
-- What one request gives: a status in 200 to 299 with JSON or with other text, another status with
-- its detail, or httpx.RequestError.
pub data Response : Type 0 where
  page : (status : ℕ) → Fields → Response
  invalid_json : (status : ℕ) → String → Response
  http_error : (status : ℕ) → String → Response
  request_error : String → Response

-- The reply of a catalog to a request, by how many it was sent before.
abbrev pub Upstream : Type 0
Upstream = Request → ℕ → Response

abbrev pub is_retryable_status : ℕ → Bool
is_retryable_status code = code == 502 || code == 503 || code == 504 || code == 429

-- `(json, error, status)`
pub record Reply : Type 0 where
  pub json : Option Fields
  pub error : Option String
  pub status : ℕ

failed : String → ℕ → Reply
failed detail code = record { json = none; error = some detail; status = code }

-- What one attempt makes of the response, none where it is tried again; `more` says that it is not
-- the last.
attempt : (more : Bool) → Response → Option Reply
unfolding failed
attempt more (page code body) = some (record { json = some body; error = none; status = code })
attempt more (invalid_json code text) =
    some (failed (("Invalid JSON in response (" ++ text) ++ ")") code)
attempt more (http_error code detail) =
    if is_retryable_status code && more then none else some (failed detail code)
attempt more (request_error text) =
    if more then none else some (failed (if truthy text then text else "RequestError") 0)

abbrev pub is_suc : ℕ → Bool
is_suc zero = false
is_suc (suc n) = true

-- The reply, and the number of the next request; `left` is how many attempts are left.
unfoldable pub request_json_with_retries : Upstream → Request → (left n : ℕ) → Reply × ℕ
unfolding attempt failed
request_json_with_retries upstream request zero n = (failed "exhausted retries" 0, n)
request_json_with_retries upstream request (suc left) n =
    let again = request_json_with_retries upstream request left (suc n) in
    elim (attempt (is_suc left) (upstream request n)) [ none ↦ again | some reply ↦ (reply, suc n) ]

items_of : Json → Items
items_of (arr xs) = xs
items_of v = nil

-- `part.get("features") or []`
pub features_of : Fields → Items
unfolding items_of
features_of part = items_of (get part "features")

pub append_items : Items → Items → Items
append_items nil ys = ys
append_items (cons x xs) ys = cons x (append_items xs ys)

pub count_items : Items → ℕ
count_items nil = 0
count_items (cons x xs) = suc (count_items xs)

-- `d[k] = v`, and `d.pop(k, None)`; a key that is there keeps its place.
pub set_field : String → Json → Fields → Fields
set_field k v end = field k v end
set_field k v (field j w rest) =
    if str_eq j k then field k v rest else field j w (set_field k v rest)

pub remove_field : String → Fields → Fields
remove_field k end = end
remove_field k (field j w rest) = if str_eq j k then rest else field j w (remove_field k rest)

abbrev pub is_text_set : Option String → Bool
is_text_set none = false
is_text_set (some e) = truthy e

module _ (python : Builtins) where
  method_of : String → Method
  method_of m = if str_eq m "POST" then post_request else get_request

  abbrev pub dict_or_none : Json → Option Fields
  dict_or_none (obj d) = some d
  dict_or_none v = none

  -- The text of a value, or one for a value that is false.
  abbrev pub text_or : Json → String → String
  text_or v other = str_of python (or_else v (str other))

  link_of : Json → Option NextLink
  unfolding method_of
  link_of (obj l) =
      let href = strip (text_or (get l "href") "") in
      if not (str_eq (python.lower (text_or (get l "rel") "")) "next")
      then none
      else if not (truthy href)
      then none
      else some (record {
        href = href;
        method = method_of (python.upper (text_or (get l "method") "GET"));
        body = dict_or_none (get l "body");
      })
  link_of v = none

  first_link : Items → Option NextLink
  unfolding link_of
  first_link nil = none
  first_link (cons l ls) =
      let rest = first_link ls in elim (link_of l) [ none ↦ rest | some found ↦ some found ]

  -- A value of "links" that is no list has no next link.
  pub extract_next_link : Fields → Option NextLink
  unfolding first_link items_of
  extract_next_link part = first_link (items_of (get part "links"))

  abbrev pub request_of : NextLink → Request
  request_of nxt = record { method = nxt.method; url = nxt.href; body = nxt.body }

  go_on : Items → (ℕ → Fields → Items × ℕ) → Reply × ℕ → Items × ℕ
  go_on merged_feats on (reply, n') = elim (reply.json) [
    | none ↦ (merged_feats, n')
    | some part ↦ on n' part
  ]

  -- The loop over the next pages; `left` is `page_max - page_num`. The features so far are kept where
  -- a page fails.
  unfoldable pub next_pages :
      Upstream → (max_attempts left n : ℕ) → (cur : Fields) → (merged_feats : Items) → Items × ℕ
  unfolding extract_next_link request_json_with_retries features_of append_items go_on
  next_pages upstream max_attempts zero n cur merged_feats = (merged_feats, n)
  next_pages upstream max_attempts (suc left) n cur merged_feats =
      let on = λ (n' : ℕ) (part : Fields).
        next_pages upstream max_attempts left n' part
          (append_items merged_feats (features_of part)) in
      elim (extract_next_link cur) [
        | none ↦ (merged_feats, n)
        | some nxt ↦
            go_on merged_feats on
              (request_json_with_retries upstream (request_of nxt) max_attempts n)
      ]

  -- `out = dict(part)` with its features and their number.
  unfoldable pub with_features : Fields → Items → Fields
  with_features part feats =
      set_field "numberReturned" (num (pos (count_items feats)))
        (set_field "features" (arr feats) part)

  -- `dc and isinstance(dc, list) and "collections" not in req_body`
  unfoldable pub with_collections : Json → Fields → Fields
  with_collections (arr (cons c cs)) body =
      if is_some (lookup "collections" body)
      then body
      else set_field "collections" (arr (cons c cs)) body
  with_collections dc body = body

  -- `isinstance(req_body.get("query"), dict)` with a cloud filter.
  filters_clouds : Json → Bool
  filters_clouds (obj q) = is_some (lookup "eo:cloud_cover" q)
  filters_clouds v = false

  abbrev pub text_error : Option String → String
  text_error none = "exhausted retries"
  text_error (some e) = if truthy e then e else "exhausted retries"

  -- The second search, without the query. An error that is empty leaves that of the first.
  second_search : Option String → Reply × ℕ → Option Fields × Option String × ℕ
  second_search first (reply, n) = elim (reply.json) [
    | some part ↦ (some part, none, n)
    | none ↦ (none, some (text_error (if is_text_set reply.error then reply.error else first)), n)
  ]

  module _ (upstream : Upstream) (max_retries page_max : ℕ) where
    after_search : Request → Fields → Reply × ℕ → Option Fields × Option String × ℕ
    unfolding next_pages with_features filters_clouds second_search
    after_search request body (reply, n) = elim (reply.json) [
      | some part ↦
          let (feats, n') =
            next_pages upstream (suc max_retries) (max 1 page_max - 1) n part (features_of part) in
          (some (with_features part feats), none, n')
      | none ↦
          if reply.status == 400 && filters_clouds (get body "query")
          then second_search reply.error (
              request_json_with_retries upstream
                (record request { body = some (remove_field "query" body) }) (suc max_retries) n)
          else (none, some (text_error reply.error), n)
    ]

    -- The catalog's answer, or its error, and how many requests were sent.
    unfoldable pub post_search_with_retries :
        (url : String) → (default_collections : Json) → Fields → Option Fields × Option String × ℕ
    unfolding with_collections after_search
    post_search_with_retries url default_collections body =
        let req_body = with_collections default_collections body in
        let request : Request = record { method = post_request; url = url; body = some req_body } in
        after_search request req_body
          (request_json_with_retries upstream request (suc max_retries) 0)
