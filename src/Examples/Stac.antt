-- ===== src/Examples/Stac.antt =====
-- app/services/stac_federation.py: a catalog of two pages, whose second page is answered at the second
-- attempt.
use geofastmap_api.Prelude.{
  ℕ, zero, suc, ◌≡◌, ◌≤◌, refl, String, Option, none, some, List, [], ◌∷◌, map, strip,
}
use geofastmap_api.Json.{lookup, Json, null, str, arr, obj, nil, cons, Fields, end, field}
use geofastmap_api.Stac.{
  Builtins, Response, page, http_error, post_search_with_retries, with_features, features_of,
  request_json_with_retries, with_collections,
}
use geofastmap_api.Stac.Requests.{search_bounds, search_pages, Chain, all_features, first_reply}
use geofastmap_api.Stac.Merge.{merge_parts, StacCatalog}
use geofastmap_api.Stac.Merge.Keys.{entries, first_of_each, with_label, merge_parts-first}

abbrev python : Builtins
python = record { repr = λ j. ""; lower = λ s. s; upper = λ s. s }

abbrev item : String → Json
item id = obj (field "id" (str id) end)

abbrev second_page : Fields
second_page = field "features" (arr (cons (item "y") nil)) end

abbrev first_page : Fields
first_page = field "features" (arr (cons (item "x") (cons (item "x") nil))) (
    field "links" (arr (cons (obj (field "rel" (str "next") (field "href" (str " /2 ") end))) nil))
      end)

abbrev replies : ℕ → Response
replies zero = page 200 first_page
replies (suc zero) = http_error 503 "HTTP 503"
replies (suc (suc n)) = page 200 second_page

abbrev catalog : StacCatalog
catalog = record {
  id = "a";
  search_url = "/search";
  default_collections = null;
  upstream = λ request n. replies n;
}

search_bounds_example :
    (post_search_with_retries python catalog.upstream 1 3 "/search" null end).2 ≤ 6
search_bounds_example = (search_bounds python catalog.upstream 1 3 "/search" null end).0

first_answered :
    (first_reply python catalog.upstream 1 3 "/search" null end).0.json ≡ some first_page
unfolding request_json_with_retries with_collections
first_answered = refl

search_pages_example :
    (parts : List Fields) × Chain python catalog.upstream 2 2
      (first_reply python catalog.upstream 1 3 "/search" null end).1
      first_page
      parts
    × ((post_search_with_retries python catalog.upstream 1 3 "/search" null end).0
        ≡ some (
            with_features python first_page
              (all_features python catalog.upstream 2 (features_of first_page) parts)))
search_pages_example =
    search_pages python catalog.upstream 1 3 "/search" null end first_page first_answered

-- Three requests are sent, and the features of both pages are found.
two_pages : post_search_with_retries python catalog.upstream 1 3 "/search" null end ≡ (
  some (with_features python first_page (cons (item "x") (cons (item "x") (cons (item "y") nil)))),
  none,
  3,
)
unfolding post_search_with_retries with_features strip lookup
two_pages = refl

abbrev answers : List (String × Option Fields)
answers = ("a", some first_page) ∷ ("b", none) ∷ []

merge_parts-first_example :
    merge_parts python answers []
    ≡ map (with_label python) (first_of_each python (entries answers) [])
merge_parts-first_example = (merge_parts-first python answers).0
