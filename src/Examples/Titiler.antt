-- ===== src/Examples/Titiler.antt =====
-- app/services/titiler_inflight.py and titiler_tile_cache.py: two callers of one tile, and a small
-- tile in a store that keeps the laws.
use geofastmap_api.Prelude.{
  ℕ, String, ◌≡◌, refl, true, Option, none, some, [], ◌∷◌, if◌then◌else◌, str_eq, arith, not, ◌&&◌,
  leb,
}
use mathlib.Core.Option.{some-injective}
use geofastmap_api.Examples.Codec.{codes, text_of, text_of-codes}
use geofastmap_api.Titiler.Inflight.{
  Registry, fresh, enter, finish, cancel, receive, result, Outcome, fetched, cancelled, Calm,
  enters, receives, Step, calm, Reach, start, later, waits, got, unset, fetching, is_live,
}
use geofastmap_api.Titiler.Inflight.Sharing.{one_fetch}
use geofastmap_api.Titiler.Inflight.Outcomes.{callers_share, cancel_spreads}
use geofastmap_api.Titiler.TileCache.{
  is_image, Bytes, Utf8, ByteStore, Settings, pack, get_cached_tile, set_cached_tile,
}
use geofastmap_api.Titiler.TileCache.RoundTrip.{is_cacheable, get-set_cached}

shelf_law :
    (r r' : String → Option Bytes) (k j : String) (ttl : ℕ) (v : Bytes)
    → some (λ i. if str_eq k i then some v else r i) ≡ some r'
    → some (r' j) ≡ (if str_eq k j then some (some v) else some (r j))
shelf_law r r' k j ttl v e = rw (← some-injective _ r' e) (ground arith)

abbrev Tiles : Type 0
Tiles = Registry ℕ String

abbrev asked : Tiles
asked = enter ℕ String "k" 1 (fresh ℕ String)

abbrev both : Tiles
both = enter ℕ String "k" 2 asked

both_came : Reach ℕ String (Calm ℕ String) (fresh ℕ String) both
unfolding enter
both_came = later (later start (enters "k" 1 refl)) (enters "k" 2 refl)

both_came-Step : Reach ℕ String (Step ℕ String) (fresh ℕ String) both
unfolding enter
both_came-Step = later (later start (calm (enters "k" 1 refl))) (calm (enters "k" 2 refl))

abbrev answered : Tiles
answered = finish ℕ String 0 (result 5) both

served :
    Reach ℕ String (Step ℕ String) answered (receive ℕ String 2 0 (fetched (result 5)) answered)
unfolding enter finish
served = later start (calm (receives 2 0 (fetched (result 5)) refl refl))

at_work : both.task 0 ≡ fetching
unfolding enter
at_work = refl

has_tile :
    (receive ℕ String 2 0 (fetched (result 5)) answered).caller 2 ≡ got 0 (fetched (result 5))
unfolding enter finish receive
has_tile = refl

abbrev tile : Outcome ℕ String
tile = fetched (result 5)

callers_share_example : tile ≡ fetched (result 5)
callers_share_example = callers_share ℕ String 0 2 (result 5) tile both_came at_work served has_tile

one_fetch_example : ◌≡◌ {A = ℕ} 0 0
one_fetch_example = one_fetch ℕ String 0 0 both_came-Step live live refl
  where
    live : is_live (both.task 0) ≡ true
    live = rw at_work refl

-- The first caller goes while the fetch runs, and the second gets its cancellation.
abbrev gone : Tiles
gone = cancel ℕ String 1 0 both

abbrev told : Tiles
told = receive ℕ String 2 0 cancelled gone

lost : Reach ℕ String (Step ℕ String) gone told
unfolding enter cancel
lost = later start (calm (receives 2 0 cancelled refl refl))

first_waits : both.caller 1 ≡ waits 0
unfolding enter
first_waits = refl

still_open : both.future 0 ≡ unset
unfolding enter
still_open = refl

second_told : told.caller 2 ≡ got 0 cancelled
unfolding enter cancel receive
second_told = refl

abbrev loss : Outcome ℕ String
loss = cancelled

cancel_spreads_example : loss ≡ cancelled
cancel_spreads_example =
    cancel_spreads ℕ String 0 1 2 loss both_came-Step first_waits still_open lost second_told

abbrev ascii : Utf8
ascii = record { encode = codes; decode = text_of; decode-encode = text_of-codes }

-- A store that keeps what was set, and forgets nothing.
abbrev shelf : ByteStore
shelf = record {
  State = String → Option Bytes;
  get = λ r k. some (r k);
  setex = λ r k ttl v. some (λ j. if str_eq k j then some v else r j);
  get-setex = shelf_law;
}

abbrev settings : Settings
settings = record { titiler_tile_cache_ttl_seconds = 60; titiler_tile_cache_max_body_bytes = 4 }

abbrev body : Bytes
body = 1 ∷ 2 ∷ []

get-set_cached_example :
    get_cached_tile ascii shelf settings
      (set_cached_tile ascii shelf settings (λ k. none) "t" body "image/png" none)
      "t"
    ≡ (if str_eq "t" "t"
          && is_cacheable ascii shelf settings body "image/png" none
          && not (leb 60 0)
        then some (body, "image/png")
        else get_cached_tile ascii shelf settings (λ k. none) "t")
get-set_cached_example =
    get-set_cached ascii shelf settings (λ k. none)
      (λ j. if str_eq "t" j then some (pack ascii "image/png" body) else none) "t" "t" body
      "image/png" none refl refl

may_be_cached : is_cacheable ascii shelf settings body "image/png" none ≡ true
unfolding is_image
may_be_cached = refl
