-- ===== src/Titiler/TileCache.antt =====
-- app/services/titiler_tile_cache.py: the cache of proxied tiles. A body is its list of bytes. The
-- UTF-8 codec and Redis are parameters; a call of Redis that gives none raises. Lifetimes in seconds
-- are numbers: one that is not positive is 0.
pub mod RoundTrip
use geofastmap_api.Prelude.{
  ℕ, zero, suc, ◌+◌, ◌*◌, ◌/◌, ◌%◌, ◌≡◌, String, Bool, true, false, not, ◌&&◌, ◌||◌, Option, none,
  some, List, [], ◌∷◌, ◌++◌, length, take, drop, if◌then◌else◌, ltb, leb, ◌==◌, str_eq, truthy,
}
use text.Mathlib.Text.{starts_with}

abbrev pub Bytes : Type 0
Bytes = List ℕ

-- `s.encode("utf-8")`, and `b.decode("utf-8", errors="replace")`, which reads back what was encoded.
pub record Utf8 : Type 0 where
  pub encode : String → Bytes
  pub decode : Bytes → String
  pub decode-encode : (s : String) → decode (encode s) ≡ s

-- A key that was set is read back until its lifetime ends, and another key is as it was.
pub record ByteStore : Type 1 where
  pub State : Type 0
  pub get : State → String → Option (Option Bytes)
  pub setex : State → String → ℕ → Bytes → Option State
  pub get-setex :
      (r r' : State) (k j : String) (ttl : ℕ) (v : Bytes)
      → setex r k ttl v ≡ some r'
      → get r' j ≡ (if str_eq k j then some (some v) else get r j)

pub record Settings : Type 0 where
  pub titiler_tile_cache_ttl_seconds : ℕ
  pub titiler_tile_cache_max_body_bytes : ℕ

module _ (utf8 : Utf8) where
  abbrev pub content_type_bytes : String → Bytes
  content_type_bytes content_type =
      let ctb = utf8.encode content_type in if ltb 65535 (length ctb) then take 65535 ctb else ctb

  -- `len(ctb).to_bytes(2, "big") + ctb + body`
  pub pack : String → Bytes → Bytes
  pack content_type body =
      let ctb = content_type_bytes content_type in
      (length ctb / 256) ∷ (length ctb % 256) ∷ (ctb ++ body)

  pub unpack : Bytes → Option (String × Bytes)
  unpack [] = none
  unpack (b ∷ []) = none
  unpack (high ∷ low ∷ rest) =
      let n = high * 256 + low in
      if ltb (length rest) n then none else some (utf8.decode (take n rest), drop n rest)

  module _ (redis : ByteStore) (settings : Settings) where
    unpack_cached : Option (String × Bytes) → Option (Bytes × String)
    unpack_cached none = none
    unpack_cached (some (ct, body)) = some (body, ct)

    -- `if not blob`: a missing value or an empty one.
    read_blob : Option (Option Bytes) → Option (Bytes × String)
    unfolding unpack_cached unpack
    read_blob none = none
    read_blob (some none) = none
    read_blob (some (some [])) = none
    read_blob (some (some (b ∷ bs))) = unpack_cached (unpack (b ∷ bs))

    pub get_cached_tile : redis.State → String → Option (Bytes × String)
    unfolding read_blob
    get_cached_tile r cache_key =
        if leb settings.titiler_tile_cache_ttl_seconds 0
        then none
        else read_blob (redis.get r cache_key)

    abbrev pub ttl_of : Option ℕ → ℕ
    ttl_of none = settings.titiler_tile_cache_ttl_seconds
    ttl_of (some ttl) = ttl

    unfoldable pub is_image : String → Bool
    is_image content_type =
        starts_with content_type "image/" || str_eq content_type "application/octet-stream"

    -- `content_type or "image/png"`
    or_png : String → String
    or_png content_type = if truthy content_type then content_type else "image/png"

    after_setex : redis.State → Option redis.State → redis.State
    after_setex r none = r
    after_setex r (some r') = r'

    pub set_cached_tile :
        redis.State → String → Bytes → String → (ttl_seconds : Option ℕ) → redis.State
    unfolding is_image or_png after_setex pack
    set_cached_tile r cache_key body content_type ttl_seconds =
        let ttl = ttl_of ttl_seconds in
        if leb ttl 0 || leb (length body) 0
        then r
        else if ltb settings.titiler_tile_cache_max_body_bytes (length body)
        then r
        else if not (is_image content_type)
        then r
        else after_setex r (redis.setex r cache_key ttl (pack (or_png content_type) body))
