-- ===== src/Titiler/TileCache/RoundTrip.antt =====
-- app/services/titiler_tile_cache.py: what is cached is read back.
use geofastmap_api.Prelude.{
  ℕ, zero, suc, ◌+◌, ◌*◌, ◌/◌, ◌%◌, ◌≤◌, ◌<◌, ◌≡◌, refl, ap, inl, inr, String, Bool, true, false,
  not, ◌&&◌, Option, none, some, [], ◌∷◌, ◌++◌, length, take, drop, length-append, length-take,
  if◌then◌else◌, ltb, leb, str_eq, arith, Bool-cases, min,
}
use geofastmap_api.Titiler.TileCache.{
  Bytes, Utf8, ByteStore, Settings, content_type_bytes, pack, unpack, unpack_cached, read_blob,
  get_cached_tile, ttl_of, is_image, or_png, after_setex, set_cached_tile,
}

take-append : (xs ys : Bytes) → take (length xs) (xs ++ ys) ≡ xs
take-append [] ys = refl
take-append (x ∷ xs) ys = ap (λ zs. x ∷ zs) (take-append xs ys)

drop-append : (xs ys : Bytes) → drop (length xs) (xs ++ ys) ≡ ys
drop-append [] ys = refl
drop-append (x ∷ xs) ys = drop-append xs ys

two_bytes : (n : ℕ) → (n / 256) * 256 + n % 256 ≡ n
two_bytes n = omega arith

not_below_self : (a b : ℕ) → ltb (a + b) a ≡ false
not_below_self a b = ground arith

cut_below : (k a b : ℕ) → k < a → ltb (min k (a + b)) a ≡ true
cut_below k a b h = ground arith

module _ (utf8 : Utf8) where
  fits : (content_type : String) → length (content_type_bytes utf8 content_type) ≤ 65535
  fits content_type =
      let ctb = utf8.encode content_type in
      elim (Bool-cases (ltb 65535 (length ctb))) [
        | inl long ↦ rw long (omega (arith, length-take {0} 65535 ctb))
        | inr short ↦ rw short (ground arith)
      ]

  -- A packed tile is unpacked into its body and its content type, of which the first 65535 bytes
  -- are kept; both bytes of the length are bytes.
  pub unpack-pack :
      (content_type : String) (body : Bytes)
      → (unpack utf8 (pack utf8 content_type body)
          ≡ some (utf8.decode (content_type_bytes utf8 content_type), body))
        × (length (content_type_bytes utf8 content_type) / 256 < 256)
  unfolding pack unpack
  unpack-pack content_type body =
      let ctb = content_type_bytes utf8 content_type in
      (
        rw
            (
              two_bytes (length ctb),
              take-append ctb body,
              drop-append ctb body,
              length-append ctb body,
            )
            (rw (not_below_self (length ctb) (length body))),
        omega (arith, fits content_type),
      )

  -- A packed tile that was cut within its length or its content type is refused.
  pub unpack-cut :
      (content_type : String) (body : Bytes) (k : ℕ)
      → k < 2 + length (content_type_bytes utf8 content_type)
      → unpack utf8 (take k (pack utf8 content_type body)) ≡ none
  unfolding pack unpack
  unpack-cut content_type body zero h = refl
  unpack-cut content_type body (suc zero) h = refl
  unpack-cut content_type body (suc (suc k)) h =
      let ctb = content_type_bytes utf8 content_type in
      rw (two_bytes (length ctb), length-take k (ctb ++ body), length-append ctb body)
        (rw (cut_below k (length ctb) (length body) (omega (arith, h))))

  module _ (redis : ByteStore) (settings : Settings) where
    -- What the source asks of a tile that it stores.
    abbrev pub is_cacheable : Bytes → String → Option ℕ → Bool
    is_cacheable body content_type ttl_seconds =
        not (leb (ttl_of utf8 redis settings ttl_seconds) 0)
        && not (leb (length body) 0)
        && not (ltb settings.titiler_tile_cache_max_body_bytes (length body))
        && is_image utf8 redis settings content_type

    abbrev pub packed : Bytes → String → Bytes
    packed body content_type = pack utf8 content_type body

    or_png-image :
        (content_type : String)
        → is_image utf8 redis settings content_type ≡ true
        → or_png utf8 redis settings content_type ≡ content_type
    unfolding is_image or_png
    or_png-image String.[] h = cc
    or_png-image (String.◌∷◌ c s) h = refl

    read_packed :
        (content_type : String) (body : Bytes)
        → read_blob utf8 redis settings (some (some (packed body content_type)))
          ≡ some (body, utf8.decode (content_type_bytes utf8 content_type))
    unfolding read_blob unpack_cached pack
    read_packed content_type body =
        ap (unpack_cached utf8 redis settings) (unpack-pack content_type body).0

    set_cached_lem :
        (r r' : redis.State) (cache_key : String) (body : Bytes) (content_type : String)
        (ttl_seconds : Option ℕ)
        → redis.setex r cache_key
            (ttl_of utf8 redis settings ttl_seconds)
            (packed body content_type)
          ≡ some r'
        → set_cached_tile utf8 redis settings r cache_key body content_type ttl_seconds
          ≡ (if is_cacheable body content_type ttl_seconds then r' else r)
    unfolding set_cached_tile after_setex
    set_cached_lem r r' cache_key body content_type ttl_seconds h =
        elim (Bool-cases (is_image utf8 redis settings content_type)) [
          | inl image ↦ rw (image, or_png-image content_type image, h, after_setex) (ground arith)
          | inr other ↦ rw other (ground arith)
        ]

    -- A tile that was set is what its key gives, with its content type, where it may be stored and
    -- the cache is on and the content type takes at most 65535 bytes; the other keys, and this one where it may not, are as they were.
    pub get-set_cached :
        (r r' : redis.State) (cache_key j : String) (body : Bytes) (content_type : String)
        (ttl_seconds : Option ℕ)
        → ltb 65535 (length (utf8.encode content_type)) ≡ false
        → redis.setex r cache_key
            (ttl_of utf8 redis settings ttl_seconds)
            (packed body content_type)
          ≡ some r'
        → get_cached_tile utf8 redis settings
            (set_cached_tile utf8 redis settings r cache_key body content_type ttl_seconds)
            j
          ≡ (if str_eq cache_key j
                && is_cacheable body content_type ttl_seconds
                && not (leb settings.titiler_tile_cache_ttl_seconds 0)
              then some (body, content_type)
              else get_cached_tile utf8 redis settings r j)
    unfolding set_cached_tile get_cached_tile after_setex
    get-set_cached r r' cache_key j body content_type ttl_seconds short h =
        let was_set =
          redis.get-setex r r' cache_key j (ttl_of utf8 redis settings ttl_seconds)
            (packed body content_type) h in
        rw (set_cached_lem r r' cache_key body content_type ttl_seconds h)
          (elim (Bool-cases (is_cacheable body content_type ttl_seconds)) [
            | inr kept_out ↦ rw kept_out (ground arith)
            | inl stored ↦ rw stored (
                rw was_set (elim (Bool-cases (str_eq cache_key j)) [
                  | inl same ↦
                      rw
                        (
                          same,
                          read_packed content_type body,
                          short,
                          utf8.decode-encode content_type,
                        )
                        (ground arith)
                  | inr other ↦ rw other (ground arith)
                ]))
          ])
