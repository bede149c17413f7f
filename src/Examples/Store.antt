-- ===== src/Examples/Store.antt =====
-- A store that keeps the laws of the Redis interface, and a codec whose texts are the values.
use geofastmap_api.Prelude.{
  ℕ, String, Bool, true, false, ◌≡◌, refl, Option, none, some, List, [], ◌∷◌, arith, if◌then◌else◌,
  str_eq, eq_iff,
}
use geofastmap_api.Json.{Json, Codec}
use geofastmap_api.Redis.{Redis}

abbrev pub plain_codec : Codec
plain_codec = record { Wire = Json; dumps = λ j. j; loads = λ j. some j; loads-dumps = λ j. refl }

module _ (W : Type 0) where
  pub record Store : Type 0 where
    pub values : String → Option (String × ℕ)
    pub lists : String → List W

  abbrev value : Option (String × ℕ) → Option String
  value none = none
  value (some (v, ex)) = some v

  abbrev seconds : Option (String × ℕ) → Option ℕ
  seconds none = none
  seconds (some (v, ex)) = some ex

  abbrev put : Store → String → Option (String × ℕ) → Store
  put s k v = record s { values = λ j. if str_eq k j then v else s.values j }

  -- EXPIRE keeps the value and sets the seconds.
  abbrev renew : ℕ → Option (String × ℕ) → Option (String × ℕ)
  renew ex none = none
  renew ex (some (v, old)) = some (v, ex)

  abbrev set_unless : Option (String × ℕ) → Store → String → String → ℕ → Store × Bool
  set_unless none s k v ex = (put s k (some (v, ex)), true)
  set_unless (some w) s k v ex = (s, false)

  pub get-set :
      (s : Store) (k j v : String) (ex : ℕ)
      → value ((put s k (some (v, ex))).values j)
        ≡ (if str_eq k j then some v else value (s.values j))
  get-set s k j v ex = ground arith

  pub ttl-set :
      (s : Store) (k j v : String) (ex : ℕ)
      → seconds ((put s k (some (v, ex))).values j)
        ≡ (if str_eq k j then some ex else seconds (s.values j))
  ttl-set s k j v ex = ground arith

  pub get-delete :
      (s : Store) (k j : String)
      → value ((put s k none).values j) ≡ (if str_eq k j then none else value (s.values j))
  get-delete s k j = ground arith

  pub get-expire :
      (s : Store) (k j : String) (ex : ℕ)
      → value ((put s k (renew ex (s.values k))).values j) ≡ value (s.values j)
  get-expire s k j ex = ground (arith, eq_iff k j)

  pub set_unless-none :
      (x : Option (String × ℕ)) (s : Store) (k v : String) (ex : ℕ)
      → value x ≡ none
      → set_unless x s k v ex ≡ (put s k (some (v, ex)), true)
  set_unless-none none s k v ex h = refl
  set_unless-none (some x) s k v ex h = cc

  pub set_unless-some :
      (x : Option (String × ℕ)) (s : Store) (k v w : String) (ex : ℕ)
      → value x ≡ some w
      → set_unless x s k v ex ≡ (s, false)
  set_unless-some none s k v w ex h = cc
  set_unless-some (some x) s k v w ex h = refl

  abbrev pub store : Redis W
  store = record {
    State = Store;
    get = λ s k. value (s.values k);
    set = λ s k v ex. put s k (some (v, ex));
    ttl = λ s k. seconds (s.values k);
    delete = λ s k. put s k none;
    set_nx = λ s k v ex. set_unless (s.values k) s k v ex;
    expire = λ s k ex. put s k (renew ex (s.values k));
    lrange = λ s k. s.lists k;
    lpush = λ s k w. record s { lists = λ j. if str_eq k j then w ∷ s.lists j else s.lists j };
    get-set = get-set;
    ttl-set = ttl-set;
    set_nx-none = λ s k v ex. set_unless-none (s.values k) s k v ex;
    set_nx-some = λ s k v w ex. set_unless-some (s.values k) s k v w ex;
    get-expire = get-expire;
    get-delete = get-delete;
    get-lpush = λ s k j w h. refl;
    ttl-lpush = λ s k j w h. refl;
    lrange-lpush = λ s k j w. refl;
    lrange-set = λ s k j v ex h. refl;
  }

  abbrev pub empty_store : Store
  empty_store = record { values = λ k. none; lists = λ k. [] }
