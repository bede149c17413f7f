-- ===== src/Json.antt =====
-- Python values that `json` reads and writes, dictionaries with text keys, and the operations of
-- the built-in types on them that the payload classes use.
use geofastmap_api.Prelude.{
  zero, ℤ, pos, String, Bool, true, false, not, ◌≡◌, refl, Option, none, some, arith, if◌then◌else◌,
  str_eq, truthy,
}

-- `real m e` is the float m * 2^e.
mutual
  pub data Json : Type 0 where
    null : Json
    bool : Bool → Json
    num : ℤ → Json
    real : ℤ → ℤ → Json
    str : String → Json
    arr : Items → Json
    obj : Fields → Json

  pub data Items : Type 0 where
    nil : Items
    cons : Json → Items → Items

  -- The entries of a dictionary in the order of their insertion.
  pub data Fields : Type 0 where
    end : Fields
    field : String → Json → Fields → Fields

-- `bool(v)`, the truth of a value.
abbrev pub to_bool : Json → Bool
to_bool null = false
to_bool (bool b) = b
to_bool (num (pos zero)) = false
to_bool (num _) = true
to_bool (real (pos zero) _) = false
to_bool (real _ _) = true
to_bool (str s) = truthy s
to_bool (arr nil) = false
to_bool (arr _) = true
to_bool (obj end) = false
to_bool (obj _) = true

abbrev pub is_null : Json → Bool
is_null null = true
is_null _ = false

-- `v is False`
abbrev pub is_false : Json → Bool
is_false (bool b) = not b
is_false _ = false

-- `isinstance(v, bool)`, `isinstance(v, list)`
abbrev pub is_bool : Json → Bool
is_bool (bool b) = true
is_bool _ = false

abbrev pub is_arr : Json → Bool
is_arr (arr xs) = true
is_arr _ = false

-- `v or w`
abbrev pub or_else : Json → Json → Json
or_else v w = if to_bool v then v else w

unfoldable pub lookup : String → Fields → Option Json
lookup k end = none
lookup k (field j v rest) = if str_eq j k then some v else lookup k rest

-- `if c: out[k] = v`, for a key that `out` does not have yet, before the entries `rest`.
unfoldable pub put_if : Bool → String → Json → Fields → Fields
put_if c k v rest = if c then field k v rest else rest

abbrev pub value_or : Option Json → Json → Json
value_or none w = w
value_or (some v) w = v

-- `d.get(k, w)` and `d.get(k)`
abbrev pub get_or : Fields → String → Json → Json
get_or d k w = value_or (lookup k d) w

abbrev pub get : Fields → String → Json
get d k = get_or d k null

-- `d[k]` is `lookup k d`: a missing key raises. What is no dictionary has no `get`, and raises.
abbrev pub fields : Json → Option Fields
fields (obj d) = some d
fields _ = none

pub lookup-put_if :
    (j k : String) (c : Bool) (v : Json) (rest : Fields)
    → lookup j (put_if c k v rest)
      ≡ (if str_eq k j then (if c then some v else lookup j rest) else lookup j rest)
unfolding lookup put_if
lookup-put_if j k c v rest = ground arith

pub lookup-field :
    (j k : String) (v : Json) (rest : Fields)
    → lookup j (field k v rest) ≡ (if str_eq k j then some v else lookup j rest)
unfolding lookup
lookup-field j k v rest = refl

pub lookup-end : (j : String) → lookup j end ≡ none
unfolding lookup
lookup-end j = refl

pub ruleset lookups = (lookup-put_if, lookup-field, lookup-end)

-- The text that `json.dumps` makes of a value, and `json.loads`, which raises on other texts. A
-- value that was written is read back.
pub record Codec : Type 1 where
  pub Wire : Type 0
  pub dumps : Json → Wire
  pub loads : Wire → Option Json
  pub loads-dumps : (j : Json) → loads (dumps j) ≡ some j

-- Binds for what may raise.
infixl 5 ◌>>=◌
abbrev pub ◌>>=◌ {ℓ κ} : {A : Type ℓ} {B : Type κ} → Option A → (A → Option B) → Option B
none >>= f = none
some a >>= f = f a
