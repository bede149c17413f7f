-- ===== src/Examples/JsonEq.antt =====
-- Equality of the values that stand for texts in the examples.
use geofastmap_api.Prelude.{
  ℤ, pos, negsuc, Bool, true, false, ◌&&◌, ◌==◌, ◌≡◌, refl, ap, str_eq, eq_iff, eq_refl, arith,
}
use geofastmap_api.Json.{
  Json, null, bool, num, real, str, arr, obj, Items, nil, cons, Fields, end, field,
}

abbrev int_eq : ℤ → ℤ → Bool
int_eq (pos m) (pos n) = m == n
int_eq (negsuc m) (negsuc n) = m == n
int_eq a b = false

abbrev bool_eq : Bool → Bool → Bool
bool_eq true true = true
bool_eq false false = true
bool_eq a b = false

abbrev mutual
  pub json_eq : Json → Json → Bool
  json_eq null null = true
  json_eq (bool a) (bool b) = bool_eq a b
  json_eq (num a) (num b) = int_eq a b
  json_eq (real a e) (real b f) = int_eq a b && int_eq e f
  json_eq (str a) (str b) = str_eq a b
  json_eq (arr xs) (arr ys) = items_eq xs ys
  json_eq (obj xs) (obj ys) = fields_eq xs ys
  json_eq v w = false

  items_eq : Items → Items → Bool
  items_eq nil nil = true
  items_eq (cons v xs) (cons w ys) = json_eq v w && items_eq xs ys
  items_eq xs ys = false

  fields_eq : Fields → Fields → Bool
  fields_eq end end = true
  fields_eq (field j v xs) (field k w ys) = str_eq j k && (json_eq v w && fields_eq xs ys)
  fields_eq xs ys = false

int_eq_refl : (a : ℤ) → int_eq a a ≡ true
int_eq_refl (pos n) = ground arith
int_eq_refl (negsuc n) = ground arith

bool_eq_refl : (a : Bool) → bool_eq a a ≡ true
bool_eq_refl true = refl
bool_eq_refl false = refl

mutual
  pub json_eq_refl : (v : Json) → json_eq v v ≡ true
  json_eq_refl null = refl
  json_eq_refl (bool a) = bool_eq_refl a
  json_eq_refl (num a) = int_eq_refl a
  json_eq_refl (real a e) = ground (arith, int_eq_refl a, int_eq_refl e)
  json_eq_refl (str a) = eq_refl a
  json_eq_refl (arr xs) = items_eq_refl xs
  json_eq_refl (obj xs) = fields_eq_refl xs

  items_eq_refl : (xs : Items) → items_eq xs xs ≡ true
  items_eq_refl nil = refl
  items_eq_refl (cons v xs) = ground (arith, json_eq_refl v, items_eq_refl xs)

  fields_eq_refl : (xs : Fields) → fields_eq xs xs ≡ true
  fields_eq_refl end = refl
  fields_eq_refl (field k v xs) = ground (arith, eq_refl k, json_eq_refl v, fields_eq_refl xs)

int_eq_path : (a b : ℤ) → int_eq a b ≡ true → a ≡ b
int_eq_path (pos m) (pos n) h = ap pos (ground arith)
int_eq_path (negsuc m) (negsuc n) h = ap negsuc (ground arith)
int_eq_path (pos m) (negsuc n) h = cc
int_eq_path (negsuc m) (pos n) h = cc

bool_eq_path : (a b : Bool) → bool_eq a b ≡ true → a ≡ b
bool_eq_path true true h = refl
bool_eq_path false false h = refl
bool_eq_path true false h = cc
bool_eq_path false true h = cc

and_both : (a b : Bool) → a && b ≡ true → (a ≡ true) × (b ≡ true)
and_both true b h = (refl, h)
and_both false b h = absurd cc

mutual
  pub json_eq_path : (v w : Json) → json_eq v w ≡ true → v ≡ w
  json_eq_path null null h = refl
  json_eq_path (bool a) (bool b) h = ap bool (bool_eq_path a b h)
  json_eq_path (num a) (num b) h = ap num (int_eq_path a b h)
  json_eq_path (real a e) (real b f) h =
      cc (int_eq_path a b (ground arith), int_eq_path e f (ground arith))
  json_eq_path (str a) (str b) h = ap str ((eq_iff a b).0 h)
  json_eq_path (arr xs) (arr ys) h = ap arr (items_eq_path xs ys h)
  json_eq_path (obj xs) (obj ys) h = ap obj (fields_eq_path xs ys h)
  json_eq_path v w h = cc

  items_eq_path : (xs ys : Items) → items_eq xs ys ≡ true → xs ≡ ys
  items_eq_path nil nil h = refl
  items_eq_path (cons v xs) (cons w ys) h =
      let (value, others) = and_both _ _ h in
      cc (json_eq_path v w value, items_eq_path xs ys others)
  items_eq_path xs ys h = cc

  fields_eq_path : (xs ys : Fields) → fields_eq xs ys ≡ true → xs ≡ ys
  fields_eq_path end end h = refl
  fields_eq_path (field j v xs) (field k w ys) h =
      let (key, rest) = and_both _ _ h in
      let (value, others) = and_both _ _ rest in
      cc ((eq_iff j k).0 key, json_eq_path v w value, fields_eq_path xs ys others)
  fields_eq_path xs ys h = cc
