-- ===== src/Storage/Lookups.antt =====
-- app/services/storage_self_heal.py: what the sets of referenced names contain.
use Prim.Native.String.append
use Prim.Native.String.{◌++◌ as text_append}
use text.Mathlib.Text.{starts_with}
use text.Mathlib.TextPositions.{starts_with-append}
use geofastmap_api.Prelude.{
  ◌≡◌, refl, ap, ◌∙◌, inl, inr, String, Bool, true, false, ◌||◌, Option, some, List, [], ◌∷◌, ◌++◌,
  eq_iff, truthy, arith, Bool-cases,
}
use geofastmap_api.Json.{str, Codec}
use geofastmap_api.Queue.BulkImport.{Builtins, BulkJobPayload, from_json}
use geofastmap_api.Storage.{
  contains_name, key_of_payload, key_of_meta, queued_keys, meta_keys, after_prefix, ids_after,
}

pub contains_name-append :
    (n : String) (xs ys : List String)
    → contains_name n (xs ++ ys) ≡ (contains_name n xs || contains_name n ys)
contains_name-append n [] ys = refl
contains_name-append n (x ∷ xs) ys = rw (contains_name-append n xs ys) (ground arith)

after_own_prefix : (p s : String) → after_prefix p (text_append p s) ≡ s
unfolding after_prefix
after_own_prefix String.[] s = append.nil s
after_own_prefix (String.◌∷◌ c p) s =
    ap (after_prefix (String.◌∷◌ c p)) (append.cons c p s) ∙ after_own_prefix p s

pub or-true : (b : Bool) → (b || true) ≡ true
or-true true = refl
or-true false = refl

pub contains_id :
    (prefix id : String) (before after : List String)
    → contains_name id (ids_after prefix (before ++ (text_append prefix id ∷ after))) ≡ true
unfolding ids_after
contains_id prefix id [] after =
    rw (starts_with-append prefix id, after_own_prefix prefix id) (ground (arith, eq_iff id id))
contains_id prefix id (key ∷ before) after = elim (Bool-cases (starts_with key prefix)) [
  | inl e ↦ rw (e, contains_id prefix id before after) (ground arith)
  | inr e ↦ rw (e, contains_id prefix id before after) refl
]

module _ (python : Builtins) (codec : Codec) where
  pub contains_queued :
      (name : String) (before after : List (codec.Wire)) (s : codec.Wire) (p : BulkJobPayload)
      → from_json python codec s ≡ some p
      → p.storage_key ≡ str name
      → contains_name name (queued_keys python codec (before ++ (s ∷ after))) ≡ true
  unfolding queued_keys key_of_payload
  contains_queued name [] after s p parsed key = rw (parsed, key) (ground (arith, eq_iff name name))
  contains_queued name (x ∷ before) after s p parsed key =
      contains_name-append name (key_of_payload (from_json python codec x))
        (queued_keys python codec (before ++ (s ∷ after)))
      ∙ rw (contains_queued name before after s p parsed key) (or-true _)

  pub contains_registered :
      (get : String → Option (Option String)) (name : String) (before after : List String)
      (k : String)
      → get k ≡ some (some name)
      → truthy name ≡ true
      → contains_name name (meta_keys python codec get (before ++ (k ∷ after))) ≡ true
  unfolding meta_keys key_of_meta
  contains_registered get name [] after k got true_name =
      rw (got, true_name) (ground (arith, eq_iff name name))
  contains_registered get name (x ∷ before) after k got true_name =
      contains_name-append name (key_of_meta (get x))
        (meta_keys python codec get (before ++ (k ∷ after)))
      ∙ rw (contains_registered get name before after k got true_name) (or-true _)
