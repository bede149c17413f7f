-- ===== src/Storage.antt =====
-- app/services/storage_self_heal.py: the removal of files and of directories of parts that nothing in
-- Redis refers to. Redis is what its commands answer, none where a command raises; a directory is
-- its entries by name; times are whole seconds, and a directory whose removal is refused keeps its
-- entry. The regular expression of the tiles' temporary files, `_TILE_TMP_RE`, is a parameter, which
-- gives the collection's id in a name that matches. An error's text is left out.
pub mod Lookups
pub mod Passes
use text.Mathlib.Text.{starts_with}
use mathlib.Core.Option
use geofastmap_api.Prelude.{
  ℕ, String, Bool, true, false, Option, none, some, List, [], ◌∷◌, ◌++◌, if◌then◌else◌, str_eq,
  truthy,
}
use geofastmap_api.Json.{Json, str, Codec}
use geofastmap_api.Queue.TileBuild.Leases.{tile_build_pending_prefix}
use geofastmap_api.Queue.BulkImport.{Builtins, BulkJobPayload, from_json}

pub data Entry : Type 0 where
  -- With the time of the last change, none where it cannot be read.
  file : Option ℕ → Entry
  -- With the time of the newest file below, or of the directory itself where there is none.
  directory : Option ℕ → Entry

abbrev pub Directory : Type 0
Directory = String → Option Entry

-- The names that a pass puts into its list of `SelfHealStats`, and its errors.
pub record Swept : Type 0 where
  pub deleted : List String
  pub errors : List String

pub record SelfHealStats : Type 0 where
  pub bulk_files_deleted : List String
  pub upload_dirs_deleted : List String
  pub tile_tmp_deleted : List String
  pub errors : List String

-- LRANGE of the queue, SCAN for the keys of registered imports (the metadata keys), of sessions and
-- of pending tile builds, and GET.
pub record RedisAnswers (Wire : Type 0) : Type 0 where
  pub queue : Option (List Wire)
  pub import_keys : Option (List String)
  pub session_keys : Option (List String)
  pub pending_keys : Option (List String)
  pub get : String → Option (Option String)

abbrev pub contains_name : String → List String → Bool
contains_name name [] = false
contains_name name (n ∷ ns) = if str_eq n name then true else contains_name name ns

-- A storage key that is no text is the name of no file.
abbrev pub text_of : Json → List String
text_of (str s) = s ∷ []
text_of v = []

key_of_payload : Option BulkJobPayload → List String
key_of_payload none = []
key_of_payload (some p) = text_of p.storage_key

key_of_meta : Option (Option String) → List String
key_of_meta none = []
key_of_meta (some none) = []
key_of_meta (some (some val)) = if truthy val then val ∷ [] else []

module _ (python : Builtins) (codec : Codec) where
  pub queued_keys : List (codec.Wire) → List String
  unfolding key_of_payload
  queued_keys [] = []
  queued_keys (s ∷ payloads) = key_of_payload (from_json python codec s) ++ queued_keys payloads

  -- `except Exception: payloads = []`
  pub queue_keys : Option (List (codec.Wire)) → List String
  unfolding queued_keys
  queue_keys none = []
  queue_keys (some payloads) = queued_keys payloads

  unfoldable pub meta_keys : (String → Option (Option String)) → List String → List String
  unfolding key_of_meta
  meta_keys get [] = []
  meta_keys get (k ∷ ks) = key_of_meta (get k) ++ meta_keys get ks

  -- None where the scan raises.
  pub protected_bulk_storage_keys : RedisAnswers (codec.Wire) → Option (List String)
  unfolding queue_keys meta_keys
  protected_bulk_storage_keys r =
      Option.map (λ ks. queue_keys r.queue ++ meta_keys r.get ks) r.import_keys

abbrev pub upload_session_prefix : String
upload_session_prefix = "geofastmap:bulk_upload_session:"

-- `key[len(prefix):]`
pub after_prefix : String → String → String
after_prefix String.[] key = key
after_prefix (String.◌∷◌ c prefix) String.[] = String.[]
after_prefix (String.◌∷◌ c prefix) (String.◌∷◌ d key) = after_prefix prefix key

pub ids_after : (prefix : String) → List String → List String
unfolding after_prefix
ids_after prefix [] = []
ids_after prefix (key ∷ keys) =
    let rest = ids_after prefix keys in
    if starts_with key prefix then after_prefix prefix key ∷ rest else rest

pub active_upload_session_ids : {Wire : Type 0} → RedisAnswers Wire → Option (List String)
unfolding ids_after
active_upload_session_ids r = Option.map (ids_after upload_session_prefix) r.session_keys

pub collections_with_pending_tile_build : {Wire : Type 0} → RedisAnswers Wire → Option (List String)
unfolding ids_after
collections_with_pending_tile_build r =
    Option.map (ids_after tile_build_pending_prefix) r.pending_keys
