-- ===== src/Examples/Upload.antt =====
-- app/services/bulk_upload_sessions.py: a file of two parts that are sent in the wrong order, the
-- second of them twice.
use geofastmap_api.Prelude.{
  ℕ, zero, suc, ◌<◌, ◌≡◌, refl, String, true, false, none, some, List, [], ◌∷◌, if◌then◌else◌,
  str_eq, arith,
}
use geofastmap_api.Upload.{
  Bytes, Session, World, Reply, ok, failed_assembling, write_part, complete_upload,
}
use geofastmap_api.Upload.Parts.{has}
use geofastmap_api.Upload.Assembly.{Sent, was_sent, uploads, upload_assembles}
use geofastmap_api.Upload.Failures.{concurrent_part_lost, missing_part_ends}

abbrev opened : Session
opened = record {
  collection_id = "roads";
  owner_id = some 7;
  parts = [];
  status = "pending_parts";
  updated_at = 0;
}

abbrev before : World
before = record {
  session = λ i. if str_eq "u" i then some opened else none;
  chunk = λ i n. none;
  file = λ k. none;
}

abbrev halves : List Bytes
halves = (1 ∷ 2 ∷ []) ∷ (3 ∷ []) ∷ []

abbrev sent : List Sent
sent = (10, 2, 3 ∷ []) ∷ (11, 1, 1 ∷ 2 ∷ []) ∷ (12, 2, 3 ∷ []) ∷ []

both_sent : (i : ℕ) → i < 2 → was_sent (suc i) sent ≡ true
both_sent zero h = refl
both_sent (suc zero) h = refl
both_sent (suc (suc i)) h = absurd (omega arith)

abbrev finished : World × Reply String
finished = complete_upload (uploads halves (some 7) "roads" "u" before sent) "roads" "u" [] "j.json"

upload_assembles_example :
    (finished.1 ≡ ok "j.json")
    × (finished.0.file "j.json" ≡ some (1 ∷ 2 ∷ 3 ∷ []))
    × (finished.0.session "u" ≡ none)
upload_assembles_example =
    upload_assembles halves (some 7) "roads" "u" before opened sent "j.json" refl refl refl refl
      (λ e. cc) (omega arith, refl, (omega arith, refl, (omega arith, refl, tt))) both_sent

concurrent_part_lost_example :
    let first = (write_part before 20 "u" 1 opened).0 in
    (after : Session) × ((write_part first 21 "u" 2 opened).0.session "u" ≡ some after)
    × (has 1 after.parts ≡ false)
    × (has 2 after.parts ≡ true)
concurrent_part_lost_example = concurrent_part_lost before "u" opened 1 2 20 21 refl refl refl

missing_part_ends_example :
    (complete_upload before "roads" "u" (4 ∷ []) "j.json").1 ≡ failed_assembling
missing_part_ends_example =
    (missing_part_ends before opened "roads" "u" "j.json" 4 4 [] refl refl refl refl).0
