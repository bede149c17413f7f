-- ===== src/Bulk/Mutex/Exclusion.antt =====
-- app/services/bulk_collection_activity.py: one bulk job at a time holds a collection, through any
-- history of acquisitions, releases and refreshes in which no key runs out.
use geofastmap_api.Prelude.{
  ℕ, String, true, ◌≡◌, ◌∙◌, ◌⊎◌, inl, inr, Option, none, some, List, [], ◌∷◌, arith, if◌then◌else◌,
  str_eq, eq_iff, eq_refl, is_text, Option-cases, Bool-cases,
}
use geofastmap_api.Redis.{Redis}
use geofastmap_api.Bulk.Mutex.{
  mutex_key, mutex_ttl, try_acquire_collection_bulk_mutex, release_collection_bulk_mutex,
  refresh_collection_bulk_mutex,
}

-- What a bulk job does with the mutex of the collection.
pub data Event : Type 0 where
  acquires releases refreshes : String → Event

abbrev without : String → List String → List String
without o [] = []
without o (b ∷ bs) = let rest = without o bs in if str_eq b o then rest else b ∷ rest

abbrev pub Member : String → List String → Type 0
Member o [] = ⊥
Member o (b ∷ bs) = (o ≡ b) ⊎ Member o bs

is_text-eq : (t : Option String) (o : String) → is_text t o ≡ true → t ≡ some o
is_text-eq none o h = cc
is_text-eq (some t) o h = ground (arith, eq_iff t o)

module _ {W : Type 0} (redis : Redis W) (ttl_setting : ℕ) (collection_id : String) where
  open redis use {
    State, get, set, set_nx, expire, delete, get-set, set_nx-none, set_nx-some, get-delete,
    get-expire,
  }

  -- The store, and the jobs that were told that they hold the mutex and have not released it.
  abbrev pub World : Type 0
  World = State × List String

  step : World → Event → World
  unfolding try_acquire_collection_bulk_mutex release_collection_bulk_mutex
      refresh_collection_bulk_mutex
  step (r, holders) (acquires o) =
      let (r', got) =
        try_acquire_collection_bulk_mutex redis "redis" ttl_setting r collection_id o in
      (r', if got then o ∷ holders else holders)
  step (r, holders) (releases o) =
      (release_collection_bulk_mutex redis "redis" r collection_id o, without o holders)
  step (r, holders) (refreshes o) =
      (refresh_collection_bulk_mutex redis "redis" ttl_setting r collection_id o, holders)

  unfoldable pub run : World → List Event → World
  unfolding step
  run w [] = w
  run w (e ∷ es) = run (step w e) es

  AllHold : State → List String → Type 0
  AllHold r [] = Unit {0}
  AllHold r (b ∷ bs) = (get r (mutex_key collection_id) ≡ some b) × AllHold r bs

  AllHold-eq :
      (r r' : State) (bs : List String)
      → get r' (mutex_key collection_id) ≡ get r (mutex_key collection_id)
      → AllHold r bs
      → AllHold r' bs
  unfolding AllHold
  AllHold-eq r r' [] e h = tt
  AllHold-eq r r' (b ∷ bs) e h = (e ∙ h.0, AllHold-eq r r' bs e h.1)

  AllHold-none :
      (r r' : State) (bs : List String)
      → get r (mutex_key collection_id) ≡ none
      → AllHold r bs
      → AllHold r' bs
  unfolding AllHold
  AllHold-none r r' [] e h = tt
  AllHold-none r r' (b ∷ bs) e h = cc (h.0)

  AllHold-without :
      (r : State) (o : String) (bs : List String) → AllHold r bs → AllHold r (without o bs)
  unfolding AllHold
  AllHold-without r o [] h = tt
  AllHold-without r o (b ∷ bs) h = elim (Bool-cases (str_eq b o)) [
    | inl e ↦ rw e (AllHold-without r o bs h.1)
    | inr e ↦ rw e (h.0, AllHold-without r o bs h.1)
  ]

  -- The holder is `o`: then all of them are `o`.
  AllHold-released :
      (r r' : State) (o : String) (bs : List String)
      → get r (mutex_key collection_id) ≡ some o
      → AllHold r bs
      → AllHold r' (without o bs)
  unfolding AllHold
  AllHold-released r r' o [] e h = tt
  AllHold-released r r' o (b ∷ bs) e h =
      let same : str_eq b o ≡ true = ground (arith, eq_iff b o) in
      rw same (AllHold-released r r' o bs e h.1)

  told :
      (r : State) (w o : String) (bs : List String)
      → get r (mutex_key collection_id) ≡ some w
      → AllHold r bs
      → AllHold r (if str_eq w o then o ∷ bs else bs)
  unfolding AllHold
  told r w o bs e h = elim (Bool-cases (str_eq w o)) [
    | inl same ↦ rw same (ground (arith, eq_iff w o), h)
    | inr other ↦ rw other h
  ]

  acquires-AllHold :
      (r : State) (bs : List String) (o : String)
      → AllHold r bs
      → AllHold (step (r, bs) (acquires o)).0 (step (r, bs) (acquires o)).1
  unfolding step try_acquire_collection_bulk_mutex AllHold
  acquires-AllHold r bs o h = elim (Option-cases (get r (mutex_key collection_id))) [
    | inl e ↦
        rw (set_nx-none r (mutex_key collection_id) o (mutex_ttl ttl_setting) e)
          (simp (get-set, eq_refl), AllHold-none r _ bs e h)
    | inr (w, e) ↦
        rw (set_nx-some r (mutex_key collection_id) o w (mutex_ttl ttl_setting) e)
          (rw e (told r w o bs e h))
  ]

  releases-AllHold :
      (r : State) (bs : List String) (o : String)
      → AllHold r bs
      → AllHold (step (r, bs) (releases o)).0 (step (r, bs) (releases o)).1
  unfolding step release_collection_bulk_mutex
  releases-AllHold r bs o h = elim (Bool-cases (is_text (get r (mutex_key collection_id)) o)) [
    | inl e ↦ rw e (AllHold-released r _ o bs (is_text-eq (get r (mutex_key collection_id)) o e) h)
    | inr e ↦ rw e (AllHold-without r o bs h)
  ]

  refreshes-AllHold :
      (r : State) (bs : List String) (o : String)
      → AllHold r bs
      → AllHold (step (r, bs) (refreshes o)).0 (step (r, bs) (refreshes o)).1
  unfolding step refresh_collection_bulk_mutex
  refreshes-AllHold r bs o h = elim (Bool-cases (is_text (get r (mutex_key collection_id)) o)) [
    | inl e ↦ rw e (AllHold-eq r _ bs (get-expire r _ _ _) h)
    | inr e ↦ rw e h
  ]

  run-AllHold :
      (es : List Event) (r : State) (bs : List String)
      → AllHold r bs
      → AllHold (run (r, bs) es).0 (run (r, bs) es).1
  unfolding run
  run-AllHold [] r bs h = h
  run-AllHold (acquires o ∷ es) r bs h = run-AllHold es _ _ (acquires-AllHold r bs o h)
  run-AllHold (releases o ∷ es) r bs h = run-AllHold es _ _ (releases-AllHold r bs o h)
  run-AllHold (refreshes o ∷ es) r bs h = run-AllHold es _ _ (refreshes-AllHold r bs o h)

  holder_of :
      (r : State) (o : String) (bs : List String)
      → AllHold r bs
      → Member o bs
      → get r (mutex_key collection_id) ≡ some o
  unfolding AllHold
  holder_of r o [] h m = absurd m
  holder_of r o (b ∷ bs) h (inl e) = rw e h.0
  holder_of r o (b ∷ bs) h (inr m) = holder_of r o bs h.1 m

  -- From a free mutex, after any sequence of acquisitions, releases and refreshes by any jobs: two
  -- jobs that were told that they hold the collection, and have not released it, are the same job,
  -- and the store names it as the holder.
  pub run_exclusive :
      (es : List Event) (r : State) (o o' : String)
      → Member o (run (r, []) es).1
      → Member o' (run (r, []) es).1
      → (o ≡ o') × (get (run (r, []) es).0 (mutex_key collection_id) ≡ some o)
  unfolding AllHold
  run_exclusive es r o o' m m' =
      let all = run-AllHold es r [] tt in
      let first = holder_of _ o _ all m in
      let second = holder_of _ o' _ all m' in (ground (arith, first, second), first)
