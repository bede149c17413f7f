-- ===== src/Storage/Passes/Sweep.antt =====
-- app/services/storage_self_heal.py: what the loops over the names remove, and what they report.
use geofastmap_api.Prelude.{
  ◌≡◌, refl, subst, sym, ◌∙◌, inl, inr, String, Bool, true, false, not, ◌&&◌, ◌||◌, Option, none,
  some, List, [], ◌∷◌, if◌then◌else◌, str_eq, eq_iff, arith, Bool-cases,
}
use geofastmap_api.Storage.{Entry, Directory, Swept, contains_name}
use geofastmap_api.Storage.Passes.{without, note_deleted, note_error, sweep, pass}

noted :
    (doomed dry_run refused : Bool) (name n : String) (stats : Swept)
    → contains_name n
        (if not doomed
          then stats
          else if dry_run
          then note_deleted name stats
          else if refused
          then note_error name stats
          else note_deleted name stats).deleted
      ≡ (if str_eq name n && doomed && (dry_run || not refused)
          then true
          else contains_name n stats.deleted)
noted false dry_run refused name n stats = ground arith
noted true true refused name n stats = ground arith
noted true false true name n stats = ground arith
noted true false false name n stats = ground arith

module _ (is_orphan : String → Option Entry → Bool) (refuses : String → Bool) (dry_run : Bool)
    (nothing : (name : String) → is_orphan name none ≡ false) where
  next : String → Directory → Directory
  next name d =
      if is_orphan name (d name) && not dry_run && not (refuses name) then without d name else d

  next_self :
      (name : String) (d : Directory)
      → next name d name
        ≡ (if is_orphan name (d name) && not dry_run && not (refuses name) then none else d name)
  unfolding next
  next_self name d = ground (arith, eq_iff name name)

  next_other : (name n : String) (d : Directory) → str_eq name n ≡ false → next name d n ≡ d n
  unfolding next
  next_other name n d h =
      elim (Bool-cases (is_orphan name (d name) && not dry_run && not (refuses name))) [
        | inl e ↦ rw (e, h) refl
        | inr e ↦ rw e refl
      ]

  abbrev pub is_removed : List String → Directory → String → Bool
  is_removed names d n =
      contains_name n names && is_orphan n (d n) && not dry_run && not (refuses n)

  abbrev goes : String → Directory → Bool
  goes n d = is_orphan n (d n) && not dry_run && not (refuses n)

  removed_self :
      (names : List String) (n : String) (d : Directory)
      → (if is_removed names (next n d) n then none else next n d n)
        ≡ (if goes n d then none else d n)
  removed_self names n d = elim (Bool-cases (goes n d)) [
    | inl gone ↦ rw (next_self n d, gone) (ground arith)
    | inr stays ↦ rw (next_self n d, stays) (ground arith)
  ]

  -- The entry of a name that was listed is removed where it is an orphan, the run is no dry run and
  -- the system does not refuse it; every other entry is as it was.
  pub sweep_lem :
      (names : List String) (d : Directory) (n : String)
      → (sweep is_orphan refuses dry_run names d).0 n ≡ (if is_removed names d n then none else d n)
  unfolding sweep next
  sweep_lem [] d n = refl
  sweep_lem (name ∷ names) d n =
      sweep_lem names (next name d) n ∙ elim (Bool-cases (str_eq name n)) [
        | inl same ↦ rw same (
            subst
              (λ m.
                (if is_removed names (next m d) n then none else next m d n)
                ≡ (if goes n d then none else d n))
              (sym ((eq_iff name n).0 same)) (removed_self names n d))
        | inr other ↦ rw (next_other name n d other, other) refl
      ]

  pub sweep_keeps :
      (names : List String) (d : Directory) (n : String)
      → is_orphan n (d n) ≡ false
      → (sweep is_orphan refuses dry_run names d).0 n ≡ d n
  sweep_keeps names d n kept = sweep_lem names d n ∙ rw kept (ground arith)

  pub sweep_removes :
      (names : List String) (d : Directory) (n : String)
      → is_removed names d n ≡ true
      → (sweep is_orphan refuses dry_run names d).0 n ≡ none
  sweep_removes names d n removed = sweep_lem names d n ∙ rw removed refl

  abbrev pub is_reported : List String → Directory → String → Bool
  is_reported names d n = contains_name n names && is_orphan n (d n) && (dry_run || not (refuses n))

  reported_self :
      (names : List String) (n : String) (d : Directory)
      → (if is_orphan n (d n) && (dry_run || not (refuses n))
          then true
          else is_reported names (next n d) n)
        ≡ (is_orphan n (d n) && (dry_run || not (refuses n)))
  reported_self names n d = elim (Bool-cases (goes n d)) [
    | inl gone ↦ rw (next_self n d, gone) (ground (arith, nothing n))
    | inr stays ↦ rw (next_self n d, stays) (ground arith)
  ]

  -- A name is reported as deleted where it was listed, is an orphan, and the run is a dry run or the
  -- system does not refuse its removal.
  pub sweep_reports :
      (names : List String) (d : Directory) (n : String)
      → contains_name n (sweep is_orphan refuses dry_run names d).1.deleted ≡ is_reported names d n
  unfolding sweep next
  sweep_reports [] d n = refl
  sweep_reports (name ∷ names) d n =
      noted (is_orphan name (d name)) dry_run (refuses name) name n _
      ∙ elim (Bool-cases (str_eq name n)) [
        | inl same ↦
            rw (same, sweep_reports names (next name d) n)
              (subst
                (λ m.
                  (if is_orphan m (d m) && (dry_run || not (refuses m))
                    then true
                    else is_reported names (next m d) n)
                  ≡ (is_orphan n (d n) && (dry_run || not (refuses n))))
                (sym ((eq_iff name n).0 same)) (reported_self names n d))
        | inr other ↦
            rw (other, sweep_reports names (next name d) n, next_other name n d other) refl
      ]

abbrev pub allows : String → Bool
allows name = false

-- Of a dry run and a real one: the first removes nothing, the second just what the first reports.
abbrev pub IsForetold : (dry real : Directory × Swept) → Directory → String → Type 0
IsForetold dry real d n =
    (dry.0 n ≡ d n) × (real.0 n ≡ (if contains_name n dry.1.deleted then none else d n))

sweep-IsForetold :
    (is_orphan : String → Option Entry → Bool)
    (nothing : (name : String) → is_orphan name none ≡ false) (refuses : String → Bool)
    (names : List String) (d : Directory) (n : String)
    → IsForetold (sweep is_orphan refuses true names d) (sweep is_orphan allows false names d) d n
sweep-IsForetold is_orphan nothing refuses names d n = (
  sweep_lem is_orphan refuses true nothing names d n ∙ ground arith,
  sweep_lem is_orphan allows false nothing names d n
      ∙ rw (sweep_reports is_orphan refuses true nothing names d n) (ground arith),
)

module _ (is_orphan : List String → String → Option Entry → Bool)
    (nothing : (names : List String) (name : String) → is_orphan names name none ≡ false)
    (redis_error listing_error : String) (refuses : String → Bool) where
  -- A name that Redis refers to keeps its entry.
  pub pass_keeps :
      (enabled dry_run : Bool) (referenced listed : Option (List String)) (d : Directory)
      (n : String)
      → ((names : List String) → referenced ≡ some names → is_orphan names n (d n) ≡ false)
      → (pass is_orphan refuses redis_error listing_error enabled dry_run referenced listed d).0 n
        ≡ d n
  unfolding pass
  pass_keeps false dry_run referenced listed d n kept = refl
  pass_keeps true dry_run none listed d n kept = refl
  pass_keeps true dry_run (some names) none d n kept = refl
  pass_keeps true dry_run (some names) (some listed) d n kept =
      sweep_keeps (is_orphan names) refuses dry_run (nothing names) listed d n (kept names refl)

  -- The entry of a name that was listed is removed where the system does not refuse it.
  pub pass_removes :
      (enabled : Bool) (names listed : List String) (d : Directory) (n : String)
      → enabled ≡ true
      → contains_name n listed ≡ true
      → is_orphan names n (d n) ≡ true
      → refuses n ≡ false
      → (pass is_orphan refuses redis_error listing_error enabled false
            (some names)
            (some listed)
            d).0
          n
        ≡ none
  unfolding pass
  pass_removes false names listed d n on here orphan allowed = ground (arith, on)
  pass_removes true names listed d n on here orphan allowed =
      sweep_removes (is_orphan names) refuses false (nothing names) listed d n
        (rw (here, orphan, allowed) refl)

  pub pass-IsForetold :
      (enabled : Bool) (referenced listed : Option (List String)) (d : Directory) (n : String)
      → IsForetold
          (pass is_orphan refuses redis_error listing_error enabled true referenced listed d)
          (pass is_orphan allows redis_error listing_error enabled false referenced listed d)
          d
          n
  unfolding pass
  pass-IsForetold false referenced listed d n = (refl, refl)
  pass-IsForetold true none listed d n = (refl, refl)
  pass-IsForetold true (some names) none d n = (refl, refl)
  pass-IsForetold true (some names) (some listed) d n =
      sweep-IsForetold (is_orphan names) (nothing names) refuses listed d n
