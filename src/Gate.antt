-- ===== src/Gate.antt =====
-- app/services/titiler_gate.py and app/services/db_load_gate.py: at most `max_concurrent` callers
-- inside, and a deque of waiting callers from which the newest is woken first. A caller and its
-- event are one number. Each `async with lock` block is one step, since nothing is awaited inside.
-- `active` and `waiters` are the source's; `woken` and `running` say where the callers stand.
pub mod Counts
pub mod Overshoot
use geofastmap_api.Prelude.{
  ℕ, suc, ◌+◌, ◌-◌, ◌≡◌, Bool, true, false, ◌||◌, List, [], ◌∷◌, if◌then◌else◌, ltb, ◌==◌,
}

pub record Gate : Type 0 where
  pub active : ℕ
  pub waiters : List ℕ
  -- Callers whose event is set and that have not taken their slot yet.
  pub woken : List ℕ
  -- Callers inside `fn`.
  pub running : List ℕ

abbrev pub fresh : Gate
fresh = record { active = 0; waiters = []; woken = []; running = [] }

abbrev pub contains : ℕ → List ℕ → Bool
contains t [] = false
contains t (x ∷ xs) = x == t || contains t xs

-- `deque.remove`: the first occurrence, and no change where there is none (ValueError: pass).
abbrev pub remove : ℕ → List ℕ → List ℕ
remove t [] = []
remove t (x ∷ xs) = if x == t then xs else x ∷ remove t xs

-- The first block: a free slot is taken, or else the caller joins the waiters on the left.
unfoldable pub enter : ℕ → ℕ → Gate → Gate
enter max_concurrent t g =
    if ltb g.active max_concurrent
    then record g { active = g.active + 1; running = t ∷ g.running }
    else record g { waiters = t ∷ g.waiters }

-- `_waiters.popleft().set()`
wake : List ℕ → Gate → Gate
wake [] g = g
wake (w ∷ ws) g = record g { waiters = ws; woken = w ∷ g.woken }

-- `_release_slot` and `_release`, and the caller is gone. `active` is at least 1 here.
pub release : ℕ → Gate → Gate
unfolding wake
release t g = wake g.waiters (record g { active = g.active - 1; running = remove t g.running })

-- The last block: a woken caller counts itself in, whatever `active` is by then.
pub resume : ℕ → Gate → Gate
resume t g = record g { active = g.active + 1; woken = remove t g.woken; running = t ∷ g.running }

-- `_abandon_waiter`, and the blocks that remove the event on overload or on an exception.
pub abandon : ℕ → Gate → Gate
abandon t g = record g { waiters = remove t g.waiters }

-- `abandon` by a caller whose event is set already: an exception reaches it before it goes on.
pub cancel_woken : ℕ → Gate → Gate
unfolding abandon
cancel_woken t g = let g' = abandon t g in record g' { woken = remove t g'.woken }

-- A caller that is not at the gate.
abbrev pub is_away : ℕ → Gate → Bool
is_away t g =
    if contains t g.waiters
    then false
    else if contains t g.woken
    then false
    else if contains t g.running
    then false
    else true

-- What the callers do, but for a caller that fails after it was woken.
pub data Calm (max_concurrent : ℕ) (g : Gate) : Gate → Type 0 where
  enters : (t : ℕ) → is_away t g ≡ true → Calm max_concurrent g (enter max_concurrent t g)
  leaves : (t : ℕ) → contains t g.running ≡ true → Calm max_concurrent g (release t g)
  resumes : (t : ℕ) → contains t g.woken ≡ true → Calm max_concurrent g (resume t g)
  gives_up : (t : ℕ) → contains t g.waiters ≡ true → Calm max_concurrent g (abandon t g)

pub data Step (max_concurrent : ℕ) (g : Gate) : Gate → Type 0 where
  calm : {h : Gate} → Calm max_concurrent g h → Step max_concurrent g h
  cancelled : (t : ℕ) → contains t g.woken ≡ true → Step max_concurrent g (cancel_woken t g)

pub data Reach (R : Gate → Gate → Type 0) : Gate → Type 0 where
  start : Reach R fresh
  later : {g h : Gate} → Reach R g → R g h → Reach R h
