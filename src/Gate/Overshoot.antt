-- ===== src/Gate/Overshoot.antt =====
-- app/services/titiler_gate.py and app/services/db_load_gate.py: the order in which callers are
-- woken, and what happens between a wake-up and the woken caller's next step.
use geofastmap_api.Prelude.{ℕ, ◌+◌, ◌-◌, ◌≤◌, ◌<◌, ◌≡◌, true, List, ◌∷◌, arith}
use geofastmap_api.Gate.{Gate, contains, enter, wake, release, resume, cancel_woken}
use geofastmap_api.Gate.Counts.{Inv, count, length-remove, remove_absent}

-- At a full gate a slot that is freed goes to the caller who came last, and the callers who
-- waited before stay in their order.
pub release_wakes_newest :
    (max_concurrent t u : ℕ) (g : Gate)
    → max_concurrent ≤ g.active
    → let h = release u (enter max_concurrent t g) in
      (h.woken ≡ t ∷ g.woken) × (h.waiters ≡ g.waiters) × (h.active ≡ g.active - 1)
unfolding enter release wake
release_wakes_newest max_concurrent t u g full = ground arith

-- The cap is passed: where a caller waits at a gate that is just full, one slot is freed, and a
-- newcomer enters before the woken caller goes on, the gate ends with one caller more than
-- `max_concurrent` inside.
pub resume_overshoots :
    (max_concurrent t u w : ℕ) (ws : List ℕ) (g : Gate)
    → g.active ≡ max_concurrent
    → 0 < max_concurrent
    → g.waiters ≡ w ∷ ws
    → (resume w (enter max_concurrent t (release u g))).active ≡ max_concurrent + 1
unfolding enter release resume
resume_overshoots max_concurrent t u w ws g full pos e = rw (e, wake) (ground arith)

waiting_once : (w : ℕ) (g : Gate) → Inv g → count w g.waiters ≤ 1
waiting_once w g v = omega (arith, v.once w)

-- A lost wake-up: where the woken caller fails instead of going on, the slot that it was promised
-- is free, nobody else is woken for it, and the callers behind it still wait.
pub cancel_loses_wakeup :
    (u w : ℕ) (ws : List ℕ) (g : Gate)
    → Inv g
    → contains u g.running ≡ true
    → g.waiters ≡ w ∷ ws
    → let h = cancel_woken w (release u g) in
      (h.active + 1 ≡ g.active) × (h.woken ≡ g.woken) × (h.waiters ≡ ws)
unfolding cancel_woken release
cancel_loses_wakeup u w ws g v inside e =
    let size = length-remove u g.running inside in
    let single : count w (w ∷ ws) ≤ 1 = rw e at (waiting_once w g v) in
    rw (e, wake) (ground (arith, v.counted), ground arith, remove_absent w ws (ground arith))
