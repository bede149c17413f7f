-- ===== src/Examples/Gate.antt =====
-- app/services/titiler_gate.py with one slot: caller 1 is inside, 2 and then 3 wait.
use geofastmap_api.Prelude.{◌≡◌, refl, [], ◌∷◌, arith}
use geofastmap_api.Gate.{
  Gate, enter, release, resume, cancel_woken, Calm, enters, Step, calm, Reach, start, later,
}
use geofastmap_api.Gate.Counts.{Inv, IsServed, Reach-Inv, Reach-IsServed}
use geofastmap_api.Gate.Overshoot.{resume_overshoots, cancel_loses_wakeup}

abbrev crowded : Gate
crowded = record { active = 1; waiters = 3 ∷ 2 ∷ []; woken = []; running = 1 ∷ [] }

queued : Reach (Calm 1) crowded
unfolding enter
queued = later (later (later start (enters 1 refl)) (enters 2 refl)) (enters 3 refl)

queued_steps : Reach (Step 1) crowded
unfolding enter
queued_steps =
    later (later (later start (calm (enters 1 refl))) (calm (enters 2 refl))) (calm (enters 3 refl))

Reach-Inv_example : Inv crowded
Reach-Inv_example = Reach-Inv queued_steps

Reach-IsServed_example : IsServed 1 crowded
Reach-IsServed_example = Reach-IsServed queued

resume_overshoots_example : (resume 3 (enter 1 4 (release 1 crowded))).active ≡ 2
resume_overshoots_example = resume_overshoots 1 4 1 3 (2 ∷ []) crowded refl (omega arith) refl

cancel_loses_wakeup_example : (cancel_woken 3 (release 1 crowded)).waiters ≡ 2 ∷ []
cancel_loses_wakeup_example =
    (cancel_loses_wakeup 1 3 (2 ∷ []) crowded (Reach-Inv queued_steps) refl refl).2
