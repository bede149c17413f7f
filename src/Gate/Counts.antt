-- ===== src/Gate/Counts.antt =====
-- app/services/titiler_gate.py and app/services/db_load_gate.py: what the counter and the deque say
-- of the callers, whatever order they come, leave, wake and fail in.
use geofastmap_api.Prelude.{
  ℕ, ◌+◌, ◌-◌, ◌≤◌, ◌≡◌, refl, ◌⊎◌, inl, inr, true, false, List, [], ◌∷◌, arith, if◌then◌else◌,
  ◌==◌, length,
}
use geofastmap_api.Gate.{
  Gate, contains, remove, enter, wake, release, resume, abandon, cancel_woken, is_away, Calm,
  enters, leaves, resumes, gives_up, Step, calm, cancelled, Reach, start, later,
}

abbrev pub count : ℕ → List ℕ → ℕ
count t [] = 0
count t (x ∷ xs) = (if x == t then 1 else 0) + count t xs

count-remove :
    (t u : ℕ) (xs : List ℕ)
    → contains t xs ≡ true
    → count u (remove t xs) + (if t == u then 1 else 0) ≡ count u xs
count-remove t u [] h = cc
count-remove t u (x ∷ xs) h = ground (arith, count-remove t u xs)

pub length-remove :
    (t : ℕ) (xs : List ℕ) → contains t xs ≡ true → length (remove t xs) + 1 ≡ length xs
length-remove t [] h = cc
length-remove t (x ∷ xs) h = ground (arith, length-remove t xs)

count-contains : (t : ℕ) (xs : List ℕ) → contains t xs ≡ false → count t xs ≡ 0
count-contains t [] h = refl
count-contains t (x ∷ xs) h = ground (arith, count-contains t xs)

-- `active` counts the callers inside, and no caller stands in two places, or twice in one.
pub record Inv (g : Gate) : Type 0 where
  pub counted : g.active ≡ length g.running
  pub once : (u : ℕ) → count u g.waiters + count u g.woken + count u g.running ≤ 1

wake-count :
    (u : ℕ) (xs : List ℕ) (g : Gate)
    → g.waiters ≡ xs
    → (count u (wake xs g).waiters + count u (wake xs g).woken
        ≡ count u g.waiters + count u g.woken)
      × ((wake xs g).active ≡ g.active)
      × ((wake xs g).running ≡ g.running)
unfolding wake
wake-count u [] g e = (refl, refl, refl)
wake-count u (w ∷ ws) g e = (rw e (omega arith), refl, refl)

enter-Inv :
    (max_concurrent t : ℕ) (g : Gate) → is_away t g ≡ true → Inv g → Inv (enter max_concurrent t g)
unfolding enter
enter-Inv max_concurrent t g away v = record {
  counted = ground (arith, v.counted);
  once = λ u. ground (
    arith,
    v.once u,
    count-contains t g.waiters,
    count-contains t g.woken,
    count-contains t g.running,
  );
}

release-Inv : (t : ℕ) (g : Gate) → contains t g.running ≡ true → Inv g → Inv (release t g)
unfolding release
release-Inv t g inside v = record {
  counted =
      let (_, a, r) = wake-count t g.waiters freed refl in
      rw (a, r) (ground (arith, v.counted, length-remove t g.running));
  once = λ u.
      let (c, _, r) = wake-count u g.waiters freed refl in
      rw r (omega (arith, c, v.once u, count-remove t u g.running inside));
}
  where
    freed : Gate
    freed = record g { active = g.active - 1; running = remove t g.running }

Calm-Inv : {max_concurrent : ℕ} {g h : Gate} → Calm max_concurrent g h → Inv g → Inv h
Calm-Inv {max_concurrent} {g} (enters t away) v = enter-Inv max_concurrent t g away v
Calm-Inv {g = g} (leaves t inside) v = release-Inv t g inside v
Calm-Inv {g = g} (resumes t w) v =
    unfold resume in
    record {
      counted = ground (arith, v.counted);
      once = λ u. ground (arith, v.once u, count-remove t u g.woken);
    }
Calm-Inv {g = g} (gives_up t w) v =
    unfold abandon in
    record { counted = v.counted; once = λ u. ground (arith, v.once u, count-remove t u g.waiters) }

count_self : (t : ℕ) (xs : List ℕ) → contains t xs ≡ true → 1 ≤ count t xs
count_self t [] h = cc
count_self t (x ∷ xs) h = ground (arith, count_self t xs)

pub remove_absent : (t : ℕ) (xs : List ℕ) → count t xs ≡ 0 → remove t xs ≡ xs
remove_absent t [] h = refl
remove_absent t (x ∷ xs) h = ground (arith, remove_absent t xs)

cancel_woken-Inv : (t : ℕ) (g : Gate) → contains t g.woken ≡ true → Inv g → Inv (cancel_woken t g)
unfolding cancel_woken
cancel_woken-Inv t g w v = record {
  counted = v.counted;
  once = λ u.
      let absent = remove_absent t g.waiters (omega (arith, v.once t, count_self t g.woken w)) in
      rw absent (omega (arith, v.once u, count-remove t u g.woken w));
}

-- Whatever callers come, leave, are woken, give up or fail, in any order: `active` is the number of
-- callers inside, and each caller stands in one place at most.
pub Reach-Inv : {max_concurrent : ℕ} {g : Gate} → Reach (Step max_concurrent) g → Inv g
Reach-Inv start = record { counted = refl; once = λ u. omega arith }
Reach-Inv (later r (calm c)) = Calm-Inv c (Reach-Inv r)
Reach-Inv (later r (cancelled t w)) = cancel_woken-Inv t _ w (Reach-Inv r)

Calm-Step :
    {max_concurrent : ℕ} {g : Gate} → Reach (Calm max_concurrent) g → Reach (Step max_concurrent) g
Calm-Step start = start
Calm-Step (later r c) = later (Calm-Step r) (calm c)

-- Where a caller waits, the slots are taken or promised to a woken caller.
abbrev pub IsServed : ℕ → Gate → Type 0
IsServed max_concurrent g = (g.waiters ≡ []) ⊎ (max_concurrent ≤ g.active + length g.woken)

wake-IsServed :
    (max_concurrent : ℕ) (xs : List ℕ) (g : Gate)
    → g.waiters ≡ xs
    → (xs ≡ []) ⊎ (max_concurrent ≤ g.active + 1 + length g.woken)
    → IsServed max_concurrent (wake xs g)
unfolding wake
wake-IsServed max_concurrent [] g e s = inl e
wake-IsServed max_concurrent (w ∷ ws) g e s = ground arith

Calm-IsServed :
    {max_concurrent : ℕ} {g h : Gate}
    → Calm max_concurrent g h
    → Inv g
    → IsServed max_concurrent g
    → IsServed max_concurrent h
Calm-IsServed {g = g} (enters t away) v s = unfold enter in ground arith
Calm-IsServed {g = g} (leaves t inside) v s =
    unfold release in
    let size = length-remove t g.running inside in
    wake-IsServed _ g.waiters _ refl (ground (arith, v.counted))
Calm-IsServed {g = g} (resumes t w) v s = unfold resume in ground (arith, length-remove t g.woken)
Calm-IsServed {g = g} (gives_up t w) v s =
    unfold abandon in elim s [ inl e ↦ inl (rw e) | inr h ↦ inr h ]

-- As long as no caller fails after it was woken, nobody waits beside a free slot: while a caller
-- waits, every slot is taken or promised to a woken caller.
pub Reach-IsServed :
    {max_concurrent : ℕ} {g : Gate} → Reach (Calm max_concurrent) g → IsServed max_concurrent g
Reach-IsServed start = inl refl
Reach-IsServed (later r c) = Calm-IsServed c (Reach-Inv (Calm-Step r)) (Reach-IsServed r)
