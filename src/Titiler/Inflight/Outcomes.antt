-- ===== src/Titiler/Inflight/Outcomes.antt =====
-- app/services/titiler_inflight.py: which outcome the callers of one future get.
use geofastmap_api.Prelude.{ℕ, ◌<◌, ◌≡◌, refl, inl, inr, String, arith, Option-cases}
use geofastmap_api.Titiler.Inflight.{
  fetching, Fetched, Outcome, fetched, cancelled, Future, unset, done, waits, got, Registry, fresh,
  lead, follow, enter, settle, finish, clear, receive, cancel, Calm, enters, finishes, clears,
  receives, Step, calm, cancels, Reach, start, later,
}
use geofastmap_api.Titiler.Inflight.Sharing.{Inv, Step-Inv, Reach-Inv, finish-Inv, cancel-Inv}

module _ (Tile Error : Type 0) where
  -- A future that is done stays as it is.
  abbrev Settled : Registry Tile Error → ℕ → Outcome Tile Error → Type 0
  Settled g n o = (n < g.next) × (g.future n ≡ done o)

  enter-Settled :
      (k : String) (c : ℕ) (g : Registry Tile Error) (n : ℕ) (o : Outcome Tile Error)
      → Settled g n o
      → Settled (enter Tile Error k c g) n o
  unfolding enter lead follow
  enter-Settled k c g n o s = elim (Option-cases (g.pending k)) [
    | inl e ↦ rw (e, enter) (ground arith)
    | inr (m, e) ↦ rw (e, enter) s
  ]

  settle-done :
      (f : Future Tile Error) (o p : Outcome Tile Error)
      → f ≡ done o
      → settle Tile Error f p ≡ done o
  unfolding settle
  settle-done unset o p e = cc
  settle-done (done q) o p e = e

  Step-Settled :
      {g h : Registry Tile Error} (n : ℕ) (o : Outcome Tile Error)
      → Step Tile Error g h
      → Settled g n o
      → Settled h n o
  Step-Settled {g} n o (calm (enters k c w)) s = enter-Settled k c g n o s
  Step-Settled {g} n o (calm (finishes m f t)) s =
      unfold finish in ground (arith, settle-done (g.future n) o (fetched f))
  Step-Settled n o (calm (clears m t)) s = unfold clear in s
  Step-Settled n o (calm (receives c m p w d)) s = unfold receive in s
  Step-Settled {g} n o (cancels c m w) s =
      unfold cancel in ground (arith, settle-done (g.future n) o cancelled)

  Reach-Settled :
      {g h : Registry Tile Error} (n : ℕ) (o : Outcome Tile Error)
      → Reach Tile Error (Step Tile Error) g h
      → Settled g n o
      → Settled h n o
  Reach-Settled n o start s = s
  Reach-Settled n o (later r st) s = Step-Settled n o st (Reach-Settled n o r s)

  Reach-Inv-from :
      {g h : Registry Tile Error}
      → Reach Tile Error (Step Tile Error) g h
      → Inv Tile Error g
      → Inv Tile Error h
  Reach-Inv-from start v = v
  Reach-Inv-from (later r st) v = Step-Inv Tile Error st (Reach-Inv-from r v)

  -- Who gets the outcome of a future that is done gets what it holds.
  got-Settled :
      {g h : Registry Tile Error} (n c : ℕ) (o p : Outcome Tile Error)
      → Reach Tile Error (Step Tile Error) g h
      → Inv Tile Error g
      → Settled g n o
      → h.caller c ≡ got n p
      → p ≡ o
  got-Settled {h = h} n c o p r v s e =
      let (_, holds) = Reach-Settled n o r s in
      let (_, received) = (Reach-Inv-from r v).received c n p e in cc

  -- Without a cancelled caller a fetch that runs has a future to settle.
  enter-unset :
      (k : String) (c : ℕ) (g : Registry Tile Error) (n : ℕ)
      → (g.task n ≡ fetching → g.future n ≡ unset)
      → (enter Tile Error k c g).task n ≡ fetching
      → (enter Tile Error k c g).future n ≡ unset
  unfolding enter lead follow
  enter-unset k c g n u = elim (Option-cases (g.pending k)) [
    | inl e ↦ rw (e, enter) (ground arith)
    | inr (m, e) ↦ rw (e, enter) u
  ]

  Calm-unset :
      {g h : Registry Tile Error} (n : ℕ)
      → Calm Tile Error g h
      → (g.task n ≡ fetching → g.future n ≡ unset)
      → h.task n ≡ fetching
      → h.future n ≡ unset
  Calm-unset {g} n (enters k c w) u = enter-unset k c g n u
  Calm-unset n (finishes m f t) u = unfold finish in ground arith
  Calm-unset n (clears m t) u = unfold clear in ground arith
  Calm-unset n (receives c m p w d) u = unfold receive in u

  Reach-unset :
      {g : Registry Tile Error} (n : ℕ)
      → Reach Tile Error (Calm Tile Error) (fresh Tile Error) g
      → g.task n ≡ fetching
      → g.future n ≡ unset
  Reach-unset n start t = refl
  Reach-unset n (later r s) t = Calm-unset n s (Reach-unset n r) t

  Calm-Step :
      {g h : Registry Tile Error}
      → Reach Tile Error (Calm Tile Error) g h
      → Reach Tile Error (Step Tile Error) g h
  Calm-Step start = start
  Calm-Step (later r s) = later (Calm-Step r) (calm s)

  -- Where no caller was cancelled before a fetch ended, its result or exception is what each caller
  -- gets from its future, whether the caller came before or after the end, and whoever is cancelled
  -- afterwards.
  pub callers_share :
      {g h : Registry Tile Error} (n c : ℕ) (f : Fetched Tile Error) (o : Outcome Tile Error)
      → Reach Tile Error (Calm Tile Error) (fresh Tile Error) g
      → g.task n ≡ fetching
      → Reach Tile Error (Step Tile Error) (finish Tile Error n f g) h
      → h.caller c ≡ got n o
      → o ≡ fetched f
  unfolding finish settle
  callers_share {g} n c f o before t after e =
      let v = Reach-Inv Tile Error (Calm-Step before) in
      let open_future = Reach-unset n before t in
      let listed = v.listed n (rw t refl) in
      got-Settled n c (fetched f) o after (finish-Inv Tile Error n f g t v) (ground arith) e

  -- A caller that is cancelled while the fetch still runs takes the others with it: whoever waits
  -- on the same future, or comes to it later, gets a cancellation if anything, whatever the fetch
  -- gives.
  pub cancel_spreads :
      {g h : Registry Tile Error} (n c d : ℕ) (o : Outcome Tile Error)
      → Reach Tile Error (Step Tile Error) (fresh Tile Error) g
      → g.caller c ≡ waits n
      → g.future n ≡ unset
      → Reach Tile Error (Step Tile Error) (cancel Tile Error c n g) h
      → h.caller d ≡ got n o
      → o ≡ cancelled
  unfolding cancel settle
  cancel_spreads {g} n c d o before w open_future after e =
      let v = Reach-Inv Tile Error before in
      let (known, _) = v.awaited c n w in
      got-Settled n d cancelled o after (cancel-Inv Tile Error c n g w v) (ground arith) e
