-- ===== src/Titiler/Inflight/Sharing.antt =====
-- app/services/titiler_inflight.py: one fetch at a time for a key, whose outcome all its callers get.
use mathlib.Core.Option.{some-injective}
use geofastmap_api.Prelude.{
  ℕ, ◌<◌, ◌≡◌, ◌≢◌, String, sym, ap, ◌∙◌, inl, inr, true, none, some, arith, eq_iff, eq_refl,
  Option-cases,
}
use geofastmap_api.Titiler.Inflight.{
  fetching, clearing, is_live, put, Fetched, Outcome, unset, done, waits, got, Registry, fresh,
  lead, follow, enter, settle, finish, clear, receive, cancel, Calm, enters, finishes, clears,
  receives, Step, calm, cancels, Reach, start, later,
}

module _ (Tile Error : Type 0) where
  -- The futures that the registry names are those whose `_run` has not ended, each under its key; a
  -- future of these that is not settled is being fetched, as is one that a caller waits on; and a
  -- caller has got what its future holds.
  pub record Inv (g : Registry Tile Error) : Type 0 where
    pub entry :
        (k : String) (n : ℕ) → g.pending k ≡ some n → (g.key n ≡ k) × (is_live (g.task n) ≡ true)
    pub listed : (n : ℕ) → is_live (g.task n) ≡ true → (g.pending (g.key n) ≡ some n) × (n < g.next)
    pub settled : (n : ℕ) → g.task n ≡ clearing → g.future n ≢ unset
    pub awaited :
        (c n : ℕ) → g.caller c ≡ waits n → (n < g.next) × (g.future n ≡ unset → g.task n ≡ fetching)
    pub received :
        (c n : ℕ) (o : Outcome Tile Error)
        → g.caller c ≡ got n o
        → (n < g.next) × (g.future n ≡ done o)

  lead-Inv :
      (k : String) (c : ℕ) (g : Registry Tile Error)
      → g.pending k ≡ none
      → Inv g
      → Inv (lead Tile Error k c g)
  unfolding lead
  lead-Inv k c g e v = record {
    entry = λ j n. ground (arith, eq_iff k j, v.entry j n, v.listed n);
    listed = λ n.
        ground (arith, eq_iff k (put g.key g.next k n), eq_refl k, v.listed n, v.listed g.next);
    settled = λ n. ground (arith, v.settled n);
    awaited = λ d n. ground (arith, v.awaited d n);
    received = λ d n o. ground (arith, v.received d n o);
  }

  follow-Inv :
      (k : String) (c n : ℕ) (g : Registry Tile Error)
      → g.pending k ≡ some n
      → Inv g
      → Inv (follow Tile Error n c g)
  unfolding follow
  follow-Inv k c n g e v = record {
    entry = v.entry;
    listed = v.listed;
    settled = v.settled;
    awaited = λ d m. ground (arith, v.awaited d m, v.entry k n, v.listed n, v.settled n);
    received = λ d m o. ground (arith, v.received d m o);
  }

  pub finish-Inv :
      (n : ℕ) (f : Fetched Tile Error) (g : Registry Tile Error)
      → g.task n ≡ fetching
      → Inv g
      → Inv (finish Tile Error n f g)
  unfolding finish settle
  finish-Inv n f g t v = record {
    entry = λ k m. ground (arith, v.entry k m);
    listed = λ m. ground (arith, v.listed m, v.listed n);
    settled = λ m. ground (arith, v.settled m);
    awaited = λ c m. ground (arith, v.awaited c m);
    received = λ c m o. ground (arith, v.received c m o);
  }

  clear-Inv :
      (n : ℕ) (g : Registry Tile Error) → g.task n ≡ clearing → Inv g → Inv (clear Tile Error n g)
  unfolding clear
  clear-Inv n g t v = record {
    entry = λ k m. ground (arith, v.entry k m, eq_iff (g.key n) k, v.listed n);
    listed = λ m. ground (arith, v.listed m, v.listed n, eq_iff (g.key n) (g.key m));
    settled = λ m. ground (arith, v.settled m);
    awaited = λ c m. ground (arith, v.awaited c m, v.settled m);
    received = v.received;
  }

  receive-Inv :
      (c n : ℕ) (o : Outcome Tile Error) (g : Registry Tile Error)
      → g.caller c ≡ waits n
      → g.future n ≡ done o
      → Inv g
      → Inv (receive Tile Error c n o g)
  unfolding receive
  receive-Inv c n o g w d v = record {
    entry = v.entry;
    listed = v.listed;
    settled = v.settled;
    awaited = λ b m. ground (arith, v.awaited b m);
    received = λ b m p. ground (arith, v.received b m p, v.awaited c n);
  }

  pub cancel-Inv :
      (c n : ℕ) (g : Registry Tile Error)
      → g.caller c ≡ waits n
      → Inv g
      → Inv (cancel Tile Error c n g)
  unfolding cancel settle
  cancel-Inv c n g w v = record {
    entry = v.entry;
    listed = v.listed;
    settled = λ m. ground (arith, v.settled m);
    awaited = λ b m. ground (arith, v.awaited b m);
    received = λ b m p. ground (arith, v.received b m p);
  }

  Calm-Inv : {g h : Registry Tile Error} → Calm Tile Error g h → Inv g → Inv h
  Calm-Inv {g} (enters k c w) v =
      unfold enter in
      elim (Option-cases (g.pending k)) [
        | inl e ↦ rw (e, enter) (lead-Inv k c g e v)
        | inr (n, e) ↦ rw (e, enter) (follow-Inv k c n g e v)
      ]
  Calm-Inv {g} (finishes n f t) v = finish-Inv n f g t v
  Calm-Inv {g} (clears n t) v = clear-Inv n g t v
  Calm-Inv {g} (receives c n o w d) v = receive-Inv c n o g w d v

  pub Step-Inv : {g h : Registry Tile Error} → Step Tile Error g h → Inv g → Inv h
  Step-Inv (calm c) v = Calm-Inv c v
  Step-Inv {g} (cancels c n w) v = cancel-Inv c n g w v

  pub fresh-Inv : Inv (fresh Tile Error)
  fresh-Inv = record {
    entry = λ k n e. cc;
    listed = λ n e. cc;
    settled = λ n e. cc;
    awaited = λ c n e. cc;
    received = λ c n o e. cc;
  }

  -- Whatever callers come, are served or are cancelled, and however the fetches end, in any order:
  -- the registry names exactly the futures whose `_run` has not ended, each under its key; a caller
  -- waits on a future that is settled or being fetched; and what a caller got its future holds.
  pub Reach-Inv :
      {g : Registry Tile Error} → Reach Tile Error (Step Tile Error) (fresh Tile Error) g → Inv g
  Reach-Inv start = fresh-Inv
  Reach-Inv (later r s) = Step-Inv s (Reach-Inv r)

  -- Two fetches that run at the same time, or whose `finally` block has not ended, are for different
  -- keys, whatever callers come, are served or are cancelled.
  pub one_fetch :
      {g : Registry Tile Error} (m n : ℕ)
      → Reach Tile Error (Step Tile Error) (fresh Tile Error) g
      → is_live (g.task m) ≡ true
      → is_live (g.task n) ≡ true
      → g.key m ≡ g.key n
      → m ≡ n
  one_fetch {g} m n r live_m live_n same =
      let (at_m, _) = (Reach-Inv r).listed m live_m in
      let (at_n, _) = (Reach-Inv r).listed n live_n in
      some-injective m n (sym at_m ∙ ap g.pending same ∙ at_n)
