-- ===== src/Titiler/Inflight.antt =====
-- app/services/titiler_inflight.py: the callers of one cache key share one fetch. Each block between
-- two awaits is one step. A future is a number; `await fut` waits on the future itself, so asyncio
-- cancels it with a caller that waits on it.
pub mod Sharing
pub mod Outcomes
use geofastmap_api.Prelude.{
  ℕ, suc, ◌≡◌, String, Bool, true, false, Option, none, some, if◌then◌else◌, ◌==◌, str_eq,
}

pub data Task : Type 0 where
  idle fetching clearing : Task

-- `_run` has been started and its `finally` block has not ended.
abbrev pub is_live : Task → Bool
is_live idle = false
is_live fetching = true
is_live clearing = true

abbrev pub put {ℓ} : {V : Type ℓ} → (ℕ → V) → ℕ → V → ℕ → V
put f k v j = if k == j then v else f j

abbrev pub put_key {ℓ} : {V : Type ℓ} → (String → V) → String → V → String → V
put_key f k v j = if str_eq k j then v else f j

module _ (Tile Error : Type 0) where
  -- What `fetch_once` gives.
  pub data Fetched : Type 0 where
    result : Tile → Fetched
    exception : Error → Fetched

  pub data Outcome : Type 0 where
    fetched : Fetched → Outcome
    cancelled : Outcome

  pub data Future : Type 0 where
    unset : Future
    done : Outcome → Future

  pub data Caller : Type 0 where
    away : Caller
    waits : ℕ → Caller
    got : ℕ → Outcome → Caller

  -- `pending` is the source's. `next` is the number of the next future, `key` says for which key a
  -- future was made, `task` where its `_run` stands.
  pub record Registry : Type 0 where
    pub pending : String → Option ℕ
    pub next : ℕ
    pub key : ℕ → String
    pub future : ℕ → Future
    pub task : ℕ → Task
    pub caller : ℕ → Caller

  abbrev pub fresh : Registry
  fresh = record {
    pending = λ k. none;
    next = 0;
    key = λ n. "";
    future = λ n. unset;
    task = λ n. idle;
    caller = λ c. away;
  }

  lead : String → ℕ → Registry → Registry
  lead k c g = record {
    pending = put_key g.pending k (some g.next);
    next = suc g.next;
    key = put g.key g.next k;
    future = put g.future g.next unset;
    task = put g.task g.next fetching;
    caller = put g.caller c (waits g.next);
  }

  follow : ℕ → ℕ → Registry → Registry
  follow n c g = record g { caller = put g.caller c (waits n) }

  -- The lock's block: the first caller of a key becomes the leader and starts `_run`.
  unfoldable pub enter : String → ℕ → Registry → Registry
  unfolding lead follow
  enter k c g = elim (g.pending k) [ none ↦ lead k c g | some n ↦ follow n c g ]

  -- `set_result` and `set_exception` on a future that is done raise InvalidStateError.
  pub settle : Future → Outcome → Future
  settle unset o = done o
  settle (done p) o = done p

  unfoldable pub finish : ℕ → Fetched → Registry → Registry
  unfolding settle
  finish n f g = record g {
    future = put g.future n (settle (g.future n) (fetched f));
    task = put g.task n clearing;
  }

  abbrev pub is_number : Option ℕ → ℕ → Bool
  is_number none n = false
  is_number (some m) n = m == n

  -- The `finally` block.
  pub clear : ℕ → Registry → Registry
  clear n g = record g {
    pending =
        if is_number (g.pending (g.key n)) n then put_key g.pending (g.key n) none else g.pending;
    task = put g.task n idle;
  }

  -- The await of a caller ends.
  unfoldable pub receive : ℕ → ℕ → Outcome → Registry → Registry
  receive c n o g = record g { caller = put g.caller c (got n o) }

  -- A caller's task is cancelled while it waits, and the caller is gone.
  unfoldable pub cancel : ℕ → ℕ → Registry → Registry
  unfolding settle
  cancel c n g = record g {
    future = put g.future n (settle (g.future n) cancelled);
    caller = put g.caller c away;
  }

  pub data Calm (g : Registry) : Registry → Type 0 where
    enters : (k : String) (c : ℕ) → g.caller c ≡ away → Calm g (enter k c g)
    finishes : (n : ℕ) (f : Fetched) → g.task n ≡ fetching → Calm g (finish n f g)
    clears : (n : ℕ) → g.task n ≡ clearing → Calm g (clear n g)
    receives :
        (c n : ℕ) (o : Outcome)
        → g.caller c ≡ waits n
        → g.future n ≡ done o
        → Calm g (receive c n o g)

  pub data Step (g : Registry) : Registry → Type 0 where
    calm : {h : Registry} → Calm g h → Step g h
    cancels : (c n : ℕ) → g.caller c ≡ waits n → Step g (cancel c n g)

  pub data Reach (R : Registry → Registry → Type 0) (s : Registry) : Registry → Type 0 where
    start : Reach R s s
    later : {g h : Registry} → Reach R s g → R g h → Reach R s h
