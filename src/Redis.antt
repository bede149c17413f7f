-- ===== src/Redis.antt =====
-- The Redis commands that the queues call, as an interface with the laws of the commands' manual.
-- `W` is the type of the texts that the lists hold. A command that fails raises in the source, and
-- ends the operation; these are the commands that succeed.
use geofastmap_api.Prelude.{
  ℕ, String, Bool, true, false, ◌≡◌, Option, none, some, List, [], ◌∷◌, if◌then◌else◌, str_eq,
}

pub record Redis (W : Type 0) : Type 1 where
  pub State : Type 0
  -- GET; SET with EX; the seconds that a key is given to live by its last SET; DEL
  pub get : State → String → Option String
  pub set : State → String → String → ℕ → State
  pub ttl : State → String → Option ℕ
  pub delete : State → String → State
  -- SET with NX and EX, with whether it was set; EXPIRE
  pub set_nx : State → String → String → ℕ → State × Bool
  pub expire : State → String → ℕ → State
  -- LRANGE 0 -1 and LPUSH
  pub lrange : State → String → List W
  pub lpush : State → String → W → State
  pub get-set :
      (s : State) (k j v : String) (ex : ℕ)
      → get (set s k v ex) j ≡ (if str_eq k j then some v else get s j)
  pub ttl-set :
      (s : State) (k j v : String) (ex : ℕ)
      → ttl (set s k v ex) j ≡ (if str_eq k j then some ex else ttl s j)
  pub set_nx-none :
      (s : State) (k v : String) (ex : ℕ) → get s k ≡ none → set_nx s k v ex ≡ (set s k v ex, true)
  pub set_nx-some :
      (s : State) (k v w : String) (ex : ℕ) → get s k ≡ some w → set_nx s k v ex ≡ (s, false)
  pub get-expire : (s : State) (k j : String) (ex : ℕ) → get (expire s k ex) j ≡ get s j
  pub get-delete :
      (s : State) (k j : String) → get (delete s k) j ≡ (if str_eq k j then none else get s j)
  pub get-lpush :
      (s : State) (k j : String) (w : W) → str_eq k j ≡ false → get (lpush s k w) j ≡ get s j
  pub ttl-lpush :
      (s : State) (k j : String) (w : W) → str_eq k j ≡ false → ttl (lpush s k w) j ≡ ttl s j
  pub lrange-lpush :
      (s : State) (k j : String) (w : W)
      → lrange (lpush s k w) j ≡ (if str_eq k j then w ∷ lrange s j else lrange s j)
  pub lrange-set :
      (s : State) (k j v : String) (ex : ℕ)
      → str_eq k j ≡ false
      → lrange (set s k v ex) j ≡ lrange s j

-- LREM with the count 1, by an equality of texts: the first element that is the given text goes,
-- and the answer is the number of the removed.
unfoldable pub lrem_one : {W : Type 0} → (W → W → Bool) → List W → W → List W × ℕ
lrem_one text_eq [] p = ([], 0)
lrem_one text_eq (w ∷ ws) p =
    let (rest, n) = lrem_one text_eq ws p in if text_eq w p then (ws, 1) else (w ∷ rest, n)
