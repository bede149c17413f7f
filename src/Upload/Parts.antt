-- ===== src/Upload/Parts.antt =====
-- app/services/bulk_upload_sessions.py: the sorted list of part numbers.
use geofastmap_api.Prelude.{
  ℕ, zero, suc, ◌+◌, ◌≤◌, ◌<◌, ◌≡◌, refl, subst, ◌↔◌, Bool, true, false, List, [], ◌∷◌,
  if◌then◌else◌, ◌==◌, arith,
}
use geofastmap_api.Upload.{add_number, sorted_set}

abbrev pub has : ℕ → List ℕ → Bool
has n [] = false
has n (m ∷ ms) = if m == n then true else has n ms

-- Ascending, and from a number on.
abbrev pub AscendsFrom : ℕ → List ℕ → Type 0
AscendsFrom a [] = Unit {0}
AscendsFrom a (n ∷ ns) = (a ≤ n) × AscendsFrom (suc n) ns

pub add_number-AscendsFrom :
    (a n : ℕ) (ns : List ℕ) → a ≤ n → AscendsFrom a ns → AscendsFrom a (add_number n ns)
unfolding add_number
add_number-AscendsFrom a n [] h s = ground arith
add_number-AscendsFrom a n (m ∷ ms) h s = ground (arith, add_number-AscendsFrom (suc m) n ms)

pub has-add_number :
    (k n : ℕ) (ns : List ℕ) → has k (add_number n ns) ≡ (if n == k then true else has k ns)
unfolding add_number
has-add_number k n [] = refl
has-add_number k n (m ∷ ms) = ground (arith, has-add_number k n ms)

pub sorted_set-AscendsFrom : (ns : List ℕ) → AscendsFrom 0 (sorted_set ns)
unfolding sorted_set
sorted_set-AscendsFrom [] = tt
sorted_set-AscendsFrom (n ∷ ns) =
    add_number-AscendsFrom 0 n (sorted_set ns) (omega arith) (sorted_set-AscendsFrom ns)

pub has-sorted_set : (k : ℕ) (ns : List ℕ) → has k (sorted_set ns) ≡ has k ns
unfolding sorted_set
has-sorted_set k [] = refl
has-sorted_set k (n ∷ ns) = rw (has-add_number k n (sorted_set ns), has-sorted_set k ns) refl

abbrev pub range : ℕ → ℕ → List ℕ
range a zero = []
range a (suc n) = a ∷ range (suc a) n

has_later : (k a : ℕ) (ns : List ℕ) → AscendsFrom a ns → k < a → has k ns ≡ false
has_later k a [] s h = refl
has_later k a (n ∷ ns) s h = ground (arith, has_later k (suc n) ns)

-- An ascending list with the members of a range is the range.
pub range_unique :
    (a n : ℕ) (ns : List ℕ)
    → AscendsFrom a ns
    → ((k : ℕ) → (has k ns ≡ true) ↔ ((a ≤ k) × (k < a + n)))
    → ns ≡ range a n
range_unique a zero [] s h = refl
range_unique a zero (m ∷ ms) s h = ground (arith, h m)
range_unique a (suc n) [] s h = ground (arith, h a)
range_unique a (suc n) (m ∷ ms) s h =
    let first : m ≡ a = ground (arith, h a, h m, has_later a (suc m) ms) in
    let rest =
      range_unique (suc a) n ms (subst (λ x. AscendsFrom (suc x) ms) first (s.1))
        (λ k. ground (arith, h k, has_later k (suc m) ms)) in
    rw (first, rest)
