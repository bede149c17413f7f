-- ===== src/Queue/Keys.antt =====
-- Keys of the form prefix + id: when two of them differ.
use Prim.Native.String.{◌++◌}
use text.Mathlib.Text.{starts_with}
use text.Mathlib.TextPositions.{starts_with-append}
use text.Mathlib.TextLemmas.{append_cancel_left}
use geofastmap_api.Prelude.{String, false, ◌≡◌, ap, inl, inr, str_eq, eq_iff, eq_of_iff, Bool-cases}

-- A key that does not begin with the prefix is no key of that form.
pub prefix_ne :
    (prefix id k : String) → starts_with k prefix ≡ false → str_eq (prefix ++ id) k ≡ false
prefix_ne prefix id k h = elim (Bool-cases (str_eq (prefix ++ id) k)) [
  | inl e ↦
      let same = (eq_iff (prefix ++ id) k).0 e in
      let starts = starts_with-append prefix id in cc (ap (λ t. starts_with t prefix) same)
  | inr e ↦ e
]

-- Keys with one prefix are equal just where the ids are.
pub prefix_eq : (prefix id id' : String) → str_eq (prefix ++ id) (prefix ++ id') ≡ str_eq id id'
prefix_eq prefix id id' =
    eq_of_iff _ _ (λ h. (eq_iff id id').1 (append_cancel_left prefix id id' ((eq_iff _ _).0 h)))
      (λ h. (eq_iff _ _).1 (ap (λ t. prefix ++ t) ((eq_iff id id').0 h)))
