-- ===== src/Composite/Paging.antt =====
-- app/services/composite_items.py: a page of a composite is a page of its members' items in a row.
use geofastmap_api.Prelude.{
  ℕ, zero, suc, ◌-◌, ◌≤◌, true, false, ◌≡◌, refl, ap, sym, inl, inr, List, [], ◌∷◌, ◌++◌, map,
  length, take, drop, length-take, leb, arith, Bool-cases,
}
use geofastmap_api.Composite.{Text, pages}

sub_zero : (n : ℕ) → n - 0 ≡ n
sub_zero n = omega arith

zero_sub : (n : ℕ) → 0 - n ≡ 0
zero_sub n = omega arith

pos_limit : (n : ℕ) → leb (suc n) 0 ≡ false
pos_limit n = ground arith

sub_past : (m n : ℕ) → m ≤ n → m - n ≡ 0
sub_past m n h = omega arith

leb-le : (m n : ℕ) → leb m n ≡ true → m ≤ n
leb-le m n h = ground arith

leb-ge : (m n : ℕ) → leb m n ≡ false → n ≤ m
leb-ge m n h = ground arith

sub_suc : (m n : ℕ) → suc m - suc n ≡ m - n
sub_suc m n = omega arith

module _ {ℓ} {A : Type ℓ} where
  take-append : (n : ℕ) (xs ys : List A) → take n (xs ++ ys) ≡ take n xs ++ take (n - length xs) ys
  take-append zero xs ys = rw zero_sub
  take-append (suc n) [] ys = rw sub_zero
  take-append (suc n) (x ∷ xs) ys = rw (sub_suc, take-append n xs ys)

  drop-append : (n : ℕ) (xs ys : List A) → drop n (xs ++ ys) ≡ drop n xs ++ drop (n - length xs) ys
  drop-append zero xs ys = rw zero_sub
  drop-append (suc n) [] ys = rw sub_zero
  drop-append (suc n) (x ∷ xs) ys = rw (sub_suc, drop-append n xs ys)

  drop_past : (n : ℕ) (xs : List A) → length xs ≤ n → drop n xs ≡ []
  drop_past zero [] h = refl
  drop_past zero (x ∷ xs) h = absurd (omega arith)
  drop_past (suc n) [] h = refl
  drop_past (suc n) (x ∷ xs) h = drop_past n xs (omega arith)

  take-min : (n : ℕ) (xs ys : List A) → take (n - length (take n xs)) ys ≡ take (n - length xs) ys
  take-min n xs ys = ap (λ k. take k ys) (omega (arith, length-take n xs))

  skip_lem :
      (n limit : ℕ) (xs ys : List A)
      → length xs ≤ n
      → take limit (drop (n - length xs) ys) ≡ take limit (drop n (xs ++ ys))
  skip_lem n limit xs ys h = rw (drop-append n xs ys, drop_past n xs h)

  spill_lem :
      (n limit : ℕ) (xs ys : List A)
      → n ≤ length xs
      → take limit (drop n xs) ++ take (limit - length (take limit (drop n xs))) ys
        ≡ take limit (drop n (xs ++ ys))
  spill_lem n limit xs ys h = rw (
    drop-append n xs ys,
    sub_past n (length xs) h,
    take-append limit (drop n xs) ys,
    take-min limit (drop n xs) ys,
  )

module _ {ℓ κ} {A : Type ℓ} {B : Type κ} (g : A → B) where
  map-take : (n : ℕ) (xs : List A) → map g (take n xs) ≡ take n (map g xs)
  map-take zero xs = refl
  map-take (suc n) [] = refl
  map-take (suc n) (x ∷ xs) = ap (λ t. g x ∷ t) (map-take n xs)

  map-drop : (n : ℕ) (xs : List A) → map g (drop n xs) ≡ drop n (map g xs)
  map-drop zero xs = refl
  map-drop (suc n) [] = refl
  map-drop (suc n) (x ∷ xs) = map-drop n xs

  length-map : (xs : List A) → length (map g xs) ≡ length xs
  length-map [] = refl
  length-map (x ∷ xs) = ap suc (length-map xs)

module _ {Feature : Type 0} (rows : Text → List Feature) (page : Text → ℕ → ℕ → List Feature)
    (member_total : Text → ℕ)
    (pages_rows : (mid : Text) (limit offset : ℕ)
      → page mid limit offset ≡ take limit (drop offset (rows mid)))
    (totals : (mid : Text) → member_total mid ≡ length (rows mid)) where
  -- The items of the composite: those of its members, one member behind the other.
  abbrev pub items : List Text → List (Text × Feature)
  items [] = []
  items (mid ∷ ms) = map (λ f. (mid, f)) (rows mid) ++ items ms

  tag : Text → Feature → Text × Feature
  tag mid f = (mid, f)

  past_member :
      (mid : Text) (ms : List Text) (limit offset : ℕ)
      → member_total mid ≤ offset
      → take limit (drop (offset - member_total mid) (items ms))
        ≡ take limit (drop offset (items (mid ∷ ms)))
  unfolding tag
  past_member mid ms limit offset past =
      rw (totals mid, sym (length-map (tag mid) (rows mid)))
        (skip_lem offset limit (map (tag mid) (rows mid)) (items ms)
          (omega (arith, past, totals mid, length-map (tag mid) (rows mid))))

  here_member :
      (mid : Text) (ms : List Text) (limit offset : ℕ)
      → offset ≤ member_total mid
      → map (λ f. (mid, f)) (page mid limit offset)
          ++ take (limit - length (page mid limit offset)) (items ms)
        ≡ take limit (drop offset (items (mid ∷ ms)))
  unfolding tag
  here_member mid ms limit offset here =
      rw
        (
          pages_rows mid limit offset,
          sym (length-map (tag mid) (take limit (drop offset (rows mid)))),
          map-take (tag mid) limit (drop offset (rows mid)),
          map-drop (tag mid) offset (rows mid),
        )
        (spill_lem offset limit (map (tag mid) (rows mid)) (items ms)
          (omega (arith, here, totals mid, length-map (tag mid) (rows mid))))

  -- A page that the loop over the members gathers is that part of all items, in their order: none
  -- is left out, repeated or misplaced at a boundary between members, whatever the limit and the
  -- offset, where each member's total is the number of its rows.
  pub pages-eq-take-drop :
      (member_ids : List Text) (limit offset : ℕ)
      → pages page member_total member_ids limit offset
        ≡ take limit (drop offset (items member_ids))
  unfolding pages
  pages-eq-take-drop [] zero zero = refl
  pages-eq-take-drop [] (suc limit) zero = refl
  pages-eq-take-drop [] zero (suc offset) = refl
  pages-eq-take-drop [] (suc limit) (suc offset) = refl
  pages-eq-take-drop (mid ∷ ms) zero offset = refl
  pages-eq-take-drop (mid ∷ ms) (suc limit) offset =
      elim (Bool-cases (leb (member_total mid) offset)) [
        | inl past ↦
            rw
              (past, pos_limit limit, pages-eq-take-drop ms (suc limit) (offset - member_total mid))
              (past_member mid ms (suc limit) offset (leb-le (member_total mid) offset past))
        | inr here ↦
            rw
              (
                here,
                pos_limit limit,
                pages-eq-take-drop ms (suc limit - length (page mid (suc limit) offset)) 0,
              )
              (here_member mid ms (suc limit) offset (leb-ge (member_total mid) offset here))
      ]

module _ {Feature : Type 0} (rows : Text → List Feature) (page : Text → ℕ → ℕ → List Feature)
    (member_total : Text → ℕ)
    (pages_rows : (mid : Text) (limit offset : ℕ)
      → page mid limit offset ≡ take limit (drop offset (rows mid))) where
  -- Where a member's total is more than the rows its query gives, and the offset lies between the
  -- two, the loop forgets the offset: the page is the one that starts with the first item of the
  -- next member, though the rows of the first member are fewer than the offset.
  pub stale_total_resets :
      (mid : Text) (ms : List Text) (limit offset : ℕ)
      → length (rows mid) ≤ offset
      → leb (member_total mid) offset ≡ false
      → pages page member_total (mid ∷ ms) (suc limit) offset
        ≡ pages page member_total ms (suc limit) 0
  unfolding pages
  stale_total_resets mid ms limit offset few more = rw (
    more,
    pos_limit limit,
    pages_rows mid (suc limit) offset,
    drop_past offset (rows mid) few,
    sub_zero,
  )
