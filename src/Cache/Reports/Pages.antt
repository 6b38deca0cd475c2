-- ===== src/Cache/Reports/Pages.antt =====
-- Lists in ascending order of a key: the elements of a page, and those behind its last element.
use datasets_server.Prelude.{
  ℕ, zero, suc, ◌+◌, ◌≤◌, ◌<◌, nat_eq, ◌==◌, Bool, true, ◌&&◌, some, List, [], ◌∷◌, count, length,
  take, drop, above, ascending, ltb, ◌≡◌, refl, ◌∙◌, ap, In, here, there, arith, &&_true,
}
use datasets_server.Cache.Reports.{get_last?}

module _ {A : Type 0} (key : A → ℕ) where
  -- Behind a key that no other element has, all keys are greater.
  count-above :
      (q : A → Bool) (k : ℕ) (xs : List A)
      → above key k xs ≡ true
      → count (λ r. key r == k) xs ≡ 0
      → count (λ r. ltb k (key r) && q r) xs ≡ count q xs
  count-above q k [] h u = refl
  count-above q k (x ∷ xs) h u = ground (arith, count-above q k xs)

  above_last :
      (k : ℕ) (xs : List A) {l : A} → above key k xs ≡ true → get_last? xs ≡ some l → k ≤ key l
  above_last k [] h e = ground arith
  above_last k (x ∷ []) h e = ground arith
  above_last k (x ∷ y ∷ xs) {l} h e = above_last k (y ∷ xs) {l = l} (ground arith) e

  above-take : (n k : ℕ) (xs : List A) → above key k xs ≡ true → above key k (take n xs) ≡ true
  above-take zero k xs h = refl
  above-take (suc n) k [] h = refl
  above-take (suc n) k (x ∷ xs) h = ground (arith, above-take n k xs)

  tail_unique :
      (x : A) (xs : List A) (k : ℕ)
      → count (λ r. key r == k) (x ∷ xs) ≤ 1
      → count (λ r. key r == k) xs ≤ 1
  tail_unique x xs k h = ground arith

  dropped :
      (q : A → Bool) (m : ℕ) (x : A) (xs : List A)
      → key x ≤ m
      → count (λ r. ltb m (key r) && q r) (x ∷ xs) ≡ count (λ r. ltb m (key r) && q r) xs
  dropped q m x xs h = ground arith

  -- The elements of greater key than the last of a full page are those behind the page.
  pub count_behind :
      (q : A → Bool) (n : ℕ) (xs : List A) {l : A}
      → ascending key xs ≡ true
      → ((k : ℕ) → count (λ r. key r == k) xs ≤ 1)
      → length (take (suc n) xs) ≡ suc n
      → get_last? (take (suc n) xs) ≡ some l
      → count (λ r. ltb (key l) (key r) && q r) xs ≡ count q (drop (suc n) xs)
  count_behind q n [] asc u full e = absurd (omega arith)
  count_behind q zero (x ∷ xs) {l} asc u full e =
      ground (arith, count-above q (key x) xs, u (key x))
  count_behind q (suc n) (x ∷ []) asc u full e = absurd (omega arith)
  count_behind q (suc n) (x ∷ y ∷ xs) {l} asc u full e =
      let (up, rest) = &&_true _ _ asc in
      let below =
        above_last (key x) (take (suc n) (y ∷ xs)) {l = l} (above-take (suc n) (key x) (y ∷ xs) up)
          e in
      let behind =
        count_behind q n (y ∷ xs) {l = l} rest (λ k. tail_unique x (y ∷ xs) k (u k)) (omega arith)
          e in
      dropped q (key l) x (y ∷ xs) below ∙ behind

  -- The whole list is the page and what stands behind it.
  pub count-take-drop :
      (q : A → Bool) (n : ℕ) (xs : List A) → count q (take n xs) + count q (drop n xs) ≡ count q xs
  count-take-drop q zero xs = omega arith
  count-take-drop q (suc n) [] = omega arith
  count-take-drop q (suc n) (x ∷ xs) = ground (arith, count-take-drop q n xs)

  pub length-take_short : (n : ℕ) (xs : List A) → length (take n xs) < n → take n xs ≡ xs
  length-take_short zero xs h = absurd (omega arith)
  length-take_short (suc n) [] h = refl
  length-take_short (suc n) (x ∷ xs) h = ap (λ l. x ∷ l) (length-take_short n xs (omega arith))

  pub length-take-le : (n : ℕ) (xs : List A) → length (take n xs) ≤ n
  length-take-le zero xs = omega arith
  length-take-le (suc n) [] = omega arith
  length-take-le (suc n) (x ∷ xs) = omega (arith, length-take-le n xs)

  -- A page with an element has a last one, which stands in the list.
  pub last_of_take :
      (n : ℕ) (xs : List A)
      → 0 < length (take n xs)
      → (l : A) × (get_last? (take n xs) ≡ some l) × In l xs
  last_of_take zero xs h = absurd (omega arith)
  last_of_take (suc n) [] h = absurd (omega arith)
  last_of_take (suc zero) (x ∷ xs) h = (x, refl, here)
  last_of_take (suc (suc n)) (x ∷ []) h = (x, refl, here)
  last_of_take (suc (suc n)) (x ∷ y ∷ xs) h =
      let (l, e, i) = last_of_take (suc n) (y ∷ xs) (omega arith) in (l, e, there i)
