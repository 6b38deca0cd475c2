-- ===== src/Prelude/Lists.antt =====
-- Lists under Boolean tests: Python's comprehensions with a condition, `any`, `in` and `len`.
use Prim.Native.Nat.{ℕ, zero, suc, ◌+◌, ◌≤◌}
use mathlib.Core.Path.{◌≡◌, refl, ap, ◌∙◌}
use mathlib.Core.Logic.{inl, inr}
use mathlib.Core.Bool.{Bool, true, false, ◌&&◌, ◌||◌}
use mathlib.Core.Option.{Option, none, some}
use mathlib.Core.List.{List, [], ◌∷◌, ◌++◌, map, reverse, reverse-append}
use native.Mathlib.Omega.{arith}
use datasets_server.Prelude.Tests.{Eq, ltb, leb, if◌then◌else◌, Bool-cases}

module _ {A : Type 0} where
  abbrev pub length : List A → ℕ
  length [] = 0
  length (x ∷ xs) = suc (length xs)

  -- `[x for x in xs if p(x)]`
  abbrev pub filter : (A → Bool) → List A → List A
  filter p [] = []
  filter p (x ∷ xs) = let rest = filter p xs in if p x then x ∷ rest else rest

  -- `any(p(x) for x in xs)`
  abbrev pub any : (A → Bool) → List A → Bool
  any p [] = false
  any p (x ∷ xs) = p x || any p xs

  -- `len([x for x in xs if p(x)])`
  abbrev pub count : (A → Bool) → List A → ℕ
  count p [] = 0
  count p (x ∷ xs) = let rest = count p xs in if p x then suc rest else rest

  abbrev pub take : ℕ → List A → List A
  take zero xs = []
  take (suc n) [] = []
  take (suc n) (x ∷ xs) = x ∷ take n xs

  abbrev pub drop : ℕ → List A → List A
  drop zero xs = xs
  drop (suc n) [] = []
  drop (suc n) (x ∷ xs) = drop n xs

  abbrev pub get_elem? : List A → ℕ → Option A
  get_elem? [] i = none
  get_elem? (x ∷ xs) zero = some x
  get_elem? (x ∷ xs) (suc i) = get_elem? xs i

  -- No element behind one of key `k` has a smaller key.
  abbrev pub above : (A → ℕ) → ℕ → List A → Bool
  above key k [] = true
  above key k (x ∷ xs) = leb k (key x) && above key k xs

  abbrev pub ascending : (A → ℕ) → List A → Bool
  ascending key [] = true
  ascending key (x ∷ xs) = above key (key x) xs && ascending key xs

  -- `x` stands in the list.
  pub data In (x : A) : List A → Type 0 where
    here : {xs : List A} → In x (x ∷ xs)
    there : {y : A} {xs : List A} → In x xs → In x (y ∷ xs)

-- `x in xs`
abbrev pub contains : {A : Type 0} ⦃e : Eq A⦄ → A → List A → Bool
contains x [] = false
contains ⦃e⦄ x (y ∷ ys) = e.beq x y || contains x ys

module _ {A : Type 0} where
  pub any-filter : (p q : A → Bool) (xs : List A) → any q (filter p xs) ≡ any (λ x. p x && q x) xs
  any-filter p q [] = refl
  any-filter p q (x ∷ xs) = ground (arith, any-filter p q xs)

  pub count-filter :
      (p q : A → Bool) (xs : List A) → count q (filter p xs) ≡ count (λ x. p x && q x) xs
  count-filter p q [] = refl
  count-filter p q (x ∷ xs) = ground (arith, count-filter p q xs)

  In-filter-cons :
      (p : A → Bool) {x y : A}
      → p y ≡ true
      → (ys : List A) → In x (y ∷ filter p ys)
      → (In x (filter p ys) → In x ys × (p x ≡ true))
      → In x (y ∷ ys) × (p x ≡ true)
  In-filter-cons p e ys here rest = (here, e)
  In-filter-cons p e ys (there i) rest = let (j, h) = rest i in (there j, h)

  pub count-In : (p : A → Bool) {x : A} {xs : List A} → In x xs → p x ≡ true → 1 ≤ count p xs
  count-In p here h = ground arith
  count-In p (there i) h = ground (arith, count-In p i h)

  pub count_zero-In : (p : A → Bool) {x : A} {xs : List A} → In x xs → count p xs ≡ 0 → p x ≡ false
  count_zero-In p {x} i z = elim (Bool-cases (p x)) [
    | inl e ↦ absurd (omega (arith, count-In p i e))
    | inr e ↦ e
  ]

  -- An update that decides the tests anew, where no element passes both ways, keeps a count.
  pub count-map :
      {B : Type 0} (p : B → Bool) (f : A → B) (xs : List A)
      → count p (map f xs) ≡ count (λ x. p (f x)) xs
  count-map p f [] = refl
  count-map p f (x ∷ xs) = ground (arith, count-map p f xs)

  -- Pointwise equal tests count alike.
  pub count_cong : (p q : A → Bool) (xs : List A) → ((x : A) → p x ≡ q x) → count p xs ≡ count q xs
  count_cong p q [] h = refl
  count_cong p q (x ∷ xs) h = ground (arith, h x, count_cong p q xs h)

  pub count-false : (p : A → Bool) (xs : List A) → ((x : A) → p x ≡ false) → count p xs ≡ 0
  count-false p [] h = refl
  count-false p (x ∷ xs) h = ground (arith, h x, count-false p xs h)

  -- Who passes one test passes one of two others.
  pub count_cover :
      (p q r : A → Bool) (xs : List A)
      → ((x : A) → p x ≡ true → (q x || r x) ≡ true)
      → count p xs ≤ count q xs + count r xs
  count_cover p q r [] h = omega arith
  count_cover p q r (x ∷ xs) h = ground (arith, h x, count_cover p q r xs h)

  pub count-le :
      (p q : A → Bool) (xs : List A) → ((x : A) → p x ≡ true → q x ≡ true) → count p xs ≤ count q xs
  count-le p q [] h = omega arith
  count-le p q (x ∷ xs) h = ground (arith, h x, count-le p q xs h)

  pub any-map :
      {B : Type 0} (p : B → Bool) (f : A → B) (xs : List A)
      → any p (map f xs) ≡ any (λ x. p (f x)) xs
  any-map p f [] = refl
  any-map p f (x ∷ xs) = ground (arith, any-map p f xs)

  pub any-eq-count : (p : A → Bool) (xs : List A) → any p xs ≡ ltb 0 (count p xs)
  any-eq-count p [] = refl
  any-eq-count p (x ∷ xs) = ground (arith, any-eq-count p xs)

  pub length-map : {B : Type 0} (f : A → B) (xs : List A) → length (map f xs) ≡ length xs
  length-map f [] = refl
  length-map f (x ∷ xs) = ap suc (length-map f xs)

  pub length-eq-count : (xs : List A) → length xs ≡ count (λ _. true) xs
  length-eq-count [] = refl
  length-eq-count (x ∷ xs) = ap suc (length-eq-count xs)

  -- A count by two disjoint tests.
  pub count_split :
      (p q r : A → Bool) (xs : List A)
      → ((x : A) → p x ≡ (q x || r x))
      → ((x : A) → (q x && r x) ≡ false)
      → count p xs ≡ count q xs + count r xs
  count_split p q r [] h k = refl
  count_split p q r (x ∷ xs) h k = ground (arith, h x, k x, count_split p q r xs h k)

module _ {A : Type 0} ⦃e : Eq A⦄ where
  -- How often `x` stands in the list.
  abbrev pub occurrences : A → List A → ℕ
  occurrences x xs = count (λ y. e.beq y x) xs

  beq_sym : (x y : A) → e.beq x y ≡ e.beq y x
  beq_sym x y = ground (arith, e.beq_iff x y, e.beq_iff y x)

  -- A list contains what occurs in it.
  pub contains-eq-occurrences : (x : A) (xs : List A) → contains x xs ≡ ltb 0 (occurrences x xs)
  contains-eq-occurrences x [] = refl
  contains-eq-occurrences x (y ∷ ys) = ground (arith, beq_sym x y, contains-eq-occurrences x ys)

module _ {A : Type 0} where
  pub any-append : (p : A → Bool) (xs ys : List A) → any p (xs ++ ys) ≡ (any p xs || any p ys)
  any-append p [] ys = refl
  any-append p (x ∷ xs) ys = ground (arith, any-append p xs ys)

  pub any-reverse : (p : A → Bool) (xs : List A) → any p (reverse xs) ≡ any p xs
  any-reverse p [] = refl
  any-reverse p (x ∷ xs) =
      ap (any p) (reverse-append (x ∷ []) xs)
      ∙ any-append p (reverse xs) (x ∷ [])
      ∙ ground (arith, any-reverse p xs)

  pub count-append : (p : A → Bool) (xs ys : List A) → count p (xs ++ ys) ≡ count p xs + count p ys
  count-append p [] ys = omega arith
  count-append p (x ∷ xs) ys = ground (arith, count-append p xs ys)
