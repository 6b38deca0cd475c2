-- ===== src/Rows/Groups.antt =====
-- Row groups and the sums of their sizes, for services/api/src/api/routes/rows.py.
use mathlib.Core.List.{append_assoc}
use datasets_server.Prelude.{
  ℕ, zero, suc, ◌+◌, ◌≤◌, ◌<◌, true, false, not, Option, none, some, List, [], ◌∷◌, ◌++◌, map,
  count, length, take, drop, get_elem?, above, ascending, ltb, ltb→lt, count-le, length-eq-count,
  ◌⊎◌, pos, ltb_ℤ, if◌then◌else◌, ◌≡◌, refl, sym, ◌∙◌, ap, arith, Bool-cases, inl, inr,
}
use datasets_server.Rows.{sums, concat, pred_ℤ, min_ℤ, last?, read_groups}

abbrev pub min : ℕ → ℕ → ℕ
min a b = if ltb b a then b else a

abbrev pub total : List ℕ → ℕ
total [] = 0
total (n ∷ ns) = n + total ns

-- The comparisons with the rows, which may be -1, as comparisons of numbers.
pub below_first :
    (x offset all : ℕ)
    → not (ltb_ℤ (min_ℤ (pos offset) (pred_ℤ all)) (pos x)) ≡ ltb x (min (suc offset) all)
below_first x offset zero = ground arith
below_first x offset (suc all) = ground arith

pub below_last :
    (x end all : ℕ) → not (ltb_ℤ (min_ℤ (pred_ℤ end) (pred_ℤ all)) (pos x)) ≡ ltb x (min end all)
below_last x zero zero = ground arith
below_last x (suc end) zero = ground arith
below_last x zero (suc all) = ground arith
below_last x (suc end) (suc all) = ground arith

above-sums : (k s : ℕ) (ns : List ℕ) → k ≤ s → above (λ x. x) k (sums s ns) ≡ true
above-sums k s [] h = refl
above-sums k s (n ∷ ns) h = ground (arith, above-sums k (s + n) ns)

pub ascending-sums : (s : ℕ) (ns : List ℕ) → ascending (λ x. x) (sums s ns) ≡ true
ascending-sums s [] = refl
ascending-sums s (n ∷ ns) = ground (arith, above-sums (s + n) (s + n) ns, ascending-sums (s + n) ns)

pub last-sums : (s n : ℕ) (ns : List ℕ) → last? (sums s (n ∷ ns)) ≡ some (s + total (n ∷ ns))
last-sums s n [] = ap some (omega arith)
last-sums s n (m ∷ ns) = last-sums (s + n) m ns ∙ ap some (omega arith)

-- How many sums are below `w`.
abbrev pub group_of : ℕ → ℕ → List ℕ → ℕ
group_of s w ns = count (λ x. ltb x w) (sums s ns)

none_below : (s w : ℕ) (ns : List ℕ) → w ≤ s → group_of s w ns ≡ 0
none_below s w [] h = refl
none_below s w (n ∷ ns) h = ground (arith, none_below (s + n) w ns)

pub group_below :
    (s w n : ℕ) (ns : List ℕ)
    → ltb (s + n) w ≡ true
    → group_of s w (n ∷ ns) ≡ suc (group_of (s + n) w ns)
group_below s w n ns h = rw h refl

pub group_above : (s w n : ℕ) (ns : List ℕ) → ltb (s + n) w ≡ false → group_of s w (n ∷ ns) ≡ 0
group_above s w n ns h = rw h (none_below (s + n) w ns (ground arith))

-- The groups before that of a row end before the row.
pub start-group_of :
    (s w : ℕ) (ns : List ℕ) → (group_of s w ns ≡ 0) ⊎ (s + total (take (group_of s w ns) ns) < w)
start-group_of s w [] = inl refl
start-group_of s w (n ∷ ns) = elim (Bool-cases (ltb (s + n) w)) [
  | inl below ↦ inr (
      rw (group_below s w n ns below) (elim (start-group_of (s + n) w ns) [
        | inl z ↦ rw z (omega (arith, ltb→lt (s + n) w below))
        | inr l ↦ omega arith
      ]))
  | inr over ↦ inl (group_above s w n ns over)
]

-- The group of a row is there, and ends behind the row.
pub end-group_of :
    (s w : ℕ) (ns : List ℕ)
    → 0 < length ns
    → w ≤ s + total ns
    → (w ≤ s + total (take (suc (group_of s w ns)) ns)) × (group_of s w ns < length ns)
end-group_of s w [] filled h = absurd (omega arith)
end-group_of s w (n ∷ []) filled h = elim (Bool-cases (ltb (s + n) w)) [
  | inl below ↦ absurd (omega (arith, ltb→lt (s + n) w below))
  | inr last ↦ rw (group_above s w n [] last) (omega arith, omega arith)
]
end-group_of s w (n ∷ m ∷ ns) filled h = elim (Bool-cases (ltb (s + n) w)) [
  | inl below ↦
      let (e, l) = end-group_of (s + n) w (m ∷ ns) (omega arith) (omega arith) in
      rw (group_below s w n (m ∷ ns) below) (omega arith, omega arith)
  | inr last ↦ rw (group_above s w n (m ∷ ns) last) (ground (arith), omega arith)
]

pub group_of-le : (s v w : ℕ) (ns : List ℕ) → v ≤ w → group_of s v ns ≤ group_of s w ns
group_of-le s v w ns h = count-le (λ x. ltb x v) (λ x. ltb x w) (sums s ns) (λ x e. ground arith)

pub length-sums : (s : ℕ) (ns : List ℕ) → length (sums s ns) ≡ length ns
length-sums s [] = refl
length-sums s (m ∷ ns) = ap suc (length-sums (s + m) ns)

pub group_of-le-length : (s w : ℕ) (ns : List ℕ) → group_of s w ns ≤ length ns
group_of-le-length s w ns = omega (
  arith,
  count-le (λ x. ltb x w) (λ _. true) (sums s ns) (λ _ _. refl),
  length-eq-count (sums s ns),
  length-sums s ns,
)

-- The offset at which a group begins.
pub start_of-sums :
    (s n : ℕ) (ns : List ℕ)
    → n < length ns
    → get_elem? (sums s ns) n ≡ some (s + total (take (suc n) ns))
start_of-sums s n [] h = absurd (omega arith)
start_of-sums s zero (m ∷ ns) h = ap some (omega arith)
start_of-sums s (suc n) (m ∷ ns) h =
    start_of-sums (s + m) n ns (omega arith) ∙ ap some (omega arith)

read_groups_shift :
    {T : Type 0} (t : T) (ts : List T) (first n : ℕ)
    → read_groups (t ∷ ts) (suc first) n ≡ read_groups ts first n
read_groups_shift t ts first zero = refl
read_groups_shift {T} t ts first (suc n) =
    ap
      (λ (rest : Option (List T)). elim (get_elem? ts first) [
        | none ↦ none
        | some x ↦ elim rest [ none ↦ none | some xs ↦ some (x ∷ xs) ]
      ])
      (read_groups_shift t ts (suc first) n)

pub read_groups_lem :
    {T : Type 0} (ts : List T) (first n : ℕ)
    → first + n ≤ length ts
    → read_groups ts first n ≡ some (take n (drop first ts))
read_groups_lem ts first zero h = refl
read_groups_lem [] first (suc n) h = absurd (omega arith)
read_groups_lem {T} (t ∷ ts) zero (suc n) h =
    ap (λ (rest : Option (List T)). elim rest [ none ↦ none | some xs ↦ some (t ∷ xs) ])
      (read_groups_shift t ts 0 n ∙ read_groups_lem ts 0 n (omega arith))
read_groups_lem (t ∷ ts) (suc first) (suc n) h =
    read_groups_shift t ts first (suc n) ∙ read_groups_lem ts first (suc n) (omega arith)

module _ {A : Type 0} where
  pub length-append : (xs ys : List A) → length (xs ++ ys) ≡ length xs + length ys
  length-append [] ys = omega arith
  length-append (x ∷ xs) ys = omega (arith, length-append xs ys)

  pub length-concat : (xss : List (List A)) → length (concat xss) ≡ total (map length xss)
  length-concat [] = refl
  length-concat (xs ∷ xss) = omega (arith, length-append xs (concat xss), length-concat xss)

  drop-append : (xs ys : List A) → drop (length xs) (xs ++ ys) ≡ ys
  drop-append [] ys = refl
  drop-append (x ∷ xs) ys = drop-append xs ys

  drop_nil : (n : ℕ) → drop {A = A} n [] ≡ []
  drop_nil zero = refl
  drop_nil (suc n) = refl

  pub drop-drop : (m n : ℕ) (xs : List A) → drop n (drop m xs) ≡ drop (m + n) xs
  drop-drop zero n xs = let e : n ≡ zero + n = omega arith in ap (λ k. drop k xs) e
  drop-drop (suc m) n [] =
      let e : suc (m + n) ≡ suc m + n = omega arith in drop_nil n ∙ ap (λ k. drop k []) e
  drop-drop (suc m) n (x ∷ xs) =
      let e : suc (m + n) ≡ suc m + n = omega arith in
      drop-drop m n xs ∙ ap (λ k. drop k (x ∷ xs)) e

  -- Dropping the rows of the first groups leaves the others.
  pub drop-concat :
      (n : ℕ) (xss : List (List A))
      → drop (total (take n (map length xss))) (concat xss) ≡ concat (drop n xss)
  drop-concat zero xss = refl
  drop-concat (suc n) [] = refl
  drop-concat (suc n) (xs ∷ xss) =
      sym (drop-drop (length xs) (total (take n (map length xss))) (xs ++ concat xss))
      ∙ ap (drop (total (take n (map length xss)))) (drop-append xs (concat xss))
      ∙ drop-concat n xss

  pub concat-take-drop :
      (n : ℕ) (xss : List (List A)) → concat xss ≡ (concat (take n xss) ++ concat (drop n xss))
  concat-take-drop zero xss = refl
  concat-take-drop (suc n) [] = refl
  concat-take-drop (suc n) (xs ∷ xss) =
      ap (λ ys. xs ++ ys) (concat-take-drop n xss)
      ∙ sym (append_assoc xs (concat (take n xss)) (concat (drop n xss)))

  -- What ends within the first list is not touched by the second.
  pub take-drop-append :
      (n m : ℕ) (xs ys : List A)
      → m + n ≤ length xs
      → take n (drop m (xs ++ ys)) ≡ take n (drop m xs)
  take-drop-append zero m xs ys h = refl
  take-drop-append (suc n) zero [] ys h = absurd (omega arith)
  take-drop-append (suc n) zero (x ∷ xs) ys h =
      ap (λ l. x ∷ l) (take-drop-append n zero xs ys (omega arith))
  take-drop-append (suc n) (suc m) [] ys h = absurd (omega arith)
  take-drop-append (suc n) (suc m) (x ∷ xs) ys h = take-drop-append (suc n) m xs ys (omega arith)
