-- ===== src/Cache/Validity.antt =====
-- `get_valid_datasets` and `get_validity_by_kind` of libs/libcommon/src/libcommon/simple_cache.py.
-- A set of texts, and a sorted list without duplicates, is the list of its texts in their order.
use Prim.Native.Char.{code}
use datasets_server.Prelude.{
  text_eq, nat_eq, ◌==◌, Bool, true, false, ◌&&◌, ◌||◌, String, Option, none, some, List, [], ◌∷◌,
  map, any, length, count, count-le, contains, ltb, if◌then◌else◌, ◌≡◌, refl, ap, ◌∙◌, arith,
}
use datasets_server.Collection.{Collection}
use datasets_server.Collection.Facts.{any-find, length-find}
use datasets_server.Cache.{CachedResponse}

-- Python's `<` on texts, by the code points.
abbrev pub text_ltb : String → String → Bool
text_ltb String.[] String.[] = false
text_ltb String.[] (String.◌∷◌ _ _) = true
text_ltb (String.◌∷◌ _ _) String.[] = false
text_ltb (String.◌∷◌ c s) (String.◌∷◌ d t) =
    ltb (code c) (code d) || (code c == code d && text_ltb s t)

abbrev pub insert_unique : String → List String → List String
insert_unique x [] = x ∷ []
insert_unique x (y ∷ ys) =
    let rest = insert_unique x ys in
    if x == y then y ∷ ys else if text_ltb x y then x ∷ y ∷ ys else y ∷ rest

-- `sorted(set(xs))`
unfoldable pub sorted_unique : List String → List String
sorted_unique [] = []
sorted_unique (x ∷ xs) = insert_unique x (sorted_unique xs)

module _ (C : Collection CachedResponse) where
  unfoldable pub get_valid_datasets : (kind : String) → C.Db → List String
  unfolding sorted_unique
  get_valid_datasets kind db =
      sorted_unique (map (λ r. r.dataset) (C.find (λ r. r.kind == kind && r.http_status == 200) db))

  -- `objects(dataset=dataset)`, and with `kind__in=kinds`
  abbrev pub is_entry : (dataset : String) → Option (List String) → CachedResponse → Bool
  is_entry dataset none r = r.dataset == dataset
  is_entry dataset (some kinds) r = r.dataset == dataset && contains r.kind kinds

  -- `.first() is not None`
  abbrev is_found : List CachedResponse → Bool
  is_found [] = false
  is_found (_ ∷ _) = true

  unfoldable pub get_validity_by_kind :
      (dataset : String) → Option (List String) → C.Db → List (String × Bool)
  unfolding sorted_unique
  get_validity_by_kind dataset kinds db =
      map
        (λ kind. (
          kind,
          is_found (
              C.find (λ r. is_entry dataset kinds r && (r.kind == kind && r.http_status == 200))
                db),
        ))
        (sorted_unique (map (λ r. r.kind) (C.find (is_entry dataset kinds) db)))

contains-insert_unique :
    (x y : String) (ys : List String) → contains x (insert_unique y ys) ≡ (x == y || contains x ys)
contains-insert_unique x y [] = refl
contains-insert_unique x y (z ∷ zs) =
    ground (arith, contains-insert_unique x y zs, text_eq.beq_iff y z)

-- What `sorted_unique` contains.
pub contains-sorted_unique :
    (x : String) (xs : List String) → contains x (sorted_unique xs) ≡ contains x xs
unfolding sorted_unique
contains-sorted_unique x [] = refl
contains-sorted_unique x (y ∷ ys) =
    contains-insert_unique x y (sorted_unique ys)
    ∙ ap (λ b. x == y || b) (contains-sorted_unique x ys)

contains-map :
    (x : String) (rs : List CachedResponse)
    → contains x (map (λ r. r.dataset) rs) ≡ any (λ r. x == r.dataset) rs
contains-map x [] = refl
contains-map x (r ∷ rs) = ap (λ b. x == r.dataset || b) (contains-map x rs)

-- A dataset is valid for a kind if a response of this kind is stored with status 200.
pub contains-get_valid_datasets :
    (C : Collection CachedResponse) (kind x : String) (db : C.Db)
    → contains x (get_valid_datasets C kind db)
      ≡ ltb 0
          (count (λ r. (r.kind == kind && r.http_status == 200) && x == r.dataset) (C.documents db))
unfolding get_valid_datasets
contains-get_valid_datasets C kind x db =
    contains-sorted_unique x _
    ∙ contains-map x (C.find (λ r. r.kind == kind && r.http_status == 200) db)
    ∙ any-find C (λ r. r.kind == kind && r.http_status == 200) (λ r. x == r.dataset) db

-- `d[kind]`, or false where `d` has no such key
abbrev pub value_at : String → List (String × Bool) → Bool
value_at kind [] = false
value_at kind ((k, value) ∷ rest) = if kind == k then value else value_at kind rest

value_at-map :
    (f : String → Bool) (kind : String) (kinds : List String)
    → value_at kind (map (λ k. (k, f k)) kinds) ≡ (contains kind kinds && f kind)
value_at-map f kind [] = refl
value_at-map f kind (k ∷ kinds) =
    let same : (kind == k) ≡ true → f kind ≡ f k = λ h. ap f ((text_eq.beq_iff kind k).0 h) in
    ground (arith, same, value_at-map f kind kinds)

contains-map_kind :
    (x : String) (rs : List CachedResponse)
    → contains x (map (λ r. r.kind) rs) ≡ any (λ r. x == r.kind) rs
contains-map_kind x [] = refl
contains-map_kind x (r ∷ rs) = ap (λ b. x == r.kind || b) (contains-map_kind x rs)

module _ (C : Collection CachedResponse) (dataset : String) (kinds : Option (List String))
    (db : C.Db) where
  is_found-count :
      (p : CachedResponse → Bool) → is_found C (C.find p db) ≡ ltb 0 (count p (C.documents db))
  is_found-count p = by_length (C.find p db) (length-find C p db)
    where
      by_length :
          (rs : List CachedResponse)
          → length rs ≡ count p (C.documents db)
          → is_found C rs ≡ ltb 0 (count p (C.documents db))
      by_length [] h = ground (arith, h)
      by_length (r ∷ rs) h = ground (arith, h)

  -- The value of a kind: whether a response of the dataset is stored for it with status 200, among
  -- the kinds that are asked for.
  pub value_at-get_validity_by_kind :
      (kind : String)
      → value_at kind (get_validity_by_kind C dataset kinds db)
        ≡ ltb 0 (
            count
              (λ r. is_entry C dataset kinds r && (r.kind == kind && r.http_status == 200))
              (C.documents db))
  unfolding get_validity_by_kind
  value_at-get_validity_by_kind kind =
      let found =
        is_found-count
          (λ r. is_entry C dataset kinds r && (r.kind == kind && r.http_status == 200)) in
      let listed =
        contains-sorted_unique kind _
        ∙ contains-map_kind kind (C.find (is_entry C dataset kinds) db)
        ∙ any-find C (is_entry C dataset kinds) (λ r. kind == r.kind) db in
      let fewer =
        count-le (λ r. is_entry C dataset kinds r && (r.kind == kind && r.http_status == 200))
          (λ r. is_entry C dataset kinds r && kind == r.kind) (C.documents db)
          (λ r h. ground (arith, text_eq.beq_iff kind r.kind, text_eq.beq_iff r.kind kind)) in
      value_at-map
        (λ k.
          is_found C
            (C.find (λ r. is_entry C dataset kinds r && (r.kind == k && r.http_status == 200)) db))
        kind (sorted_unique (map (λ r. r.kind) (C.find (is_entry C dataset kinds) db)))
      ∙ ground (arith, found, listed, fewer)
