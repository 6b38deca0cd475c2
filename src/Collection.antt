-- ===== src/Collection.antt =====
-- The document collections that mongoengine and MongoDB provide to libs/libcommon/src/libcommon/
-- queue.py and simple_cache.py. They are not code of the repository, so they are an interface: the
-- query-set calls that the two files make, with their documented meaning. A collection has no order
-- of its own, so each law says how many documents pass a test, for every test `q`.
pub mod Memory
pub mod Facts
use datasets_server.Prelude.{
  ℕ, suc, ◌≤◌, ◌≡◌, Bool, true, not, ◌&&◌, Option, none, some, List, count, ascending,
  if◌then◌else◌, ltb,
}

pub record Collection (A : Type 0) : Type 1 where
  pub Db : Type 0
  -- `Model.objects()`
  pub documents : Db → List A
  -- `Model.objects(filters)`
  pub find : (A → Bool) → Db → List A
  -- `Model.objects(filters).order_by("+key").first()`
  pub first_by : (A → Bool) → (A → ℕ) → Db → Option A
  -- `Model.objects(filters).order_by("+key")`
  pub ordered : (A → Bool) → (A → ℕ) → Db → List A
  -- `document.save()` of a new document
  pub insert : A → Db → Db
  -- `Model.objects(filters).update(changes)`, `document.update(changes)`
  pub update : (A → Bool) → (A → A) → Db → Db
  -- `Model.objects(filters).upsert_one(changes)`, with the document that it would create
  pub upsert_one : (A → Bool) → (A → A) → A → Db → Db
  -- `Model.objects(filters).delete()`
  pub delete : (A → Bool) → Db → Db
  pub find_law :
      (p q : A → Bool) (db : Db) → count q (find p db) ≡ count (λ a. p a && q a) (documents db)
  pub first_by_none :
      (p : A → Bool) (key : A → ℕ) (db : Db) → first_by p key db ≡ none → count p (documents db) ≡ 0
  pub first_by_passes :
      (p : A → Bool) (key : A → ℕ) (db : Db) {a : A} → first_by p key db ≡ some a → p a ≡ true
  pub first_by_stored :
      (p : A → Bool) (key : A → ℕ) (db : Db) {a : A} (q : A → Bool)
      → first_by p key db ≡ some a
      → q a ≡ true
      → 1 ≤ count q (documents db)
  pub first_by_least :
      (p : A → Bool) (key : A → ℕ) (db : Db) {a : A}
      → first_by p key db ≡ some a
      → count (λ b. p b && ltb (key b) (key a)) (documents db) ≡ 0
  pub ordered_law :
      (p q : A → Bool) (key : A → ℕ) (db : Db)
      → count q (ordered p key db) ≡ count (λ a. p a && q a) (documents db)
  pub ordered_sorted :
      (p : A → Bool) (key : A → ℕ) (db : Db) → ascending key (ordered p key db) ≡ true
  pub insert_law :
      (a : A) (q : A → Bool) (db : Db)
      → count q (documents (insert a db))
        ≡ (if q a then suc (count q (documents db)) else count q (documents db))
  pub update_law :
      (p q : A → Bool) (f : A → A) (db : Db)
      → count q (documents (update p f db)) ≡ count (λ a. q (if p a then f a else a)) (documents db)
  pub upsert_one_new :
      (p q : A → Bool) (f : A → A) (a : A) (db : Db)
      → count p (documents db) ≡ 0
      → count q (documents (upsert_one p f a db))
        ≡ (if q a then suc (count q (documents db)) else count q (documents db))
  pub upsert_one_old :
      (p q : A → Bool) (f : A → A) (a : A) (db : Db)
      → count p (documents db) ≡ 1
      → count q (documents (upsert_one p f a db))
        ≡ count (λ b. q (if p b then f b else b)) (documents db)
  pub delete_law :
      (p q : A → Bool) (db : Db)
      → count q (documents (delete p db)) ≡ count (λ a. not (p a) && q a) (documents db)
