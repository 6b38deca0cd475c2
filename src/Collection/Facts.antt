-- ===== src/Collection/Facts.antt =====
-- Consequences of the laws of a collection: what `find` returns, by its length and by a test.
use datasets_server.Prelude.{
  ◌≡◌, ◌∙◌, Bool, true, ◌&&◌, count, length, any, ltb, length-eq-count, any-eq-count, ap,
  count_cong, arith,
}
use datasets_server.Collection.{Collection}

module _ {A : Type 0} (C : Collection A) where
  open C use {Db, documents, find, find_law}

  -- `Model.objects(filters).count()`
  pub length-find : (p : A → Bool) (db : Db) → length (find p db) ≡ count p (documents db)
  length-find p db =
      length-eq-count (find p db)
      ∙ find_law p (λ _. true) db
      ∙ count_cong (λ a. p a && true) p (documents db) (λ a. ground arith)

  pub any-find :
      (p q : A → Bool) (db : Db)
      → any q (find p db) ≡ ltb 0 (count (λ a. p a && q a) (documents db))
  any-find p q db = any-eq-count q (find p db) ∙ ap (λ n. ltb 0 n) (find_law p q db)
