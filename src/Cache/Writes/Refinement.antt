-- ===== src/Cache/Writes/Refinement.antt =====
-- The writes of libs/libcommon/src/libcommon/simple_cache.py, as changes of a function from keys to what
-- `get_response_with_details` returns.
mod Samples
use mathlib.Core.Path.{fun_ext}
use datasets_server.Prelude.{
  ℕ, ◌≤◌, text_eq, option_eq, ◌==◌, Bool, true, false, not, ◌&&◌, String, Option, List, [], ◌∷◌,
  count, count_cong, count-le, count-false, length, if◌then◌else◌, ◌≡◌, refl, sym, ◌∙◌, ap, subst,
  arith, Bool-cases, inl, inr, eq_iff, &&_true,
}
use datasets_server.Collection.{Collection}
use datasets_server.Collection.Facts.{length-find}
use datasets_server.Cache.{
  CachedResponse, Response, Result, ok, err, does_not_exist, has_key, created, upsert_response,
  delete_response, delete_dataset_responses, get_one, result_map, get_response_with_details,
  with_details_of, CacheEntryWithDetails,
}
use datasets_server.Cache.Writes.{
  UniqueIndex, entry_written, CachedResponse-discrete, same_single, key_fields,
  upsert_response-UniqueIndex, get_response_with_details-upsert_response,
  get_response_with_details-upsert_response_other,
}

pub record Key : Type 0 where
  pub kind : String
  pub dataset : String
  pub config : Option String
  pub split : Option String

-- The two keys are the same.
abbrev pub is_key : Key → Key → Bool
is_key k j =
    k.kind == j.kind && (k.dataset == j.dataset && (k.config == j.config && k.split == j.split))

-- A call that writes.
pub data Write : Type 0 where
  upsert : Key → (now id : ℕ) → Response → Write
  delete : Key → Write
  delete_dataset : String → Write

-- A cache, as its readers see it.
abbrev pub Reading : Type 0
Reading = Key → Result CacheEntryWithDetails

-- The same call, on the function.
abbrev pub change : Write → Reading → Reading
change (upsert k now id response) f j = if is_key k j then ok (entry_written now response) else f j
change (delete k) f j = if is_key k j then err does_not_exist else f j
change (delete_dataset name) f j = if j.dataset == name then err does_not_exist else f j

unfoldable pub replay : List Write → Reading → Reading
replay [] f = f
replay (w ∷ ws) f = replay ws (change w f)

module _ (C : Collection CachedResponse) where
  open C use {Db, documents, find, find_law, delete_law}

  abbrev pub reading : Db → Reading
  reading db k = get_response_with_details C k.kind k.dataset k.config k.split db

  abbrev pub write : Write → Db → Db
  write (upsert k now id response) db =
      upsert_response C k.kind k.dataset k.config k.split now id response db
  write (delete k) db = delete_response C k.kind k.dataset k.config k.split db
  write (delete_dataset name) db = delete_dataset_responses C name db

  unfoldable pub run : List Write → Db → Db
  unfolding upsert_response delete_response delete_dataset_responses
  run [] db = db
  run (w ∷ ws) db = run ws (write w db)

  abbrev at : Key → CachedResponse → Bool
  at k = has_key k.kind k.dataset k.config k.split

  same_key : (k j : Key) → is_key k j ≡ true → k ≡ j
  same_key k j h =
      let (a, h1) = &&_true (k.kind == j.kind) _ h in
      let (b, h2) = &&_true (k.dataset == j.dataset) _ h1 in
      let (c, d) = &&_true (k.config == j.config) _ h2 in
      let ek = (eq_iff k.kind j.kind).0 a in
      let ed = (eq_iff k.dataset j.dataset).0 b in
      let ec = (option_eq.beq_iff k.config j.config).0 c in
      let es = (option_eq.beq_iff k.split j.split).0 d in
      λ i. record { kind = ek i; dataset = ed i; config = ec i; split = es i }

  is_key_refl : (k : Key) → is_key k k ≡ true
  is_key_refl k =
      rw
        (
          (eq_iff k.kind k.kind).1 refl,
          (eq_iff k.dataset k.dataset).1 refl,
          (option_eq.beq_iff k.config k.config).1 refl,
          (option_eq.beq_iff k.split k.split).1 refl,
        )
        refl

  key_of : CachedResponse → Key
  key_of r = record { kind = r.kind; dataset = r.dataset; config = r.config; split = r.split }

  at-key_of : (k : Key) (r : CachedResponse) → at k r ≡ true → key_of r ≡ k
  unfolding key_of
  at-key_of k r h = same_key (key_of r) k h

  -- No document has two keys.
  apart_keys :
      (k j : Key) (r : CachedResponse) → is_key k j ≡ false → at j r ≡ true → at k r ≡ false
  apart_keys k j r e h = elim (Bool-cases (at k r)) [
    | inl g ↦
        let same = sym (at-key_of k r g) ∙ at-key_of j r h in
        absurd (ground (arith, e, subst (λ x. is_key k x ≡ true) same (is_key_refl k)))
    | inr g ↦ g
  ]

  -- A removal reads as nothing at the keys of which it removes every document, and as before at those
  -- of which it removes none.
  module _ (p : CachedResponse → Bool) (db : Db) where
    removed-UniqueIndex : UniqueIndex C db → UniqueIndex C (C.delete p db)
    removed-UniqueIndex unique k d c s = omega (
      arith,
      delete_law p (has_key k d c s) db,
      count-le (λ r. not (p r) && has_key k d c s r) (has_key k d c s) (documents db)
          (λ r h. ground (arith, h)),
      unique k d c s,
    )

    removed :
        (j : Key)
        → ((r : CachedResponse) → at j r ≡ true → p r ≡ true)
        → reading (C.delete p db) j ≡ err does_not_exist
    unfolding get_response_with_details
    removed j all =
        ap (λ l. result_map with_details_of (get_one l))
          (empty (find (at j) (C.delete p db)) (
            length-find C (at j) (C.delete p db)
            ∙ delete_law p (at j) db
            ∙ count-false _ (documents db) (λ r. ground (arith, all r))))
      where
        empty : (l : List CachedResponse) → length l ≡ 0 → l ≡ []
        empty [] h = refl
        empty (r ∷ l) h = absurd (omega (arith, h))

    left :
        (j : Key)
        → UniqueIndex C db
        → ((r : CachedResponse) → at j r ≡ true → p r ≡ false)
        → reading (C.delete p db) j ≡ reading db j
    unfolding get_response_with_details
    left j unique no_one =
        ap (λ l. result_map with_details_of (get_one l))
          (same_single CachedResponse-discrete (find (at j) (C.delete p db)) (find (at j) db)
            (λ q.
              find_law (at j) q (C.delete p db)
              ∙ delete_law p (λ r. at j r && q r) db
              ∙ count_cong _ (λ r. at j r && q r) (documents db) (λ r. ground (arith, no_one r))
              ∙ sym (find_law (at j) q db))
            (rw (length-find C (at j) (C.delete p db))
              (removed-UniqueIndex unique j.kind j.dataset j.config j.split)))

  change-write :
      (w : Write) (db : Db)
      → UniqueIndex C db
      → (j : Key) → reading (write w db) j ≡ change w (reading db) j
  unfolding delete_response delete_dataset_responses created key_of
  change-write (upsert k now id response) db unique j = elim (Bool-cases (is_key k j)) [
    | inl e ↦ rw e (
        subst
          (λ x. reading (write (upsert k now id response) db) x ≡ ok (entry_written now response))
          (same_key k j e)
          (get_response_with_details-upsert_response C k.kind k.dataset k.config k.split now id
            response db (unique k.kind k.dataset k.config k.split)))
    | inr e ↦ rw e (
        get_response_with_details-upsert_response_other C k.kind k.dataset k.config k.split now id
          response db unique j.kind j.dataset j.config j.split e)
  ]
  change-write (delete k) db unique j = elim (Bool-cases (is_key k j)) [
    | inl e ↦
        rw e (removed (at k) db j (λ r h. subst (λ x. at x r ≡ true) (sym (same_key k j e)) h))
    | inr e ↦ rw e (left (at k) db j unique (λ r h. apart_keys k j r e h))
  ]
  change-write (delete_dataset name) db unique j = elim (Bool-cases (j.dataset == name)) [
    | inl e ↦ rw e (
        removed (λ r. r.dataset == name) db j
          (λ r h. rw (ap (λ (x : Key). x.dataset) (at-key_of j r h)) e))
    | inr e ↦ rw e (
        left (λ r. r.dataset == name) db j unique
          (λ r h. rw (ap (λ (x : Key). x.dataset) (at-key_of j r h)) e))
  ]

  write-UniqueIndex : (w : Write) (db : Db) → UniqueIndex C db → UniqueIndex C (write w db)
  unfolding delete_response delete_dataset_responses
  write-UniqueIndex (upsert k now id response) db unique =
      upsert_response-UniqueIndex C k.kind k.dataset k.config k.split now id response db unique
  write-UniqueIndex (delete k) db unique = removed-UniqueIndex (at k) db unique
  write-UniqueIndex (delete_dataset name) db unique =
      removed-UniqueIndex (λ r. r.dataset == name) db unique

  -- If the index on the key is unique, then after any sequence of `upsert_response`, `delete_response`
  -- and `delete_dataset_responses` it is, and what `get_response_with_details` returns, as a function of
  -- the key, is what the same sequence of changes makes of the function that it was.
  pub run_refines :
      (ws : List Write) (db : Db)
      → UniqueIndex C db
      → UniqueIndex C (run ws db) × (reading (run ws db) ≡ replay ws (reading db))
  unfolding run replay
  run_refines [] db unique = (unique, refl)
  run_refines (w ∷ ws) db unique =
      let (kept, same) = run_refines ws (write w db) (write-UniqueIndex w db unique) in
      (kept, same ∙ ap (replay ws) (fun_ext (change-write w db unique)))
