-- ===== src/Cache/Reports/Complete.antt =====
-- A client that follows the cursors of `get_cache_reports` of
-- libs/libcommon/src/libcommon/simple_cache.py reads each document of the kind once.
use datasets_server.Prelude.{
  ℕ, zero, suc, ◌+◌, ◌≤◌, ◌<◌, text_eq, nat_eq, ◌==◌, Bool, true, false, not, ◌&&◌, String, Option,
  none, some, List, ◌++◌, map, count, count-map, count-append, count_cong, count_zero-In,
  count-false, length, length-eq-count, take, drop, ltb, ltb→lt, count-le, pos, if◌then◌else◌, ◌≡◌,
  refl, sym, ◌∙◌, In, arith, Bool-cases, inl, inr,
}
use datasets_server.Collection.{Collection}
use datasets_server.Cache.{CachedResponse}
use datasets_server.Cache.Reports.{
  CacheReport, page, ObjectIds, beyond, bound_of, report_of, get_cache_reports, get_last?,
}
use datasets_server.Cache.Reports.Pages.{
  count_behind, count-take-drop, length-take_short, length-take-le, last_of_take,
}

-- The identifiers of documents are unique.
abbrev pub UniqueIds : (C : Collection CachedResponse) → C.Db → Type 0
UniqueIds C db = (k : ℕ) → count (λ r. r.id == k) (C.documents db) ≤ 1

-- The bound of a later page implies that of an earlier one.
filled_of : {a b : ℕ} → a ≤ b → ltb a b ≡ false → a ≡ b
filled_of h k = ground arith

later_bound :
    (kind : String) (bound : Option ℕ) (l r : CachedResponse) (b : Bool)
    → beyond kind bound l ≡ true
    → (beyond kind bound r && (ltb l.id r.id && b)) ≡ (beyond kind (some l.id) r && b)
later_bound kind none l r b h = ground arith
later_bound kind (some c) l r b h = ground arith

module _ (C : Collection CachedResponse) (ids : ObjectIds) (kind : String) (n : ℕ) (db : C.Db) where
  open C use {documents, ordered, ordered_law, ordered_sorted}

  -- A client: it asks for pages of `n + 1` reports until the next cursor is empty. `none` is a page
  -- that is an error, or a client that gives up.
  pub read_pages : ℕ → Option String → Option (List CacheReport)
  read_pages zero cursor = none
  read_pages (suc fuel) cursor = elim (get_cache_reports C ids kind cursor (pos (suc n)) db) [
    | page reports next ↦
        let rest = read_pages fuel (some next) in
        if next == ""
        then some reports
        else elim rest [ none ↦ none | some more ↦ some (reports ++ more) ]
    | _ ↦ none
  ]

  abbrev objects : Option ℕ → List CachedResponse
  objects bound = ordered (beyond kind bound) (λ r. r.id) db

  -- All pages from a bound on hold the documents beyond it, each as often as it is stored.
  abbrev Complete : Option ℕ → Option (List CacheReport) → Type 0
  Complete bound read =
      (all : List CacheReport) × (read ≡ some all)
      × ((q : CacheReport → Bool)
          → count q all ≡ count (λ r. beyond kind bound r && q (report_of r)) (documents db))

  -- The bound of the cursor that a page gives out.
  bound_of-show : (id : ℕ) → bound_of ids (some (ids.show id)) ≡ some (some id)
  unfolding bound_of
  bound_of-show id = rw (ids.show-ne-empty id, ids.parse-show id) refl

  module _ (bound : Option ℕ) where
    page_short :
        (cursor : Option String)
        → bound_of ids cursor ≡ some bound
        → ltb (length (take (suc n) (objects bound))) (suc n) ≡ true
        → get_cache_reports C ids kind cursor (pos (suc n)) db
          ≡ page (map report_of (objects bound)) ""
    unfolding get_cache_reports
    page_short cursor e short =
        rw
          (
            e,
            get_cache_reports,
            short,
            length-take_short (λ r. r.id) (suc n) (objects bound) (ltb→lt _ _ short),
          )
          refl

    page_full :
        (cursor : Option String) {l : CachedResponse}
        → bound_of ids cursor ≡ some bound
        → ltb (length (take (suc n) (objects bound))) (suc n) ≡ false
        → get_last? (take (suc n) (objects bound)) ≡ some l
        → get_cache_reports C ids kind cursor (pos (suc n)) db
          ≡ page (map report_of (take (suc n) (objects bound))) (ids.show l.id)
    unfolding get_cache_reports
    page_full cursor e full last = rw (e, get_cache_reports, full, last) refl

    -- What a query returns passes its filter, and has unique identifiers.
    objects_pass : {l : CachedResponse} → In l (objects bound) → beyond kind bound l ≡ true
    objects_pass {l} i =
        let none_fails =
          ordered_law (beyond kind bound) (λ r. not (beyond kind bound r)) (λ r. r.id) db
          ∙ count-false _ (documents db) (λ r. ground arith) in
        let f = count_zero-In (λ r. not (beyond kind bound r)) i none_fails in ground arith

    objects_unique : UniqueIds C db → (k : ℕ) → count (λ r. r.id == k) (objects bound) ≤ 1
    objects_unique unique k =
        let fewer =
          count-le (λ r. beyond kind bound r && r.id == k) (λ r. r.id == k) (documents db)
            (λ r. ground arith) in
        omega (arith, ordered_law (beyond kind bound) (λ r. r.id == k) (λ r. r.id) db, unique k)

    -- The documents beyond the last one of a full page are those behind the page.
    behind :
        (l : CachedResponse) (q : CachedResponse → Bool)
        → UniqueIds C db
        → length (take (suc n) (objects bound)) ≡ suc n
        → get_last? (take (suc n) (objects bound)) ≡ some l
        → In l (objects bound)
        → count (λ r. beyond kind (some l.id) r && q r) (documents db)
          ≡ count q (drop (suc n) (objects bound))
    behind l q unique full last i =
        count_cong _ _ (documents db)
          (λ r. sym (later_bound kind bound l r (q r) (objects_pass {l = l} i)))
        ∙ sym (ordered_law (beyond kind bound) (λ r. ltb l.id r.id && q r) (λ r. r.id) db)
        ∙ count_behind (λ r. r.id) q n (objects bound) {l = l}
            (ordered_sorted (beyond kind bound) (λ r. r.id) db) (objects_unique unique) full last

    -- A full page leaves that many documents less.
    remaining :
        (l : CachedResponse)
        → UniqueIds C db
        → length (take (suc n) (objects bound)) ≡ suc n
        → get_last? (take (suc n) (objects bound)) ≡ some l
        → In l (objects bound)
        → count (beyond kind (some l.id)) (documents db) + suc n
          ≡ count (beyond kind bound) (documents db)
    remaining l unique full last i =
        let whole = λ (b : Option ℕ).
          count_cong (λ r. beyond kind b r && true) (beyond kind b) (documents db)
            (λ r. ground arith) in
        omega (
          arith,
          whole (some l.id),
          whole bound,
          behind l (λ _. true) unique full last i,
          count-take-drop (λ r. r.id) (λ _. true) (suc n) (objects bound),
          length-eq-count (take (suc n) (objects bound)),
          ordered_law (beyond kind bound) (λ _. true) (λ r. r.id) db,
        )

    all_short :
        (fuel : ℕ) (cursor : Option String)
        → bound_of ids cursor ≡ some bound
        → ltb (length (take (suc n) (objects bound))) (suc n) ≡ true
        → Complete bound (read_pages (suc fuel) cursor)
    unfolding read_pages
    all_short fuel cursor e short = (
      map report_of (objects bound),
      rw (page_short cursor e short, read_pages) refl,
      (λ q.
          count-map q report_of (objects bound)
          ∙ ordered_law (beyond kind bound) (λ r. q (report_of r)) (λ r. r.id) db),
    )

    all_full :
        (fuel : ℕ) (cursor : Option String) (l : CachedResponse)
        → UniqueIds C db
        → bound_of ids cursor ≡ some bound
        → ltb (length (take (suc n) (objects bound))) (suc n) ≡ false
        → length (take (suc n) (objects bound)) ≡ suc n
        → get_last? (take (suc n) (objects bound)) ≡ some l
        → In l (objects bound)
        → Complete (some l.id) (read_pages fuel (some (ids.show l.id)))
        → Complete bound (read_pages (suc fuel) cursor)
    unfolding read_pages
    all_full fuel cursor l unique e full filled last i (more, read, counts) = (
      map report_of (take (suc n) (objects bound)) ++ more,
      rw (page_full cursor {l = l} e full last, read_pages, ids.show-ne-empty l.id, read) refl,
      (λ q.
          count-append q (map report_of (take (suc n) (objects bound))) more
          ∙ omega (
            arith,
            count-map q report_of (take (suc n) (objects bound)),
            counts q,
            behind l (λ r. q (report_of r)) unique filled last i,
            count-take-drop (λ r. r.id) (λ r. q (report_of r)) (suc n) (objects bound),
            ordered_law (beyond kind bound) (λ r. q (report_of r)) (λ r. r.id) db,
          )),
    )

  -- Following the cursors from one whose bound is known, with enough requests.
  Complete-from :
      UniqueIds C db
      → (fuel : ℕ) (bound : Option ℕ) (cursor : Option String) → bound_of ids cursor ≡ some bound
      → count (beyond kind bound) (documents db) < fuel
      → Complete bound (read_pages fuel cursor)
  Complete-from unique zero bound cursor e h = absurd (omega arith)
  Complete-from unique (suc fuel) bound cursor e h =
      elim (Bool-cases (ltb (length (take (suc n) (objects bound))) (suc n))) [
        | inl short ↦ all_short bound fuel cursor e short
        | inr full ↦
            let filled = filled_of (length-take-le (λ r. r.id) (suc n) (objects bound)) full in
            let (l, last, i) = last_of_take (λ r. r.id) (suc n) (objects bound) (omega arith) in
            all_full bound fuel cursor l unique e full filled last i (
              Complete-from unique fuel (some l.id) (some (ids.show l.id)) (bound_of-show l.id)
                (omega (arith, remaining bound l unique filled last i)))
      ]

  none_bound : bound_of ids none ≡ some none
  unfolding bound_of
  none_bound = refl

  -- From no cursor, a client that makes more requests than there are documents of the kind ends, and
  -- has read the report of each document of the kind once: any test counts the same in both.
  pub read_pages_complete :
      UniqueIds C db
      → (fuel : ℕ) → count (λ r. r.kind == kind) (documents db) < fuel
      → (all : List CacheReport) × (read_pages fuel none ≡ some all)
        × ((q : CacheReport → Bool)
            → count q all ≡ count (λ r. r.kind == kind && q (report_of r)) (documents db))
  read_pages_complete unique fuel h = Complete-from unique fuel none none none_bound h
