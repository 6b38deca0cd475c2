-- ===== src/Cache/Reports.antt =====
-- The reports of libs/libcommon/src/libcommon/simple_cache.py. An ObjectId is a number; how the bson
-- package writes and parses it is the argument `ids`.
pub mod Pages
pub mod Complete
use datasets_server.Prelude.{
  ℕ, zero, suc, text_eq, nat_eq, option_eq, ◌==◌, Bool, true, ◌&&◌, String, Option, none, some,
  List, [], ◌∷◌, map, any, length, take, ltb, ℤ, pos, negsuc, if◌then◌else◌, ◌≡◌, ◌≢◌,
}
use datasets_server.Collection.{Collection}
use datasets_server.Json.{Json}
use datasets_server.Cache.{CachedResponse}

pub record SplitFullName : Type 0 where
  pub dataset : String
  pub config : Option String
  pub split : Option String

pub record CacheReport : Type 0 where
  pub kind : String
  pub dataset : String
  pub config : Option String
  pub split : Option String
  pub http_status : ℕ
  pub error_code : Option String
  pub details : Json
  pub updated_at : ℕ
  pub job_runner_version : Option ℕ
  pub dataset_git_revision : Option String
  pub progress : Option ℤ

pub record CacheReportWithContent : Type 0 where
  pub report : CacheReport
  pub content : Json

-- A page of reports and its next cursor, or the exception.
pub data Page (A : Type 0) : Type 0 where
  page : List A → String → Page A
  invalid_cursor invalid_limit index_error : Page A

-- `str(id)` and `ObjectId(text)` of the bson package: `none` is the exception `InvalidId`.
pub record ObjectIds : Type 0 where
  pub show : ℕ → String
  pub parse : String → Option ℕ
  pub parse-show : (id : ℕ) → parse (show id) ≡ some id
  pub show-ne-empty : (id : ℕ) → (show id == "") ≡ Bool.false

unfoldable pub report_of : CachedResponse → CacheReport
report_of r = record {
  kind = r.kind;
  dataset = r.dataset;
  config = r.config;
  split = r.split;
  http_status = r.http_status;
  error_code = r.error_code;
  details = r.details;
  updated_at = r.updated_at;
  job_runner_version = r.job_runner_version;
  dataset_git_revision = r.dataset_git_revision;
  progress = r.progress;
}

unfoldable pub report_with_content_of : CachedResponse → CacheReportWithContent
unfolding report_of
report_with_content_of r = record { report = report_of r; content = r.content }

-- `objects[-1]`
abbrev pub get_last? : {A : Type 0} → List A → Option A
get_last? [] = none
get_last? (x ∷ []) = some x
get_last? (x ∷ y ∷ xs) = get_last? (y ∷ xs)

-- `kind=kind`, and `id__gt` where the cursor is neither `None` nor empty
abbrev pub beyond : String → Option ℕ → CachedResponse → Bool
beyond kind none r = r.kind == kind
beyond kind (some bound) r = r.kind == kind && ltb bound r.id

-- The bound of a cursor: `none` is the exception, `some none` is no bound.
unfoldable pub bound_of : ObjectIds → Option String → Option (Option ℕ)
bound_of ids none = some none
bound_of ids (some cursor) =
    if cursor == ""
    then some none
    else elim (ids.parse cursor) [ none ↦ none | some id ↦ some (some id) ]

-- The page of the objects that a query with this limit returned.
unfoldable pub page_of :
    {A : Type 0} → ObjectIds → (CachedResponse → A) → ℕ → List CachedResponse → Page A
page_of ids report limit objects =
    if ltb (length objects) limit then page (map report objects) "" else elim (get_last? objects) [
      | none ↦ index_error
      | some last ↦ page (map report objects) (ids.show last.id)
    ]

module _ (C : Collection CachedResponse) (ids : ObjectIds) where
  open C use {Db, find, ordered}

  unfoldable pub limited : {A : Type 0} → (CachedResponse → A) → String → Option ℕ → ℤ → Db → Page A
  unfolding page_of
  limited report kind bound (negsuc _) db = invalid_limit
  limited report kind bound (pos zero) db = invalid_limit
  limited report kind bound (pos (suc n)) db =
      page_of ids report (suc n) (take (suc n) (ordered (beyond kind bound) (λ r. r.id) db))

  unfoldable pub get_cache_reports : String → Option String → ℤ → Db → Page CacheReport
  unfolding bound_of limited report_of
  get_cache_reports kind cursor limit db = elim (bound_of ids cursor) [
    | none ↦ invalid_cursor
    | some bound ↦ limited report_of kind bound limit db
  ]

  unfoldable pub get_cache_reports_with_content :
      String → Option String → ℤ → Db → Page CacheReportWithContent
  unfolding bound_of limited report_with_content_of
  get_cache_reports_with_content kind cursor limit db = elim (bound_of ids cursor) [
    | none ↦ invalid_cursor
    | some bound ↦ limited report_with_content_of kind bound limit db
  ]

-- `job_runner_version__lt=current_version`: a document without version does not match.
abbrev pub older_than : ℕ → CachedResponse → Bool
older_than current r = elim r.job_runner_version [
  | none ↦ Bool.false
  | some version ↦ ltb version current
]

module _ (C : Collection CachedResponse) where
  open C use {Db, find}

  unfoldable get_outdated_split_full_names_for_step : String → ℕ → Db → List SplitFullName
  get_outdated_split_full_names_for_step kind current_version db =
      map
        (λ (r : CachedResponse). record { dataset = r.dataset; config = r.config; split = r.split })
        (find (λ r. r.kind == kind && older_than current_version r) db)

  unfoldable get_dataset_responses_without_content_for_kind :
      String → String → Db → List CacheReport
  unfolding report_of
  get_dataset_responses_without_content_for_kind kind dataset db =
      map report_of (find (λ r. r.kind == kind && r.dataset == dataset) db)
