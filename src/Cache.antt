-- ===== src/Cache.antt =====
-- libs/libcommon/src/libcommon/simple_cache.py: the documents of the cache, their writes and reads.
-- A progress is a float: an integer in units of 2 ^ -1074, which all finite floats are multiples of.
-- Exceptions of a read are values. The reports are in the modules below.
mod Samples
pub mod Writes
pub mod Best
pub mod Validity
pub mod Reports
use Prim.Native.String.{◌++◌ as ◌<>◌}
use datasets_server.Prelude.{
  ℕ, suc, ◌+◌, text_eq, option_eq, ◌==◌, Bool, true, ◌&&◌, String, Option, none, some, List, [],
  ◌∷◌, map, leb, ltb, ℤ, pos, negsuc, get_elem?, if◌then◌else◌,
}
use datasets_server.Collection.{Collection}
use datasets_server.Utils.{JobParams}
use datasets_server.Json.{Json, text, object, end, field}

-- A document, with the values that its attributes have when it is read.
pub record CachedResponse : Type 0 where
  pub id : ℕ
  pub kind : String
  pub dataset : String
  pub config : Option String
  pub split : Option String
  pub http_status : ℕ
  pub error_code : Option String
  pub content : Json
  pub dataset_git_revision : Option String
  pub progress : Option ℤ
  pub job_runner_version : Option ℕ
  pub details : Json
  pub updated_at : ℕ

-- The arguments of `upsert_response` that it writes.
pub record Response : Type 0 where
  pub content : Json
  pub http_status : ℕ
  pub error_code : Option String
  pub details : Option Json
  pub job_runner_version : Option ℕ
  pub dataset_git_revision : Option String
  pub progress : Option ℤ
  pub updated_at : Option ℕ

pub record CacheEntryWithoutContent : Type 0 where
  pub http_status : ℕ
  pub error_code : Option String
  pub dataset_git_revision : Option String
  pub progress : Option ℤ
  pub job_runner_version : Option ℕ

pub record CacheEntryMetadata : Type 0 where
  pub without_content : CacheEntryWithoutContent
  pub open without_content use *
  pub updated_at : ℕ

pub record CacheEntry : Type 0 where
  pub without_content : CacheEntryWithoutContent
  pub open without_content use *
  pub content : Json

pub record CacheEntryWithDetails : Type 0 where
  pub entry : CacheEntry
  pub open entry use *
  pub details : Json

pub data CacheError : Type 0 where
  does_not_exist multiple_objects value_error index_error : CacheError

pub data Result (A : Type 0) : Type 0 where
  ok : A → Result A
  err : CacheError → Result A

abbrev pub result_map : {A B : Type 0} → (A → B) → Result A → Result B
result_map f (ok a) = ok (f a)
result_map f (err e) = err e

-- `.get()` of a query set
abbrev pub get_one : List CachedResponse → Result CachedResponse
get_one [] = err does_not_exist
get_one (response ∷ []) = ok response
get_one _ = err multiple_objects

-- `kind=kind, dataset=dataset, config=config, split=split`
abbrev pub has_key : String → String → Option String → Option String → CachedResponse → Bool
has_key kind dataset config split r =
    r.kind == kind && (r.dataset == dataset && (r.config == config && r.split == split))

abbrev date_or : ℕ → Option ℕ → ℕ
date_or now none = now
date_or now (some date) = date

-- `None` in the `DictField` of the details is read as an empty dictionary.
abbrev pub read_dict : Option Json → Json
read_dict none = object end
read_dict (some value) = value

-- The fields that `upsert_one(...)` sets.
unfoldable pub written : ℕ → Response → CachedResponse → CachedResponse
written now response r = record r {
  content = response.content;
  http_status = response.http_status;
  error_code = response.error_code;
  details = read_dict response.details;
  dataset_git_revision = response.dataset_git_revision;
  progress = response.progress;
  updated_at = date_or now response.updated_at;
  job_runner_version = response.job_runner_version;
}

-- The document that `upsert_one(...)` creates: the key of the query, and the fields.
unfoldable pub created :
    (now id : ℕ) (kind dataset : String) (config split : Option String) → Response → CachedResponse
created now id kind dataset config split response = record {
  id = id;
  kind = kind;
  dataset = dataset;
  config = config;
  split = split;
  http_status = response.http_status;
  error_code = response.error_code;
  content = response.content;
  dataset_git_revision = response.dataset_git_revision;
  progress = response.progress;
  job_runner_version = response.job_runner_version;
  details = read_dict response.details;
  updated_at = date_or now response.updated_at;
}

abbrev pub without_content_of : CachedResponse → CacheEntryWithoutContent
without_content_of r = record {
  http_status = r.http_status;
  error_code = r.error_code;
  dataset_git_revision = r.dataset_git_revision;
  progress = r.progress;
  job_runner_version = r.job_runner_version;
}

abbrev pub metadata_of : CachedResponse → CacheEntryMetadata
metadata_of r = record { without_content = without_content_of r; updated_at = r.updated_at }

abbrev pub entry_of : CachedResponse → CacheEntry
entry_of r = record { without_content = without_content_of r; content = r.content }

abbrev pub with_details_of : CachedResponse → CacheEntryWithDetails
with_details_of r = record { entry = entry_of r; details = r.details }

-- `f"{value}"` of an optional text
abbrev shown : Option String → String
shown none = "None"
shown (some s) = s

-- The entry that `get_response_or_missing_error` builds where the cache has none.
unfoldable pub missing_error :
    String → String → Option String → Option String → CacheEntryWithDetails
missing_error kind dataset config split = record {
  entry = record {
    without_content = record {
      http_status = 404;
      error_code = some "CachedResponseNotFound";
      dataset_git_revision = none;
      progress = none;
      job_runner_version = none;
    };
    content = object (
        field "error"
          (text (
            "Cached response not found for kind "
            <> (kind
                <> (", dataset "
                    <> (dataset
                        <> (", config " <> (shown config <> (", split " <> shown split))))))))
          end);
  };
  details = object end;
}

module _ (C : Collection CachedResponse) where
  open C use {Db, find, upsert_one, delete}

  module _ (kind dataset : String) (config split : Option String) where
    unfoldable pub upsert_response : (now id : ℕ) → Response → Db → Db
    upsert_response now id response db =
        upsert_one (has_key kind dataset config split) (written now response)
          (created now id kind dataset config split response) db

    unfoldable pub delete_response : Db → Db
    delete_response db = delete (has_key kind dataset config split) db

    unfoldable pub get_response_without_content : Db → Result CacheEntryWithoutContent
    get_response_without_content db =
        result_map without_content_of (get_one (find (has_key kind dataset config split) db))

    unfoldable pub get_response_metadata : Db → Result CacheEntryMetadata
    get_response_metadata db =
        result_map metadata_of (get_one (find (has_key kind dataset config split) db))

    unfoldable pub get_response : Db → Result CacheEntry
    get_response db = result_map entry_of (get_one (find (has_key kind dataset config split) db))

    unfoldable pub get_response_with_details : Db → Result CacheEntryWithDetails
    get_response_with_details db =
        result_map with_details_of (get_one (find (has_key kind dataset config split) db))

    unfoldable pub get_response_or_missing_error : Db → Result CacheEntryWithDetails
    unfolding get_response_with_details missing_error
    get_response_or_missing_error db = elim (get_response_with_details db) [
      | err does_not_exist ↦ ok (missing_error kind dataset config split)
      | other ↦ other
    ]

  -- With the parameters of a job
  unfoldable pub upsert_response_params : String → JobParams → (now id : ℕ) → Response → Db → Db
  unfolding upsert_response
  upsert_response_params kind params now id response db =
      upsert_response kind params.dataset params.config params.split now id response db

  unfoldable pub get_response_without_content_params :
      String → JobParams → Db → Result CacheEntryWithoutContent
  unfolding get_response_without_content
  get_response_without_content_params kind params db =
      get_response_without_content kind params.dataset params.config params.split db

  unfoldable pub delete_dataset_responses : String → Db → Db
  delete_dataset_responses dataset db = delete (λ r. r.dataset == dataset) db
