-- ===== src/Worker/Aggregation.antt =====
-- The job runners of services/worker/src/worker/job_runners that put the cached responses of the
-- configs together: what they share. Each reads the names of the configs, takes the cached response of
-- each, and keeps what it needs of the successful ones. How mongoengine takes a value in a query and
-- the details of a caught exception are arguments. A progress is the fraction that the code divides.
mod Samples
pub mod Partition
pub mod Raises
pub mod Size
pub mod Parquet
pub mod Info
pub mod SplitNames
pub mod ConfigSize
pub mod IsValid
pub mod OptInOut
use datasets_server.Prelude.{
  ℕ, suc, ◌-◌, text_eq, nat_eq, ◌==◌, Bool, true, false, String, Option, none, some, List, [], ◌∷◌,
  ◌++◌, length, ◌||◌, if◌then◌else◌,
}
use datasets_server.Collection.{Collection}
use datasets_server.Json.{Json, Items, Fields, array, object, text, nil, cons, end, field, get_item}
use datasets_server.Cache.{
  CachedResponse, CacheEntry, CacheError, Result, ok, err, does_not_exist, get_response,
}
use datasets_server.Cache.Best.{BestResponse, get_best_response}
use datasets_server.Worker.Failures.{CustomError, Cause, new_error}
use datasets_server.Api.Endpoint.{is_in}

-- What reading a content raises: `KeyError` or `TypeError`, the exception of a query, or that of a
-- value which a query refuses.
pub data Fault : Type 0 where
  wrong_content refused : Fault
  cache_error : CacheError → Fault

-- What a job runner raises: `PreviousStepError.from_response(...)` of a response, a
-- `PreviousStepFormatError`, or an exception that it does not catch.
pub data Raised : Type 0 where
  previous_step : BestResponse → Raised
  format_error : CustomError → Raised
  uncaught : Fault → Raised

pub data Answer (E A : Type 0) : Type 0 where
  answer : A → Answer E A
  raised : E → Answer E A

infixl 5 ◌>>=◌
abbrev pub ◌>>=◌ : {E A B : Type 0} → Answer E A → (A → Answer E B) → Answer E B
answer a >>= f = f a
raised e >>= f = raised e

-- `value[key]`
abbrev pub item : String → Json → Answer Fault Json
item key value = elim (get_item key value) [ none ↦ raised wrong_content | some v ↦ answer v ]

abbrev listed : Items → List Json
listed nil = []
listed (cons value rest) = value ∷ listed rest

abbrev keys_of : Fields → List Json
keys_of end = []
keys_of (field key value rest) = text key ∷ keys_of rest

abbrev characters : String → List Json
characters String.[] = []
characters (String.◌∷◌ c s) = text (String.◌∷◌ c String.[]) ∷ characters s

-- What a `for` loop over the value runs over.
abbrev pub iterated : Json → Answer Fault (List Json)
iterated (array values) = answer (listed values)
iterated (object fields) = answer (keys_of fields)
iterated (text s) = answer (characters s)
iterated _ = raised wrong_content

abbrev is_listed : String → Items → Bool
is_listed key nil = false
is_listed key (cons (text s) rest) = s == key || is_listed key rest
is_listed key (cons _ rest) = is_listed key rest

abbrev is_key : String → Fields → Bool
is_key key end = false
is_key key (field other value rest) = other == key || is_key key rest

-- `key in value`
abbrev pub holds : String → Json → Answer Fault Bool
holds key (object fields) = answer (is_key key fields)
holds key (array values) = answer (is_listed key values)
holds key (text s) = answer (is_in key s)
holds key _ = raised wrong_content

pub record PreviousJob : Type 0 where
  pub kind : String
  pub dataset : String
  pub config : Option String
  pub split : Option String

-- A fraction of natural numbers.
pub record Ratio : Type 0 where
  pub numerator : ℕ
  pub denominator : ℕ

-- The variables of the loop: `contents` is what it keeps of the successful responses.
pub record Progressing (A : Type 0) : Type 0 where
  pub total : ℕ
  pub pending : List PreviousJob
  pub failed : List PreviousJob
  pub contents : List A

-- `(total - len(pending)) / total if total else 1.0`
unfoldable pub progress_of : {A : Type 0} → Progressing A → Ratio
progress_of s =
    if s.total == 0
    then record { numerator = 1; denominator = 1 }
    else record { numerator = s.total - length s.pending; denominator = s.total }

-- The cached response of a config.
pub data Previous : Type 0 where
  missing erroneous : Previous
  successful : Json → Previous

unfoldable pub previous_of : Result CacheEntry → Answer Fault Previous
previous_of (ok entry) =
    answer (if entry.http_status == 200 then successful entry.content else erroneous)
previous_of (err does_not_exist) = answer missing
previous_of (err e) = raised (cache_error e)

unfoldable pub previous_step_format_error : (message : String) → Option Cause → CustomError
unfolding new_error
previous_step_format_error message cause =
    new_error message 500 "PreviousStepFormatError" cause (some false)

unfoldable pub get_previous_step_or_raise :
    (C : Collection CachedResponse) (kinds : List String) (dataset : String)
    (config split : Option String)
    → C.Db
    → Answer Raised BestResponse
get_previous_step_or_raise C kinds dataset config split db =
    elim (get_best_response C kinds dataset config split db) [
      | err e ↦ raised (uncaught (cache_error e))
      | ok best ↦
          if best.response.http_status == 200 then answer best else raised (previous_step best)
    ]

abbrev pub uncaught_if : {A : Type 0} → Answer Fault A → Answer Raised A
uncaught_if (answer a) = answer a
uncaught_if (raised e) = raised (uncaught e)

-- `except Exception as e: raise PreviousStepFormatError(..., e) from e`
unfoldable pub caught : {A : Type 0} → (cause_of : Fault → Cause) → Answer Fault A → Answer Raised A
unfolding previous_step_format_error
caught cause_of (answer a) = answer a
caught cause_of (raised e) = raised (
    format_error (
      previous_step_format_error "Previous step did not return the expected content."
        (some (cause_of e))))

module _ (C : Collection CachedResponse) (query_value : Json → Answer Fault (Option String))
    (cause_of : Fault → Cause) where
  module _ {A : Type 0} (kind dataset : String)
      (read : (config : Option String) → (content : Json) → Answer Fault A) where
    abbrev pub job_of : Option String → PreviousJob
    job_of config = record { kind = kind; dataset = dataset; config = config; split = none }

    -- One turn of the loop.
    unfoldable pub added : Option String → Previous → Progressing A → Answer Fault (Progressing A)
    added config missing s =
        answer (record s { total = suc s.total; pending = s.pending ++ (job_of config ∷ []) })
    added config erroneous s =
        answer (record s { total = suc s.total; failed = s.failed ++ (job_of config ∷ []) })
    added config (successful content) s = read config content >>= λ a.
        answer (record s { total = suc s.total; contents = s.contents ++ (a ∷ []) })

    -- `config_item["config"]`, as the query takes it
    abbrev pub config_of : Json → Answer Fault (Option String)
    config_of config_item = item "config" config_item >>= query_value

    -- What the query for a config finds.
    unfoldable pub found : C.Db → Option String → Answer Fault Previous
    unfolding previous_of
    found db config = previous_of (get_response C kind dataset config none db)

    -- The loop over the names of the configs.
    unfoldable pub collect : C.Db → List Json → Progressing A → Answer Fault (Progressing A)
    unfolding found added
    collect db [] s = answer s
    collect db (config_item ∷ items) s = config_of config_item >>= λ config.
        found db config >>= λ previous. added config previous s >>= λ s'. collect db items s'

    abbrev pub empty : Progressing A
    empty = record { total = 0; pending = []; failed = []; contents = [] }

    -- What the runners share: `finish` is what they do behind the loop.
    unfoldable pub aggregated :
        {B : Type 0} → (finish : Progressing A → Answer Fault B) → C.Db → Answer Raised (B × Ratio)
    unfolding get_previous_step_or_raise previous_step_format_error caught collect progress_of
    aggregated finish db =
        get_previous_step_or_raise C ("/config-names" ∷ []) dataset none none db >>= λ best.
        let content = best.response.content in
        uncaught_if (holds "config_names" content) >>= λ named.
        if named
        then caught cause_of (
            item "config_names" content >>= iterated >>= λ items.
            collect db items empty >>= λ s. finish s >>= λ b. answer (b, progress_of s))
        else raised (
            format_error (
              previous_step_format_error
                "Previous step did not return the expected content: 'config_names'." none))
