-- ===== src/Worker/Aggregation/OptInOut.antt =====
-- config/opt_in_out_urls_count.py and dataset/opt_in_out_urls_count.py of services/worker/src/worker/
-- job_runners, which differ in the name they read, the response they ask for, and the test of its
-- progress. How Python sorts a set that does not hold texts only is an argument, as are sums of numbers
-- other than naturals.
pub mod Counts
use datasets_server.Prelude.{
  ℕ, suc, ◌-◌, ◌^◌, text_eq, nat_eq, ◌==◌, Bool, true, false, not, ◌&&◌, String, Option, none, some,
  List, [], ◌∷◌, ◌++◌, map, ltb, ℤ, pos, negsuc, if◌then◌else◌,
}
use datasets_server.Collection.{Collection}
use datasets_server.Json.{Json, natural, text}
use datasets_server.Cache.{
  CachedResponse, CacheEntry, Result, ok, err, does_not_exist, get_response,
}
use datasets_server.Cache.Validity.{sorted_unique}
use datasets_server.Worker.Failures.{Cause}
use datasets_server.Worker.Aggregation.{
  Answer, answer, raised, Fault, cache_error, Raised, format_error, Ratio, ◌>>=◌, item, iterated,
  holds, uncaught_if, caught, get_previous_step_or_raise, previous_step_format_error,
}
use datasets_server.Worker.Aggregation.Size.{add}

pub record OptInOutUrlsCountResponse : Type 0 where
  pub urls_columns : List Json
  pub has_urls_columns : Bool
  pub num_opt_in_urls : Json
  pub num_opt_out_urls : Json
  pub num_urls : Json
  pub num_scanned_rows : Json

-- The variables of the loop.
pub record Counting : Type 0 where
  pub total : ℕ
  pub pending : ℕ
  pub urls_columns : List Json
  pub num_opt_in_urls : Json
  pub num_opt_out_urls : Json
  pub num_urls : Json
  pub num_scanned_rows : Json

abbrev pub nothing_counted : Counting
nothing_counted = record {
  total = 0;
  pending = 0;
  urls_columns = [];
  num_opt_in_urls = natural 0;
  num_opt_out_urls = natural 0;
  num_urls = natural 0;
  num_scanned_rows = natural 0;
}

-- `response["progress"] and response["progress"] < 1.0`; 1.0 has 2 ^ 1074 of the least steps.
unfoldable pub is_in_progress : Option ℤ → Bool
is_in_progress none = false
is_in_progress (some (pos n)) = not (n == 0) && ltb n (2 ^ 1074)
is_in_progress (some (negsuc _)) = true

-- What a response is to the loop.
pub data Turn : Type 0 where
  waits skipped : Turn
  counts : (content : Json) → Turn

-- dataset/opt_in_out_urls_count.py
unfoldable pub turn_of_config : Result CacheEntry → Answer Fault Turn
unfolding is_in_progress
turn_of_config (ok entry) = answer (
    if entry.http_status == 200
    then (if is_in_progress entry.progress then waits else counts entry.content)
    else skipped)
turn_of_config (err does_not_exist) = answer waits
turn_of_config (err e) = raised (cache_error e)

-- config/opt_in_out_urls_count.py
unfoldable pub turn_of_split : Result CacheEntry → Answer Fault Turn
turn_of_split (ok entry) =
    answer (if entry.http_status == 200 then counts entry.content else skipped)
turn_of_split (err does_not_exist) = answer waits
turn_of_split (err e) = raised (cache_error e)

-- The texts, if all values are texts.
abbrev texts : List Json → Option (List String)
texts [] = some []
texts (text s ∷ values) = elim (texts values) [ none ↦ none | some ts ↦ some (s ∷ ts) ]
texts (_ ∷ values) = none

abbrev is_not_empty : List Json → Bool
is_not_empty [] = false
is_not_empty (_ ∷ _) = true

module _ (C : Collection CachedResponse) (query_value : Json → Answer Fault (Option String))
    (cause_of : Fault → Cause) (other_sum : Json → Json → Json)
    (other_sorted : List Json → Answer Fault (List Json)) where
  -- One turn of the loop.
  unfoldable pub counted : Turn → Counting → Answer Fault Counting
  counted waits s = answer (record s { total = suc s.total; pending = suc s.pending })
  counted skipped s = answer (record s { total = suc s.total })
  counted (counts content) s = item "urls_columns" content >>= iterated >>= λ columns.
      item "num_opt_in_urls" content >>= add other_sum s.num_opt_in_urls >>= λ opt_in.
      item "num_opt_out_urls" content >>= add other_sum s.num_opt_out_urls >>= λ opt_out.
      item "num_urls" content >>= add other_sum s.num_urls >>= λ urls.
      item "num_scanned_rows" content >>= add other_sum s.num_scanned_rows >>= λ rows.
      answer (record {
        total = suc s.total;
        pending = s.pending;
        urls_columns = s.urls_columns ++ columns;
        num_opt_in_urls = opt_in;
        num_opt_out_urls = opt_out;
        num_urls = urls;
        num_scanned_rows = rows;
      })

  -- The loop over the items, which have their names at `key`.
  unfoldable pub count_items :
      (key : String)
      → (turn : Option String → Answer Fault Turn) → List Json
      → Counting
      → Answer Fault Counting
  unfolding counted
  count_items key turn [] s = answer s
  count_items key turn (x ∷ xs) s = item key x >>= query_value >>= λ name.
      turn name >>= λ t. counted t s >>= λ s'. count_items key turn xs s'

  -- `sorted(list(set(urls_columns)))`
  unfoldable pub unique_columns : List Json → Answer Fault (List Json)
  unfolding sorted_unique
  unique_columns columns = elim (texts columns) [
    | none ↦ other_sorted columns
    | some ts ↦ answer (map text (sorted_unique ts))
  ]

  abbrev progress_of : Counting → Ratio
  progress_of s =
      if s.total == 0
      then record { numerator = 1; denominator = 1 }
      else record { numerator = s.total - s.pending; denominator = s.total }

  abbrev response_of : Counting → Answer Fault (OptInOutUrlsCountResponse × Ratio)
  response_of s = unique_columns s.urls_columns >>= λ columns. answer (
    record {
      urls_columns = columns;
      has_urls_columns = is_not_empty columns;
      num_opt_in_urls = s.num_opt_in_urls;
      num_opt_out_urls = s.num_opt_out_urls;
      num_urls = s.num_urls;
      num_scanned_rows = s.num_scanned_rows;
    },
    progress_of s,
  )

  -- What the two files share, behind the read of the names.
  abbrev counted_names :
      (missing key : String)
      → (names_key : String) → (turn : Option String → Answer Fault Turn) → Json
      → Answer Raised (OptInOutUrlsCountResponse × Ratio)
  counted_names missing key names_key turn content =
      uncaught_if (holds names_key content) >>= λ named.
      if named
      then (caught cause_of (
            item names_key content >>= iterated >>= λ items.
            count_items key turn items nothing_counted)
          >>= λ s. uncaught_if (response_of s))
      else raised (format_error (previous_step_format_error missing none))

  -- dataset/opt_in_out_urls_count.py
  unfoldable pub compute_opt_in_out_urls_count_response :
      (dataset : String) → C.Db → Answer Raised (OptInOutUrlsCountResponse × Ratio)
  unfolding get_previous_step_or_raise previous_step_format_error caught count_items turn_of_config
      unique_columns get_response
  compute_opt_in_out_urls_count_response dataset db =
      get_previous_step_or_raise C ("/config-names" ∷ []) dataset none none db >>= λ best.
      counted_names "Previous step did not return the expected content: 'config_names'." "config"
        "config_names"
        (λ config.
          turn_of_config (get_response C "config-opt-in-out-urls-count" dataset config none db))
        best.response.content

  -- config/opt_in_out_urls_count.py
  unfoldable pub compute_opt_in_out_urls_scan_response :
      (dataset config : String) → C.Db → Answer Raised (OptInOutUrlsCountResponse × Ratio)
  unfolding get_previous_step_or_raise previous_step_format_error caught count_items turn_of_split
      unique_columns get_response
  compute_opt_in_out_urls_scan_response dataset config db =
      get_previous_step_or_raise C ("/split-names-from-streaming" ∷ []) dataset (some config) none
        db
      >>= λ best.
          counted_names "Previous step did not return the expected content: 'splits'." "split"
            "splits"
            (λ split.
              turn_of_split
                (get_response C "split-opt-in-out-urls-count" dataset (some config) split db))
            best.response.content
