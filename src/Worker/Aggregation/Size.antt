-- ===== src/Worker/Aggregation/Size.antt =====
-- services/worker/src/worker/job_runners/dataset/size.py. Sums of numbers other than naturals are an
-- argument.
pub mod Sums
use Prim.Native.String.{◌++◌ as ◌<>◌}
use datasets_server.Prelude.{
  ℕ, ◌+◌, text_eq, option_eq, ◌==◌, Bool, true, false, String, Option, none, some, List, [], ◌∷◌,
  ◌++◌, map, if◌then◌else◌,
}
use datasets_server.Collection.{Collection}
use datasets_server.Json.{Json, null, boolean, natural, number, text, array, object, get_item}
use datasets_server.Cache.{CachedResponse}
use datasets_server.Worker.Failures.{CustomError, Cause}
use datasets_server.Worker.Aggregation.{
  Answer, answer, raised, Fault, wrong_content, Raised, format_error, uncaught, Progressing,
  PreviousJob, Ratio, ◌>>=◌, item, iterated, holds, uncaught_if, aggregated,
  previous_step_format_error, get_previous_step_or_raise,
}

pub record DatasetSize : Type 0 where
  pub dataset : String
  pub num_bytes_original_files : Json
  pub num_bytes_parquet_files : Json
  pub num_bytes_memory : Json
  pub num_rows : Json

pub record DatasetSizeResponse : Type 0 where
  pub size : DatasetSize
  pub configs : List Json
  pub splits : List Json
  pub pending : List PreviousJob
  pub failed : List PreviousJob

abbrev pub concat : List (List Json) → List Json
concat [] = []
concat (xs ∷ xss) = xs ++ concat xss

-- `a + b`, where `a` is a number; `other_sum` adds where one is a float or negative.
abbrev pub add : (other_sum : Json → Json → Json) → Json → Json → Answer Fault Json
add other_sum (natural a) (natural b) = answer (natural (a + b))
add other_sum (natural a) (boolean true) = answer (natural (a + 1))
add other_sum (natural a) (boolean false) = answer (natural a)
add other_sum a (natural b) = answer (other_sum a (natural b))
add other_sum a (number b) = answer (other_sum a (number b))
add other_sum a (boolean b) = answer (other_sum a (boolean b))
add other_sum a _ = raised wrong_content

-- `sum(value[key] for value in values)`, from a sum on
unfoldable pub sum_from :
    (other_sum : Json → Json → Json) → String → Json → List Json → Answer Fault Json
sum_from other_sum key total [] = answer total
sum_from other_sum key total (value ∷ values) =
    item key value >>= λ v. add other_sum total v >>= λ total'. sum_from other_sum key total' values

module _ (C : Collection CachedResponse) (query_value : Json → Answer Fault (Option String))
    (cause_of : Fault → Cause) (other_sum : Json → Json → Json) where
  -- What the loop keeps of a response: `["size"]["config"]` and `["size"]["splits"]`.
  abbrev pub read : Option String → Json → Answer Fault (Json × List Json)
  read config content = item "size" content >>= λ size.
      item "config" size >>= λ c. item "splits" size >>= iterated >>= λ splits. answer (c, splits)

  unfoldable pub response_of :
      String → Progressing (Json × List Json) → Answer Fault DatasetSizeResponse
  unfolding sum_from
  response_of dataset s =
      let configs = map (λ (x : Json × List Json). x.0) s.contents in
      sum_from other_sum "num_bytes_original_files" (natural 0) configs >>= λ original.
      sum_from other_sum "num_bytes_parquet_files" (natural 0) configs >>= λ parquet.
      sum_from other_sum "num_bytes_memory" (natural 0) configs >>= λ memory.
      sum_from other_sum "num_rows" (natural 0) configs >>= λ rows. answer (record {
        size = record {
          dataset = dataset;
          num_bytes_original_files = original;
          num_bytes_parquet_files = parquet;
          num_bytes_memory = memory;
          num_rows = rows;
        };
        configs = configs;
        splits = concat (map (λ (x : Json × List Json). x.1) s.contents);
        pending = s.pending;
        failed = s.failed;
      })

  unfoldable pub compute_sizes_response :
      String → C.Db → Answer Raised (DatasetSizeResponse × Ratio)
  unfolding aggregated response_of
  compute_sizes_response dataset db =
      aggregated C query_value cause_of "config-size" dataset read (response_of dataset) db
