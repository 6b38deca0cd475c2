-- ===== src/Worker/Aggregation/ConfigSize.antt =====
-- services/worker/src/worker/job_runners/config/size.py. Sums of numbers other than naturals are an
-- argument, and so is Python's equality of two values of a content.
use datasets_server.Prelude.{
  ℕ, suc, text_eq, Bool, false, String, Option, none, some, List, [], ◌∷◌, if◌then◌else◌,
}
use datasets_server.Collection.{Collection}
use datasets_server.Json.{Json, Items, Fields, natural, text, array, object, nil, cons, end, field}
use datasets_server.Cache.{CachedResponse}
use datasets_server.Worker.Failures.{Cause}
use datasets_server.Worker.Aggregation.{
  Answer, answer, raised, Fault, wrong_content, Raised, format_error, ◌>>=◌, item, iterated, holds,
  uncaught_if, caught, get_previous_step_or_raise, previous_step_format_error,
}
use datasets_server.Worker.Aggregation.Info.{is_dict}
use datasets_server.Worker.Aggregation.Size.{add}

pub record SplitSize : Type 0 where
  pub dataset : String
  pub config : String
  pub split : Json
  pub num_bytes_parquet_files : Json
  pub num_bytes_memory : Json
  pub num_rows : Json
  pub num_columns : ℕ

pub record ConfigSize : Type 0 where
  pub dataset : String
  pub config : String
  pub num_bytes_original_files : Json
  pub num_bytes_parquet_files : Json
  pub num_bytes_memory : Json
  pub num_rows : Json
  pub num_columns : ℕ

pub record ConfigSizeResponse : Type 0 where
  pub config : ConfigSize
  pub splits : List SplitSize

abbrev items_length : Items → ℕ
items_length nil = 0
items_length (cons _ rest) = suc (items_length rest)

abbrev fields_length : Fields → ℕ
fields_length end = 0
fields_length (field _ _ rest) = suc (fields_length rest)

abbrev text_length : String → ℕ
text_length String.[] = 0
text_length (String.◌∷◌ _ s) = suc (text_length s)

-- `len(value)`
abbrev length_of : Json → Answer Fault ℕ
length_of (array values) = answer (items_length values)
length_of (object fields) = answer (fields_length fields)
length_of (text s) = answer (text_length s)
length_of _ = raised wrong_content

abbrev field_values : Fields → List Json
field_values end = []
field_values (field _ value rest) = value ∷ field_values rest

-- `value.values()`
abbrev values_of : Json → Answer Fault (List Json)
values_of (object fields) = answer (field_values fields)
values_of _ = raised wrong_content

module _ (C : Collection CachedResponse) (query_value : Json → Answer Fault (Option String))
    (cause_of : Fault → Cause) (equal : Json → Json → Bool) (other_sum : Json → Json → Json)
    (dataset config : String) where
  -- `x["config"] == config and x["split"] == split_info["name"]`
  abbrev is_of_split : Json → Json → Answer Fault Bool
  is_of_split name x = item "config" x >>= λ c.
      if equal c (text config)
      then (item "split" x >>= λ s. answer (equal s name))
      else answer false

  -- The sum of the sizes of the parquet files of the split, from a sum on.
  unfoldable pub parquet_bytes : Json → Json → List Json → Answer Fault Json
  parquet_bytes name total [] = answer total
  parquet_bytes name total (x ∷ xs) = is_of_split name x >>= λ mine.
      let skipped = parquet_bytes name total xs in
      if mine
      then (item "size" x >>= λ size.
          add other_sum total size >>= λ total'. parquet_bytes name total' xs)
      else skipped

  unfoldable pub split_size : ℕ → Json → Json → Answer Fault SplitSize
  unfolding parquet_bytes
  split_size num_columns content split_info = item "name" split_info >>= λ name.
      item "parquet_files" content >>= iterated >>= parquet_bytes name (natural 0) >>= λ bytes.
      item "num_bytes" split_info >>= λ memory. item "num_examples" split_info >>= λ rows.
      answer (record {
        dataset = dataset;
        config = config;
        split = name;
        num_bytes_parquet_files = bytes;
        num_bytes_memory = memory;
        num_rows = rows;
        num_columns = num_columns;
      })

  unfoldable pub split_sizes_of : ℕ → Json → List Json → Answer Fault (List SplitSize)
  unfolding split_size
  split_sizes_of num_columns content [] = answer []
  split_sizes_of num_columns content (x ∷ xs) = split_size num_columns content x >>= λ size.
      split_sizes_of num_columns content xs >>= λ sizes. answer (size ∷ sizes)

  -- `sum(split_size[...] for split_size in split_sizes)`, from a sum on
  unfoldable pub sum_of : (SplitSize → Json) → Json → List SplitSize → Answer Fault Json
  sum_of f total [] = answer total
  sum_of f total (size ∷ sizes) = add other_sum total (f size) >>= λ total'. sum_of f total' sizes

  unfoldable pub config_size_of : Json → Json → Answer Fault ConfigSizeResponse
  unfolding split_sizes_of sum_of
  config_size_of content config_info = item "features" config_info >>= length_of >>= λ num_columns.
      item "splits" config_info >>= values_of >>= split_sizes_of num_columns content >>= λ splits.
      item "download_size" config_info >>= λ original.
      sum_of (λ s. s.num_bytes_parquet_files) (natural 0) splits >>= λ parquet.
      sum_of (λ s. s.num_bytes_memory) (natural 0) splits >>= λ memory.
      sum_of (λ s. s.num_rows) (natural 0) splits >>= λ rows. answer (record {
        config = record {
          dataset = dataset;
          config = config;
          num_bytes_original_files = original;
          num_bytes_parquet_files = parquet;
          num_bytes_memory = memory;
          num_rows = rows;
          num_columns = num_columns;
        };
        splits = splits;
      })

  unfoldable pub compute_config_size_response : C.Db → Answer Raised ConfigSizeResponse
  unfolding get_previous_step_or_raise previous_step_format_error caught config_size_of
  compute_config_size_response db =
      get_previous_step_or_raise C ("config-parquet-and-info" ∷ []) dataset (some config) none db
      >>= λ best.
          let content = best.response.content in
          uncaught_if (holds "dataset_info" content) >>= λ named.
          if named
          then (uncaught_if (item "dataset_info" content) >>= λ config_info.
              if is_dict config_info
              then caught cause_of (config_size_of content config_info)
              else raised (
                  format_error (
                    previous_step_format_error "Previous step did not return the expected content."
                      (some (cause_of wrong_content)))))
          else raised (
              format_error (
                previous_step_format_error
                  "Previous step did not return the expected content: 'dataset_info'." none))
