-- ===== src/Worker/Aggregation/SplitNames/Naming.antt =====
-- The loop of services/worker/src/worker/job_runners/dataset/split_names.py.
use datasets_server.Prelude.{
  suc, ◌+◌, nat_eq, text_eq, option_eq, ◌==◌, Bool, false, ◌&&◌, not, String, some, List, [], ◌∷◌,
  ◌++◌, map, filter, length, if◌then◌else◌, ◌≡◌,
}
use datasets_server.Collection.{Collection}
use datasets_server.Cache.{CachedResponse}
use datasets_server.Cache.Best.{BestResponse}
use datasets_server.Worker.Failures.{Cause}
use datasets_server.Worker.Aggregation.{Answer, answer, raised, Fault}
use datasets_server.Worker.Aggregation.SplitNames.{
  ConfigItem, FailedConfigItem, Named, best_of_config,
}

abbrev pub is_not_found : Answer Fault BestResponse → Bool
is_not_found (answer best) = best.response.error_code == some "CachedResponseNotFound"
is_not_found (raised _) = false

abbrev pub is_failed : Answer Fault BestResponse → Bool
is_failed (answer best) =
    not (best.response.error_code == some "CachedResponseNotFound")
    && not (best.response.http_status == 200)
is_failed (raised _) = false

module _ (C : Collection CachedResponse) (cause_of : Fault → Cause) (dataset : String)
    (db : C.Db) where
  abbrev best : String → Answer Fault BestResponse
  best config = best_of_config C cause_of dataset db config

  abbrev pub pending_item : String → ConfigItem
  pending_item config = record { dataset = dataset; config = config }

  abbrev failed_key : FailedConfigItem → String × String
  failed_key f = (f.dataset, f.config)

  -- What the loop adds for the configs.
  pub record Adds (configs : List String) (s s' : Named) : Type 0 where
    pub total_is : s'.total ≡ s.total + length configs
    pub pending_is :
        s'.pending ≡ s.pending ++ map pending_item (filter (λ c. is_not_found (best c)) configs)
    pub failed_is :
        map (λ (f : FailedConfigItem). f.config) s'.failed
        ≡ map (λ (f : FailedConfigItem). f.config) s.failed
          ++ filter (λ c. is_failed (best c)) configs

  record Turn (config : String) (b : BestResponse) (s s' : Named) : Type 0 where
    total_turn : s'.total ≡ suc s.total
    pending_turn :
        s'.pending ≡ s.pending ++ (if is_not_found (answer b) then pending_item config ∷ [] else [])
    failed_turn :
        map (λ (f : FailedConfigItem). f.config) s'.failed
        ≡ map (λ (f : FailedConfigItem). f.config) s.failed
          ++ (if is_failed (answer b) then config ∷ [] else [])
