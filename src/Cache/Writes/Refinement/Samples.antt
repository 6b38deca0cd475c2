-- ===== src/Cache/Writes/Refinement/Samples.antt =====
-- Witness for the theorem about sequences of writes in libs/libcommon/src/libcommon/simple_cache.py.
use datasets_server.Prelude.{String, none, some, List, [], ◌∷◌, pos, ◌≡◌, arith}
use datasets_server.Collection.Memory.{memory}
use datasets_server.Json.{text}
use datasets_server.Cache.{CachedResponse, Response}
use datasets_server.Cache.Writes.{UniqueIndex}
use datasets_server.Cache.Writes.Refinement.{
  Key, Write, upsert, delete, delete_dataset, replay, reading, run, run_refines,
}

abbrev response : Response
response = record {
  content = text "content";
  http_status = 200;
  error_code = none;
  details = none;
  job_runner_version = some 1;
  dataset_git_revision = some "main";
  progress = some (pos 1);
  updated_at = none;
}

abbrev key : String → Key
key dataset = record { kind = "size"; dataset = dataset; config = none; split = none }

abbrev writes : List Write
writes =
    upsert (key "a") 1 1 response
    ∷ upsert (key "b") 2 2 response
    ∷ delete (key "a")
    ∷ delete_dataset "b"
    ∷ []

run_refines_example :
    UniqueIndex (memory CachedResponse) (run (memory CachedResponse) writes [])
    × (reading (memory CachedResponse) (run (memory CachedResponse) writes [])
        ≡ replay writes (reading (memory CachedResponse) []))
run_refines_example =
    run_refines (memory CachedResponse) writes [] (λ kind dataset config split. omega arith)
