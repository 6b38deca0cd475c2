-- ===== src/Lib.antt =====
-- The datasets-server precomputes answers about the datasets of the Hugging Face Hub. A queue
-- holds jobs, workers start and finish them and write what they computed into a cache, and a state
-- per dataset compares cache and queue with a graph of processing steps and plans the jobs that
-- are missing; an HTTP service answers requests from the cache. This library models that core,
-- libs/libcommon/src/libcommon, with the loop of the workers, the job runners that put cached
-- responses together, and the endpoints of the API.
--
-- Parts, and the files that model them:
--
-- utils.py - Utils.antt has the statuses, priorities, job dictionaries and `inputs_to_string`;
--   Utils/Injective.antt says when its results differ.
-- queue.py - Job.antt has the document and its dictionaries; Queue.antt the operations of `Queue`
--   that add, cancel, finish and look for jobs, Queue/Reports.antt the counts and dumps,
--   Queue/Zombies.antt the heartbeat and the killing of jobs; Scheduling.antt has
--   `_get_next_waiting_job_for_priority`, `get_next_waiting_job` and `start_job`. `_add_job` is
--   `add_job`, `__init__` is `limit_of`. Queue/Upsert, Queue/Cancel, Queue/Zombies/Killed and
--   Scheduling/Counting, ByPriority, Choice and Starting have the proofs.
-- simple_cache.py - Cache.antt has the writes and reads, Cache/Best.antt `get_best_response`,
--   Cache/Validity.antt the validity queries, Cache/Reports.antt the paginated reports;
--   Cache/Writes, Cache/Writes/Refinement and Cache/Reports/Pages and Complete have the proofs.
-- processing_graph.py - Graph.antt has the steps and specifications, Graph/Build.antt
--   `ProcessingGraph.__post_init__` as `build_graph`, Graph/Build/Access.antt the accessors;
--   Graph/Build/Unknown has proofs.
-- state.py - State.antt has the states of artifacts, splits and configs, Backfill.antt the body of
--   `_get_cache_status` and `_create_plan`, Backfill/Dataset.antt `DatasetState` and the tasks of
--   its plan; Backfill/Planning and Backfill/Dataset/Visited, Exact and Running have the proofs.
-- operations.py - `backfill_dataset` and `delete_dataset`, in Backfill/Dataset.antt, and
--   `update_dataset`, in Hub/Update.antt.
-- dataset.py - Hub.antt has the errors and the access to a dataset, `world_of` the revision that a
--   job manager asks for; Hub/Errors has the proofs.
-- services/worker/src/worker - Worker/Failures.antt has the errors that are stored (exceptions.py
--   of libcommon and common_exceptions.py), Worker/Manager.antt `JobManager` with `process`,
--   Worker/Loop.antt `JobManager.run`, `backfill` and `Loop.process_next_job`,
--   Worker/Truncation.antt the cut of rows of utils.py; Worker/Manager/Writes, Worker/Loop/Others,
--   Lasting and NotFound and Worker/Truncation/Bytes, Fits and Cut have the proofs.
-- services/worker/src/worker/job_runners - Worker/Aggregation.antt has the loop over the configs
--   that dataset/size.py, dataset/parquet.py and dataset/info.py write out each, as `collect` and
--   `aggregated`; the modules below it Size, Parquet, Info, SplitNames, ConfigSize and IsValid are
--   the files, Parquet and Info also config/parquet.py and config/info.py, OptInOut config/ and
--   dataset/opt_in_out_urls_count.py; Worker/Aggregation/Partition, Raises, Size/Sums,
--   SplitNames/Naming and OptInOut/Counts have the proofs.
-- services/api/src/api - Api/Responses.antt has the errors and answers of utils.py,
--   Api/Authentication.antt `auth_check`, Api/JwtToken.antt `is_jwt_valid`, Api/Endpoint.antt
--   routes/endpoint.py with the validators as the three input types, Api/Webhook.antt
--   routes/webhook.py, Api/Valid.antt `get_valid` of routes/valid.py; Api/Endpoint/Validators,
--   Serving, Texts and Prefix and Api/Webhook/Trust have the proofs.
-- services/api/src/api/routes/rows.py - Rows.antt has `RowsIndex` with `query`, Rows/Cleaning.antt
--   `clean_cached_assets`; Rows/Groups and Query and Rows/Cleaning/Bounds have the proofs.
-- Every operation of `Queue`, in any order - Lifecycle.antt has one step for each, but for
--   `cancel_started_jobs`, which the admin service calls; Lifecycle/Updates, Operations and
--   Reachable have the proofs.
--
-- How they interact: `Databases` holds the two collections. The state of a dataset reads the cache
-- by `get_response_metadata` and `get_best_response` and the queue by `is_job_in_process`; its
-- plan runs `upsert_job` and `cancel_jobs`; `start_job` hands a job to a worker, whose job manager
-- writes one response and runs the plan of the dataset before `finish_job`. An endpoint reads the
-- cache by `get_best_response` and, where it finds nothing, runs the plan of the dataset too.
--
-- State and errors: an operation takes the database and returns it with its result. mongoengine
-- and MongoDB are the interface of Collection.antt, whose laws say how many documents pass a test;
-- Collection/Memory.antt is a list that meets them. networkx is the interface `DiGraph` of
-- Graph.antt, and the ObjectId of bson is `ObjectIds` of Cache/Reports.antt. Dates are numbers of
-- microseconds; a date that the code reads from the clock is an argument, as is the key of a new
-- document. Exceptions are values: `Option` for a missing document, `Result` and `Page` for the
-- cache, `StartResult` for `start_job`, `Try` for job runners and `Answer` inside them, `Attempt`
-- for a round of the loop, `Answer` for the Hub, `Raised` for the endpoints, `QueryResult` for
-- rows, `Outcome` of Errors.antt elsewhere. Job runners, the Hub, orjson, numpy and pyarrow are
-- arguments with the laws that the code relies on. Json.antt has the content of cached responses,
-- and Prelude.antt the tests and lists that the parts share.
--
-- Bounds: numbers of the database are natural numbers without a bound, as Python's are. A progress
-- is an integer number of the least float steps; the progress of a job runner is the fraction that
-- it divides. Only the client `read_pages` of Cache/Reports/Complete.antt takes fuel, one unit for
-- each request; more than the number of documents of the kind is enough.
--
-- A field of a document that is a dictionary is read as {} where it was saved as None, as
-- mongoengine's DictField does: `read_dict` of Cache.antt.
--
-- Not modelled: an operation of the queue or the cache is one step, so two processes that
-- interleave inside an operation are not described; the counts of cached responses for the
-- metrics; the executor of the workers and the job runners that read datasets by the packages
-- datasets, pandas and huggingface_hub; the public keys of JSON Web Tokens; the HTTP servers, the
-- admin service, migrations, metrics and files, which are input and output around these
-- operations.
mod Prelude
pub mod Collection
pub mod Utils
pub mod Json
pub mod Job
pub mod Queue
pub mod Scheduling
pub mod Cache
pub mod Errors
pub mod Graph
pub mod State
pub mod Backfill
pub mod Lifecycle
pub mod Rows
pub mod Worker
pub mod Hub
pub mod Api
