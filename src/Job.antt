-- ===== src/Job.antt =====
-- The `Job` document of libs/libcommon/src/libcommon/queue.py, its dictionary, and the filters with
-- which the queue asks for jobs. Dates are numbers of microseconds since the epoch. The primary key
-- stands for the ObjectId that the bson package draws.
use datasets_server.Prelude.{
  ℕ, text_eq, option_eq, ◌==◌, Bool, ◌&&◌, String, Option, List, contains,
}
use datasets_server.Utils.{
  Status, Priority, JobInfo, status_eq, priority_eq, waiting, started, success, error, cancelled,
  normal, low,
}

pub record Job : Type 0 where
  pub pk : ℕ
  pub type : String
  pub dataset : String
  pub config : Option String
  pub split : Option String
  pub unicity_id : String
  pub namespace : String
  pub priority : Priority
  pub status : Status
  pub created_at : ℕ
  pub started_at : Option ℕ
  pub finished_at : Option ℕ
  pub last_heartbeat : Option ℕ

pub record JobDict : Type 0 where
  pub type : String
  pub dataset : String
  pub config : Option String
  pub split : Option String
  pub unicity_id : String
  pub namespace : String
  pub priority : String
  pub status : String
  pub created_at : ℕ
  pub started_at : Option ℕ
  pub finished_at : Option ℕ
  pub last_heartbeat : Option ℕ

-- `Priority.value`, `Status.value`
abbrev pub priority_value : Priority → String
priority_value normal = "normal"
priority_value low = "low"

abbrev pub status_value : Status → String
status_value waiting = "waiting"
status_value started = "started"
status_value success = "success"
status_value error = "error"
status_value cancelled = "cancelled"

unfoldable pub to_dict : Job → JobDict
to_dict job = record {
  type = job.type;
  dataset = job.dataset;
  config = job.config;
  split = job.split;
  unicity_id = job.unicity_id;
  namespace = job.namespace;
  priority = priority_value job.priority;
  status = status_value job.status;
  created_at = job.created_at;
  started_at = job.started_at;
  finished_at = job.finished_at;
  last_heartbeat = job.last_heartbeat;
}

unfoldable pub info : Job → JobInfo
info job = record {
  job_id = job.pk;
  type = job.type;
  params = record { dataset = job.dataset; config = job.config; split = job.split };
  priority = job.priority;
}

-- `type=job_type, dataset=dataset, config=config, split=split`
abbrev pub has_params : String → String → Option String → Option String → Job → Bool
has_params job_type dataset config split job =
    job.type == job_type && (job.dataset == dataset && (job.config == config && job.split == split))

-- `status=status`
abbrev pub has_status : Status → Job → Bool
has_status status job = job.status == status

-- `status__in=statuses`
abbrev pub status_in : List Status → Job → Bool
status_in statuses job = contains job.status statuses
