-- ===== src/Utils.antt =====
-- libs/libcommon/src/libcommon/utils.py: the enumerations and dictionaries that the parts share, and
-- `inputs_to_string`. Strings are the native texts; an f-string is an append.
mod Samples
pub mod Injective
use Prim.Native.Char.{code}
use Prim.Native.String.{◌++◌ as ◌<>◌}
use datasets_server.Prelude.{
  ℕ, nat_eq, Bool, true, false, String, Option, none, some, Eq, ◌==◌, ◌≡◌, ◌↔◌, arith,
  if◌then◌else◌,
}

pub data Status : Type 0 where
  waiting started success error cancelled : Status

pub data Priority : Type 0 where
  normal low : Priority

abbrev status_beq : Status → Status → Bool
status_beq waiting waiting = true
status_beq started started = true
status_beq success success = true
status_beq error error = true
status_beq cancelled cancelled = true
status_beq _ _ = false

pub status_beq_iff : (a b : Status) → (status_beq a b ≡ true) ↔ (a ≡ b)
status_beq_iff waiting b = ground arith
status_beq_iff started b = ground arith
status_beq_iff success b = ground arith
status_beq_iff error b = ground arith
status_beq_iff cancelled b = ground arith

instance abbrev pub status_eq : Eq Status
status_eq = record { beq = status_beq; beq_iff = status_beq_iff }

abbrev priority_beq : Priority → Priority → Bool
priority_beq normal normal = true
priority_beq low low = true
priority_beq _ _ = false

pub priority_beq_iff : (a b : Priority) → (priority_beq a b ≡ true) ↔ (a ≡ b)
priority_beq_iff normal b = ground arith
priority_beq_iff low b = ground arith

instance abbrev pub priority_eq : Eq Priority
priority_eq = record { beq = priority_beq; beq_iff = priority_beq_iff }

pub record JobParams : Type 0 where
  pub dataset : String
  pub config : Option String
  pub split : Option String

pub record JobInfo : Type 0 where
  pub job_id : ℕ
  pub type : String
  pub params : JobParams
  pub priority : Priority

-- `if prefix is not None: result = f"{prefix},{result}"`
abbrev with_prefix : Option String → String → String
with_prefix none result = result
with_prefix (some prefix) result = prefix <> ("," <> result)

abbrev with_config : String → Option String → Option String → String
with_config dataset none split = dataset
with_config dataset (some config) none = dataset <> ("," <> config)
with_config dataset (some config) (some split) = (dataset <> ("," <> config)) <> ("," <> split)

unfoldable pub inputs_to_string : String → Option String → Option String → Option String → String
inputs_to_string dataset config split prefix = with_prefix prefix (with_config dataset config split)

-- `text.split(separator)[0]`, for a separator of one character
unfoldable pub before : ℕ → String → String
before separator String.[] = String.[]
before separator (String.◌∷◌ c s) =
    let rest = before separator s in if code c == separator then String.[] else String.◌∷◌ c rest
