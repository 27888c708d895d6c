-- ===== src/Contracts/Types.antt =====
-- The wire types of internal/contracts/types.go. Go's `int` and `int64` are integers here.
use mortris_server.Prelude.{ℕ, String, Bool, List}
use mortris_server.Prelude.Int.{ℤ}
use mortris_server.Failure.{Code}

pub record ClientPolicy : Type 0 where
  pub mode : String
  pub next_check_seconds : ℤ
  pub discard_pending : Bool

pub record RegisterRequest : Type 0 where
  pub schema_version : ℤ
  pub project_id : String
  pub install_id : String
  pub installation_credential : String
  pub sdk_name : String
  pub sdk_version : String
  pub app_version : String
  pub build_number : String
  pub platform : String

-- A decoded JSON value of a property bag. Of a float64 the code reads only `int(v)`, its integer
-- part, which is what `number` holds; `nested` is an object or an array.
pub data PropertyValue : Type 0 where
  null : PropertyValue
  boolean : Bool → PropertyValue
  number : ℤ → PropertyValue
  text : String → PropertyValue
  nested : PropertyValue

-- A Go map, in the order in which one iteration visits it.
abbrev pub EventProperties : Type 0
EventProperties = List (String × PropertyValue)

pub record SdkInfo : Type 0 where
  pub name : String
  pub version : String

pub record Event : Type 0 where
  pub event_id : String
  pub session_id : String
  pub sequence : ℤ
  pub session_elapsed_ms : ℤ
  pub name : String
  pub occurred_at_client : String
  pub app_version : String
  pub build_number : String
  pub platform : String
  pub os_version : String
  pub device_class : String
  pub locale : String
  pub timezone_offset_minutes : ℤ
  pub properties : EventProperties

pub record BatchIngestRequest : Type 0 where
  pub schema_version : ℤ
  pub project_id : String
  pub install_id : String
  pub sdk : SdkInfo
  pub sent_at_client : String
  pub events : List Event
  pub event_count : ℕ

pub record RejectedEvent : Type 0 where
  pub event_id : String
  pub name : String
  pub code : Code
  pub app_version : String
  pub build_number : String

pub record BatchIngestResponse : Type 0 where
  pub server_time : ℤ
  pub accepted : List String
  pub duplicates : List String
  pub rejected : List RejectedEvent
  pub client_policy : ClientPolicy

pub record RegisterResponse : Type 0 where
  pub server_time : ℤ
  pub installation_status : String
  pub client_policy : ClientPolicy

pub record PolicyRequest : Type 0 where
  pub schema_version : ℤ
  pub project_id : String
  pub install_id : String
  pub sdk : SdkInfo
  pub app_version : String
  pub build_number : String
  pub platform : String

pub record PolicyResponse : Type 0 where
  pub server_time : ℤ
  pub client_policy : ClientPolicy
