-- ===== src/Sdktest.antt =====
-- internal/sdktest: the deliberate faults of an SDK test project. sync.Map's LoadOrStore makes each
-- call of FirstUnauthorized one step.
pub mod Once
pub mod Tests
use Prim.Native.String.{◌++◌ as str_append}
use mortris_server.Prelude.{
  ℕ, String, Bool, true, false, not, ◌&&◌, ◌||◌, Option, none, some, List, [], ◌∷◌, str_eq,
  contains, string_eq, if◌then◌else◌,
}
use mortris_server.Prelude.Int.{pos}
use mortris_server.Contracts.Types.{ClientPolicy}

-- Scenario; `no_scenario` is the empty text.
pub data Scenario : Type 0 where
  lost_acknowledgement unauthorized_once payload_too_large rate_limited : Scenario
  policy_active policy_pause_upload policy_disable no_scenario : Scenario

-- knownScenario
unfoldable pub known_scenario : String → Scenario
known_scenario s =
    if str_eq s "lost_acknowledgement"
    then lost_acknowledgement
    else if str_eq s "unauthorized_once"
    then unauthorized_once
    else if str_eq s "payload_too_large"
    then payload_too_large
    else if str_eq s "rate_limited"
    then rate_limited
    else if str_eq s "policy_active"
    then policy_active
    else if str_eq s "policy_pause_upload"
    then policy_pause_upload
    else if str_eq s "policy_disable_collection"
    then policy_disable
    else no_scenario

-- Controller; `seen401` are the keys of the map.
pub record Controller : Type 0 where
  pub project_id : String
  pub token : String
  pub seen401 : List String

-- New
unfoldable pub new_controller : String → String → Controller
new_controller project token = record { project_id = project; token = token; seen401 = [] }

-- matchesToken: a comparison in constant time gives 1 exactly for equal contents.
unfoldable pub matches_token : String → String → Bool
matches_token provided expected = str_eq provided expected

-- (*Controller).Scenario, with the request's two headers; `none` is the nil controller.
unfoldable pub scenario : Option Controller → String → String → String → Scenario
scenario none token header project = no_scenario
scenario (some c) token header project =
    if not (str_eq project c.project_id) || not (matches_token token c.token)
    then no_scenario
    else known_scenario header

abbrev pub is_unauthorized_once : Scenario → Bool
is_unauthorized_once unauthorized_once = true
is_unauthorized_once s = false

-- (*Controller).FirstUnauthorized
unfoldable pub first_unauthorized : Controller → String → String → Scenario → Bool × Controller
first_unauthorized c project install s =
    let key = str_append project (str_append "/" install) in
    if is_unauthorized_once s
    then (if contains c.seen401 key
        then (false, c)
        else (true, record c { seen401 = key ∷ c.seen401 }))
    else (false, c)

abbrev policy_for : String → Bool → ClientPolicy
policy_for mode discard = record {
  mode = mode;
  next_check_seconds = pos 300;
  discard_pending = discard;
}

-- Scenario.Policy
unfoldable pub scenario_policy : Scenario → Option ClientPolicy
scenario_policy policy_active = some (policy_for "active" false)
scenario_policy policy_pause_upload = some (policy_for "pause_upload" false)
scenario_policy policy_disable = some (policy_for "disable_collection" true)
scenario_policy s = none
