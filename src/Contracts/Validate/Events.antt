-- ===== src/Contracts/Validate/Events.antt =====
-- What a valid event has: the facts about it that the ingestion rests on.
use mortris_server.Prelude.{◌≡◌, true, false, string_eq, arith}
use mortris_server.Prelude.Int.{pos, ◌≤ℤ◌}
use mortris_server.Failure.{ok}
use mortris_server.Contracts.Types.{Event}
use mortris_server.Contracts.Pattern.{is_valid_uuid, is_valid_timestamp, is_event_name}
use mortris_server.Contracts.Library.{Library}
use mortris_server.Contracts.Validate.{validate_event, is_forged_system_name, validate_properties}

pub record IsEvent (lib : Library) (e : Event) : Type 0 where
  pub id : is_valid_uuid e.event_id ≡ true
  pub session : is_valid_uuid e.session_id ≡ true
  pub sequence : pos 0 ≤ℤ e.sequence
  pub elapsed : pos 0 ≤ℤ e.session_elapsed_ms
  pub name : is_event_name e.name ≡ true
  pub own_name : is_forged_system_name e.name ≡ false
  pub occurred : is_valid_timestamp e.occurred_at_client ≡ true
  pub props : validate_properties lib e.properties ≡ ok tt

pub validate_event-IsEvent :
    (lib : Library) (e : Event) → validate_event lib e ≡ ok tt → IsEvent lib e
unfolding validate_event
validate_event-IsEvent lib e h = ground arith
