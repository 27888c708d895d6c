-- ===== src/Httpapi/Ingestion/Isolated.antt =====
-- The deliberate faults do not reach other projects.
use mortris_server.Prelude.{
  ◌≡◌, refl, ap, ◌∙◌, String, Bool, true, false, none, some, List, find, str_eq,
}
use mortris_server.Failure.{Result, ok, err}
use mortris_server.Contracts.Types.{BatchIngestRequest, BatchIngestResponse, RejectedEvent}
use mortris_server.Contracts.Library.{Library}
use mortris_server.Ratelimit.{RateLibrary}
use mortris_server.Ingest.Exec.{
  World, pure, query, statement, attempt, advance, outcome, continue, ◌>>=◌,
}
use mortris_server.Ingest.Batch.{batch}
use mortris_server.Sdktest.{
  Scenario, no_scenario, Controller, scenario, first_unauthorized, scenario_policy,
}
use mortris_server.Adminauth.Sessions.{AuthLibrary}
use mortris_server.Httpapi.SdkControl.{is_test_project, sdk_test_scenario, chosen}
use mortris_server.Httpapi.Ingestion.{
  SdkRequest, Answer, answered, fault_of, acknowledge, process_batch, after_scenario,
}

-- The response of Batch as an answer.
abbrev pub plainly :
    {rate : RateLibrary}
    → Result BatchIngestResponse × World rate
    → Result (Answer BatchIngestResponse) × World rate
plainly (ok r, w) = (ok (answered r), w)
plainly (err e, w) = (err e, w)

no_legacy :
    (c : Controller) (token header project : String)
    → str_eq project c.project_id ≡ false
    → scenario (some c) token header project ≡ no_scenario
unfolding scenario
no_legacy c token header project h = rw h refl

module _ {rate : RateLibrary} (auth : AuthLibrary) (c : Controller) (token header project : String)
    (w : World rate) where
  sdk_test_scenario-none :
      find (is_test_project project) w.db.projects ≡ none
      → str_eq project c.project_id ≡ false
      → sdk_test_scenario auth (some c) token header project w ≡ (ok no_scenario, advance w)
  unfolding sdk_test_scenario attempt query statement pure ◌>>=◌
  sdk_test_scenario-none untested other_project = go (w.faults 0)
    where
      legacy : Scenario
      legacy = scenario (some c) token header project

      go :
          (fault : Bool)
          → ◌≡◌ {A = Result Scenario × World rate}
              (
                ok (
                    chosen auth token legacy
                      (outcome fault
                        (ok (find (is_test_project project) w.db.projects, w.db))
                        (advance w)).0),
                (outcome fault
                    (ok (find (is_test_project project) w.db.projects, w.db))
                    (advance w)).1,
              )
              (ok no_scenario, advance w)
      go true = ap (λ s. (ok s, advance w)) (no_legacy c token header project other_project)
      go false =
          rw untested (ap (λ s. (ok s, advance w)) (no_legacy c token header project other_project))

module _ {rate : RateLibrary} (lib : Library) (auth : AuthLibrary) where
  unfaulted :
      (c : Controller) (req : BatchIngestRequest) (rejections : List RejectedEvent)
      (http : SdkRequest) (w : World rate)
      → after_scenario lib auth c req rejections http (ok no_scenario, w)
        ≡ (plainly (batch lib req rejections http.bearer_token http.source_ip w), c)
  unfolding first_unauthorized fault_of scenario_policy pure ◌>>=◌
  unfaulted c req rejections http w =
      go (batch lib req rejections http.bearer_token http.source_ip w).0
        (batch lib req rejections http.bearer_token http.source_ip w).1
    where
      go :
          (r : Result BatchIngestResponse) (v : World rate)
          → ◌≡◌ {A = (Result (Answer BatchIngestResponse) × World rate) × Controller}
              (continue r (λ a. pure (acknowledge no_scenario a)) v, c)
              (plainly (r, v), c)
      go (ok a) v = refl
      go (err e) v = refl

  -- A batch for a project that is no SDK test project, by the tables and by the legacy controller, is
  -- answered as Batch answers it, whatever the test headers say and also where the scenario cannot
  -- be read: the tables and the limiters are those after Batch, which runs after the one statement
  -- that looks for a scenario, and the controller has noted nothing.
  pub process_batch-isolated :
      (c : Controller) (req : BatchIngestRequest) (rejections : List RejectedEvent)
      (http : SdkRequest) (w : World rate)
      → find (is_test_project req.project_id) w.db.projects ≡ none
      → str_eq req.project_id c.project_id ≡ false
      → process_batch lib auth c req rejections http w
        ≡ (plainly (batch lib req rejections http.bearer_token http.source_ip (advance w)), c)
  unfolding process_batch
  process_batch-isolated c req rejections http w untested other_project =
      ap (after_scenario lib auth c req rejections http) (
        sdk_test_scenario-none auth c http.test_token http.test_scenario req.project_id w untested
          other_project)
      ∙ unfaulted c req rejections http (advance w)
