-- ===== src/Sdktest/Tests.antt =====
-- The second request of an installation is not refused.
use mortris_server.Prelude.{◌≡◌, not, ◌&&◌, List, [], ◌∷◌}
use mortris_server.Sdktest.{
  unauthorized_once, new_controller, first_unauthorized, is_unauthorized_once,
}
use mortris_server.Sdktest.Once.{Call, key_of, controller_after, asked, first_unauthorized_once}

abbrev earlier : List Call
earlier = record { project = "sdk-test"; install = "install-a"; scenario = unauthorized_once } ∷ []

first_unauthorized_once_example :
    (first_unauthorized
      (controller_after (new_controller "sdk-test" "token") earlier)
      "sdk-test"
      "install-a"
      unauthorized_once).0
    ≡ (is_unauthorized_once unauthorized_once
        && not (asked earlier (key_of "sdk-test" "install-a")))
first_unauthorized_once_example =
    first_unauthorized_once "sdk-test" "token" earlier "sdk-test" "install-a" unauthorized_once
