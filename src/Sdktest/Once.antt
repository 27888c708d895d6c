-- ===== src/Sdktest/Once.antt =====
-- An installation is refused once.
use Prim.Native.String.{◌++◌ as str_append}
use mortris_server.Prelude.{
  ◌≡◌, refl, String, Bool, false, not, ◌&&◌, ◌||◌, List, [], ◌∷◌, str_eq, eq_iff, arith, contains,
  string_eq, Bool-cases, inl, inr,
}
use mortris_server.Sdktest.{
  Scenario, Controller, new_controller, is_unauthorized_once, first_unauthorized,
}

-- One call of FirstUnauthorized.
pub record Call : Type 0 where
  pub project : String
  pub install : String
  pub scenario : Scenario

abbrev pub key_of : String → String → String
key_of project install = str_append project (str_append "/" install)

-- The controller after a history of calls, the last call first.
pub controller_after : Controller → List Call → Controller
controller_after c [] = c
controller_after c (call ∷ calls) =
    (first_unauthorized (controller_after c calls) call.project call.install call.scenario).1

-- Whether a call of the history asked for the refusal of this key.
pub asked : List Call → String → Bool
asked [] key = false
asked (call ∷ calls) key =
    (is_unauthorized_once call.scenario && str_eq (key_of call.project call.install) key)
    || asked calls key

first_unauthorized-contains :
    (c : Controller) (project install : String) (s : Scenario) (key : String)
    → contains (first_unauthorized c project install s).1.seen401 key
      ≡ ((is_unauthorized_once s && str_eq (key_of project install) key) || contains c.seen401 key)
unfolding first_unauthorized contains
first_unauthorized-contains c project install s key =
    elim (Bool-cases (contains c.seen401 (key_of project install))) [
      | inl e ↦ ground (arith, eq_iff (key_of project install) key)
      | inr e ↦ ground (arith, eq_iff (key_of project install) key)
    ]

controller_after-contains :
    (project token : String) (calls : List Call) (key : String)
    → contains (controller_after (new_controller project token) calls).seen401 key ≡ asked calls key
unfolding controller_after asked new_controller contains
controller_after-contains project token [] key = refl
controller_after-contains project token (call ∷ calls) key = rw (
  first_unauthorized-contains (controller_after (new_controller project token) calls) call.project
      call.install call.scenario key,
  controller_after-contains project token calls key,
)

-- Whatever was called before, FirstUnauthorized answers yes exactly when the scenario is
-- unauthorized_once and no earlier call with that scenario had the same key.
pub first_unauthorized_once :
    (project token : String) (calls : List Call) (p install : String) (s : Scenario)
    → (first_unauthorized (controller_after (new_controller project token) calls) p install s).0
      ≡ (is_unauthorized_once s && not (asked calls (key_of p install)))
unfolding first_unauthorized
first_unauthorized_once project token calls p install s =
    ground (arith, controller_after-contains project token calls (key_of p install))
