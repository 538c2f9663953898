-- ===== src/Cloud/Planned.antt =====
-- The plan of each operation of artik_cloud.c on the REST service.
use mathlib.Core.List.{append-nil}
use testing.Base.{
  ℕ, ◌≡◌, refl, ap, codes, Bool, true, false, Option, none, some, List, [], ◌∷◌, ◌++◌, ArtikError,
  subst, ◌∙◌, fill, fitting, arith, signed_decimal,
}
use testing.Cloud.{
  get, post, put, del, Environment, http_status, registration_status, flag, perform, Plan,
  HttpRequest, Event,
}
use testing.Cloud.Users.{
  get_current_user_profile, get_user_devices, get_user_device_types,
  get_user_application_properties,
}
use testing.Cloud.Devices.{
  get_device, get_device_token, add_device, update_device_token, delete_device_token, delete_device,
}
use testing.Cloud.Messages.{send_message, send_action}
use testing.Cloud.Registration.{
  secure_url_reg_status, sdr_start_registration, sdr_registration_status, sdr_complete_registration,
}
use testing.Cloud.Calls.{
  Call, run, meant, judge, truth, registrations, profile, user_devices, user_device_types,
  application_properties, message, action, device, device_token, new_token, no_token, no_device,
  new_device, registration, completion, registration_state,
}
use testing.Cloud.Matches.{
  Planned, Related, Matches, Related-bind, with_token-Matches, printed-Matches, post_body-Matches,
  registering-Matches, url_of-Bounded, url_of_lem,
}

flag-truth : (b : Bool) → flag b ≡ truth b
flag-truth true = refl
flag-truth false = refl

pub planned : (env : Environment) (call : Call) → Planned env call
unfolding get_current_user_profile get_user_devices get_user_device_types
    get_user_application_properties get_device get_device_token add_device update_device_token
    delete_device_token delete_device send_message send_action sdr_start_registration
    sdr_registration_status sdr_complete_registration fill fitting
planned env (profile t s) = (
  _,
  (λ events. refl),
  Related-bind http_status t _ _
      λ t'. with_token-Matches get _ _ t' none s (omega arith) (λ _. refl),
)
planned env (user_devices t n b o u s) = (
  _,
  (λ events. refl),
  Related-bind http_status t _ _ λ t'. Related-bind http_status u _ _ (λ u'.
      printed-Matches get _ _ _ t' none s (rw (append-nil (signed_decimal o), flag-truth b) refl)),
)
planned env (user_device_types t n b o u s) = (
  _,
  (λ events. refl),
  Related-bind http_status t _ _ λ t'. Related-bind http_status u _ _ (λ u'.
      printed-Matches get _ _ _ t' none s (rw (append-nil (signed_decimal o), flag-truth b) refl)),
)
planned env (application_properties t u a s) = (
  _,
  (λ events. refl),
  Related-bind http_status t _ _ λ t'. Related-bind http_status u _ _ (λ u'.
      Related-bind http_status a _ _
        (λ a'. printed-Matches get _ _ _ t' none s (rw (append-nil a') refl))),
)
planned env (device t d b s) = (
  _,
  (λ events. refl),
  Related-bind http_status t _ _ λ t'.
      Related-bind http_status d _ _
        (λ d'. printed-Matches get _ _ _ t' none s (rw (append-nil (flag b), flag-truth b) refl)),
)
planned env (device_token t d s) = (
  _,
  (λ events. refl),
  Related-bind http_status t _ _
      λ t'. Related-bind http_status d _ _ (λ d'. printed-Matches get _ _ _ t' none s refl),
)
planned env (new_token t d s) = (
  _,
  (λ events. refl),
  Related-bind http_status t _ _ λ t'.
      Related-bind http_status d _ _
        (λ d'. printed-Matches put _ _ _ t' (some (codes "{}")) s refl),
)
planned env (no_token t d s) = (
  _,
  (λ events. refl),
  Related-bind http_status t _ _
      λ t'. Related-bind http_status d _ _ (λ d'. printed-Matches del _ _ _ t' none s refl),
)
planned env (no_device t d s) = (
  _,
  (λ events. refl),
  Related-bind http_status t _ _ λ t'.
      Related-bind http_status d _ _
        (λ d'. printed-Matches del _ _ _ t' none s (rw (append-nil d') refl)),
)
planned env (message t d m s) = (
  _,
  (λ events. refl),
  Related-bind http_status t _ _ λ t'. Related-bind http_status d _ _ (λ d'.
      Related-bind http_status m _ _
        (λ m'. post_body-Matches _ t' _ _ _ s (omega arith) refl (omega arith) refl)),
)
planned env (action t d m s) = (
  _,
  (λ events. refl),
  Related-bind http_status t _ _ λ t'. Related-bind http_status d _ _ (λ d'.
      Related-bind http_status m _ _
        (λ m'. post_body-Matches _ t' _ _ _ s (omega arith) refl (omega arith) refl)),
)
planned env (new_device t u d n s) = (
  _,
  (λ events. refl),
  Related-bind http_status t _ _ λ t'. Related-bind http_status u _ _ (λ u'.
      Related-bind http_status d _ _ (λ d'.
        Related-bind http_status n _ _
          (λ n'. post_body-Matches _ t' _ _ _ s (omega arith) refl (omega arith) refl))),
)
planned env (registration d v) = (
  _,
  (λ events. refl),
  Related-bind registration_status d _ _ λ d'. Related-bind registration_status v _ _ (λ v'.
      registering-Matches registration_status post _ _ _ _ _ (omega arith) (λ _. refl) refl
        (omega arith) refl),
)
planned env (completion r n) = (
  _,
  (λ events. refl),
  Related-bind http_status r _ _ λ r'. Related-bind http_status n _ _ (λ n'.
      registering-Matches http_status put _ _ _ _ _ (url_of-Bounded _ _)
        (url_of_lem _ _ _ (rw (append-nil r') refl)) refl (omega arith) refl),
)
planned env (registration_state r) = (
  _,
  (λ events. refl),
  Related-bind http_status r _ _ λ r'. (
    (url_of-Bounded _ _, (omega arith, tt)),
    refl,
    λ h.
        rw
          (url_of_lem secure_url_reg_status (r' ∷ [])
            (registrations (codes "/" ++ (r' ++ codes "/status"))) refl h.0)
          (refl, tt),
  ),
)

Related-some :
    (meaning : ℕ → ArtikError) (o : Option Plan) (r : HttpRequest)
    → Related meaning o (some r)
    → (p : Plan) × (o ≡ some p) × Matches meaning p r
Related-some meaning none r h = absurd h
Related-some meaning (some p) r h = (p, refl, h)

Related-none : (meaning : ℕ → ArtikError) (o : Option Plan) → Related meaning o none → o ≡ none
Related-none meaning none h = refl
Related-none meaning (some p) h = absurd h

-- The plan of a call that is not missing an argument.
pub planned_some :
    (env : Environment) (call : Call) (r : HttpRequest)
    → meant call ≡ some r
    → (p : Plan) × ((events : List (Event HttpRequest))
        → run env call events ≡ perform env (some p) events)
      × Matches (judge call) p r
planned_some env call r e =
    let (o, same, related) = planned env call in
    let (p, q, m) =
      Related-some (judge call) o r (subst (λ m. Related (judge call) o m) e related) in
    (p, (λ events. same events ∙ ap (λ a. perform env a events) q), m)

pub planned_none :
    (env : Environment) (call : Call)
    → meant call ≡ none
    → (events : List (Event HttpRequest)) → run env call events ≡ perform env none events
planned_none env call e events =
    let (o, same, related) = planned env call in
    let q = Related-none (judge call) o (subst (λ m. Related (judge call) o m) e related) in
    same events ∙ ap (λ a. perform env a events) q
