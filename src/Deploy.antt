-- ===== src/Deploy.antt =====
-- manager/controllers/app/blueprint_controller.go: applyChartResource, and the status of a release
-- and its resources. Helm (the interface of pkg/helm), the Kubernetes API with its label selectors and
-- kstatus, and the Docker key rings are parameters. The removal of the temporary directory is left out.
pub mod Check
pub mod Reconcile
pub mod Handle
pub mod Applied
pub mod Done
pub mod Noted
pub mod Cleaned
mod Tests
use mesh_for_data.Base.{
  String, ◌==◌, ◌<>◌, if◌then◌else◌, Bool, true, false, Option, none, some, List, [], ◌∷◌, Result,
  ok, err,
}
use mesh_for_data.Base.Json.{Fields, Value, end, field, object}
use mesh_for_data.Api.Module.{ChartSpec, FybrikModule}
use mesh_for_data.Api.Blueprint.{Blueprint}
use mesh_for_data.Releases.{set_values}

-- `rel.Info.Status`
pub data ReleaseState : Type 0 where
  deployed failed_release other_state : ReleaseState

-- A resource of a release: its kind and its content.
pub record Resource : Type 0 where
  pub kind : String
  pub content : Fields

-- The status that kstatus computes.
pub data Computed : Type 0 where
  failed_status current_status other_status : Computed

pub record Credentials : Type 0 where
  pub username : String
  pub password : String

pub record PullSecret : Type 0 where
  pub type : String
  pub content : Fields

-- Helm on a state `W`, with charts `C`. `none` is a nil release, or a nil error.
pub record Helmer (W C : Type 0) : Type 0 where
  pub status : W → String → String → Result (Option ReleaseState)
  pub get_resources : W → String → String → Result (List Resource)
  pub uninstall : W → String → String → W × Option String
  pub pull : W → String → W × Option String
  pub registry_login : W → String → Credentials → W × Option String
  pub registry_logout : W → String → W × Option String
  pub load : W → String → Result C
  pub upgrade : W → C → String → String → Fields → W × Option String
  pub install : W → C → String → String → Fields → W × Option String

-- The rest of what the controller calls: the secret of a name, the key ring of a secret asked for a
-- chart, the domain of an image, a new temporary directory, the modules of the system's namespace,
-- kstatus, and label selectors with requirements `R`, which ask for the presence and the text of a
-- field.
pub record Platform (W R : Type 0) : Type 0 where
  pub get_secret : W → String → Result PullSecret
  pub keyring_lookup : PullSecret → String → Option (List Credentials)
  pub image_domain : String → Result String
  pub make_directory : W → W × Option String
  pub list_modules : W → Result (List FybrikModule)
  pub compute : Resource → Result (Computed × String)
  pub parse_selector : String → Result (List R)
  pub requirement_matches : R → (String → Bool) → (String → String) → Bool
  pub nested_field : Fields → List String → Result (Option Value)
  pub nested_string : Fields → List String → Result String
  pub marshal : Value → Result String

-- `CopyMap`
unfoldable pub copy_map : Fields → Fields
copy_map end = end
copy_map (field k (object sub) rest) = field k (object (copy_map sub)) (copy_map rest)
copy_map (field k v rest) = field k v (copy_map rest)

-- `errors.WithMessage(err, message)` for an error that is not nil.
abbrev pub with_message : String → String → String
with_message e message = message <> ": " <> e

-- The release exists.
abbrev pub exists : Result (Option ReleaseState) → Bool
exists (ok (some s)) = true
exists _ = false

abbrev pub failing : String → Option String → Option String
failing message none = none
failing message (some e) = some (with_message e message)

module _ {W C R : Type 0} (helm : Helmer W C) (platform : Platform W R) where
  -- The loop over the credentials: the registry of the first login that succeeds, or the empty text.
  unfoldable pub try_logins : String → List Credentials → W → W × String
  try_logins repo [] w = (w, "")
  try_logins repo (c ∷ rest) w =
      let (after, failure) = helm.registry_login w repo c in
      let more = try_logins repo rest after in elim failure [ none ↦ (after, repo) | some e ↦ more ]

  -- The login with a secret of Docker's type.
  unfoldable pub sign_in_with : ChartSpec → PullSecret → W → W × Result String
  unfolding try_logins
  sign_in_with chart secret w = elim (platform.image_domain chart.name) [
    | err e ↦ (
      w,
      err (
          with_message (with_message e ("couldn't parse image name: " <> chart.name))
            (chart.name <> ": failed to parse image name")),
    )
    | ok repo ↦ elim (platform.keyring_lookup secret chart.name) [
      | none ↦ (w, ok "")
      | some credentials ↦
          let (after, registry) = try_logins repo credentials w in (after, ok registry)
    ]
  ]

  -- The registry that the controller is logged into, if any.
  unfoldable pub sign_in : ChartSpec → W → W × Result String
  unfolding sign_in_with
  sign_in chart w =
      if chart.chart_pull_secret == ""
      then (w, ok "")
      else elim (platform.get_secret w chart.chart_pull_secret) [
        | err e ↦ (
          w,
          err (with_message e ("could not find ChartPullSecret: " <> chart.chart_pull_secret)),
        )
        | ok secret ↦
            if secret.type == "kubernetes.io/dockerconfigjson"
            then sign_in_with chart secret w
            else (w, ok "")
      ]

  -- The upgrade or installation of a chart that is there.
  unfoldable pub put_release :
      ChartSpec → Fields → String → String → W → Result C → W × Option String
  put_release chart args namespace release w (err e) =
      (w, some (with_message e (chart.name <> ": failed chart load")))
  put_release chart args namespace release w (ok c) =
      let (upgraded, upgrade_error) = helm.upgrade w c namespace release args in
      let (installed, install_error) = helm.install w c namespace release args in
      if exists (helm.status w namespace release)
      then (upgraded, failing (chart.name <> ": failed upgrade") upgrade_error)
      else (installed, failing (chart.name <> ": failed install") install_error)

  -- The steps behind the pull. Where the logout fails, the error of the pull, which is nil, is returned.
  unfoldable pub after_pull : ChartSpec → Fields → String → String → String → W → W × Option String
  unfolding put_release
  after_pull chart args namespace release registry w =
      let (out, logout_error) = helm.registry_logout w registry in
      let stay = put_release chart args namespace release w (helm.load w chart.name) in
      let go_on = put_release chart args namespace release out (helm.load out chart.name) in
      if registry == "" then stay else elim logout_error [ some e ↦ (out, none) | none ↦ go_on ]

  -- The steps behind the login.
  unfoldable pub pull_chart : ChartSpec → Fields → String → String → String → W → W × Option String
  unfolding after_pull
  pull_chart chart args namespace release registry w =
      let (made, directory_error) = platform.make_directory w in
      let (pulled, pull_error) = helm.pull made chart.name in
      elim directory_error [
        | some e ↦ (
          made,
          some (
              with_message e
                (chart.name <> ": failed to create temporary directory for chart pull")),
        )
        | none ↦ elim pull_error [
          | some e ↦ (pulled, some (with_message e (chart.name <> ": failed chart pull")))
          | none ↦ after_pull chart args namespace release registry pulled
        ]
      ]

  -- `none` is a nil error.
  unfoldable pub apply_chart_resource :
      ChartSpec → Fields → Blueprint → String → W → W × Option String
  unfolding copy_map set_values sign_in pull_chart
  apply_chart_resource chart args b release w =
      let values = set_values chart.values (copy_map args) in
      let (signed, login) = sign_in chart w in
      elim login [
        | err e ↦ (signed, some e)
        | ok registry ↦ pull_chart chart values b.spec.modules_namespace release registry signed
      ]
