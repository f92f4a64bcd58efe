-- ===== src/Deploy/Applied.antt =====
-- What `apply_chart_resource` of Deploy.antt did where it returns no error.
use mesh_for_data.Base.{
  String, ◌==◌, ◌<>◌, ◌≡◌, refl, Bool-cases, ◌⊎◌, inl, inr, Option, Option-cases, none, some,
  Result, Result-cases, ok, err, arith,
}
use mesh_for_data.Base.Json.{Fields}
use mesh_for_data.Api.Module.{ChartSpec}
use mesh_for_data.Api.Blueprint.{Blueprint}
use mesh_for_data.Releases.{set_values}
use mesh_for_data.Deploy.{
  Helmer, Platform, after_pull, apply_chart_resource, copy_map, exists, failing, pull_chart,
  put_release, sign_in,
}

failing-none : (message : String) (e : Option String) → failing message e ≡ none → e ≡ none
failing-none message none h = refl
failing-none message (some e) h = absurd (ground arith)

module _ {W C R : Type 0} (helm : Helmer W C) (platform : Platform W R) where
  -- Helm upgraded or installed the release with the values.
  abbrev pub IsPut : String → String → Fields → Type 0
  IsPut namespace release values =
      (at : W) × (c : C) × (((helm.upgrade at c namespace release values).1 ≡ none)
        ⊎ ((helm.install at c namespace release values).1 ≡ none))

  -- Helm failed to log out of a registry.
  abbrev pub IsLogoutFailed : Type 0
  IsLogoutFailed =
      (at : W) × (registry e : String) × ((helm.registry_logout at registry).1 ≡ some e)

  put_release-IsPut :
      (chart : ChartSpec) (values : Fields) (namespace release : String) (w : W) (r : Result C)
      → (put_release helm platform chart values namespace release w r).1 ≡ none
      → IsPut namespace release values
  unfolding put_release
  put_release-IsPut chart values namespace release w (err e) h = absurd (ground arith)
  put_release-IsPut chart values namespace release w (ok c) h =
      elim (Bool-cases (exists (helm.status w namespace release))) [
        | inl there ↦ (
          w,
          c,
          inl (
              failing-none (chart.name <> ": failed upgrade")
                (helm.upgrade w c namespace release values).1 (ground arith)),
        )
        | inr new ↦ (
          w,
          c,
          inr (
              failing-none (chart.name <> ": failed install")
                (helm.install w c namespace release values).1 (ground arith)),
        )
      ]

  after_pull-IsPut :
      (chart : ChartSpec) (values : Fields) (namespace release registry : String) (w : W)
      → (after_pull helm platform chart values namespace release registry w).1 ≡ none
      → IsPut namespace release values ⊎ IsLogoutFailed
  unfolding after_pull
  after_pull-IsPut chart values namespace release registry w h =
      let (out, logout) = helm.registry_logout w registry in
      elim (Bool-cases (registry == "")) [
        | inl stay ↦ inl (
            put_release-IsPut chart values namespace release w (helm.load w chart.name)
              (ground arith))
        | inr away ↦ elim (Option-cases (helm.registry_logout w registry).1) [
          | inr (e, failed) ↦ inr (w, registry, e, failed)
          | inl done ↦ inl (
              put_release-IsPut chart values namespace release out (helm.load out chart.name)
                (ground arith))
        ]
      ]

  pull_chart-IsPut :
      (chart : ChartSpec) (values : Fields) (namespace release registry : String) (w : W)
      → (pull_chart helm platform chart values namespace release registry w).1 ≡ none
      → IsPut namespace release values ⊎ IsLogoutFailed
  unfolding pull_chart
  pull_chart-IsPut chart values namespace release registry w h =
      let made = (platform.make_directory w).0 in
      elim (Option-cases (platform.make_directory w).1) [
        | inr (e, failed) ↦ absurd (ground arith)
        | inl created ↦ elim (Option-cases (helm.pull made chart.name).1) [
          | inr (e, failed) ↦ absurd (ground arith)
          | inl pulled ↦
              after_pull-IsPut chart values namespace release registry (helm.pull made chart.name).0
                (ground arith)
        ]
      ]

  -- Where `apply_chart_resource` returns no error, Helm upgraded or installed the release, with the values
  -- of the chart set in the arguments of the module, or failed to log out of a registry.
  pub apply_chart_resource-IsPut :
      (chart : ChartSpec) (args : Fields) (b : Blueprint) (release : String) (w : W)
      → (apply_chart_resource helm platform chart args b release w).1 ≡ none
      → IsPut b.spec.modules_namespace release (set_values chart.values (copy_map args))
        ⊎ IsLogoutFailed
  unfolding apply_chart_resource
  apply_chart_resource-IsPut chart args b release w h =
      elim (Result-cases (sign_in helm platform chart w).1) [
        | inr (e, bad) ↦ absurd (ground arith)
        | inl (registry, given) ↦
            pull_chart-IsPut chart _ _ release registry (sign_in helm platform chart w).0
              (ground arith)
      ]
