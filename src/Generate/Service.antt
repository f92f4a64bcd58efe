-- ===== src/Generate/Service.antt =====
-- `moduleAPIToService` of manager/controllers/app/plotter_generator.go.
use mesh_for_data.Base.{String, if◌then◌else◌, Option, some, [], ◌∷◌, Result, ok, err, is_empty}
use mesh_for_data.Base.Json.{Fields, Value, end, field, get_field, object, text}
use mesh_for_data.Base.Maps.{Map}
use mesh_for_data.Api.Taxonomy.{ResourceDetails}
use mesh_for_data.Api.Module.{CapabilityScope}
use mesh_for_data.Api.Application.{FybrikApplication}
use mesh_for_data.Blueprints.{create_step_name, is_asset_scope}
use mesh_for_data.Names.{hash, release_name}
use mesh_for_data.Generate.{Generator, Attempt, done, failed, panics}

-- A map of texts in JSON.
unfoldable pub labels_value : Map String → Fields
labels_value [] = end
labels_value ((key, s) ∷ rest) = field key (text s) (labels_value rest)

abbrev pub labels_field : Map String → Fields
labels_field labels =
    if is_empty labels then end else field "labels" (object (labels_value labels)) end

abbrev pub cons_filled : String → Result String → Result Fields → Result Fields
cons_filled key (err e) rest = err e
cons_filled key (ok s) (err e) = err e
cons_filled key (ok s) (ok rest) = ok (field key (text s) rest)

abbrev pub cons_kept : String → Value → Result Fields → Result Fields
cons_kept key v (err e) = err e
cons_kept key v (ok rest) = ok (field key v rest)

module _ {W : Type 0} (g : Generator W) where
  -- The names of the release and its namespace, with the labels of the application.
  unfoldable pub template_values : String → FybrikApplication → Fields
  unfolding labels_value
  template_values release application =
      field "Release"
        (object (field "Name" (text release) (field "Namespace" (text g.modules_namespace) end)))
        (field "Values" (object (labels_field application.labels)) end)

  -- The loop over the properties: each text is a template.
  unfoldable pub fill_all : Fields → Fields → Result Fields
  fill_all values end = ok end
  fill_all values (field key (text template) rest) =
      cons_filled key (g.fill_template key template values) (fill_all values rest)
  fill_all values (field key v rest) = cons_kept key v (fill_all values rest)

  abbrev pub service_of : ResourceDetails → Result Fields → Attempt ResourceDetails
  service_of api (err e) = failed e
  service_of api (ok props) = done (record {
    connection = record {
      name = api.connection.name;
      additional_properties = field api.connection.name (object props) end;
    };
    data_format = api.data_format;
  })

  -- The properties of the connection, which are asserted to be an object.
  abbrev pub fill_connection : Fields → ResourceDetails → Option Value → Attempt ResourceDetails
  fill_connection values api (some (object props)) = service_of api (fill_all values props)
  fill_connection values api _ = panics

  unfoldable pub module_api_to_service :
      ResourceDetails
      → CapabilityScope
      → FybrikApplication
      → String
      → String
      → Attempt ResourceDetails
  unfolding hash release_name template_values fill_all get_field
  module_api_to_service api scope application module_name asset_id =
      let instance_name =
        if is_asset_scope scope
        then create_step_name (λ (s : String). hash g.digest s 10) module_name asset_id
        else module_name in
      let release = release_name g.digest application.name application.namespace instance_name in
      fill_connection (template_values release application) api
        (get_field api.connection.name api.connection.additional_properties)
