-- ===== src/Generate/Declared.antt =====
-- The names that the flows of Generate/Flow.antt use.
use mesh_for_data.Base.{
  String, ◌==◌, ◌||◌, ◌≡◌, refl, Bool, true, false, Option, none, some, List, [], ◌∷◌, ◌++◌, All,
  All-map, arith,
}
use mesh_for_data.Base.Maps.{Map, has, insert, lookup, lookup-insert}
use mesh_for_data.Api.Plotter.{
  AssetDetails, DataFlowStep, PlotterSpec, StepParameters, StepSink, StepSource, SubFlow, Template,
}
use mesh_for_data.Generate.Flow.{insert_assets, insert_templates}

abbrev pub named : String → List Template → Bool
named name [] = false
named name (t ∷ rest) = t.name == name || named name rest

-- The step uses templates and assets that pass the tests only.
abbrev pub HasSource : (String → Bool) → Option StepSource → Type 0
HasSource known none = Unit
HasSource known (some source) = known source.asset_id ≡ true

abbrev pub HasSink : (String → Bool) → Option StepSink → Type 0
HasSink known none = Unit
HasSink known (some sink) = known sink.asset_id ≡ true

abbrev pub HasAssets : (String → Bool) → Option StepParameters → Type 0
HasAssets known none = Unit
HasAssets known (some params) = HasSource known params.source × HasSink known params.sink

abbrev pub IsClosedStep : (String → Bool) → (String → Bool) → DataFlowStep → Type 0
IsClosedStep known given step = (given step.template ≡ true) × HasAssets known step.parameters

abbrev pub IsClosedSubFlow : (String → Bool) → (String → Bool) → SubFlow → Type 0
IsClosedSubFlow known given f = All (All (IsClosedStep known given)) f.steps

-- Each step of each flow uses templates and assets of the specification only.
abbrev pub IsClosed : PlotterSpec → Type 0
IsClosed spec =
    All
      (λ flow.
        All (IsClosedSubFlow (λ id. has id spec.assets) (λ name. has name spec.templates))
          flow.sub_flows)
      spec.flows

-- More assets and templates do no harm.
module _ (known known' given given' : String → Bool)
    (assets : (id : String) → known id ≡ true → known' id ≡ true)
    (templates : (name : String) → given name ≡ true → given' name ≡ true) where
  pub HasAssets-mono : (p : Option StepParameters) → HasAssets known p → HasAssets known' p
  HasAssets-mono none h = tt
  HasAssets-mono (some p) (a, b) = (source p.source a, sink p.sink b)
    where
      source : (s : Option StepSource) → HasSource known s → HasSource known' s
      source none h = tt
      source (some s) h = assets s.asset_id h

      sink : (s : Option StepSink) → HasSink known s → HasSink known' s
      sink none h = tt
      sink (some s) h = assets s.asset_id h

  pub IsClosedSubFlow-mono :
      (l : List SubFlow)
      → All (IsClosedSubFlow known given) l
      → All (IsClosedSubFlow known' given') l
  IsClosedSubFlow-mono l h =
      All-map _ _ l
        (λ f. All-map _ _ f.steps (λ row.
          All-map _ _ row
            (λ step (a, b). (templates step.template a, HasAssets-mono step.parameters b))))
        h

pub named-append :
    (name : String) (l r : List Template) → named name (l ++ r) ≡ (named name l || named name r)
named-append name [] r = refl
named-append name (t ∷ rest) r = ground (arith, named-append name rest r)

pub has-insert :
    {A : Type 0} (k key : String) (v : A) (m : Map A)
    → has k (insert key v m) ≡ (key == k || has k m)
has-insert k key v m = ground (arith, lookup-insert m key k v)

pub has-insert_templates :
    (k : String) (l : List Template) (m : Map Template)
    → has k (insert_templates l m) ≡ (named k l || has k m)
unfolding insert_templates
has-insert_templates k [] m = refl
has-insert_templates k (t ∷ rest) m =
    ground (arith, has-insert_templates k rest (insert t.name t m), has-insert k t.name t m)

pub has-insert_assets :
    (k : String) (l : Map AssetDetails) (m : Map AssetDetails)
    → has k (insert_assets l m) ≡ (has k l || has k m)
unfolding insert_assets lookup
has-insert_assets k [] m = refl
has-insert_assets k ((id, details) ∷ rest) m =
    ground (arith, has-insert_assets k rest (insert id details m), has-insert k id details m)
