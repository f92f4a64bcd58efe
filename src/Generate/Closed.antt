-- ===== src/Generate/Closed.antt =====
-- The names that the flows of Generate/Flow.antt use are declared in the specification.
use mesh_for_data.Base.{
  String, ℕ, ◌≡◌, refl, sym, ap, ◌∙◌, subst, Bool-cases, true, inl, inr, eq_refl, Option,
  Option-cases, none, some, List, [], ◌∷◌, ◌++◌, All, All-map, All-append, arith,
}
use mesh_for_data.Base.Maps.{Map, has, insert, lookup}
use mesh_for_data.Api.Taxonomy.{DataStore, ResourceDetails}
use mesh_for_data.Api.Application.{FybrikApplication}
use mesh_for_data.Api.Plotter.{AssetDetails, Flow, PlotterSpec, Template}
use mesh_for_data.Planner.{DataInfo, Node, PlotterGenerator, ResolvedEdge, Solution}
use mesh_for_data.Planner.Choice.{find_paths}
use mesh_for_data.Generate.{Generator, Attempt, Stores, done, failed, get_copy_destination, panics}
use mesh_for_data.Generate.Flow.{
  Draft, add_element, add_elements, add_flow_info_for_asset, add_solution, after_copy, copy_id,
  finish_draft, first_draft, flow_of, insert_assets, insert_templates, last_type, place,
  service_for, template_of, with_copy, with_read,
}
use mesh_for_data.Generate.Realised.{Attempt-cases, or_draft}
use mesh_for_data.Generate.Declared.{
  IsClosed, IsClosedSubFlow, IsClosedSubFlow-mono, has-insert, has-insert_assets,
  has-insert_templates, named, named-append,
}

abbrev IsDraftClosed : Draft → Type 0
IsDraftClosed d =
    (has d.dataset_id d.assets ≡ true)
    × All (IsClosedSubFlow (λ id. has id d.assets) (λ name. named name d.templates)) d.sub_flows

abbrev or_spec : PlotterSpec → Attempt PlotterSpec → PlotterSpec
or_spec spec (done new) = new
or_spec spec _ = spec

named_last : (l : List Template) (t : Template) → named t.name (l ++ t ∷ []) ≡ true
named_last l t = ground (arith, named-append t.name l (t ∷ []), eq_refl t.name)

named_more :
    (name : String) (l r : List Template) → named name l ≡ true → named name (l ++ r) ≡ true
named_more name l r h = ground (arith, named-append name l r)

has_more :
    {A : Type 0} (k key : String) (v : A) (m : Map A)
    → has k m ≡ true
    → has k (insert key v m) ≡ true
has_more k key v m h = ground (arith, has-insert k key v m)

has_new : {A : Type 0} (key : String) (v : A) (m : Map A) → has key (insert key v m) ≡ true
has_new key v m = ground (arith, has-insert key key v m, eq_refl key)

with_read-IsDraftClosed :
    (e : ResolvedEdge) (api : Option ResourceDetails) (d : Draft)
    → IsDraftClosed d
    → IsDraftClosed (with_read e api d)
with_read-IsDraftClosed e api d (here, all) = (
  here,
  All-append _ d.sub_flows _
      (IsClosedSubFlow-mono _ _ _ _ (λ id h. h)
        (λ name. named_more name d.templates (template_of e ∷ [])) d.sub_flows all)
      ((((named_last d.templates (template_of e), (here, tt)), tt), tt), tt),
)

with_copy-IsDraftClosed :
    (e : ResolvedEdge) (api : Option ResourceDetails) (store : DataStore) (d : Draft)
    → IsDraftClosed d
    → IsDraftClosed (with_copy e api store d)
unfolding insert
with_copy-IsDraftClosed e api store d (here, all) =
    let details : AssetDetails = record {
      advertised_asset_id = d.dataset_id;
      data_store = store;
    } in
    let more = λ (id : String). has_more id (copy_id d.dataset_id) details d.assets in
    let new = has_new (copy_id d.dataset_id) details d.assets in
    (
      new,
      All-append _ d.sub_flows _
          (IsClosedSubFlow-mono _ _ _ _ more
            (λ name. named_more name d.templates (template_of e ∷ [])) d.sub_flows all)
          ((((named_last d.templates (template_of e), (more d.dataset_id here, new)), tt), tt), tt),
    )

module _ {W : Type 0} (g : Generator W) (item : DataInfo) (application : FybrikApplication) where
  after_copy-IsDraftClosed :
      (e : ResolvedEdge) (api : Option ResourceDetails) (o : Attempt DataStore) (d n : Draft)
      → after_copy e api o d ≡ done n
      → IsDraftClosed d
      → IsDraftClosed n
  after_copy-IsDraftClosed e api (done store) d n h k =
      subst IsDraftClosed (ap (or_draft n) h) (with_copy-IsDraftClosed e api store d k)
  after_copy-IsDraftClosed e api (failed m) d n h k = absurd (ground arith)
  after_copy-IsDraftClosed e api panics d n h k = absurd (ground arith)

  place-IsDraftClosed :
      (e : ResolvedEdge) (api : Option ResourceDetails) (sink : Option Node) (s : Stores W)
      (d n : Draft)
      → (place g item application e api sink s d).1 ≡ done n
      → IsDraftClosed d
      → IsDraftClosed n
  unfolding place
  place-IsDraftClosed e api none s d n h k = absurd (ground arith)
  place-IsDraftClosed e api (some sink) s d n h k = elim (Bool-cases sink.virtual) [
    | inl virtual ↦
        let same : done (with_read e api d) ≡ done n = ground arith in
        subst IsDraftClosed (ap (or_draft n) same) (with_read-IsDraftClosed e api d k)
    | inr real ↦
        after_copy-IsDraftClosed e api
          (get_copy_destination g item sink.connection e.storage_account_region s).1 d n
          (ground arith) k
  ]

  add_element-IsDraftClosed :
      (e : ResolvedEdge) (s : Stores W) (d n : Draft)
      → (add_element g item application e s d).1 ≡ done n
      → IsDraftClosed d
      → IsDraftClosed n
  unfolding add_element
  add_element-IsDraftClosed e s d n h k =
      elim (Attempt-cases (service_for g item application e d.dataset_id)) [
        | inl (api, given) ↦ place-IsDraftClosed e api e.edge.sink s d n (ground arith) k
        | inr (inl (m, bad)) ↦ absurd (ground arith)
        | inr (inr bad) ↦ absurd (ground arith)
      ]

  add_elements-IsDraftClosed :
      (es : List ResolvedEdge) (s : Stores W) (d n : Draft)
      → (add_elements g item application es s d).1 ≡ done n
      → IsDraftClosed d
      → IsDraftClosed n
  unfolding add_elements
  add_elements-IsDraftClosed [] s d n h k = subst IsDraftClosed (ap (or_draft n) h) k
  add_elements-IsDraftClosed (e ∷ rest) s d n h k =
      elim (Attempt-cases (add_element g item application e s d).1) [
        | inr (inl (m, bad)) ↦ absurd (ground arith)
        | inr (inr bad) ↦ absurd (ground arith)
        | inl (next, given) ↦
            add_elements-IsDraftClosed rest (add_element g item application e s d).0 next n
              (ground arith) (add_element-IsDraftClosed e s d next given k)
      ]

  -- The specification of a draft.
  abbrev extended : PlotterSpec → Draft → Flow → PlotterSpec
  extended old d f = record old {
    flows = old.flows ++ f ∷ [];
    assets = insert_assets d.assets old.assets;
    templates = insert_templates d.templates old.templates;
  }

  extended-IsClosed :
      (old : PlotterSpec) (d : Draft) (f : Flow)
      → f.sub_flows ≡ d.sub_flows
      → IsClosed old
      → IsDraftClosed d
      → IsClosed (extended old d f)
  extended-IsClosed old d f same closed (here, all) =
      let kept : (id : String)
          → has id old.assets ≡ true
          → has id (insert_assets d.assets old.assets) ≡ true =
        λ id h. ground (arith, has-insert_assets id d.assets old.assets, h) in
      let kept_template : (name : String)
          → has name old.templates ≡ true
          → has name (insert_templates d.templates old.templates) ≡ true =
        λ name h. ground (arith, has-insert_templates name d.templates old.templates, h) in
      All-append _ old.flows (f ∷ [])
        (All-map _ _ old.flows
          (λ flow. IsClosedSubFlow-mono _ _ _ _ kept kept_template flow.sub_flows) closed)
        (
          IsClosedSubFlow-mono _ _ _ _
              (λ id h. ground (arith, has-insert_assets id d.assets old.assets, h))
              (λ name h. ground (arith, has-insert_templates name d.templates old.templates, h))
              f.sub_flows
              (subst
                (All (IsClosedSubFlow (λ id. has id d.assets) (λ name. named name d.templates)))
                (sym same) all),
          tt,
        )

  finish_draft-IsClosed :
      (old new : PlotterSpec) (d : Draft)
      → finish_draft g item application old (done d) ≡ done new
      → IsClosed old
      → IsDraftClosed d
      → IsClosed new
  unfolding finish_draft
  finish_draft-IsClosed old new d h closed k = elim (Option-cases (last_type d.sub_flows)) [
    | inl bad ↦ absurd (ground arith)
    | inr (type, last) ↦
        let f = flow_of g item application type d in
        let same : done (extended old d f) ≡ done new = ground arith in
        subst IsClosed (ap (or_spec new) same) (extended-IsClosed old d f refl closed k)
  ]

  first_draft-IsDraftClosed : IsDraftClosed (first_draft g item application)
  unfolding first_draft lookup
  first_draft-IsDraftClosed = (rw (eq_refl item.context.data_set_id) refl, tt)

  add_solution-IsClosed :
      (l : List Solution) (old new : PlotterSpec) (s : Stores W)
      → (add_solution g item application l old s).1 ≡ done new
      → IsClosed old
      → IsClosed new
  unfolding add_solution finish_draft
  add_solution-IsClosed [] old new s h closed = absurd (ground arith)
  add_solution-IsClosed (selection ∷ others) old new s h closed =
      let start = first_draft g item application in
      elim (Attempt-cases (add_elements g item application selection.data_path s start).1) [
        | inr (inl (m, bad)) ↦
            let k : finish_draft g item application old (failed m) ≡ done new =
              sym (ap (finish_draft g item application old) bad) ∙ h in
            absurd (ground arith)
        | inr (inr bad) ↦
            let k : finish_draft g item application old panics ≡ done new =
              sym (ap (finish_draft g item application old) bad) ∙ h in
            absurd (ground arith)
        | inl (d, given) ↦
            finish_draft-IsClosed old new d
              (sym (ap (finish_draft g item application old) given) ∙ h) closed
              (add_elements-IsDraftClosed selection.data_path s start d given
                first_draft-IsDraftClosed)
      ]

  -- If each step of each flow of the specification uses templates and assets of the specification
  -- only, this holds of the specification that `add_flow_info_for_asset` makes too.
  pub add_flow_info_for_asset-IsClosed :
      (p : PlotterGenerator) (bound : ℕ) (old new : PlotterSpec) (s : Stores W)
      → (add_flow_info_for_asset g item application p bound old s).1 ≡ done new
      → IsClosed old
      → IsClosed new
  unfolding add_flow_info_for_asset
  add_flow_info_for_asset-IsClosed p bound old new s h closed =
      add_solution-IsClosed (find_paths p bound item application) old new s h closed
