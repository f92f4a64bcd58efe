-- ===== src/Config/Merge.antt =====
-- What `merge` of Config.antt makes of two decisions: the merged one honors both.
use mesh_for_data.Base.{
  ◌≡◌, refl, sym, ap, ◌∙◌, subst, Bool, true, false, inl, inr, ◌⊎◌, Option, none, some, arith,
}
use mesh_for_data.Api.Rules.{Decision, DeploymentStatus, Restrictions, status_false, status_true}
use mesh_for_data.Config.Narrow.{NarrowsAll, merge_restrictions-NarrowsAll, merge_restrictions_kept}
use mesh_for_data.Config.{
  entries, merge, merge_end, merge_all, merge_deploy, merge_restrictions, merge_with,
}

abbrev pub is_known : DeploymentStatus → Bool
is_known status_true = true
is_known status_false = true
is_known _ = false

-- A decision honors another one if it requires or forbids what that one requires or forbids, and
-- narrows all restrictions of that one.
pub record Honors (asked d : Decision) : Type 0 where
  pub deploy : (is_known asked.deploy ≡ false) ⊎ (d.deploy ≡ asked.deploy)
  pub clusters :
      NarrowsAll
        (entries asked.deployment_restrictions.clusters)
        (entries d.deployment_restrictions.clusters)
  pub modules :
      NarrowsAll
        (entries asked.deployment_restrictions.modules)
        (entries d.deployment_restrictions.modules)
  pub storage_accounts :
      NarrowsAll
        (entries asked.deployment_restrictions.storage_accounts)
        (entries d.deployment_restrictions.storage_accounts)

merge_deploy_known :
    (new old : DeploymentStatus) {d : DeploymentStatus}
    → merge_deploy new old ≡ some d
    → ((is_known new ≡ false) ⊎ (d ≡ new)) × ((is_known old ≡ false) ⊎ (d ≡ old))
unfolding merge_deploy
merge_deploy_known new old h = ground arith

-- What a merge with no conflict is made of.
record Parts (new old : Restrictions) : Type 0 where
  clusters : (merge_restrictions (entries old.clusters) (entries new.clusters)).1 ≡ true
  modules : (merge_restrictions (entries old.modules) (entries new.modules)).1 ≡ true
  storage :
      (merge_restrictions (entries old.storage_accounts) (entries new.storage_accounts)).1 ≡ true
  all : (merge_all new old).0 ≡ record {
    clusters = some (merge_restrictions (entries old.clusters) (entries new.clusters)).0;
    modules = some (merge_restrictions (entries old.modules) (entries new.modules)).0;
    storage_accounts =
        some (merge_restrictions (entries old.storage_accounts) (entries new.storage_accounts)).0;
  }

merge_all-Parts : (new old : Restrictions) → (merge_all new old).2 ≡ true → Parts new old
unfolding merge_all
merge_all-Parts new old h = record {
  clusters = ground arith;
  modules = ground arith;
  storage = ground arith;
  all = ground arith;
}

-- The merge was made, with the deployment decision and the maps that it has.
record IsMerged (new old d : Decision) : Type 0 where
  deployed : merge_deploy new.deploy old.deploy ≡ some d.deploy
  parts : Parts new.deployment_restrictions old.deployment_restrictions
  restrictions :
      d.deployment_restrictions
      ≡ (merge_all new.deployment_restrictions old.deployment_restrictions).0

merge_end_valid :
    (old : Decision) (deploy : DeploymentStatus) (t : Restrictions × Restrictions × Bool)
    → (merge_end old deploy t).valid ≡ true
    → (t.2 ≡ true)
      × ((merge_end old deploy t).decision.deploy ≡ deploy)
      × ((merge_end old deploy t).decision.deployment_restrictions ≡ t.0)
merge_end_valid old deploy (all, left, true) h = (refl, refl, refl)
merge_end_valid old deploy (all, left, false) h = cc

merge_with-IsMerged :
    (new old : Decision) (o : Option DeploymentStatus)
    → merge_deploy new.deploy old.deploy ≡ o
    → (merge_with new old o).valid ≡ true
    → IsMerged new old (merge_with new old o).decision
unfolding merge_with
merge_with-IsMerged new old none e h = cc
merge_with-IsMerged new old (some deploy) e h =
    let (fits, deployed, restrictions) =
      merge_end_valid old deploy (merge_all new.deployment_restrictions old.deployment_restrictions)
        h in
    record {
      deployed = e ∙ ap some (sym deployed);
      parts = merge_all-Parts new.deployment_restrictions old.deployment_restrictions fits;
      restrictions = restrictions;
    }

merge-IsMerged :
    (new old : Decision) → (merge new old).valid ≡ true → IsMerged new old (merge new old).decision
unfolding merge
merge-IsMerged new old h = merge_with-IsMerged new old (merge_deploy new.deploy old.deploy) refl h

IsMerged-Honors_new : (new old d : Decision) → IsMerged new old d → Honors new d
IsMerged-Honors_new new old d m =
    let r = m.restrictions ∙ m.parts.all in
    record {
      deploy = (merge_deploy_known new.deploy old.deploy m.deployed).0;
      clusters =
          subst
            (λ (x : Restrictions).
              NarrowsAll (entries new.deployment_restrictions.clusters) (entries x.clusters))
            (sym r)
            (merge_restrictions-NarrowsAll (entries old.deployment_restrictions.clusters)
              (entries new.deployment_restrictions.clusters) m.parts.clusters);
      modules =
          subst
            (λ (x : Restrictions).
              NarrowsAll (entries new.deployment_restrictions.modules) (entries x.modules))
            (sym r)
            (merge_restrictions-NarrowsAll (entries old.deployment_restrictions.modules)
              (entries new.deployment_restrictions.modules) m.parts.modules);
      storage_accounts =
          subst
            (λ (x : Restrictions).
              NarrowsAll (entries new.deployment_restrictions.storage_accounts)
                (entries x.storage_accounts))
            (sym r)
            (merge_restrictions-NarrowsAll (entries old.deployment_restrictions.storage_accounts)
              (entries new.deployment_restrictions.storage_accounts) m.parts.storage);
    }

keeps_deploy :
    {asked old d : DeploymentStatus}
    → (is_known old ≡ false) ⊎ (d ≡ old)
    → (is_known asked ≡ false) ⊎ (old ≡ asked)
    → (is_known asked ≡ false) ⊎ (d ≡ asked)
keeps_deploy k (inl u) = inl u
keeps_deploy (inl u) (inr e) = inl (rw (← e) u)
keeps_deploy (inr d) (inr e) = inr (d ∙ e)

IsMerged-Honors_old :
    (asked new old d : Decision) → IsMerged new old d → Honors asked old → Honors asked d
IsMerged-Honors_old asked new old d m h =
    let r = m.restrictions ∙ m.parts.all in
    record {
      deploy = keeps_deploy (merge_deploy_known new.deploy old.deploy m.deployed).1 h.deploy;
      clusters =
          subst
            (λ (x : Restrictions).
              NarrowsAll (entries asked.deployment_restrictions.clusters) (entries x.clusters))
            (sym r)
            (merge_restrictions_kept (entries asked.deployment_restrictions.clusters)
              (entries old.deployment_restrictions.clusters)
              (entries new.deployment_restrictions.clusters) m.parts.clusters h.clusters);
      modules =
          subst
            (λ (x : Restrictions).
              NarrowsAll (entries asked.deployment_restrictions.modules) (entries x.modules))
            (sym r)
            (merge_restrictions_kept (entries asked.deployment_restrictions.modules)
              (entries old.deployment_restrictions.modules)
              (entries new.deployment_restrictions.modules) m.parts.modules h.modules);
      storage_accounts =
          subst
            (λ (x : Restrictions).
              NarrowsAll (entries asked.deployment_restrictions.storage_accounts)
                (entries x.storage_accounts))
            (sym r)
            (merge_restrictions_kept (entries asked.deployment_restrictions.storage_accounts)
              (entries old.deployment_restrictions.storage_accounts)
              (entries new.deployment_restrictions.storage_accounts) m.parts.storage
              h.storage_accounts);
    }

pub merge-Honors_new :
    (new old : Decision) → (merge new old).valid ≡ true → Honors new (merge new old).decision
merge-Honors_new new old h =
    IsMerged-Honors_new new old (merge new old).decision (merge-IsMerged new old h)

-- The merged decision of two compatible ones honors the new one, and honors whatever the old one
-- honors.
pub merge-Honors :
    (asked new old : Decision)
    → (merge new old).valid ≡ true
    → Honors asked old
    → Honors new (merge new old).decision × Honors asked (merge new old).decision
merge-Honors asked new old h honored =
    let m = merge-IsMerged new old h in
    (
      IsMerged-Honors_new new old (merge new old).decision m,
      IsMerged-Honors_old asked new old (merge new old).decision m honored,
    )
