-- ===== src/Razee/Bounds.antt =====
-- The versions that UpdateBlueprint of pkg/multicluster/razee/razee_cluster_manager.go adds.
use mesh_for_data.Base.{String, ℕ, ◌≡◌, ◌⊎◌, Option, some, ok, err}
use mesh_for_data.Razee.{Channel, SatCon, Version}

module _ {W : Type 0} (con : SatCon W) where
  -- The name of the version is a number that satisfies P.
  abbrev IsNumbered : (ℕ → Type 0) → Version → Type 0
  IsNumbered P v = (n : ℕ) × ((con.atoi v.name ≡ ok n) × P n)

  -- AddChannelVersion is called with the number for a name, and if it succeeds SetSubscription with
  -- what it returns; the result is that of the call that was last.
  abbrev pub IsPublished : Channel → String → String → W → ℕ → W × Option String → Type 0
  IsPublished channel content subscription w number result =
      (after : W) × (((version : String) × (con.add_channel_version w channel.uuid (con.itoa number)
              content
            ≡ (after, ok version))
          × (result ≡ con.set_subscription after subscription version))
        ⊎ ((e : String) × (con.add_channel_version w channel.uuid (con.itoa number) content
              ≡ (after, err e))
            × (result ≡ (after, some e))))
