-- ===== src/Razee/Blueprints.antt =====
-- CreateBlueprint, UpdateBlueprint and DeleteBlueprint of
-- pkg/multicluster/razee/razee_cluster_manager.go.
use mesh_for_data.Base.{
  String, ℕ, suc, ◌%◌, ◌^◌, ◌==◌, ◌<>◌, if◌then◌else◌, ltb, Option, none, some, List, [], ◌∷◌,
  Result, ok, err,
}
use mesh_for_data.Base.Text.{has_prefix}
use mesh_for_data.Api.Blueprint.{Blueprint}
use mesh_for_data.Razee.{Channel, RazeeCluster, SatCon, Version}

abbrev pub get_group_name : String → String
get_group_name cluster = "fybrik-" <> cluster

abbrev pub channel_name : String → String → String
channel_name cluster name = "fybrik.io-" <> cluster <> "-" <> name

-- A step whose error ends the operation.
abbrev pub or_stop : {W : Type 0} → W × Option String → (W → W × Option String) → W × Option String
or_stop (w, none) go = go w
or_stop (w, some e) go = (w, some e)

abbrev pub Stepped : Type 0 → Type 0
Stepped W = Option (W × Option String)

-- `max + 1`, as the 64-bit word of the int.
abbrev pub next_version : ℕ → ℕ
next_version max = suc max % 2 ^ 64

module _ {W : Type 0} (con : SatCon W) where
  -- The loop over the versions: the greatest number.
  unfoldable pub max_version : List Version → ℕ → Result ℕ
  max_version [] max = ok max
  max_version (v ∷ rest) max = elim (con.atoi v.name) [
    | err e ↦ err ("cannot parse version name " <> v.name)
    | ok n ↦ max_version rest (if ltb max n then n else max)
  ]

  -- The new version of a channel, and the subscription set to it.
  unfoldable pub put_version : Channel → String → ℕ → String → W → W × Option String
  put_version channel content max subscription w =
      let (after, version) =
        con.add_channel_version w channel.uuid (con.itoa (next_version max)) content in
      elim version [
        | err e ↦ (after, some e)
        | ok uuid ↦ con.set_subscription after subscription uuid
      ]

  unfoldable pub update_channel : Channel → String → W → W × Option String
  unfolding max_version put_version
  update_channel channel content w = elim (max_version channel.versions 0) [
    | err e ↦ (w, some e)
    | ok max ↦ elim (channel.subscriptions) [
      | [] ↦ (w, some "found more or less than one subscription")
      | s ∷ [] ↦ put_version channel content max s w
      | s ∷ t ∷ rest ↦ (w, some "found more or less than one subscription")
    ]
  ]

  unfoldable pub update_blueprint : W → String → Blueprint → Stepped W
  unfolding update_channel
  update_blueprint w cluster b = elim (con.marshal b) [
    | err e ↦ some (w, some e)
    | ok content ↦ elim (con.channel_by_name w (channel_name cluster b.name)) [
      | err e ↦ some (
        w,
        some ("cannot fetch channel info for channel '" <> channel_name cluster b.name <> "'"),
      )
      | ok none ↦ none
      | ok (some channel) ↦ some (update_channel channel content w)
    ]
  ]

  -- The subscription of a new version; where it fails the version and the channel are removed.
  unfoldable pub subscribe : String → String → String → String → W → W × Option String
  subscribe name group channel version w =
      let (after, failure) = con.add_subscription w name channel version (group ∷ []) in
      let (removed, version_error) = con.remove_channel_version after version in
      let (undone, channel_error) = con.remove_channel removed channel in
      elim failure [ none ↦ (after, none) | some e ↦ (undone, some e) ]

  -- The new channel; where its version fails it is removed.
  unfoldable pub create_channel : String → String → String → W → W × Option String
  unfolding subscribe
  create_channel name group content w =
      let (added, channel) = con.add_channel w name in
      elim channel [
        | err e ↦ (added, some e)
        | ok uuid ↦
            let (after, version) = con.add_channel_version added uuid "0" content in
            let (undone, channel_error) = con.remove_channel after uuid in
            elim version [ err e ↦ (undone, some e) | ok v ↦ subscribe name group uuid v after ]
      ]

  -- The group of the cluster, which is added where it is not there.
  unfoldable pub group_uuid : String → W → W × Result String
  group_uuid name w = elim (con.group_by_name w name) [
    | err e ↦
        if e == "Cannot destructure property 'req_id' of 'context' as it is undefined."
        then con.add_group w name
        else (w, err e)
    | ok none ↦ con.add_group w name
    | ok (some g) ↦ (w, ok g.uuid)
  ]

  -- The channel is updated if it is there.
  unfoldable pub put_channel : String → Blueprint → String → W → Stepped W
  unfolding create_channel update_blueprint has_prefix
  put_channel cluster b content w =
      let name = channel_name cluster b.name in
      elim (con.channel_by_name w name) [
        | err e ↦
            if has_prefix e "Query channelByName error."
            then some (create_channel name (get_group_name cluster) content w)
            else some (w, some e)
        | ok none ↦ some (create_channel name (get_group_name cluster) content w)
        | ok (some channel) ↦ update_blueprint w cluster b
      ]

  -- The cluster joins its group.
  unfoldable pub join_group : String → Blueprint → String → RazeeCluster → W → Stepped W
  unfolding group_uuid put_channel
  join_group cluster b content c w =
      let (grouped, group) = group_uuid (get_group_name cluster) w in
      elim group [
        | err e ↦ some (grouped, some e)
        | ok uuid ↦
            let (joined, failure) = con.group_clusters grouped uuid (c.cluster_id ∷ []) in
            let next = put_channel cluster b content joined in
            elim failure [ some e ↦ some (joined, some e) | none ↦ next ]
      ]

  unfoldable pub create_blueprint : W → String → Blueprint → Stepped W
  unfolding join_group
  create_blueprint w cluster b = elim (con.marshal b) [
    | err e ↦ some (w, some e)
    | ok content ↦ elim (con.cluster_by_name w cluster) [
      | err e ↦ some (w, some ("error while fetching cluster by name: " <> e))
      | ok none ↦
          some (
            w,
            some ("no cluster found for orgID " <> con.org_id <> " and cluster name " <> cluster),
          )
      | ok (some c) ↦ join_group cluster b content c w
    ]
  ]

  -- The loops of the deletion, up to an error.
  unfoldable pub remove_subscriptions : List String → W → W × Option String
  remove_subscriptions [] w = (w, none)
  remove_subscriptions (s ∷ rest) w =
      or_stop (con.remove_subscription w s) (λ after. remove_subscriptions rest after)

  unfoldable pub remove_versions : List Version → W → W × Option String
  remove_versions [] w = (w, none)
  remove_versions (v ∷ rest) w =
      or_stop (con.remove_channel_version w v.uuid) (λ after. remove_versions rest after)

  unfoldable pub delete_blueprint : W → String → String → String → Stepped W
  unfolding remove_subscriptions remove_versions
  delete_blueprint w cluster namespace name =
      elim (con.channel_by_name w (channel_name cluster name)) [
        | err e ↦ some (w, some e)
        | ok none ↦ none
        | ok (some channel) ↦ some (
            or_stop (remove_subscriptions channel.subscriptions w) (λ after.
              or_stop (remove_versions channel.versions after)
                (λ last. con.remove_channel last channel.uuid)))
      ]
