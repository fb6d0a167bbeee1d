-- ===== src/Transport/Publishers.antt =====
-- The constructor of CameraPublisher::Impl, which configures image_transport and makes the publishers of
-- the cameras of the mask.
mod Rounds
pub mod Made
use robo_baton_4p_ros2_demo.Prelude.{
  ℕ, zero, suc, ◌+◌, ◌≡◌, ◌⊎◌, inl, inr, refl, sym, ap, ◌∙◌, Bool, true, false, ◌&&◌, ◌||◌, not,
  Option, none, some, ltb, leb, ◌==◌, if◌then◌else◌, ℤ, pos, Result, ok, throw, ◌>>=◌, >>=-eq-ok,
  Bool-cases, ==_iff, arith, String,
}
use robo_baton_4p_ros2_demo.Timestamp.{SensorTimestampMapperSnapshot}
use robo_baton_4p_ros2_demo.Options.{camera_mask_contains}
use robo_baton_4p_ros2_demo.Camera.Core.{max_cameras}
use robo_baton_4p_ros2_demo.Camera.Publish.{
  Config, construct, has_image_publisher, has_camera_info_publisher,
}
use robo_baton_4p_ros2_demo.Transport.{
  NodeInterface, image_topic_suffix, camera_info_topic_suffix, camera_topic,
  configure_image_transport_publisher,
}

-- `image_publishers_` and `camera_info_publishers_`: the topic of a publisher that is there.
pub record Publishers : Type 0 where
  pub image : ℕ → Option String
  pub camera_info : ℕ → Option String

abbrev pub no_publishers : Publishers
no_publishers = record { image = λ id. none; camera_info = λ id. none }

abbrev pub with_topic : (ℕ → Option String) → ℕ → String → ℕ → Option String
with_topic topics id topic other = if other == id then some topic else topics other

module _ (n : NodeInterface) where
  open n use {Params, create_publisher, create_info_publisher}

  unfoldable pub keep_camera_info : Publishers → ℕ → Params → Publishers × Params
  keep_camera_info pubs id params = (
    record pubs {
      camera_info = with_topic pubs.camera_info id (camera_topic id camera_info_topic_suffix);
    },
    params,
  )

  unfoldable pub create_camera_info :
      Config → ℕ → Publishers → Params → Result (Publishers × Params)
  unfolding keep_camera_info
  create_camera_info config id pubs params =
      if config.publish_camera_info
      then create_info_publisher (camera_topic id camera_info_topic_suffix) params
        >>= (λ params'. ok (keep_camera_info pubs id params'))
      else ok (pubs, params)

  -- A round of the loop for a camera of the mask.
  unfoldable pub create_camera : Config → ℕ → Publishers × Params → Result (Publishers × Params)
  unfolding create_camera_info
  create_camera config id (pubs, params) = do
    let image_topic = camera_topic id image_topic_suffix
    configured ←
        configure_image_transport_publisher n image_topic config.publish_compressed_image
          config.compressed_jpeg_quality params
    created ← create_publisher image_topic configured
    create_camera_info config id (record pubs { image = with_topic pubs.image id image_topic })
        created

  unfoldable pub create_if_enabled : Config → ℕ → Publishers × Params → Result (Publishers × Params)
  unfolding create_camera
  create_if_enabled config id s =
      if not (camera_mask_contains config.options.camera_mask (pos id))
      then ok s
      else create_camera config id s

  -- The loop, with the rounds left.
  unfoldable pub create_from : ℕ → ℕ → Config → Publishers × Params → Result (Publishers × Params)
  unfolding create_if_enabled
  create_from zero id config s = ok s
  create_from (suc rounds) id config s =
      create_if_enabled config id s >>= create_from rounds (id + 1) config

  unfoldable pub construct_impl :
      Bool → Config → Params → Result (SensorTimestampMapperSnapshot × (Publishers × Params))
  unfolding create_from
  construct_impl node_is_null config params = do
    mapper ← construct node_is_null config
    s ← create_from max_cameras 0 config (no_publishers, params)
    ok (mapper, s)
