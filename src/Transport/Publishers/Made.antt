-- ===== src/Transport/Publishers/Made.antt =====
-- Which publishers the constructor of CameraPublisher::Impl makes.
use robo_baton_4p_ros2_demo.Prelude.{
  ℕ, zero, suc, ◌+◌, ◌≡◌, inl, inr, refl, sym, ap, ◌∙◌, Bool, true, ◌&&◌, none, some, ◌==◌,
  if◌then◌else◌, pos, ok, ◌>>=◌, >>=-eq-ok, Bool-cases, arith,
}
use robo_baton_4p_ros2_demo.Timestamp.{SensorTimestampMapperSnapshot}
use robo_baton_4p_ros2_demo.Options.{camera_mask_contains}
use robo_baton_4p_ros2_demo.Camera.Core.{max_cameras}
use robo_baton_4p_ros2_demo.Camera.Publish.{
  Config, construct, has_image_publisher, has_camera_info_publisher,
}
use robo_baton_4p_ros2_demo.Transport.{
  NodeInterface, image_topic_suffix, camera_info_topic_suffix, camera_topic,
  configure_image_transport_publisher,
}
use robo_baton_4p_ros2_demo.Transport.Publishers.{
  Publishers, no_publishers, with_topic, keep_camera_info, create_camera_info, create_camera,
  create_if_enabled, create_from, construct_impl,
}
use robo_baton_4p_ros2_demo.Transport.Publishers.Rounds.{
  topic_if, with_topic-topic_if, in_one_round, not_in_round, in_no_round, Made, Made-none,
  Made-join, all_rounds, all_info_rounds,
}

module _ (n : NodeInterface) where
  open n use {Params, create_publisher, create_info_publisher}

  create_camera_info-ok :
      (config : Config) (id : ℕ) (pubs : Publishers) (params : Params) (pubs' : Publishers)
      (params' : Params)
      → create_camera_info n config id pubs params ≡ ok (pubs', params')
      → (pubs'.image ≡ pubs.image)
        × ((other : ℕ)
            → pubs'.camera_info other
              ≡ topic_if
                  (config.publish_camera_info && other == id)
                  other
                  camera_info_topic_suffix
                  (pubs.camera_info other))
  unfolding create_camera_info keep_camera_info
  create_camera_info-ok config id pubs params pubs' params' h =
      elim (Bool-cases config.publish_camera_info) [
        | inl wanted ↦
            let keep = λ (last : Params). ok (keep_camera_info n pubs id last) in
            let call = create_info_publisher (camera_topic id camera_info_topic_suffix) params in
            let made : (call >>= keep) ≡ ok (pubs', params') = ground (arith, h, wanted) in
            let (last, created, kept) = >>=-eq-ok call keep made in
            let same : pubs' ≡ (keep_camera_info n pubs id last).0 = cc kept in
            rw (same, wanted)
              (
                refl,
                λ other. with_topic-topic_if pubs.camera_info id camera_info_topic_suffix other,
              )
        | inr unwanted ↦
            let same : pubs' ≡ pubs = ground (arith, h, unwanted) in
            rw (same, unwanted) (refl, λ other. refl)
      ]

  create_camera-Made :
      (config : Config) (id : ℕ) (pubs : Publishers) (params : Params) (pubs' : Publishers)
      (params' : Params)
      → camera_mask_contains config.options.camera_mask (pos id) ≡ true
      → create_camera n config id (pubs, params) ≡ ok (pubs', params')
      → Made config id (id + 1) pubs pubs'
  unfolding create_camera
  create_camera-Made config id pubs params pubs' params' enabled h =
      let topic = camera_topic id image_topic_suffix in
      let image = record pubs { image = with_topic pubs.image id topic } in
      let create = λ (configured : Params).
        create_publisher topic configured >>= create_camera_info n config id image in
      let (configured, ready, rest) =
        >>=-eq-ok
          (configure_image_transport_publisher n topic config.publish_compressed_image
            config.compressed_jpeg_quality params)
          create h in
      let (created, made, last) =
        >>=-eq-ok (create_publisher topic configured) (create_camera_info n config id image) rest in
      let (images, infos) = create_camera_info-ok config id image created pubs' params' last in
      record {
        image = λ other.
            ap (λ topics. topics other) images
            ∙ with_topic-topic_if pubs.image id image_topic_suffix other
            ∙ ap (λ b. topic_if b other image_topic_suffix (pubs.image other))
                (sym (in_one_round config id other enabled));
        camera_info = λ other.
            infos other
            ∙ ap
                (λ b.
                  topic_if (config.publish_camera_info && b) other camera_info_topic_suffix
                    (pubs.camera_info other))
                (sym (in_one_round config id other enabled));
      }

  create_if_enabled-Made :
      (config : Config) (id : ℕ) (s s' : Publishers × Params)
      → create_if_enabled n config id s ≡ ok s'
      → Made config id (id + 1) s.0 s'.0
  unfolding create_if_enabled
  create_if_enabled-Made config id (pubs, params) (pubs', params') h =
      elim (Bool-cases (camera_mask_contains config.options.camera_mask (pos id))) [
        | inl enabled ↦
            create_camera-Made config id pubs params pubs' params' enabled
              (ground (arith, h, enabled))
        | inr skipped ↦
            let same : pubs' ≡ pubs = ground (arith, h, skipped) in
            rw same
              (Made-none config id (id + 1) pubs (λ other. not_in_round config id other skipped))
      ]

  create_from-Made :
      (rounds id : ℕ) (config : Config) (s s' : Publishers × Params)
      → create_from n rounds id config s ≡ ok s'
      → Made config id (id + rounds) s.0 s'.0
  unfolding create_from
  create_from-Made zero id config s s' h =
      let same : s' ≡ s = cc h in rw same (Made-none config id (id + 0) s.0 (in_no_round config id))
  create_from-Made (suc rounds) id config s s' h =
      let (t, first, rest) =
        >>=-eq-ok (create_if_enabled n config id s) (create_from n rounds (id + 1) config) h in
      let one = create_if_enabled-Made config id s t first in
      let more = create_from-Made rounds (id + 1) config t s' rest in
      Made-join config id rounds s.0 t.0 s'.0 one more

  -- A constructor that returns has made, for every camera, a publisher of images on the topic of the
  -- camera if `has_image_publisher` says so, and one of CameraInfo if `has_camera_info_publisher` does,
  -- and no other publisher.
  pub construct_impl-publishers :
      (node_is_null : Bool) (config : Config) (params : Params)
      (mapper : SensorTimestampMapperSnapshot) (pubs : Publishers) (params' : Params)
      → construct_impl n node_is_null config params ≡ ok (mapper, (pubs, params'))
      → (id : ℕ)
      → (pubs.image id ≡ (
          if has_image_publisher config id
          then some (camera_topic id image_topic_suffix)
          else none))
        × (pubs.camera_info id ≡ (
            if has_camera_info_publisher config id
            then some (camera_topic id camera_info_topic_suffix)
            else none))
  unfolding construct_impl
  construct_impl-publishers node_is_null config params mapper pubs params' h id =
      let keep = λ (m : SensorTimestampMapperSnapshot) (s : Publishers × Params). ok (m, s) in
      let loop = create_from n max_cameras 0 config (no_publishers, params) in
      let (m, checked, rest) = >>=-eq-ok (construct node_is_null config) (λ m. loop >>= keep m) h in
      let (s, made, last) = >>=-eq-ok loop (keep m) rest in
      let same : s ≡ (pubs, params') = cc last in
      let all = create_from-Made max_cameras 0 config (no_publishers, params) s made in
      let now = ap (λ t. t.0) (sym same) in
      (
        ap (λ p. p.image id) now
            ∙ all.image id
            ∙ ap (λ b. topic_if b id image_topic_suffix none) (all_rounds config id),
        ap (λ p. p.camera_info id) now
            ∙ all.camera_info id
            ∙ ap (λ b. topic_if b id camera_info_topic_suffix none) (all_info_rounds config id),
      )
