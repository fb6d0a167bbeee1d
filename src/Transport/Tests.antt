-- ===== src/Transport/Tests.antt =====
-- The theorems on the parameters of image_transport, the plugin and the publishers, at a node that keeps its
-- parameters in a list.
use Prim.Native.String.{String, ◌++◌ as concat}
use robo_baton_4p_ros2_demo.Prelude.{
  ◌≡◌, refl, inl, true, false, none, some, [], ◌∷◌, if◌then◌else◌, decimal, pos, ok,
}
use robo_baton_4p_ros2_demo.Transport.{
  integer, string_array, enabled_plugins, image_transport_parameter_base,
  configure_image_transport_publisher, parameter_base_name, declare_jpeg_quality, without_namespace,
  replace_slashes, erase_front_dot, declare_or_set_image_transport_parameter,
}
use robo_baton_4p_ros2_demo.Timestamp.{SensorTimestampMapperSnapshot}
use robo_baton_4p_ros2_demo.Options.{default_options, camera_mask_contains}
use robo_baton_4p_ros2_demo.Nv12.{
  validate_and_locate_planes, checked_product, plane_span, is_bad_metadata, find_jpeg_end,
  find_end_from,
}
use robo_baton_4p_ros2_demo.Nv12.Copy.{copy_into_codec_input}
use robo_baton_4p_ros2_demo.Nv12.Codec.{
  CodecReplies, Encoder, new_encoder, encode, ensure_context, initialize_context, start_context,
  encode_planes, reset,
}
use robo_baton_4p_ros2_demo.Camera.Publish.{
  Config, k_block, construct, has_image_publisher, has_camera_info_publisher,
}
use robo_baton_4p_ros2_demo.Transport.{camera_topic, image_topic_suffix, camera_info_topic_suffix}
use robo_baton_4p_ros2_demo.Transport.Plugin.{Publishing, publish, advertise_impl}
use robo_baton_4p_ros2_demo.Transport.Plugin.Contexts.{UseQuality, publish_all, plugin_quality}
use robo_baton_4p_ros2_demo.Transport.Publishers.{
  Publishers, with_topic, construct_impl, create_from, create_if_enabled, create_camera,
  create_camera_info,
}
use robo_baton_4p_ros2_demo.Transport.Publishers.Made.{construct_impl-publishers}
use robo_baton_4p_ros2_demo.Transport.Names.{has_no_slash, parameter_names}
use robo_baton_4p_ros2_demo.Transport.Laws.{IsFree}
use robo_baton_4p_ros2_demo.Transport.Quality.{configured_quality, plugins_name}
use robo_baton_4p_ros2_demo.Transport.Store.{Table, node, laws}

abbrev topic : String
topic = "/robobaton/cam2/image_raw"

base_is : parameter_base_name node topic ≡ "robobaton.cam2.image_raw"
unfolding parameter_base_name without_namespace replace_slashes erase_front_dot
base_is = refl

-- The table after the configuration of the topic with the quality 90.
abbrev configured : Table
configured =
    ("robobaton.cam2.image_raw.jpeg_quality", integer (pos 90))
    ∷ ("robobaton.cam2.image_raw.enable_pub_plugins", string_array (enabled_plugins true))
    ∷ []

configures : configure_image_transport_publisher node topic true (pos 90) [] ≡ ok configured
unfolding configure_image_transport_publisher image_transport_parameter_base
    declare_or_set_image_transport_parameter without_namespace replace_slashes erase_front_dot
configures = refl

parameter_names_example :
    (image_transport_parameter_base node topic ≡ ok (parameter_base_name node topic))
    × (has_no_slash (parameter_base_name node topic) ≡ true)
    × ((rest : String)
        → topic ≡ concat node.effective_namespace (concat "/" rest)
        → parameter_base_name node topic ≡ replace_slashes rest)
parameter_names_example = parameter_names node topic topic refl

configured_quality_example :
    (declare_jpeg_quality node topic configured ≡ ok (pos 90, configured))
    × (IsFree node laws (plugins_name node laws topic) []
        → node.get_parameter (plugins_name node laws topic) configured
          ≡ ok (string_array (enabled_plugins true)))
configured_quality_example =
    configured_quality node laws topic topic (pos 90) [] configured refl refl refl (inl refl)
      configures

abbrev replies : CodecReplies
replies = record {
  initialize_status = pos 0;
  configure_status = pos 0;
  start_status = pos 0;
  dequeue_input_status = pos 0;
  input = record {
    y_is_null = false;
    uv_is_null = false;
    stride = pos 4;
    vstride = pos 4;
    y_capacity = 8;
    uv_capacity = 8;
  };
  queue_input_status = pos 0;
  dequeue_output_status = pos 0;
  output = some (0xff ∷ 0xd8 ∷ 0xff ∷ 0xd9 ∷ []);
  queue_output_status = pos 0;
}

-- An image of four by two pixels.
abbrev publishing : Publishing
publishing = record {
  header = record { stamp = record { sec = 1; nanosec = 0 }; frame_id = "cam2" };
  image = record { encoding = "nv12"; width = 4; height = 2; step = 4; size = 12 };
  replies = replies;
  publish_error = none;
}

abbrev encoder : Encoder
encoder = record {
  jpeg_quality = pos 90;
  width = 0;
  height = 0;
  initialized = false;
  started = false;
  calls = [];
}

advertises : advertise_impl node (ok tt) topic configured ≡ ok (some encoder, configured)
unfolding advertise_impl declare_jpeg_quality parameter_base_name without_namespace replace_slashes
    erase_front_dot new_encoder
advertises = refl

sends : (publish publishing (some encoder)).thrown ≡ none
unfolding publish encode validate_and_locate_planes checked_product plane_span is_bad_metadata
    ensure_context initialize_context start_context encode_planes reset copy_into_codec_input
    find_jpeg_end find_end_from
sends = refl

plugin_quality_example :
    (e : Encoder) × (publish_all (publishing ∷ []) (some encoder) ≡ some e)
    × (e.jpeg_quality ≡ pos 90)
    × UseQuality (pos 90) e.calls
plugin_quality_example =
    plugin_quality node laws topic topic (pos 90) [] configured configured (ok tt) (some encoder)
      (publishing ∷ []) refl refl refl (inl refl) configures advertises

abbrev mapper : SensorTimestampMapperSnapshot
mapper = record {
  realtime_start_ns = 1000;
  monotonic_raw_start_ns = 900;
  realtime_minus_monotonic_raw_ns = pos 100;
}

-- The last camera alone, without CameraInfo and without the plugin.
abbrev config : Config
config = record {
  timestamp_mapper = some mapper;
  options = record default_options { camera_mask = 8 };
  queue_capacity = 4;
  queue_policy = k_block;
  publish_camera_info = false;
  image_encoding = "nv12";
  publish_compressed_image = false;
  compressed_jpeg_quality = pos 80;
  frame_id_prefix = "robobaton_cam";
  rate_metrics_enabled = false;
  rate_log_period_ms = 0;
  rate_run_id = "";
}

-- What the constructor leaves.
abbrev raw_only : Table
raw_only =
    ("robobaton.cam3.image_raw.enable_pub_plugins", string_array (enabled_plugins false)) ∷ []

abbrev last_camera : Publishers
last_camera = record {
  image = with_topic (λ id. none) 3 (camera_topic 3 image_topic_suffix);
  camera_info = λ id. none;
}

constructs : construct_impl node false config [] ≡ ok (mapper, (last_camera, raw_only))
unfolding construct_impl construct create_from create_if_enabled create_camera create_camera_info
    camera_mask_contains default_options configure_image_transport_publisher
    image_transport_parameter_base declare_or_set_image_transport_parameter without_namespace
    replace_slashes erase_front_dot camera_topic decimal
constructs = refl

construct_impl-publishers_example :
    (last_camera.image 3
      ≡ (if has_image_publisher config 3 then some (camera_topic 3 image_topic_suffix) else none))
    × (last_camera.camera_info 3 ≡ (
        if has_camera_info_publisher config 3
        then some (camera_topic 3 camera_info_topic_suffix)
        else none))
construct_impl-publishers_example =
    construct_impl-publishers node false config [] mapper last_camera raw_only constructs 3
