-- ===== src/Transport/Plugin.antt =====
-- Nv12CompressedPublisher of src/nv12_compressed_publisher.cpp: the plugin that image_transport asks to
-- advertise a topic and to publish images on it.
--
-- The state is the encoder, `none` for a null pointer. An encoder that is replaced is destroyed, which
-- `reset` describes, and is no longer in the state. Publishing takes place under `encoder_mutex_`.
pub mod Contexts
use robo_baton_4p_ros2_demo.Prelude.{
  ℕ, Option, none, some, List, [], ◌∷◌, ℤ, Exception, Result, ok, throw, runtime_error, ◌>>=◌, ◌>>◌,
  String,
}
use robo_baton_4p_ros2_demo.Ros.{Header}
use robo_baton_4p_ros2_demo.Nv12.{Image}
use robo_baton_4p_ros2_demo.Nv12.Codec.{Encoder, CodecReplies, new_encoder, encode}
use robo_baton_4p_ros2_demo.Transport.{NodeInterface, declare_jpeg_quality}

-- `sensor_msgs::msg::CompressedImage`
pub record CompressedImage : Type 0 where
  pub header : Header
  pub format : String
  pub bytes : List ℕ

-- An image with its header, what the codec's calls return for it, and the exception that `publish_fn`
-- throws, if it does.
pub record Publishing : Type 0 where
  pub header : Header
  pub image : Image
  pub replies : CodecReplies
  pub publish_error : Option Exception

-- What publish leaves: the encoder, the messages that were handed over, and what was thrown.
pub record Published : Type 0 where
  pub encoder : Option Encoder
  pub sent : List CompressedImage
  pub thrown : Option Exception

abbrev pub sent_unless : Option Exception → CompressedImage → List CompressedImage
sent_unless none message = message ∷ []
sent_unless (some e) message = []

abbrev pub publish_encoded : Publishing → Encoder × Result (List ℕ) → Published
publish_encoded p (e, throw x) = record { encoder = some e; sent = []; thrown = some x }
publish_encoded p (e, ok jpeg) = record {
  encoder = some e;
  sent =
      sent_unless p.publish_error
        (record { header = p.header; format = "nv12; jpeg compressed bgr8"; bytes = jpeg });
  thrown = p.publish_error;
}

unfoldable pub publish : Publishing → Option Encoder → Published
publish p none = record {
  encoder = none;
  sent = [];
  thrown = some (runtime_error "NV12 compressed publisher used before advertise");
}
publish p (some e) = publish_encoded p (encode p.image p.replies e)

module _ (n : NodeInterface) where
  open n use {Params}

  -- The first argument is what the `advertiseImpl` of the base class does, which leaves the parameters.
  unfoldable pub advertise_impl :
      Result (Unit {0}) → String → Params → Result (Option Encoder × Params)
  unfolding declare_jpeg_quality new_encoder
  advertise_impl base base_topic params = do
    base
    (quality, params') ← declare_jpeg_quality n base_topic params
    encoder ← new_encoder quality
    ok (some encoder, params')
