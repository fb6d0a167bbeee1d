-- ===== src/Transport.antt =====
-- The parameters through which the camera publisher of src/camera_publisher.cpp sets up image_transport,
-- and the plugin Nv12CompressedPublisher of src/nv12_compressed_publisher.cpp reads its quality.
--
-- The node is one of rclcpp's: its namespace, the expansion of a topic, and what the calls on its
-- parameters answer are an argument (`NodeInterface`). A name's size is counted in bytes.
pub mod Names
pub mod Laws
pub mod Quality
pub mod Plugin
pub mod Publishers
mod Store
mod Tests
use Prim.Native.String.{String, ◌++◌ as concat, len, slice}
use Prim.Native.Char.{Char, code}
use robo_baton_4p_ros2_demo.Prelude.{
  ℕ, Bool, true, false, ◌||◌, not, Option, none, some, List, [], ◌∷◌, ltb_ℤ, ◌==◌, leb,
  if◌then◌else◌, decimal, ℤ, pos, Exception, Result, ok, throw, invalid_argument, throw_if, ◌>>=◌,
  ◌>>◌,
}

-- The values of the parameters that are declared here.
pub data ParameterValue : Type 0 where
  string_array : List String → ParameterValue
  integer : ℤ → ParameterValue

-- `rcl_interfaces::msg::ParameterDescriptor` of an integer, with its range.
pub record ParameterDescriptor : Type 0 where
  pub name : String
  pub description : String
  pub read_only : Bool
  pub from_value : ℤ
  pub to_value : ℤ
  pub step : ℕ

-- What `declare_parameter` does: the value that the parameter has, the exception that says that it is
-- declared already, or another exception.
pub data Declaration (Params : Type 0) : Type 0 where
  declares : ParameterValue → Params → Declaration Params
  already_declared : Exception → Declaration Params
  refused : Exception → Declaration Params

-- `rcl_interfaces::msg::SetParametersResult`
pub record SetParametersResult : Type 0 where
  pub successful : Bool
  pub reason : String

-- A node, whose parameters are a state `Params`. `declare_parameter` takes the descriptor if there is
-- one. `create_publisher` stands for `image_transport::create_publisher`, and `create_info_publisher`
-- for the creation of a publisher of CameraInfo.
pub record NodeInterface : Type 1 where
  pub Params : Type 0
  pub effective_namespace : String
  pub expand_topic_or_service_name : String → Result String
  pub has_parameter : String → Params → Bool
  pub declare_parameter :
      String → ParameterValue → Option ParameterDescriptor → Params → Declaration Params
  pub set_parameter : String → ParameterValue → Params → Result (SetParametersResult × Params)
  pub get_parameter : String → Params → Result ParameterValue
  pub as_int : ParameterValue → Result ℤ
  pub create_publisher : String → Params → Result Params
  pub create_info_publisher : String → Params → Result Params

-- '/' and '.'
abbrev pub is_slash : ℕ → Bool
is_slash c = c == 47

abbrev pub is_dot : ℕ → Bool
is_dot c = c == 46

abbrev pub dot : Char
dot = "."

-- `std::replace` of '/' by '.'
unfoldable pub replace_slashes : String → String
replace_slashes String.[] = ""
replace_slashes (String.◌∷◌ c rest) =
    let replaced = replace_slashes rest in
    if is_slash (code c) then String.◌∷◌ dot replaced else String.◌∷◌ c replaced

-- `if (!name.empty() && name.front() == '.') name.erase(0, 1);`
unfoldable pub erase_front_dot : String → String
erase_front_dot String.[] = ""
erase_front_dot (String.◌∷◌ c rest) = if is_dot (code c) then rest else String.◌∷◌ c rest

-- A topic without as many bytes at its front as the namespace has, if it has as many.
unfoldable pub without_namespace : String → String → String
without_namespace namespace topic =
    if leb (len namespace) (len topic) then slice topic (len namespace) (len topic) else topic

abbrev pub default_jpeg_quality : ℤ
default_jpeg_quality = pos 80

abbrev pub image_topic_suffix : String
image_topic_suffix = "/image_raw"

abbrev pub camera_info_topic_suffix : String
camera_info_topic_suffix = "/camera_info"

unfoldable pub camera_topic : ℕ → String → String
unfolding decimal
camera_topic camera_id suffix = concat (concat "/robobaton/cam" (decimal 10 camera_id)) suffix

abbrev pub enabled_plugins : Bool → List String
enabled_plugins false = "image_transport/raw" ∷ []
enabled_plugins true = "image_transport/raw" ∷ "robobaton_4p_ros2_demo/compressed" ∷ []

-- The descriptor of the quality.
abbrev pub quality_descriptor : ParameterDescriptor
quality_descriptor = record {
  name = "jpeg_quality";
  description = "JPEG quality for X5 hardware NV12 compressed image_transport output";
  read_only = false;
  from_value = pos 1;
  to_value = pos 100;
  step = 1;
}

module _ (n : NodeInterface) where
  open n use {
    Params, effective_namespace, expand_topic_or_service_name, has_parameter, declare_parameter,
    set_parameter, get_parameter, as_int,
  }

  -- The name under which the camera publisher puts the parameters of a topic.
  unfoldable pub image_transport_parameter_base : String → Result String
  unfolding without_namespace replace_slashes erase_front_dot
  image_transport_parameter_base base_topic = do
    expanded_topic ← expand_topic_or_service_name base_topic
    ok (erase_front_dot (replace_slashes (without_namespace effective_namespace expanded_topic)))

  -- What the publisher does with a declaration, whose value it does not use.
  abbrev pub declared : Declaration Params → Result Params
  declared (declares value params) = ok params
  declared (already_declared e) = throw e
  declared (refused e) = throw e

  abbrev pub after_set : String → SetParametersResult × Params → Result Params
  after_set name (result, params) = do
    throw_if (not result.successful) (
        invalid_argument (
          concat (concat (concat "failed to set image_transport parameter " name) ": ")
            result.reason))
    ok params

  unfoldable pub declare_or_set_image_transport_parameter :
      String → ParameterValue → Params → Result Params
  declare_or_set_image_transport_parameter name value params =
      if not (has_parameter name params)
      then declared (declare_parameter name value none params)
      else set_parameter name value params >>= after_set name

  unfoldable pub configure_image_transport_publisher : String → Bool → ℤ → Params → Result Params
  unfolding image_transport_parameter_base declare_or_set_image_transport_parameter
  configure_image_transport_publisher base_topic compressed_enabled jpeg_quality params = do
    parameter_base ← image_transport_parameter_base base_topic
    listed ←
        declare_or_set_image_transport_parameter (concat parameter_base ".enable_pub_plugins")
          (string_array (enabled_plugins compressed_enabled)) params
    if compressed_enabled
        then declare_or_set_image_transport_parameter (concat parameter_base ".jpeg_quality")
            (integer jpeg_quality) listed
        else ok listed

  -- The name under which the plugin looks for the parameters of its topic, which image_transport
  -- has expanded.
  unfoldable pub parameter_base_name : String → String
  unfolding without_namespace replace_slashes erase_front_dot
  parameter_base_name base_topic =
      erase_front_dot (replace_slashes (without_namespace effective_namespace base_topic))

  -- The value of a parameter that was just declared, or was before.
  abbrev pub declared_quality : String → Params → Declaration Params → Result (ℤ × Params)
  declared_quality name params (declares value params') = do
    quality ← as_int value
    ok (quality, params')
  declared_quality name params (already_declared e) = do
    value ← get_parameter name params
    quality ← as_int value
    ok (quality, params)
  declared_quality name params (refused e) = throw e

  -- Within 1 and 100 the cast to int keeps the value.
  abbrev pub checked_quality : ℤ × Params → Result (ℤ × Params)
  checked_quality (value, params) = do
    throw_if (ltb_ℤ value (pos 1) || ltb_ℤ (pos 100) value)
        (invalid_argument "compressed jpeg_quality must be between 1 and 100")
    ok (value, params)

  unfoldable pub declare_jpeg_quality : String → Params → Result (ℤ × Params)
  unfolding parameter_base_name
  declare_jpeg_quality base_topic params =
      let name = concat (parameter_base_name base_topic) ".jpeg_quality" in
      declared_quality name params
        (declare_parameter name (integer default_jpeg_quality) (some quality_descriptor) params)
      >>= checked_quality
