-- ===== src/Transport/Quality.antt =====
-- What the plugin finds of the quality that the camera publisher sets.
use Prim.Native.String.{String, ◌++◌ as concat}
use text.Mathlib.TextEquality.{eq_iff}
use text.Mathlib.TextLemmas.{append_cancel_left}
use robo_baton_4p_ros2_demo.Prelude.{
  ◌≡◌, ◌≢◌, inl, inr, refl, sym, ap, ◌∙◌, true, false, some, ltb_ℤ, leb_ℤ, ℤ, pos, ok, ◌>>=◌,
  >>=-eq-ok, arith,
}
use robo_baton_4p_ros2_demo.Transport.{
  ParameterValue, integer, string_array, NodeInterface, enabled_plugins, default_jpeg_quality,
  quality_descriptor, declare_or_set_image_transport_parameter, configure_image_transport_publisher,
  parameter_base_name, declare_jpeg_quality,
}
use robo_baton_4p_ros2_demo.Transport.Names.{parameter_names}
use robo_baton_4p_ros2_demo.Transport.Laws.{
  ParameterLaws, Holds, IsFree, declare_or_set-Holds, declare_or_set-other,
}

module _ (n : NodeInterface) (laws : ParameterLaws n) where
  open n use {Params, has_parameter, get_parameter, declare_parameter, set_parameter}

  names_differ : (base : String) → concat base ".enable_pub_plugins" ≢ concat base ".jpeg_quality"
  names_differ base e =
      let same = append_cancel_left base ".enable_pub_plugins" ".jpeg_quality" e in
      absurd (ground (arith, same, eq_iff ".enable_pub_plugins" ".jpeg_quality"))

  -- What a plugin with the given name finds of a quality that is there.
  found :
      (topic : String) (quality : ℤ) (params : Params)
      → Holds n laws (concat (parameter_base_name n topic) ".jpeg_quality") (integer quality) params
      → leb_ℤ (pos 1) quality ≡ true
      → leb_ℤ quality (pos 100) ≡ true
      → declare_jpeg_quality n topic params ≡ ok (quality, params)
  unfolding declare_jpeg_quality
  found topic quality params (there, held) low high =
      let name = concat (parameter_base_name n topic) ".jpeg_quality" in
      let (e, again) =
        laws.declares_again name (integer default_jpeg_quality) (some quality_descriptor) params
          there in
      let at_least : ltb_ℤ quality (pos 1) ≡ false = ground (arith, low) in
      let at_most : ltb_ℤ (pos 100) quality ≡ false = ground (arith, high) in
      rw (again, held, laws.integers quality, at_least, at_most) refl

  abbrev pub plugins_name : String → String
  plugins_name topic = concat (parameter_base_name n topic) ".enable_pub_plugins"

  abbrev pub quality_name : String → String
  quality_name topic = concat (parameter_base_name n topic) ".jpeg_quality"

  IsFree-after :
      (name other : String) (value : ParameterValue) (params params' : Params)
      → declare_or_set_image_transport_parameter n name value params ≡ ok params'
      → other ≢ name
      → IsFree n laws other params
      → IsFree n laws other params'
  IsFree-after name other value params params' h ne (inl none_given) = inl none_given
  IsFree-after name other value params params' h ne (inr there) =
      inr ((declare_or_set-other n laws name value params params' other h ne).0 ∙ there)

  -- The two calls of a configuration with the quality, under the names of the plugin.
  both_calls :
      (topic expanded : String) (quality : ℤ) (params params' : Params)
      → n.expand_topic_or_service_name topic ≡ ok expanded
      → configure_image_transport_publisher n topic true quality params ≡ ok params'
      → (listed : Params) × (declare_or_set_image_transport_parameter n
            (plugins_name expanded)
            (string_array (enabled_plugins true))
            params
          ≡ ok listed)
        × (declare_or_set_image_transport_parameter n
              (quality_name expanded)
              (integer quality)
              listed
            ≡ ok params')
  unfolding configure_image_transport_publisher
  both_calls topic expanded quality params params' names h =
      let base = (parameter_names n topic expanded names).0 in
      let calls = λ (name : String).
        declare_or_set_image_transport_parameter n (concat name ".enable_pub_plugins")
          (string_array (enabled_plugins true)) params
        >>= λ listed.
            declare_or_set_image_transport_parameter n (concat name ".jpeg_quality")
              (integer quality) listed in
      >>=-eq-ok
        (declare_or_set_image_transport_parameter n (plugins_name expanded)
          (string_array (enabled_plugins true)) params)
        (λ listed.
          declare_or_set_image_transport_parameter n (quality_name expanded) (integer quality)
            listed)
        (sym (ap (λ found_base. found_base >>= calls) base) ∙ h)

  -- Let rclcpp keep its parameters as documented. If the node was started without a value for the quality
  -- of the topic, or has that parameter already, then after a configuration that returns the plugin finds
  -- the configured quality, which is within 1 and 100, and image_transport the two plugins, if that
  -- parameter is free as well.
  pub configured_quality :
      (topic expanded : String) (quality : ℤ) (params params' : Params)
      → n.expand_topic_or_service_name topic ≡ ok expanded
      → leb_ℤ (pos 1) quality ≡ true
      → leb_ℤ quality (pos 100) ≡ true
      → IsFree n laws (quality_name expanded) params
      → configure_image_transport_publisher n topic true quality params ≡ ok params'
      → (declare_jpeg_quality n expanded params' ≡ ok (quality, params'))
        × (IsFree n laws (plugins_name expanded) params
            → get_parameter (plugins_name expanded) params'
              ≡ ok (string_array (enabled_plugins true)))
  configured_quality topic expanded quality params params' names low high free h =
      let (listed, first, second) = both_calls topic expanded quality params params' names h in
      let ne = names_differ (parameter_base_name n expanded) in
      let set =
        declare_or_set-Holds n laws (quality_name expanded) (integer quality) listed params'
          (IsFree-after (plugins_name expanded) (quality_name expanded)
            (string_array (enabled_plugins true)) params listed first (λ e. ne (sym e)) free)
          second in
      (
        found expanded quality params' set low high,
        λ free'.
            (declare_or_set-other n laws (quality_name expanded) (integer quality) listed params'
              (plugins_name expanded) second ne).1
            ∙ (declare_or_set-Holds n laws (plugins_name expanded)
                (string_array (enabled_plugins true)) params listed free' first).1,
      )
