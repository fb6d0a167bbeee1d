-- ===== src/Transport/Names.antt =====
-- The names under which the camera publisher and the plugin put the parameters of one topic.
use Prim.Native.String.{String, ◌++◌ as concat, len}
use Prim.Native.Char.{code}
use text.Mathlib.TextLemmas.{cons-append, nil-append}
use text.Mathlib.TextPositions.{slice-append_right, len-append}
use robo_baton_4p_ros2_demo.Prelude.{◌+◌, ◌≡◌, refl, true, ok, arith, Bool, le→leb, not, ◌&&◌}
use robo_baton_4p_ros2_demo.Transport.{
  NodeInterface, is_slash, dot, replace_slashes, erase_front_dot, without_namespace,
  image_transport_parameter_base, parameter_base_name,
}

-- No character is a slash.
unfoldable pub has_no_slash : String → Bool
has_no_slash String.[] = true
has_no_slash (String.◌∷◌ c rest) = not (is_slash (code c)) && has_no_slash rest

dot-code : code dot ≡ 46
dot-code = refl

replace_slashes-has_no_slash : (s : String) → has_no_slash (replace_slashes s) ≡ true
unfolding has_no_slash replace_slashes
replace_slashes-has_no_slash String.[] = refl
replace_slashes-has_no_slash (String.◌∷◌ c rest) =
    ground (arith, replace_slashes-has_no_slash rest, dot-code)

erase_front_dot-has_no_slash :
    (s : String) → has_no_slash s ≡ true → has_no_slash (erase_front_dot s) ≡ true
unfolding has_no_slash erase_front_dot
erase_front_dot-has_no_slash String.[] h = refl
erase_front_dot-has_no_slash (String.◌∷◌ c rest) h = ground (arith, h)

without_namespace-concat :
    (namespace rest : String) → without_namespace namespace (concat namespace rest) ≡ rest
unfolding without_namespace
without_namespace-concat namespace rest =
    rw (len-append namespace rest, le→leb (len namespace) (len namespace + len rest) (omega arith))
      (slice-append_right namespace rest)

slash_first :
    (rest : String) → erase_front_dot (replace_slashes (concat "/" rest)) ≡ replace_slashes rest
unfolding erase_front_dot replace_slashes
slash_first rest = rw (cons-append "/" "" rest, nil-append rest) refl

-- For whatever topic rclcpp expands to one, the camera publisher and the plugin use the same base for
-- the names of its parameters; the base has no slash; and if the topic lies beneath the namespace of the
-- node, it is what follows the namespace and a slash, with a dot for each further slash.
pub parameter_names :
    (n : NodeInterface) (topic expanded : String)
    → n.expand_topic_or_service_name topic ≡ ok expanded
    → (image_transport_parameter_base n topic ≡ ok (parameter_base_name n expanded))
      × (has_no_slash (parameter_base_name n expanded) ≡ true)
      × ((rest : String)
          → expanded ≡ concat n.effective_namespace (concat "/" rest)
          → parameter_base_name n expanded ≡ replace_slashes rest)
unfolding image_transport_parameter_base parameter_base_name
parameter_names n topic expanded h =
    let short = without_namespace n.effective_namespace expanded in
    (
      rw h refl,
      erase_front_dot-has_no_slash (replace_slashes short) (replace_slashes-has_no_slash short),
      λ rest e.
          rw (e, without_namespace-concat n.effective_namespace (concat "/" rest))
            (slash_first rest),
    )
