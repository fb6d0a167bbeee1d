-- ===== src/Transport/Laws.antt =====
-- What rclcpp documents of parameters, and what DeclareOrSetImageTransportParameter makes of it.
use Prim.Native.String.{String}
use robo_baton_4p_ros2_demo.Prelude.{
  ◌≡◌, ◌≢◌, ◌⊎◌, inl, inr, refl, ap, ◌∙◌, true, not, Option, none, get_or, ℤ, Exception, ok, ◌>>=◌,
  >>=-eq-ok, throw_if-eq-ok, Bool-cases, arith,
}
use robo_baton_4p_ros2_demo.Transport.{
  ParameterValue, integer, ParameterDescriptor, Declaration, declares, already_declared,
  SetParametersResult, NodeInterface, declared, after_set, declare_or_set_image_transport_parameter,
}

-- What rclcpp documents of the parameters of a node. A parameter that is declared gets the value that
-- the node was started with for it (`overrides`), if there is one, and its default otherwise; one that
-- was declared before is not declared again; one that is set has the value; and neither changes another
-- parameter.
pub record ParameterLaws (n : NodeInterface) : Type 0 where
  pub overrides : String → Option ParameterValue
  pub declares_new :
      (name : String) (value : ParameterValue) (descriptor : Option ParameterDescriptor)
      (params : n.Params) (actual : ParameterValue) (params' : n.Params)
      → n.declare_parameter name value descriptor params ≡ declares actual params'
      → (actual ≡ get_or (overrides name) value)
        × (n.has_parameter name params' ≡ true)
        × (n.get_parameter name params' ≡ ok actual)
  pub declares_other :
      (name : String) (value : ParameterValue) (descriptor : Option ParameterDescriptor)
      (params : n.Params) (actual : ParameterValue) (params' : n.Params) (other : String)
      → n.declare_parameter name value descriptor params ≡ declares actual params'
      → other ≢ name
      → (n.has_parameter other params' ≡ n.has_parameter other params)
        × (n.get_parameter other params' ≡ n.get_parameter other params)
  pub declares_again :
      (name : String) (value : ParameterValue) (descriptor : Option ParameterDescriptor)
      (params : n.Params)
      → n.has_parameter name params ≡ true
      → (e : Exception) × (n.declare_parameter name value descriptor params ≡ already_declared e)
  pub sets :
      (name : String) (value : ParameterValue) (params : n.Params) (result : SetParametersResult)
      (params' : n.Params)
      → n.set_parameter name value params ≡ ok (result, params')
      → result.successful ≡ true
      → (n.has_parameter name params' ≡ true) × (n.get_parameter name params' ≡ ok value)
  pub sets_other :
      (name : String) (value : ParameterValue) (params : n.Params) (result : SetParametersResult)
      (params' : n.Params) (other : String)
      → n.set_parameter name value params ≡ ok (result, params')
      → other ≢ name
      → (n.has_parameter other params' ≡ n.has_parameter other params)
        × (n.get_parameter other params' ≡ n.get_parameter other params)
  pub integers : (value : ℤ) → n.as_int (integer value) ≡ ok value

module _ (n : NodeInterface) (laws : ParameterLaws n) where
  open n use {Params, has_parameter, get_parameter, declare_parameter, set_parameter}

  -- A parameter that is there with a value.
  abbrev pub Holds : String → ParameterValue → Params → Type 0
  Holds name value params =
      (has_parameter name params ≡ true) × (get_parameter name params ≡ ok value)

  -- The node was started without a value for the parameter, or it has the parameter already.
  abbrev pub IsFree : String → Params → Type 0
  IsFree name params = (laws.overrides name ≡ none) ⊎ (has_parameter name params ≡ true)

  -- A declaration that returns was one of a parameter that was not there.
  declared-ok :
      (d : Declaration Params) (params' : Params)
      → declared n d ≡ ok params'
      → (actual : ParameterValue) × (d ≡ declares actual params')
  declared-ok (declares actual after) params' h =
      let same : after ≡ params' = cc h in (actual, rw same refl)
  declared-ok (already_declared e) params' h = absurd (ground (arith, h))
  declared-ok (Declaration.refused e) params' h = absurd (ground (arith, h))

  set_ok :
      (name : String) (value : ParameterValue) (params params' : Params)
      → (set_parameter name value params >>= after_set n name) ≡ ok params'
      → (result : SetParametersResult) × (set_parameter name value params ≡ ok (result, params'))
        × (result.successful ≡ true)
  set_ok name value params params' h =
      let ((result, after), set, rest) =
        >>=-eq-ok (set_parameter name value params) (after_set n name) h in
      let (good, last) = throw_if-eq-ok (not result.successful) _ (ok after) rest in
      let same : after ≡ params' = cc last in
      (result, set ∙ ap (λ last. ok (result, last)) same, ground (arith, good))

  -- A call that returns put the value there.
  pub declare_or_set-Holds :
      (name : String) (value : ParameterValue) (params params' : Params)
      → IsFree name params
      → declare_or_set_image_transport_parameter n name value params ≡ ok params'
      → Holds name value params'
  unfolding declare_or_set_image_transport_parameter
  declare_or_set-Holds name value params params' free h =
      elim (Bool-cases (has_parameter name params)) [
        | inl there ↦
            let set : (set_parameter name value params >>= after_set n name) ≡ ok params' =
              ground (arith, h, there) in
            let (result, call, good) = set_ok name value params params' set in
            laws.sets name value params result params' call good
        | inr absent ↦
            let new : declared n (declare_parameter name value none params) ≡ ok params' =
              ground (arith, h, absent) in
            let (actual, call) =
              declared-ok (declare_parameter name value none params) params' new in
            let (actual_is, has, held) =
              laws.declares_new name value none params actual params' call in
            let no_override : laws.overrides name ≡ none = ground (arith, free, absent) in
            let as_asked : actual ≡ value = actual_is ∙ rw no_override refl in
            (has, held ∙ ap ok as_asked)
      ]

  -- It changed no other parameter.
  pub declare_or_set-other :
      (name : String) (value : ParameterValue) (params params' : Params) (other : String)
      → declare_or_set_image_transport_parameter n name value params ≡ ok params'
      → other ≢ name
      → (has_parameter other params' ≡ has_parameter other params)
        × (get_parameter other params' ≡ get_parameter other params)
  unfolding declare_or_set_image_transport_parameter
  declare_or_set-other name value params params' other h ne =
      elim (Bool-cases (has_parameter name params)) [
        | inl there ↦
            let set : (set_parameter name value params >>= after_set n name) ≡ ok params' =
              ground (arith, h, there) in
            let (result, call, good) = set_ok name value params params' set in
            laws.sets_other name value params result params' other call ne
        | inr absent ↦
            let new : declared n (declare_parameter name value none params) ≡ ok params' =
              ground (arith, h, absent) in
            let (actual, call) =
              declared-ok (declare_parameter name value none params) params' new in
            laws.declares_other name value none params actual params' other call ne
      ]
