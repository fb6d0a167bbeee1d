-- ===== src/Transport/Store.antt =====
-- A node of the model of rclcpp that keeps its parameters in a list, and that it behaves as documented.
use Prim.Native.String.{String}
use text.Mathlib.Text.{◌==◌ as str_eq}
use text.Mathlib.TextEquality.{eq_iff}
use text.Mathlib.TextPositions.{eq_refl}
use robo_baton_4p_ros2_demo.Prelude.{
  ◌≡◌, ◌≢◌, refl, sym, ap, ◌∙◌, Bool, true, false, Option, none, some, List, [], ◌∷◌, if◌then◌else◌,
  ℤ, Result, ok, throw, runtime_error, arith,
}
use robo_baton_4p_ros2_demo.Transport.{
  ParameterValue, integer, string_array, ParameterDescriptor, declares, already_declared,
  SetParametersResult, NodeInterface,
}
use robo_baton_4p_ros2_demo.Transport.Laws.{ParameterLaws}

abbrev pub Table : Type 0
Table = List (String × ParameterValue)

abbrev pub find : String → Table → Option ParameterValue
find name [] = none
find name ((other, value) ∷ rest) =
    let found = find name rest in if str_eq other name then some value else found

abbrev pub is_there : Option ParameterValue → Bool
is_there none = false
is_there (some value) = true

abbrev pub got : Option ParameterValue → Result ParameterValue
got none = throw (runtime_error "parameter not declared")
got (some value) = ok value

abbrev pub number : ParameterValue → Result ℤ
number (integer value) = ok value
number (string_array values) = throw (runtime_error "parameter type")

-- A node in the root namespace that was started without values for its parameters.
abbrev pub node : NodeInterface
node = record {
  Params = Table;
  effective_namespace = "/";
  expand_topic_or_service_name = λ topic. ok topic;
  has_parameter = λ name params. is_there (find name params);
  declare_parameter = λ name value descriptor params.
      if is_there (find name params)
      then already_declared (runtime_error "already declared")
      else declares value ((name, value) ∷ params);
  set_parameter =
      λ name value params. ok (record { successful = true; reason = "" }, (name, value) ∷ params);
  get_parameter = λ name params. got (find name params);
  as_int = number;
  create_publisher = λ topic params. ok params;
  create_info_publisher = λ topic params. ok params;
}

find_first :
    (name : String) (value : ParameterValue) (rest : Table)
    → find name ((name, value) ∷ rest) ≡ some value
find_first name value rest = rw (eq_refl name) refl

find_other :
    (name other : String) (value : ParameterValue) (rest : Table)
    → other ≢ name
    → find other ((name, value) ∷ rest) ≡ find other rest
find_other name other value rest ne = ground (arith, ne, eq_iff name other)

pub declared_ok :
    (name : String) (value : ParameterValue) (descriptor : Option ParameterDescriptor)
    (params : Table) (actual : ParameterValue) (params' : Table)
    → node.declare_parameter name value descriptor params ≡ declares actual params'
    → (actual ≡ value) × (params' ≡ (name, value) ∷ params)
declared_ok name value descriptor params actual params' h = ground (arith, h)

pub set_is :
    (name : String) (value : ParameterValue) (params : Table) (result : SetParametersResult)
    (params' : Table)
    → node.set_parameter name value params ≡ ok (result, params')
    → params' ≡ (name, value) ∷ params
set_is name value params result params' h = cc h

pub first_is_there :
    (name : String) (value : ParameterValue) (rest : Table)
    → (is_there (find name ((name, value) ∷ rest)) ≡ true)
      × (got (find name ((name, value) ∷ rest)) ≡ ok value)
first_is_there name value rest = rw (find_first name value rest) (refl, refl)

pub other_is_kept :
    (name other : String) (value : ParameterValue) (rest : Table)
    → other ≢ name
    → (is_there (find other ((name, value) ∷ rest)) ≡ is_there (find other rest))
      × (got (find other ((name, value) ∷ rest)) ≡ got (find other rest))
other_is_kept name other value rest ne = rw (find_other name other value rest ne) (refl, refl)

abbrev pub laws : ParameterLaws node
laws = record {
  overrides = λ name. none;
  declares_new = λ name value descriptor params actual params' h.
      let (same, after) = declared_ok name value descriptor params actual params' h in
      (
        same,
        ap (λ t. is_there (find name t)) after ∙ (first_is_there name value params).0,
        ap (λ t. got (find name t)) after ∙ (first_is_there name value params).1 ∙ ap ok (sym same),
      );
  declares_other = λ name value descriptor params actual params' other h ne.
      let (same, after) = declared_ok name value descriptor params actual params' h in
      rw after (other_is_kept name other value params ne);
  declares_again =
      λ name value descriptor params there. (runtime_error "already declared", rw there refl);
  sets = λ name value params result params' h good.
      rw (set_is name value params result params' h) (first_is_there name value params);
  sets_other = λ name value params result params' other h ne.
      rw (set_is name value params result params' h) (other_is_kept name other value params ne);
  integers = λ value. refl;
}
