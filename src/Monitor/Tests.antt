-- ===== src/Monitor/Tests.antt =====
-- The monitor with its default parameters, and a run of three messages and two reports.
use robo_baton_4p_ros2_demo.Prelude.{
  ◌≡◌, refl, true, false, List, [], ◌∷◌, pos, ok, none, some, throw, runtime_error,
}
use robo_baton_4p_ros2_demo.Node.{Parameters}
use robo_baton_4p_ros2_demo.Monitor.{
  default_imu_topic, declare_positive_uint32, declare_topic, is_relative, has_space, Monitor,
  new_monitor, construct, count_sample, report, message, timer, Event, spin, main,
}
use robo_baton_4p_ros2_demo.Monitor.Accepted.{IsAccepted, construct_iff}
use robo_baton_4p_ros2_demo.Monitor.Windows.{lines, line_of, reports_count}

-- Parameters that have their defaults.
abbrev defaults : Parameters
defaults = record {
  declare_int = λ name value. ok value;
  declare_int64 = λ name value. ok value;
  declare_bool = λ name value. ok value;
  declare_string = λ name value. ok value;
}

abbrev monitor : Monitor
monitor = new_monitor 5000 default_imu_topic 1000 100

constructed : construct defaults 5000 ≡ ok monitor
unfolding construct declare_topic declare_positive_uint32 is_relative has_space
constructed = refl

abbrev events : List Event
events = message ∷ message ∷ timer 8000 ∷ message ∷ timer 8000 ∷ message ∷ []

construct_iff_example : IsAccepted defaults 5000 monitor
construct_iff_example = (construct_iff defaults 5000 monitor).0 constructed

reports_count_example : (spin events monitor).1 ≡ lines default_imu_topic 0 0 5000 events
reports_count_example = reports_count defaults 5000 monitor events constructed

-- Two messages in the first window, and none in the time of the second.
reported :
    (spin events monitor).1
    ≡ line_of default_imu_topic 2 2 (pos 3000) ∷ line_of default_imu_topic 1 3 (pos 0) ∷ []
unfolding spin report count_sample
reported = refl

refused_topic : is_relative "robobaton/imu" ≡ true
unfolding is_relative
refused_topic = refl

exit_codes :
    (main true (throw (runtime_error "")) none ≡ 0)
    × (main false (ok monitor) (some (runtime_error "")) ≡ 1)
unfolding main
exit_codes = (refl, refl)
