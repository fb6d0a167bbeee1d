-- ===== src/Monitor.antt =====
-- src/imu_rate_monitor.cpp: the node that counts the samples on a topic of the IMU and reports their
-- rate. Its subscription and its timer are served by one thread, one call after the other.
--
-- What `declare_parameter` returns or throws is an argument, and so are the readings of the steady clock,
-- in nanoseconds. The rate is kept as the numbers that it is a quotient of: doubles are not modelled.
pub mod Windows
pub mod Accepted
mod Tests
use Prim.Native.String.{String, ◌++◌ as concat}
use Prim.Native.Char.{code}
use robo_baton_4p_ros2_demo.Prelude.{
  ℕ, ◌+◌, ◌-◌, ◌%◌, ◌^◌, Bool, true, false, ◌&&◌, ◌||◌, not, Option, none, some, List, [], ◌∷◌, leb,
  ltb, ◌==◌, if◌then◌else◌, ℤ, pos, negsuc, ltb_ℤ, leb_ℤ, Exception, Result, ok, throw,
  invalid_argument, throw_if, ◌>>=◌, ◌>>◌,
}
use robo_baton_4p_ros2_demo.Camera.Publish.{to_uint32}
use robo_baton_4p_ros2_demo.Node.{Parameters, to_int64}

abbrev pub default_imu_topic : String
default_imu_topic = "/robobaton/imu/data"

unfoldable pub declare_positive_uint32 : Parameters → String → ℕ → Result ℕ
declare_positive_uint32 p name default_value = do
  value ← p.declare_int64 name (to_int64 default_value)
  throw_if (leb_ℤ value (pos 0) || ltb_ℤ (pos (2 ^ 32 - 1)) value)
      (invalid_argument (concat name " must be a positive uint32"))
  ok (to_uint32 value)

-- `topic.empty() || topic.front() != '/'`
unfoldable pub is_relative : String → Bool
is_relative String.[] = true
is_relative (String.◌∷◌ c rest) = not (code c == 47)

-- `topic.find_first_of(" \t\r\n") != std::string::npos`
abbrev pub is_space : ℕ → Bool
is_space c = c == 32 || c == 9 || c == 13 || c == 10

unfoldable pub has_space : String → Bool
has_space String.[] = false
has_space (String.◌∷◌ c rest) = is_space (code c) || has_space rest

unfoldable pub declare_topic : Parameters → Result String
unfolding is_relative has_space
declare_topic p = do
  topic ← p.declare_string "topic" default_imu_topic
  throw_if (is_relative topic || has_space topic)
      (invalid_argument "topic must be an absolute ROS topic name without whitespace")
  ok topic

-- `ImuRateMonitor`
pub record Monitor : Type 0 where
  pub topic : String
  pub report_period_ms : ℕ
  pub qos_depth : ℕ
  pub total_count : ℕ
  pub last_total : ℕ
  pub last_report_time : ℕ

-- The members before the first message.
abbrev pub new_monitor : ℕ → String → ℕ → ℕ → Monitor
new_monitor now topic report_period_ms qos_depth = record {
  topic = topic;
  report_period_ms = report_period_ms;
  qos_depth = qos_depth;
  total_count = 0;
  last_total = 0;
  last_report_time = now;
}

-- The constructor, with the reading of the clock.
unfoldable pub construct : Parameters → ℕ → Result Monitor
unfolding declare_topic declare_positive_uint32
construct p now = do
  topic ← declare_topic p
  report_period_ms ← declare_positive_uint32 p "report_period_ms" 1000
  qos_depth ← declare_positive_uint32 p "qos_depth" 100
  ok (new_monitor now topic report_period_ms qos_depth)

-- The callback of the subscription.
unfoldable pub count_sample : Monitor → Monitor
count_sample m = record m { total_count = (m.total_count + 1) % 2 ^ 64 }

-- The difference of two readings.
abbrev pub elapsed : ℕ → ℕ → ℤ
elapsed now before = if leb before now then pos (now - before) else negsuc (before - now - 1)

-- A rate is 0, or so many samples in so many nanoseconds.
pub data Rate : Type 0 where
  zero_hz : Rate
  per : ℕ → ℤ → Rate

-- The line that Report writes.
pub record Report : Type 0 where
  pub topic : String
  pub hz : Rate
  pub samples : ℕ
  pub window_ns : ℤ
  pub total : ℕ

unfoldable pub report : ℕ → Monitor → Monitor × Report
report now m =
    let window = elapsed now m.last_report_time in
    let samples = (m.total_count + 2 ^ 64 - m.last_total) % 2 ^ 64 in
    (
      record m { last_report_time = now; last_total = m.total_count },
      record {
        topic = m.topic;
        hz = if ltb_ℤ (pos 0) window then per samples window else zero_hz;
        samples = samples;
        window_ns = window;
        total = m.total_count;
      },
    )

-- What the executor serves: a message, or the timer with the reading of the clock.
pub data Event : Type 0 where
  message : Event
  timer : ℕ → Event

unfoldable pub spin : List Event → Monitor → Monitor × List Report
unfolding count_sample report
spin [] m = (m, [])
spin (message ∷ rest) m = spin rest (count_sample m)
spin (timer now ∷ rest) m =
    let (m', line) = report now m in let (last, lines) = spin rest m' in (last, line ∷ lines)

-- `main`: the exit code, by whether the version is asked for, what the constructor does, and what
-- `spin` throws.
unfoldable pub main : Bool → Result Monitor → Option Exception → ℕ
main true made spin_error = 0
main false (throw e) spin_error = 1
main false (ok m) (some e) = 1
main false (ok m) none = 0
