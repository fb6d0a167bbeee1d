-- ===== src/Monitor/Accepted.antt =====
-- What the parameters that the monitor accepts are.
use Prim.Native.Char.{code}
use robo_baton_4p_ros2_demo.Prelude.{
  ℕ, ◌-◌, ◌^◌, ◌<◌, ◌≡◌, ◌≢◌, ◌↔◌, refl, sym, ap, ◌∙◌, false, ◌||◌, ltb_ℤ, leb_ℤ, ℤ, pos, negsuc,
  ok, ◌>>=◌, >>=-eq-ok, throw_if-eq-ok, String, arith,
}
use robo_baton_4p_ros2_demo.Camera.Publish.{to_uint32}
use robo_baton_4p_ros2_demo.Node.{Parameters, to_int64}
use robo_baton_4p_ros2_demo.Monitor.{
  default_imu_topic, declare_positive_uint32, is_relative, has_space, declare_topic, Monitor,
  new_monitor, construct,
}

-- The parts of a monitor that was constructed.
pub record MadeOf (p : Parameters) (now : ℕ) (m : Monitor) : Type 0 where
  pub topic : declare_topic p ≡ ok m.topic
  pub period : declare_positive_uint32 p "report_period_ms" 1000 ≡ ok m.report_period_ms
  pub depth : declare_positive_uint32 p "qos_depth" 100 ≡ ok m.qos_depth
  pub counts : (m.total_count ≡ 0) × (m.last_total ≡ 0)
  pub time : m.last_report_time ≡ now

pub construct-MadeOf :
    (p : Parameters) (now : ℕ) (m : Monitor) → construct p now ≡ ok m → MadeOf p now m
unfolding construct
construct-MadeOf p now m h =
    let monitor = new_monitor now in
    let with_depth = λ (topic : String) (period : ℕ) (depth : ℕ). ok (monitor topic period depth) in
    let period_of = declare_positive_uint32 p "report_period_ms" 1000 in
    let depth_of = declare_positive_uint32 p "qos_depth" 100 in
    let with_period = λ (topic : String) (period : ℕ). depth_of >>= with_depth topic period in
    let (topic, topic_is, rest) =
      >>=-eq-ok (declare_topic p) (λ topic. period_of >>= with_period topic) h in
    let (period, period_is, rest') = >>=-eq-ok period_of (with_period topic) rest in
    let (depth, depth_is, last) = >>=-eq-ok depth_of (with_depth topic period) rest' in
    let same : monitor topic period depth ≡ m = cc last in
    record {
      topic = topic_is ∙ ap (λ k. ok k.topic) same;
      period = period_is ∙ ap (λ k. ok k.report_period_ms) same;
      depth = depth_is ∙ ap (λ k. ok k.qos_depth) same;
      counts = (ap (λ k. k.total_count) (sym same), ap (λ k. k.last_total) (sym same));
      time = ap (λ k. k.last_report_time) (sym same);
    }

positive_value :
    (value : ℤ)
    → (leb_ℤ value (pos 0) || ltb_ℤ (pos (2 ^ 32 - 1)) value) ≡ false
    → (value ≡ pos (to_uint32 value)) × (0 < to_uint32 value) × (to_uint32 value < 2 ^ 32)
positive_value (pos n) h = ground (arith, h)
positive_value (negsuc n) h = absurd (ground (arith, h))

-- A number that is accepted is the value of the parameter, and a positive uint32_t.
declared_number :
    (p : Parameters) (name : String) (d n : ℕ)
    → declare_positive_uint32 p name d ≡ ok n
    → (p.declare_int64 name (to_int64 d) ≡ ok (pos n)) × (0 < n) × (n < 2 ^ 32)
unfolding declare_positive_uint32
declared_number p name d n h =
    let (value, read, rest) = >>=-eq-ok (p.declare_int64 name (to_int64 d)) _ h in
    let (good, last) =
      throw_if-eq-ok (leb_ℤ value (pos 0) || ltb_ℤ (pos (2 ^ 32 - 1)) value) _
        (ok (to_uint32 value)) rest in
    let (same, low, high) = positive_value value good in
    let is : to_uint32 value ≡ n = cc last in
    (read ∙ ap ok (same ∙ ap pos is), rw (sym is) low, rw (sym is) high)

declared_number_of :
    (p : Parameters) (name : String) (d n : ℕ)
    → p.declare_int64 name (to_int64 d) ≡ ok (pos n)
    → 0 < n
    → n < 2 ^ 32
    → declare_positive_uint32 p name d ≡ ok n
unfolding declare_positive_uint32
declared_number_of p name d n read low high = rw read (ground (arith, low, high))

-- A text that begins with a slash.
abbrev pub IsAbsolute : String → Type 0
IsAbsolute String.[] = ⊥
IsAbsolute (String.◌∷◌ c rest) = code c ≡ b'/'

-- A text with no space, tab, line feed or carriage return.
abbrev pub IsUnspaced : String → Type 0
IsUnspaced String.[] = Unit {0}
IsUnspaced (String.◌∷◌ c rest) =
    (code c ≢ 32) × (code c ≢ 9) × (code c ≢ 10) × (code c ≢ 13) × IsUnspaced rest

is_relative-IsAbsolute : (s : String) → (is_relative s ≡ false) ↔ IsAbsolute s
unfolding is_relative
is_relative-IsAbsolute String.[] = (λ h. cc, λ h. absurd h)
is_relative-IsAbsolute (String.◌∷◌ c rest) = (λ h. ground (arith, h), λ h. ground (arith, h))

has_space-IsUnspaced : (s : String) → (has_space s ≡ false) ↔ IsUnspaced s
unfolding has_space
has_space-IsUnspaced String.[] = (λ h. tt, λ h. refl)
has_space-IsUnspaced (String.◌∷◌ c rest) =
    let (there, back) = has_space-IsUnspaced rest in
    (λ h. ground (arith, h, there), λ h. ground (arith, h, back))

-- What the parameters and the new monitor are where the constructor returns.
pub record IsAccepted (p : Parameters) (now : ℕ) (m : Monitor) : Type 0 where
  pub topic : p.declare_string "topic" "/robobaton/imu/data" ≡ ok m.topic
  pub absolute : IsAbsolute m.topic
  pub unspaced : IsUnspaced m.topic
  pub period : p.declare_int64 "report_period_ms" (pos 1000) ≡ ok (pos m.report_period_ms)
  pub period_fits : (0 < m.report_period_ms) × (m.report_period_ms < 2 ^ 32)
  pub depth : p.declare_int64 "qos_depth" (pos 100) ≡ ok (pos m.qos_depth)
  pub depth_fits : (0 < m.qos_depth) × (m.qos_depth < 2 ^ 32)
  pub counts : (m.total_count ≡ 0) × (m.last_total ≡ 0)
  pub time : m.last_report_time ≡ now

topic_read :
    (p : Parameters) (topic : String)
    → declare_topic p ≡ ok topic
    → (p.declare_string "topic" "/robobaton/imu/data" ≡ ok topic)
      × IsAbsolute topic
      × IsUnspaced topic
unfolding declare_topic
topic_read p topic h =
    let (value, read, rest) = >>=-eq-ok (p.declare_string "topic" default_imu_topic) _ h in
    let (good, last) = throw_if-eq-ok (is_relative value || has_space value) _ (ok value) rest in
    let is : value ≡ topic = cc last in
    (
      read ∙ ap ok is,
      (is_relative-IsAbsolute topic).0 (ap is_relative (sym is) ∙ ground (arith, good)),
      (has_space-IsUnspaced topic).0 (ap has_space (sym is) ∙ ground (arith, good)),
    )

topic_of :
    (p : Parameters) (topic : String)
    → p.declare_string "topic" "/robobaton/imu/data" ≡ ok topic
    → IsAbsolute topic
    → IsUnspaced topic
    → declare_topic p ≡ ok topic
unfolding declare_topic
topic_of p topic read absolute unspaced =
    rw (read, (is_relative-IsAbsolute topic).1 absolute, (has_space-IsUnspaced topic).1 unspaced)

accepted : (p : Parameters) (now : ℕ) (m : Monitor) → construct p now ≡ ok m → IsAccepted p now m
accepted p now m h =
    let parts = construct-MadeOf p now m h in
    let (topic, absolute, unspaced) = topic_read p m.topic parts.topic in
    let (period, period_low, period_high) =
      declared_number p "report_period_ms" 1000 m.report_period_ms parts.period in
    let (depth, depth_low, depth_high) =
      declared_number p "qos_depth" 100 m.qos_depth parts.depth in
    record {
      topic = topic;
      absolute = absolute;
      unspaced = unspaced;
      period = period;
      period_fits = (period_low, period_high);
      depth = depth;
      depth_fits = (depth_low, depth_high);
      counts = parts.counts;
      time = parts.time;
    }

accepted_of : (p : Parameters) (now : ℕ) (m : Monitor) → IsAccepted p now m → construct p now ≡ ok m
unfolding construct
accepted_of p now m h =
    let topic = topic_of p m.topic h.topic h.absolute h.unspaced in
    let period =
      declared_number_of p "report_period_ms" 1000 m.report_period_ms h.period h.period_fits.0
        h.period_fits.1 in
    let depth =
      declared_number_of p "qos_depth" 100 m.qos_depth h.depth h.depth_fits.0 h.depth_fits.1 in
    rw (topic, period, depth) (ground (arith, h.counts, h.time))

-- The constructor of the monitor returns exactly when the parameter `topic` is a text that begins with
-- a slash and has no space, tab, line feed or carriage return, and `report_period_ms` and `qos_depth`
-- are positive and fit uint32_t; the monitor then has these values, counts of 0, and the time of its
-- construction. The defaults of the three are /robobaton/imu/data, 1000 and 100.
pub construct_iff :
    (p : Parameters) (now : ℕ) (m : Monitor) → (construct p now ≡ ok m) ↔ IsAccepted p now m
construct_iff p now m = (accepted p now m, accepted_of p now m)
