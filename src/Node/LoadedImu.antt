-- ===== src/Node/LoadedImu.antt =====
-- LoadImuConfig of src/robobaton_sensors_node.cpp, with the settings of the node and the constructor of
-- the publisher of the IMU.
use Prim.Native.String.{String, [], ◌∷◌}
use Prim.Native.Char.{code}
use text.Mathlib.TextEquality.{eq_iff}
use robo_baton_4p_ros2_demo.Prelude.{
  ℕ, ◌^◌, ◌<◌, ◌≤◌, ◌≡◌, ◌⊎◌, ◌↔◌, ◌||◌, ltb_ℤ, ℤ, pos, negsuc, sym, ap, ◌∙◌, subst, true, false,
  not, some, ◌==◌, ok, arith, >>=-eq-ok, throw_if-eq-ok,
}
use robo_baton_4p_ros2_demo.Timestamp.{SensorTimestampMapperSnapshot}
use robo_baton_4p_ros2_demo.Camera.Publish.{to_uint32}
use robo_baton_4p_ros2_demo.Imu.Publish.{Config as ImuConfig, construct as construct_imu}
use robo_baton_4p_ros2_demo.Node.{
  Parameters, to_int64, declare_uint32, require_sensor_timestamp_fifo_read_mode, Settings,
  load_settings, load_imu_config, is_supported_rate,
}
use robo_baton_4p_ros2_demo.Node.Loaded.{AreGood, all_safe, load_settings-AreGood}

-- The rates of the IMU that README.md names.
abbrev pub IsRate : ℕ → Type 0
IsRate hz =
    (hz ≡ 25)
    ⊎ ((hz ≡ 50) ⊎ ((hz ≡ 100) ⊎ ((hz ≡ 200) ⊎ ((hz ≡ 500) ⊎ ((hz ≡ 1000) ⊎ (hz ≡ 2000))))))

-- A text of ASCII letters, digits and the characters - _ . and : only.
abbrev pub IsRunId : String → Type 0
IsRunId [] = Unit {0}
IsRunId (c ∷ rest) =
    (((b'a' ≤ code c) × (code c ≤ b'z'))
      ⊎ (((b'A' ≤ code c) × (code c ≤ b'Z'))
          ⊎ (((b'0' ≤ code c) × (code c ≤ b'9'))
              ⊎ ((code c ≡ b'-') ⊎ ((code c ≡ b'_') ⊎ ((code c ≡ b'.') ⊎ (code c ≡ b':')))))))
    × IsRunId rest

-- The parameters of the IMU with the configuration that they give.
pub record IsLoadedImu (p : Parameters) (settings : Settings) (config : ImuConfig) : Type 0 where
  pub read_rate : p.declare_int64 "imu.sample_rate_hz" (pos 1000) ≡ ok (pos config.sample_rate_hz)
  pub rate : IsRate config.sample_rate_hz
  pub read_mode :
      p.declare_string "imu.read_mode" "sensor_timestamp_fifo" ≡ ok "sensor_timestamp_fifo"
  pub read_watermark : p.declare_int64 "imu.fifo_watermark_samples" (pos 1) ≡ ok (pos 1)
  pub watermark : config.fifo_watermark_samples ≡ 1
  pub frame : p.declare_string "imu.frame_id" "robobaton_imu_link" ≡ ok config.frame_id
  pub temperature : p.declare_bool "imu.publish_temperature" true ≡ ok config.publish_temperature
  pub mapper : config.timestamp_mapper ≡ some settings.timestamp_mapper
  pub metrics : config.rate_metrics_enabled ≡ settings.rate_metrics_enabled
  pub period : config.rate_log_period_ms ≡ settings.rate_log_period_ms
  pub run_id : config.rate_run_id ≡ settings.rate_run_id

uint32_value :
    (value : ℤ)
    → (ltb_ℤ value (pos 0) || ltb_ℤ (pos 0xffffffff) value) ≡ false
    → value ≡ pos (to_uint32 value)
uint32_value (pos n) h = ground (arith, h)
uint32_value (negsuc n) h = absurd (ground (arith, h))

-- A number that is declared as a uint32_t is the value of the parameter.
declared_uint32 :
    (p : Parameters) (name : String) (d n : ℕ)
    → declare_uint32 p name d ≡ ok n
    → p.declare_int64 name (to_int64 d) ≡ ok (pos n)
unfolding declare_uint32
declared_uint32 p name d n h =
    let (value, read, rest) = >>=-eq-ok (p.declare_int64 name (to_int64 d)) _ h in
    let (good, last) =
      throw_if-eq-ok (ltb_ℤ value (pos 0) || ltb_ℤ (pos 0xffffffff) value) _ (ok (to_uint32 value))
        rest in
    let is : to_uint32 value ≡ n = cc last in read ∙ ap ok (uint32_value value good ∙ ap pos is)

declared_uint32_of :
    (p : Parameters) (name : String) (d n : ℕ)
    → p.declare_int64 name (to_int64 d) ≡ ok (pos n)
    → n < 2 ^ 32
    → declare_uint32 p name d ≡ ok n
unfolding declare_uint32
declared_uint32_of p name d n read fits = rw read (ground (arith, fits))

mode_of :
    (mode : String)
    → require_sensor_timestamp_fifo_read_mode mode ≡ ok tt
    → mode ≡ "sensor_timestamp_fifo"
unfolding require_sensor_timestamp_fifo_read_mode
mode_of mode h = ground (arith, h, eq_iff mode "sensor_timestamp_fifo")

IsRate-cases : (hz : ℕ) → is_supported_rate hz ≡ true → IsRate hz
IsRate-cases hz h = ground (arith, h)

rate_of : (hz : ℕ) → IsRate hz → (is_supported_rate hz ≡ true) × (hz < 2 ^ 32)
rate_of hz h = ground (arith, h)

ok_inj : {c d : ImuConfig} → ok c ≡ ok d → c ≡ d
ok_inj h = cc h

pub load_imu_config-IsLoadedImu :
    (p : Parameters) (settings : Settings) (config : ImuConfig)
    → load_imu_config p settings ≡ ok config
    → IsLoadedImu p settings config
unfolding load_imu_config
load_imu_config-IsLoadedImu p settings config h =
    let (hz, rate, rest1) = >>=-eq-ok (declare_uint32 p "imu.sample_rate_hz" 1000) _ h in
    let (supported, rest2) = throw_if-eq-ok (not (is_supported_rate hz)) _ _ rest1 in
    let (mode, read, rest3) =
      >>=-eq-ok (p.declare_string "imu.read_mode" "sensor_timestamp_fifo") _ rest2 in
    let (x, required, rest4) = >>=-eq-ok (require_sensor_timestamp_fifo_read_mode mode) _ rest3 in
    let (n, watermark, rest5) =
      >>=-eq-ok (declare_uint32 p "imu.fifo_watermark_samples" 1) _ rest4 in
    let (one, rest6) = throw_if-eq-ok (not (n == 1)) _ _ rest5 in
    let (frame, frame_read, rest7) =
      >>=-eq-ok (p.declare_string "imu.frame_id" "robobaton_imu_link") _ rest6 in
    let (temperature, temperature_read, last) =
      >>=-eq-ok (p.declare_bool "imu.publish_temperature" true) _ rest7 in
    let same = ok_inj last in
    let rate_is : hz ≡ config.sample_rate_hz = ap (λ c. c.sample_rate_hz) same in
    let one_is : n ≡ 1 = ground (arith, one) in
    record {
      read_rate =
          declared_uint32 p "imu.sample_rate_hz" 1000 hz rate ∙ ap (λ k. ok (pos k)) rate_is;
      rate = subst IsRate rate_is (IsRate-cases hz (ground (arith, supported)));
      read_mode = read ∙ ap ok (mode_of mode required);
      read_watermark =
          declared_uint32 p "imu.fifo_watermark_samples" 1 n watermark
          ∙ ap (λ k. ok (pos k)) one_is;
      watermark = sym (ap (λ c. c.fifo_watermark_samples) same) ∙ one_is;
      frame = frame_read ∙ ap (λ c. ok c.frame_id) same;
      temperature = temperature_read ∙ ap (λ c. ok c.publish_temperature) same;
      mapper = sym (ap (λ c. c.timestamp_mapper) same);
      metrics = sym (ap (λ c. c.rate_metrics_enabled) same);
      period = sym (ap (λ c. c.rate_log_period_ms) same);
      run_id = sym (ap (λ c. c.rate_run_id) same);
    }

loaded_of :
    (p : Parameters) (settings : Settings) (config : ImuConfig)
    → IsLoadedImu p settings config
    → load_imu_config p settings ≡ ok config
unfolding load_imu_config require_sensor_timestamp_fifo_read_mode
loaded_of p settings config h =
    let (supported, fits) = rate_of config.sample_rate_hz h.rate in
    let rate =
      declared_uint32_of p "imu.sample_rate_hz" 1000 config.sample_rate_hz h.read_rate fits in
    let watermark =
      declared_uint32_of p "imu.fifo_watermark_samples" 1 1 h.read_watermark (omega arith) in
    rw (rate, supported, h.read_mode, watermark, h.frame, h.temperature)
      (ground (arith, h.watermark, h.mapper, h.metrics, h.period, h.run_id))

all_safe-IsRunId : (s : String) → all_safe s ≡ true → IsRunId s
unfolding all_safe
all_safe-IsRunId [] h = tt
all_safe-IsRunId (c ∷ rest) h = ground (arith, h, all_safe-IsRunId rest)

imu_constructs :
    (p : Parameters) (settings : Settings) (config : ImuConfig)
    → AreGood settings
    → IsLoadedImu p settings config
    → construct_imu false config ≡ ok settings.timestamp_mapper
unfolding construct_imu
imu_constructs p settings config good loaded =
    let period : config.rate_metrics_enabled ≡ true → 0 < config.rate_log_period_ms =
      λ e. subst (λ n. 0 < n) (sym loaded.period) (good.period (sym loaded.metrics ∙ e)) in
    ground (arith, loaded.mapper, period)

-- If the settings of the node load, then LoadImuConfig returns a configuration exactly when the
-- parameter of the rate is 25, 50, 100, 200, 500, 1000 or 2000, that of the mode
-- sensor_timestamp_fifo, that of the watermark 1, and the configuration holds what these, the name of
-- the frame and the switch of the temperature are, with the mapper, the metrics, the period and the run
-- ID of the settings; the run ID then has ASCII letters, digits and the characters - _ . and : only, and
-- the constructor of the publisher accepts the configuration.
pub imu_config_iff :
    (p : Parameters) (mapper : SensorTimestampMapperSnapshot) (settings : Settings)
    (config : ImuConfig)
    → load_settings p mapper ≡ ok settings
    → (load_imu_config p settings ≡ ok config) ↔ (
        IsLoadedImu p settings config
        × IsRunId config.rate_run_id
        × (construct_imu false config ≡ ok settings.timestamp_mapper))
imu_config_iff p mapper settings config h =
    let good = load_settings-AreGood p mapper settings h in
    (
      λ k.
          let all = load_imu_config-IsLoadedImu p settings config k in
          (
            all,
            all_safe-IsRunId config.rate_run_id (ap all_safe all.run_id ∙ good.run_id),
            imu_constructs p settings config good all,
          ),
      λ all. loaded_of p settings config all.0,
    )
