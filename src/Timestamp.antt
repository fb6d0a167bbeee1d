-- ===== src/Timestamp.antt =====
-- src/timestamp_mapper.cpp and include/robobaton_4p_ros2_demo/timestamp_mapper.hpp: the snapshot of
-- the two system clocks, the checked offset between them, the mapping of a sensor time stamp from
-- CLOCK_MONOTONIC_RAW to CLOCK_REALTIME, and the split into ROS seconds and nanoseconds.
--
-- A uint64_t is a number below 2 ^ 64, stated where it matters; an int64_t is an integer in
-- [int64_min, int64_max]. The clock reader is a function argument (`SensorClockReadFn`) over a user
-- state that it may change, and `clock_gettime` is a parameter of `read_system_clock`.
pub mod Offset
pub mod Reader
pub mod Stamp
mod Tests
use robo_baton_4p_ros2_demo.Prelude.{
  ℕ, suc, ◌+◌, ◌-◌, ◌*◌, ◌/◌, ◌%◌, ◌^◌, Bool, true, false, ◌||◌, not, Option, none, some, ltb, leb,
  ◌==◌, if◌then◌else◌, ℤ, pos, negsuc, pos_part, ltb_ℤ, leb_ℤ, ◌==ℤ◌, neg, get_or, Result, ok,
  throw, invalid_argument, runtime_error, overflow_error, throw_if, ◌>>=◌, ◌>>◌, String,
}

-- `enum class SensorClockId`; `unlisted` stands for a value of the underlying type that names no
-- enumerator, which the `default` case of the reader handles.
pub data SensorClockId : Type 0 where
  realtime monotonic_raw unlisted : SensorClockId

pub record SensorTimestampMapperSnapshot : Type 0 where
  pub realtime_start_ns : ℕ
  pub monotonic_raw_start_ns : ℕ
  pub realtime_minus_monotonic_raw_ns : ℤ

pub record RosStampParts : Type 0 where
  pub sec : ℕ
  pub nanosec : ℕ

abbrev pub nanoseconds_per_second : ℕ
nanoseconds_per_second = 1000000000

abbrev pub uint64_max : ℕ
uint64_max = 2 ^ 64 - 1

abbrev pub int64_max : ℕ
int64_max = 2 ^ 63 - 1

abbrev pub int32_max : ℕ
int32_max = 2 ^ 31 - 1

-- -(2 ^ 63)
abbrev pub int64_min : ℤ
int64_min = negsuc int64_max

-- `static_cast<uint64_t>` of a signed integer.
abbrev pub to_uint64 : ℤ → ℕ
to_uint64 (pos n) = n % 2 ^ 64
to_uint64 (negsuc n) = 2 ^ 64 - 1 - n % 2 ^ 64

pub negative_offset_magnitude : ℤ → ℕ
negative_offset_magnitude offset_ns =
    if offset_ns ==ℤ int64_min then int64_max + 1 else to_uint64 (neg offset_ns)

-- `timespec`, and what `clock_gettime` does: a status and the value that it filled in.
pub record Timespec : Type 0 where
  pub tv_sec : ℤ
  pub tv_nsec : ℤ

pub data Clockid : Type 0 where
  clock_realtime clock_monotonic_raw : Clockid

-- A call through the reader's pointer: its status, what it wrote through `timestamp_ns` if anything,
-- and the user state after the call. The Boolean tells whether `timestamp_ns` is null.
abbrev pub SensorClockReadFn : Type 0 → Type 0
SensorClockReadFn U = SensorClockId → Bool → U → ℤ × Option ℕ × U

-- The body of the system reader behind its switch: the checks on the `timespec`, then the product and
-- the sum, each behind the comparison that keeps it in range. `none` is `return -1`.
unfoldable pub convert_timespec : ℤ → Timespec → Option ℕ
convert_timespec status value =
    if not (status ==ℤ pos 0)
      || ltb_ℤ value.tv_sec (pos 0)
      || ltb_ℤ value.tv_nsec (pos 0)
      || leb_ℤ (pos nanoseconds_per_second) value.tv_nsec
    then none
    else if ltb (uint64_max / nanoseconds_per_second) (to_uint64 value.tv_sec)
    then none
    else (let whole_seconds_ns = to_uint64 value.tv_sec * nanoseconds_per_second % 2 ^ 64 in
        let subsecond_ns = to_uint64 value.tv_nsec in
        if ltb (uint64_max - subsecond_ns) whole_seconds_ns
        then none
        else some ((whole_seconds_ns + subsecond_ns) % 2 ^ 64))

-- What the reader returns for a converted value: status 0 and a write, or -1 and no write.
abbrev pub reply : {U : Type 0} → Option ℕ → U → ℤ × Option ℕ × U
reply none u = (negsuc 0, none, u)
reply (some t) u = (pos 0, some t, u)

abbrev pub native_clock : SensorClockId → Option Clockid
native_clock realtime = some clock_realtime
native_clock monotonic_raw = some clock_monotonic_raw
native_clock unlisted = none

module _ {U : Type 0} (clock_gettime : Clockid → U → ℤ × Timespec × U) where
  read_native_clock : Option Clockid → U → ℤ × Option ℕ × U
  read_native_clock none u = (negsuc 0, none, u)
  read_native_clock (some c) u =
      let (status, value, u') = clock_gettime c u in reply (convert_timespec status value) u'

  unfoldable pub read_system_clock : SensorClockReadFn U
  unfolding read_native_clock
  read_system_clock clock_id timestamp_is_null u =
      if timestamp_is_null then (negsuc 0, none, u) else read_native_clock (native_clock clock_id) u

unfoldable pub checked_offset : ℕ → ℕ → Result ℤ
checked_offset realtime_ns monotonic_raw_ns =
    if leb monotonic_raw_ns realtime_ns
    then (let positive_offset = realtime_ns - monotonic_raw_ns in
        if ltb int64_max positive_offset
        then throw (overflow_error "realtime/raw offset is outside int64 range")
        else ok (pos positive_offset))
    else (let negative_offset = monotonic_raw_ns - realtime_ns in
        let max_negative_magnitude = int64_max + 1 in
        if ltb max_negative_magnitude negative_offset
        then throw (overflow_error "realtime/raw offset is outside int64 range")
        else if negative_offset == max_negative_magnitude
        then ok int64_min
        else ok (neg (pos negative_offset)))

module _ {U : Type 0} where
  -- One read of the capture: a status other than 0 throws; a field keeps its initial 0 if the reader
  -- wrote nothing.
  read_or_throw : SensorClockReadFn U → SensorClockId → String → U → Result (ℕ × U)
  read_or_throw reader clock_id what u =
      let (status, written, u') = reader clock_id false u in
      if not (status ==ℤ pos 0) then throw (runtime_error what) else ok (get_or written 0, u')

  -- `none` is a null reader. The result has the user state after the reads.
  unfoldable pub capture :
      Option (SensorClockReadFn U) → U → Result (SensorTimestampMapperSnapshot × U)
  unfolding read_or_throw
  capture none u = throw (invalid_argument "sensor timestamp clock reader is null")
  capture (some reader) u = do
    (realtime_start, u₁) ← read_or_throw reader realtime "CLOCK_REALTIME read failed" u
    (raw_start, u₂) ← read_or_throw reader monotonic_raw "CLOCK_MONOTONIC_RAW read failed" u₁
    offset ← checked_offset realtime_start raw_start
    ok (
      record {
        realtime_start_ns = realtime_start;
        monotonic_raw_start_ns = raw_start;
        realtime_minus_monotonic_raw_ns = offset;
      },
      u₂,
    )

unfoldable pub map_monotonic_raw_to_realtime_ns : SensorTimestampMapperSnapshot → ℕ → Result ℕ
unfolding negative_offset_magnitude
map_monotonic_raw_to_realtime_ns snapshot raw_timestamp_ns =
    let offset_ns = snapshot.realtime_minus_monotonic_raw_ns in
    if leb_ℤ (pos 0) offset_ns
    then (let positive_offset = to_uint64 offset_ns in
        if ltb (uint64_max - positive_offset) raw_timestamp_ns
        then throw (overflow_error "sensor timestamp realtime mapping overflow")
        else ok ((raw_timestamp_ns + positive_offset) % 2 ^ 64))
    else (let negative_offset = negative_offset_magnitude offset_ns in
        if ltb raw_timestamp_ns negative_offset
        then throw (overflow_error "sensor timestamp realtime mapping underflow")
        else ok (raw_timestamp_ns - negative_offset))

unfoldable pub to_ros_stamp_parts : ℕ → Result RosStampParts
to_ros_stamp_parts realtime_timestamp_ns =
    let seconds = realtime_timestamp_ns / nanoseconds_per_second in
    if ltb int32_max seconds
    then throw (overflow_error "ROS timestamp seconds exceed int32 range")
    else ok (record { sec = seconds; nanosec = realtime_timestamp_ns % nanoseconds_per_second })
