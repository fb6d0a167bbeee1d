-- ===== src/Timestamp/Reader.antt =====
-- ReadSystemClock and Capture of src/timestamp_mapper.cpp: what the system reader writes, and what a
-- captured snapshot is good for.
use robo_baton_4p_ros2_demo.Prelude.{
  ℕ, ◌+◌, ◌*◌, ◌^◌, ◌<◌, ◌≡◌, ◌↔◌, ℤ, pos, negsuc, pos_part, ◌≤ℤ◌, ok, Bool, none, some, arith, ◌≢◌,
  ◌⊎◌, >>=-eq-ok,
}
use robo_baton_4p_ros2_demo.Timestamp.{
  SensorTimestampMapperSnapshot, SensorClockReadFn, SensorClockId, Timespec, Clockid, int64_max,
  nanoseconds_per_second, convert_timespec, read_system_clock, checked_offset, capture,
  read_or_throw, map_monotonic_raw_to_realtime_ns,
}
use robo_baton_4p_ros2_demo.Timestamp.Offset.{IsInt64, IsDifference, checked_offset_iff, map_iff}

-- A `timespec` that POSIX calls normal, with the number t of nanoseconds that it stands for.
abbrev pub Denotes : Timespec → ℕ → Type 0
Denotes v t =
    (pos 0 ≤ℤ v.tv_sec)
    × (pos 0 ≤ℤ v.tv_nsec)
    × (pos_part v.tv_nsec < nanoseconds_per_second)
    × (t ≡ pos_part v.tv_sec * nanoseconds_per_second + pos_part v.tv_nsec)

-- The conversion yields t exactly when the call succeeded, the value is normal, and t is its number
-- of nanoseconds and fits 64 bits: no step of the arithmetic wraps.
pub convert_timespec_iff :
    (status : ℤ) (v : Timespec) (t : ℕ)
    → v.tv_sec ≤ℤ pos int64_max
    → v.tv_nsec ≤ℤ pos int64_max
    → (convert_timespec status v ≡ some t) ↔ ((status ≡ pos 0) × Denotes v t × (t < 2 ^ 64))
unfolding convert_timespec
convert_timespec_iff status v t hs hn = (λ e. ground arith, λ e. ground arith)

module _ {U : Type 0} (clock_gettime : Clockid → U → ℤ × Timespec × U) where
  -- The system reader reports success exactly when it writes a time stamp, and -1 otherwise, for a
  -- null pointer and for a clock that it does not know as well.
  pub read_system_clock_status :
      (id : SensorClockId) (is_null : Bool) (u : U)
      → let (status, written, _) = read_system_clock clock_gettime id is_null u in
        ((status ≡ pos 0) × (written ≢ none)) ⊎ ((status ≡ negsuc 0) × (written ≡ none))
  unfolding read_system_clock convert_timespec
  read_system_clock_status id is_null u = ground arith

module _ {U : Type 0} (reader : SensorClockReadFn U) where
  -- A snapshot that the capture returns holds the two readings with their exact difference, which
  -- fits int64_t.
  pub capture-exact :
      (u : U) {u' : U} {s : SensorTimestampMapperSnapshot}
      → capture (some reader) u ≡ ok (s, u')
      → IsDifference s.realtime_start_ns s.monotonic_raw_start_ns s.realtime_minus_monotonic_raw_ns
        × IsInt64 s.realtime_minus_monotonic_raw_ns
  unfolding capture
  capture-exact u {s = s} h =
      let ((r, u₁), er, h₁) = >>=-eq-ok (read_or_throw reader SensorClockId.realtime _ u) _ h in
      let ((m, u₂), em, h₂) =
        >>=-eq-ok (read_or_throw reader SensorClockId.monotonic_raw _ u₁) _ h₁ in
      let (d, ed, h₃) = >>=-eq-ok (checked_offset r m) _ h₂ in
      ground (arith, (checked_offset_iff r m d).0 ed, h₃)

  -- The captured mapper is anchored at its two readings and advances at the rate of the raw clock:
  -- dt nanoseconds after the raw reading are mapped to dt nanoseconds after the realtime reading,
  -- as long as both sums fit 64 bits.
  pub capture-map :
      (u : U) {u' : U} {s : SensorTimestampMapperSnapshot} (dt : ℕ)
      → capture (some reader) u ≡ ok (s, u')
      → s.monotonic_raw_start_ns + dt < 2 ^ 64
      → s.realtime_start_ns + dt < 2 ^ 64
      → map_monotonic_raw_to_realtime_ns s (s.monotonic_raw_start_ns + dt)
        ≡ ok (s.realtime_start_ns + dt)
  capture-map u {s = s} dt h hr ht =
      (map_iff s (s.monotonic_raw_start_ns + dt) (s.realtime_start_ns + dt) (capture-exact u h).1
          hr).1
        (omega (arith, (capture-exact u h).0), ht)
