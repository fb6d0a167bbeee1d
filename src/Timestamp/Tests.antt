-- ===== src/Timestamp/Tests.antt =====
-- The time stamp functions on concrete clocks, and the theorems of the modules beside this one there.
use robo_baton_4p_ros2_demo.Prelude.{
  ℕ, ◌+◌, ◌^◌, ◌≡◌, refl, ℤ, pos, negsuc, ok, throw, overflow_error, none, some, arith,
}
use robo_baton_4p_ros2_demo.Timestamp.{
  SensorTimestampMapperSnapshot, SensorClockReadFn, SensorClockId, Timespec, Clockid, int64_max,
  convert_timespec, checked_offset, capture, map_monotonic_raw_to_realtime_ns, to_ros_stamp_parts,
}
use robo_baton_4p_ros2_demo.Timestamp.Reader.{convert_timespec_iff, capture-map}
use robo_baton_4p_ros2_demo.Timestamp.Stamp.{to_ros_stamp_parts_iff}

-- A reader that answers 5000 for the realtime clock and 700 for the raw one, and counts its calls.
abbrev counting_reader : SensorClockReadFn ℕ
counting_reader SensorClockId.realtime is_null n = (pos 0, some 5000, n + 1)
counting_reader SensorClockId.monotonic_raw is_null n = (pos 0, some 700, n + 1)
counting_reader SensorClockId.unlisted is_null n = (negsuc 0, none, n + 1)

abbrev captured : SensorTimestampMapperSnapshot
captured = record {
  realtime_start_ns = 5000;
  monotonic_raw_start_ns = 700;
  realtime_minus_monotonic_raw_ns = pos 4300;
}

abbrev behind : SensorTimestampMapperSnapshot
behind = record {
  realtime_start_ns = 700;
  monotonic_raw_start_ns = 5000;
  realtime_minus_monotonic_raw_ns = negsuc 4299;
}

capture_runs : capture (some counting_reader) 0 ≡ ok (captured, 2)
unfolding capture checked_offset
capture_runs = refl

map_underflows :
    map_monotonic_raw_to_realtime_ns behind 4299
    ≡ throw (overflow_error "sensor timestamp realtime mapping underflow")
unfolding map_monotonic_raw_to_realtime_ns
map_underflows = refl

offset_limits :
    (checked_offset 0 (2 ^ 63) ≡ ok (negsuc int64_max))
    × (checked_offset 0 (2 ^ 63 + 1)
        ≡ throw (overflow_error "realtime/raw offset is outside int64 range"))
unfolding checked_offset
offset_limits = (refl, refl)

abbrev two_and_a_bit : Timespec
two_and_a_bit = record { tv_sec = pos 2; tv_nsec = pos 15 }

convert_timespec_iff_example : convert_timespec (pos 0) two_and_a_bit ≡ some 2000000015
convert_timespec_iff_example =
    (convert_timespec_iff (pos 0) two_and_a_bit 2000000015 (omega arith) (omega arith)).1
      (refl, omega arith, omega arith)

-- Both clocks show the same value.
abbrev still_clock : Clockid → ℕ → ℤ × Timespec × ℕ
still_clock c n = (pos 0, two_and_a_bit, n)

capture-map_example : map_monotonic_raw_to_realtime_ns captured (700 + 55) ≡ ok (5000 + 55)
capture-map_example =
    capture-map counting_reader 0 {s = captured} 55 capture_runs (omega arith) (omega arith)

to_ros_stamp_parts_iff_example :
    to_ros_stamp_parts 2000000015 ≡ ok (record { sec = 2; nanosec = 15 })
to_ros_stamp_parts_iff_example =
    (to_ros_stamp_parts_iff 2000000015 (record { sec = 2; nanosec = 15 })).1 (omega arith)
