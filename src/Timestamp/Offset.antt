-- ===== src/Timestamp/Offset.antt =====
-- CheckedOffset and MapMonotonicRawToRealtimeNs of src/timestamp_mapper.cpp, against the integers.
use robo_baton_4p_ros2_demo.Prelude.{
  ℕ, ◌+◌, ◌^◌, ◌<◌, ◌≡◌, ◌↔◌, ℤ, pos, negsuc, pos_part, neg_part, ◌≤ℤ◌, ok, arith,
}
use robo_baton_4p_ros2_demo.Timestamp.{
  SensorTimestampMapperSnapshot, int64_max, int64_min, checked_offset,
  map_monotonic_raw_to_realtime_ns, negative_offset_magnitude,
}

-- The range of int64_t.
abbrev pub IsInt64 : ℤ → Type 0
IsInt64 d = (int64_min ≤ℤ d) × (d ≤ℤ pos int64_max)

-- r - m = d, over the integers.
abbrev pub IsDifference : ℕ → ℕ → ℤ → Type 0
IsDifference r m d = r + neg_part d ≡ m + pos_part d

-- CheckedOffset returns an integer exactly when it is the difference of the two readings and fits
-- int64_t; so it throws exactly when the difference does not fit.
pub checked_offset_iff :
    (r m : ℕ) (d : ℤ) → (checked_offset r m ≡ ok d) ↔ (IsDifference r m d × IsInt64 d)
unfolding checked_offset
checked_offset_iff r m (pos n) = (λ h. ground arith, λ h. ground arith)
checked_offset_iff r m (negsuc n) = (λ h. ground arith, λ h. ground arith)

magnitude : (d : ℤ) → IsInt64 d → pos_part d ≡ 0 → negative_offset_magnitude d ≡ neg_part d
unfolding negative_offset_magnitude
magnitude (pos n) h z = ground arith
magnitude (negsuc n) h z = ground arith

-- For an offset in the range of int64_t and a raw time stamp of 64 bits, the mapping returns t
-- exactly when t is the raw time stamp plus the offset, over the integers, and fits 64 bits.
pub map_iff :
    (s : SensorTimestampMapperSnapshot) (raw t : ℕ)
    → IsInt64 s.realtime_minus_monotonic_raw_ns
    → raw < 2 ^ 64
    → (map_monotonic_raw_to_realtime_ns s raw ≡ ok t)
      ↔ (IsDifference t raw s.realtime_minus_monotonic_raw_ns × (t < 2 ^ 64))
unfolding map_monotonic_raw_to_realtime_ns
map_iff s raw t h b = (λ e. ground arith, λ e. ground arith)
