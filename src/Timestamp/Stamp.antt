-- ===== src/Timestamp/Stamp.antt =====
-- ToRosStampParts of src/timestamp_mapper.cpp.
use robo_baton_4p_ros2_demo.Prelude.{
  ◌>>=◌, >>=-eq-ok, sym, subst, ℕ, ◌+◌, ◌*◌, ◌^◌, ◌<◌, ◌≡◌, ◌↔◌, ok, arith,
}
use robo_baton_4p_ros2_demo.Timestamp.{
  RosStampParts, nanoseconds_per_second, to_ros_stamp_parts, SensorTimestampMapperSnapshot,
  map_monotonic_raw_to_realtime_ns,
}
use robo_baton_4p_ros2_demo.Timestamp.Offset.{IsInt64, IsDifference, map_iff}

-- The nanoseconds that a ROS stamp stands for.
abbrev pub stamp_ns : RosStampParts → ℕ
stamp_ns p = p.sec * nanoseconds_per_second + p.nanosec

-- The split returns a stamp exactly when the stamp stands for the time, has fewer than 10 ^ 9
-- nanoseconds and has seconds that fit int32_t.
pub to_ros_stamp_parts_iff :
    (t : ℕ) (p : RosStampParts)
    → (to_ros_stamp_parts t ≡ ok p)
      ↔ ((stamp_ns p ≡ t) × (p.nanosec < nanoseconds_per_second) × (p.sec < 2 ^ 31))
unfolding to_ros_stamp_parts
to_ros_stamp_parts_iff t p = (λ e. ground arith, λ e. ground arith)

-- The stamp of a mapped time stamp.
pub mapped_stamp :
    (mapper : SensorTimestampMapperSnapshot) (t : ℕ) (stamp : RosStampParts)
    → IsInt64 mapper.realtime_minus_monotonic_raw_ns
    → t < 2 ^ 64
    → (map_monotonic_raw_to_realtime_ns mapper t >>= to_ros_stamp_parts) ≡ ok stamp
    → IsDifference (stamp_ns stamp) t mapper.realtime_minus_monotonic_raw_ns
      × (stamp.nanosec < 1000000000)
      × (stamp.sec < 2 ^ 31)
mapped_stamp mapper t stamp fits small h =
    let (mapped, first, second) =
      >>=-eq-ok (map_monotonic_raw_to_realtime_ns mapper t) to_ros_stamp_parts h in
    let (value, normal, short) = (to_ros_stamp_parts_iff mapped stamp).0 second in
    let difference = ((map_iff mapper t mapped fits small).0 first).0 in
    (
      subst (λ x. IsDifference x t mapper.realtime_minus_monotonic_raw_ns) (sym value) difference,
      normal,
      short,
    )
