-- ===== src/Imu.antt =====
-- src/imu_publisher.cpp: the core between the driver of the ICM42688 and the publication, its threads,
-- and the ROS publication of a sample.
pub mod Core
pub mod Ring
pub mod Lifecycle
pub mod System
pub mod Impl
pub mod Publish
mod Run
mod Tests
