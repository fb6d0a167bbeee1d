-- ===== src/Camera.antt =====
-- src/camera_publisher.cpp: the bounded queue of retained frames, the lifecycle core with its
-- callback, its workers and its shutdown, and the ROS publication of a frame.
pub mod Frame
pub mod Queue
pub mod Core
pub mod Lifecycle
pub mod Callback
pub mod Reports
pub mod Publish
pub mod System
pub mod Impl
mod Run
mod Tests
