-- ===== src/Lib.antt =====
-- A model of the RoboBaton 4P ROS 2 demo: the program that takes synchronized frames from four SC132
-- cameras and samples from an IMU, and publishes them as ROS messages.
--
-- The parts, and the files that model them.
-- * Timestamp models src/timestamp_mapper.cpp with its header: CheckedOffset, Capture,
--   MapMonotonicRawToRealtimeNs, ReadSystemClock and ToRosStampParts, each a function of the same name
--   in the spelling of this library. The publishers map the raw time stamps of the sensors with it.
-- * Metrics models src/publication_rate_metrics.cpp with its header: a PublicationRateMetrics is a
--   record of its counters, and each operation returns the new record. The camera core keeps one for
--   each camera.
-- * Options models src/cam_demo_common.cpp and src/cam_demo_config.cpp with their headers: the check
--   of the camera parameters, the mask, the rotation, and the environment variables of libsc132.
-- * Camera models the core of src/camera_publisher.cpp. Camera/Frame has RetainedFrameJob and the
--   structures of libsc132, Camera/Queue has FrameQueue, Camera/Core the state of
--   CameraLifecycleCore, Camera/Lifecycle its Start and CleanupLocked, Camera/Callback its callback
--   (FrameSetTrampoline, HandleFrameSet) and its WorkerLoop, and Camera/Reports its publication
--   reports. Camera/System puts them together as a step relation of three kinds of threads: the owner,
--   the thread of libsc132, and a worker for each camera; Camera/System/Ending and Completion count the
--   work that a shutdown waits for. Camera/Impl has Start and Stop of CameraPublisher::Impl over these
--   threads.
--   Camera/Publish models the ROS layer over it: the checks of the configuration, the configuration that
--   Start gives to the core, HeaderStampFromFrame, PublishFrame and LogRateMetrics.
-- * Imu models src/imu_publisher.cpp. Imu/Core has the state of ImuLifecycleCore, Imu/Ring its two
--   ends of the ring of samples (SampleTrampoline, PublishLoop), Imu/Lifecycle its Start and Stop,
--   and Imu/System the three threads as a step relation; Imu/Impl has Start and Stop of
--   ImuPublisher::Impl over them. Imu/Publish has the reports of the core and the ROS layer:
--   PublishSample and LogRateMetrics.
-- * Ros has the header of a message and the window of a rate report, which both publishers use.
-- * Node models src/robobaton_sensors_node.cpp: the parameters with their checks; Node/Life the
--   order in which the publishers are started and stopped, the executor's loop, and the exit code; and
--   Node/Stamps the stamps of the two sensors that one node publishes.
-- * Monitor models src/imu_rate_monitor.cpp: the parameters of the node that watches a topic of the IMU,
--   its count of the messages, its reports, and the exit code.
-- * Nv12 models src/nv12_compressed_publisher.cpp, which compresses the published images:
--   CheckedProduct, ValidateAndLocatePlanes, FindJpegEnd, in Nv12/Copy the row copies of
--   CopyIntoCodecInput, and in Nv12/Codec X5Nv12JpegEncoder with the context that it keeps in the codec.
-- * Transport models what the camera publisher and the plugin Nv12CompressedPublisher agree on through the
--   parameters of the node: the names under which both look for the parameters of a topic, the
--   configuration of image_transport, the quality that the plugin finds (Transport/Quality), the plugin
--   itself (Transport/Plugin), and the publishers that the constructor makes (Transport/Publishers).
-- * Prelude has the shared operators, the integers over the native numbers, the exceptions, and
--   std::to_string.
--
-- How the code is modelled. A function of the code that throws returns `throw e`, with the exception's
-- message; one that changes state takes the state and returns the new one. A uint64_t is a number, and
-- what wraps in the code is written with `%`; an int64_t is an integer. Closed libraries, the clocks
-- and the environment are parameters, or their answers are arguments: `StartReplies` and `ItemReplies`
-- hold what libsc132 answers, and a theorem holds for all answers. The calls of libsc132 that matter
-- are kept in a list, newest first. A stretch of a thread between two points at which it can block is
-- one step; a call that waits on a condition variable is a step that leaves the queue as it is and can
-- be tried again. Every loop is a structural recursion, over a list or over the rounds that are left,
-- so no fuel is needed; the compare-and-swap loop of the latency maximum recurs on the attempts that
-- other threads spoil. In Imu/System a step stands between two accesses of a thread to what it shares
-- with another one, so that any interleaving of the callback and the publishing thread is a sequence of
-- steps; the sums of the ring's indices wrap at 2 ^ 64.
--
-- What is assumed. In Camera/System Start runs as one step, so no callback comes before it returns,
-- and a stop request closes all queues in the same step. `sc132_stop`, an `icm42688_stop` that
-- succeeds, and `icm42688_destroy` return when no callback is under way. rclcpp keeps the
-- parameters of a node as it documents (`ParameterLaws`), and `setenv` obeys POSIX (`SetenvLaws`).
-- The sizes of the structures of the C interfaces are those of a machine with 64-bit pointers.
--
-- What is not modelled: what the executor serves in one of its rounds; the version output of the
-- two programs; the quality-of-service settings of the topics; a creation of a timer that throws;
-- the branches for the contract test (RELEASE008_CONTRACT_TEST), the log lines, and the scripts and
-- launch files, which are no part of the running program.
pub mod Prelude
pub mod Timestamp
pub mod Transport
pub mod Metrics
pub mod Options
pub mod Camera
pub mod Imu
pub mod Ros
pub mod Nv12
pub mod Node
pub mod Monitor
