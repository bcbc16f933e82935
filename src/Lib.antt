-- ===== src/Lib.antt =====
-- Verification of the adaptive traffic light: the processes that turn traffic snapshots into timing
-- plans, carry them over a message queue, and drive the lamps of an intersection with two groups
-- of signals. All paths lie below docs/05_development/adaptive_traffic_light/.
--
-- The parts and how they interact. The perception process (traffic_perception/) has a thread for
-- each of four lanes, which takes a frame from a pool, captures an image into it and leaves it in a
-- buffer with one slot for each lane; a pipeline thread takes the frames, infers on them, keeps the
-- metrics of each lane and publishes a snapshot of them over a queue of which the reader takes the
-- newest value only. The decision process (traffic_timing_decision/) makes a timing plan of every
-- snapshot and sends it as a message. The controller (traffic_signal_controller/) has a thread that
-- takes the newest message, validates the plan and leaves it in a channel with one slot for normal
-- plans and one for emergencies; a thread with the state machine, which waits on that channel and
-- counts the phases down; and a thread that shows the lamps. The formats of the messages and the
-- queue for the newest value are in ipc/.
--
-- Files and sources.
--   Ipc/Errno           the values of errno and the queue attributes that the code looks at
--   Ipc/Messages        ipc/include/traffic_ipc/messages.h
--   Ipc/PlanMessage     ipc/include/traffic_ipc/timing_plan_message_v1.h
--   Ipc/SignalMessage   ipc/include/traffic_ipc/signal_state_message_v1.h
--   Ipc/QueueStatus     ipc/include/traffic_ipc/latest_value_queue.h, its results
--   Ipc/LatestValue     the same file, publisher and consumer over a queue with a semaphore
-- In Perception, the sources are below traffic_perception/:
--   Perception/Vision           what the code takes from OpenCV, the back end and 32-bit floats, and
--                               include/traffic_perception/core/types.h
--   Perception/Frames           src/core/frame_pool.cpp, src/ingestion/atomic_frame_buffer.cpp
--   Perception/StreamWorker     src/ingestion/stream_worker.cpp
--   Perception/StartupGate      include/traffic_perception/core/startup_gate.h
--   Perception/Analyzer         include/traffic_perception/pipeline/analyzer.h
--   Perception/InferenceEngine  src/inference/inference_engine.cpp
--   Perception/Pipeline         src/pipeline/ and src/io/snapshot_sender.cpp
--   Perception/Module           src/perception_module.cpp: the start and the stop of the threads
-- In Controller, the sources are below traffic_signal_controller/:
--   Controller/Config         include/common/config.h
--   Controller/SyncChannel    src/common/plan_sync_channel.cpp: one function per critical section
--   Controller/Wait           the same file, WaitForEmergencyUntil
--   Controller/Peers          the calls of the other threads, as values
--   Controller/PlanReceiver   src/traffic_signal_controller/plan_receiver.cpp
--   Controller/MqWorker       src/traffic_signal_controller/mq_timing_plan_receiver_worker.cpp; its
--                             Run is in MqWorker/Run
--   Controller/Fsm            src/traffic_signal_controller/signal_fsm_engine.cpp; Fsm/Tick is
--                             processTick, Fsm/Lamps the display, Fsm/WakeupLog
--                             flushWakeupSamplesToLog
--   Controller/Output         src/analytics_service/output_simulator.cpp; Output/Handshake is the
--                             same calls, one atomic access at a time, where the two accesses
--                             of run() behind the wait may take effect in either order
--   Controller/SpscQueue      include/common/spsc_queue.h
--   Controller/Application    src/signal_control_app.cpp: start-up, lifecycle loop, shutdown
-- In Decision, they are below traffic_timing_decision/:
--   Decision/Constraints      src/decision_engine.cpp, ConstraintManager
--   Decision/Engine           src/decision_engine.cpp, DecisionEngine
--   Decision/Receiver         src/traffic_data_receiver.cpp
--   Decision/PeriodicService  src/periodic_service.cpp
--   Decision/Application      src/timing_decision_application.cpp
--   Decision/Clock            src/common.cpp
--   Decision/Publisher        src/timing_plan_publisher.cpp
--   System                    theorems about several of these parts together
-- The other modules hold the proofs and are named for what they prove; the modules Tests hold runs
-- on concrete data.
--
-- How the code is modelled. The fields of a class are a record, and a method is a function from the
-- record to the record and its result, with the words of the source: processTick is
-- process_tick, nextDeadline_ is next_deadline. Numbers are natural numbers; unsigned arithmetic
-- that can wrap has its remainder written out. What a system call or the clock returns is an
-- argument. A mutex makes each critical section one step, and the calls of other threads between
-- two such steps are lists of actions in the environment of a tick, so that a theorem about every
-- environment is one about every interleaving at that grain.
--
-- Bounds and fuel. The wait on the condition variable and the retried sleep are recursions on the
-- list of what the system call gives; `none` is a thread that still waits. processGreenPhase calls
-- itself after each emergency, and each such call uses up a wake or an emergency that lay ready,
-- so the number of wakes plus two is enough. advancePastNow runs on fuel, and
-- one round more than the release is milliseconds late is enough. The phase loops run over the six
-- phases of a plan. The stream worker's search for its next release runs on fuel too, and
-- one round more than the nanoseconds that it is late is enough. A loop that ends when a flag is cleared is a recursion
-- on the list of what its rounds meet. The drain of the latest-value queue has its four rounds.
--
-- A frame is its number in the pool. A queue and its semaphore are a record of operations, and the
-- theorems that need it take what POSIX says of them as a second record; Ipc/LatestValue/ListChannel
-- is a queue that fulfils it. The start-up gate is a list of events, in any order.
--
-- Not modelled: log texts and statistics; the attributes of threads, their processors and the memory
-- locks; the health-monitoring and lifecycle libraries; the viewer, the perception module's
-- configuration, the inference back ends and the tools. Images are left out. Floating-point and pixel
-- operations are parameters, and a theorem that needs an order of the numbers takes it as a named
-- hypothesis. Exceptions that the back end throws are left out. Signed overflow, which C++ leaves
-- undefined, is left out: instants and counters of that kind are natural numbers.
pub mod Prelude
pub mod Ipc
pub mod Perception
pub mod Controller
pub mod Decision
pub mod System
