-- ===== src/System.antt =====
-- The way of a timing plan from the decision process into the controller: the message that
-- timing_plan_publisher.cpp sends is the one that mq_timing_plan_receiver_worker.cpp receives.
pub mod Delivery
pub mod Acceptance
mod Tests
