-- ===== src/Perception.antt =====
-- traffic_perception/: the cameras' frames on their way to a traffic snapshot.
pub mod Frames
pub mod StreamWorker
pub mod Vision
pub mod Analyzer
pub mod InferenceEngine
pub mod Pipeline
pub mod StartupGate
pub mod Module
mod Tests
