-- ===== src/Controller/Peers.antt =====
-- What the other threads of the controller do with the channel while the state machine does not
-- hold its mutex: the plan receiver hands in a plan, or the application asks for the shutdown
-- (mq_timing_plan_receiver_worker.cpp and signal_control_app.cpp make these calls).
use adaptive_traffic_light.Prelude.{Option, List, [], ◌∷◌, Timespec}
use adaptive_traffic_light.Ipc.Messages.{TimingPlan}
use adaptive_traffic_light.Controller.SyncChannel.{SyncChannel, request_shutdown}
use adaptive_traffic_light.Controller.PlanReceiver.{receive_plan}

pub data PeerAction : Type 0 where
  receives : Option Timespec → TimingPlan → PeerAction
  stops : PeerAction

unfoldable pub act : PeerAction → SyncChannel → SyncChannel
act (receives clock plan) ch = (receive_plan clock plan ch).0
act stops ch = request_shutdown ch

unfoldable pub act_all : List PeerAction → SyncChannel → SyncChannel
act_all [] ch = ch
act_all (a ∷ rest) ch = act_all rest (act a ch)
