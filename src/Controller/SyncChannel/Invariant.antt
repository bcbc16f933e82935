-- ===== src/Controller/SyncChannel/Invariant.antt =====
-- plan_sync_channel.cpp: what holds of the channel whenever its mutex is free, kept by every
-- critical section of the state machine and by what the other threads do.
use adaptive_traffic_light.Prelude.{
  ◌≡◌, refl, ◌∙◌, ◌||◌, ◌&&◌, Bool, true, false, not, inl, inr, Option, List, [], ◌∷◌, Timespec,
  Bool-cases, if-elim, arith,
}
use adaptive_traffic_light.Ipc.Messages.{TimingPlan}
use adaptive_traffic_light.Controller.Config.{PhaseId, PlanData}
use adaptive_traffic_light.Controller.SyncChannel.{
  SyncChannel, new_channel, is_green_phase, is_emergency_plan, set_current_phase, publish_plan,
  consume_pending_plan, request_shutdown,
}
use adaptive_traffic_light.Controller.PlanReceiver.{
  validate_plan, translate_plan, receive_timestamp_ns, receive_plan,
}
use adaptive_traffic_light.Controller.PlanReceiver.Plans.{
  IsCyclePlan, validate_plan_iff, translate_plan-IsCyclePlan,
}
use adaptive_traffic_light.Controller.Peers.{PeerAction, receives, stops, act, act_all}

-- An emergency waits in the channel only while the announced phase is green; what waits in either
-- slot is a plan that the machine can run, in the slot of its kind, and an emergency is for one
-- direction.
pub record IsSound (ch : SyncChannel) : Type 0 where
  pub green_only : ch.has_pending_emergency ≡ true → is_green_phase ch.current_phase ≡ true
  pub normal : ch.has_pending_normal ≡ true → IsCyclePlan ch.pending_normal_plan
  pub normal_kind : ch.has_pending_normal ≡ true → is_emergency_plan ch.pending_normal_plan ≡ false
  pub emergency : ch.has_pending_emergency ≡ true → IsCyclePlan ch.pending_emergency_plan
  pub emergency_kind :
      ch.has_pending_emergency ≡ true → is_emergency_plan ch.pending_emergency_plan ≡ true
  pub one_way :
      ch.has_pending_emergency ≡ true
      → (ch.pending_emergency_plan.is_emergency_ns && ch.pending_emergency_plan.is_emergency_ew)
        ≡ false

pub new_channel-IsSound : IsSound new_channel
new_channel-IsSound = record {
  green_only = λ h. cc;
  normal = λ h. cc;
  normal_kind = λ h. cc;
  emergency = λ h. cc;
  emergency_kind = λ h. cc;
  one_way = λ h. cc;
}

pub set_current_phase-IsSound :
    (p : PhaseId) (ch : SyncChannel) → IsSound ch → IsSound (set_current_phase p ch)
unfolding set_current_phase
set_current_phase-IsSound p ch s = elim (Bool-cases (is_green_phase p)) [
  | inl e ↦ rw e (record {
    green_only = λ _. e;
    normal = s.normal;
    normal_kind = s.normal_kind;
    emergency = s.emergency;
    emergency_kind = s.emergency_kind;
    one_way = s.one_way;
  })
  | inr e ↦ rw e (record {
    green_only = λ h. cc;
    normal = s.normal;
    normal_kind = s.normal_kind;
    emergency = λ h. cc;
    emergency_kind = λ h. cc;
    one_way = λ h. cc;
  })
]

store_normal :
    (plan : PlanData) (ch : SyncChannel)
    → IsCyclePlan plan
    → is_emergency_plan plan ≡ false
    → IsSound ch
    → IsSound (record ch { pending_normal_plan = plan; has_pending_normal = true })
store_normal plan ch c k s = record {
  green_only = s.green_only;
  normal = λ _. c;
  normal_kind = λ _. k;
  emergency = s.emergency;
  emergency_kind = s.emergency_kind;
  one_way = s.one_way;
}

store_emergency :
    (plan : PlanData) (ch : SyncChannel)
    → IsCyclePlan plan
    → is_emergency_plan plan ≡ true
    → (plan.is_emergency_ns && plan.is_emergency_ew) ≡ false
    → is_green_phase ch.current_phase ≡ true
    → IsSound ch
    → IsSound (record ch { pending_emergency_plan = plan; has_pending_emergency = true })
store_emergency plan ch c k o g s = record {
  green_only = λ _. g;
  normal = s.normal;
  normal_kind = s.normal_kind;
  emergency = λ _. c;
  emergency_kind = λ _. k;
  one_way = λ _. o;
}

publish_plan-IsSound :
    (plan : PlanData) (ch : SyncChannel)
    → IsCyclePlan plan
    → (plan.is_emergency_ns && plan.is_emergency_ew) ≡ false
    → IsSound ch
    → IsSound (publish_plan plan ch).0
unfolding publish_plan
publish_plan-IsSound plan ch c o s =
    if-elim (λ (r : SyncChannel × Bool). IsSound r.0) (is_emergency_plan plan)
      (λ k.
        if-elim (λ (r : SyncChannel × Bool). IsSound r.0)
          (not (is_green_phase ch.current_phase) || ch.shutdown_requested) (λ _. s)
          (λ g. store_emergency plan ch c k o (ground arith) s))
      (λ k. store_normal plan ch c k s)

pub receive_plan-IsSound :
    (clock : Option Timespec) (plan : TimingPlan) (ch : SyncChannel)
    → IsSound ch
    → IsSound (receive_plan clock plan ch).0
unfolding receive_plan
receive_plan-IsSound clock plan ch s = elim (Bool-cases (validate_plan plan)) [
  | inr e ↦ rw e s
  | inl e ↦ rw e (publish_plan-IsSound _ ch (stamped (translate_plan-IsCyclePlan plan e)) (one e) s)
]
  where
    stamped :
        IsCyclePlan (translate_plan plan)
        → IsCyclePlan (record (translate_plan plan) {
          controller_receive_timestamp_ns = receive_timestamp_ns clock;
        })
    stamped c = record {
      g1 = c.g1;
      y1 = c.y1;
      r1 = c.r1;
      g2 = c.g2;
      y2 = c.y2;
      r2 = c.r2;
      shape = c.shape;
      count = c.count;
      g1_in = c.g1_in;
      y1_in = c.y1_in;
      r1_in = c.r1_in;
      g2_in = c.g2_in;
      y2_in = c.y2_in;
      r2_in = c.r2_in;
    }

    one :
        validate_plan plan ≡ true
        → ((translate_plan plan).is_emergency_ns && (translate_plan plan).is_emergency_ew) ≡ false
    one e = unfold translate_plan in ((validate_plan_iff plan).0 e).one_way

pub consume_pending_plan-IsSound :
    (ch : SyncChannel) → IsSound ch → IsSound (consume_pending_plan ch).1
unfolding consume_pending_plan
consume_pending_plan-IsSound ch s =
    if-elim (λ (r : Option PlanData × SyncChannel). IsSound r.1) (not ch.has_pending_normal)
      (λ _. s)
      (λ _. record {
        green_only = s.green_only;
        normal = λ h. cc;
        normal_kind = λ h. cc;
        emergency = s.emergency;
        emergency_kind = s.emergency_kind;
        one_way = s.one_way;
      })

-- The other threads never change the announced phase.
pub act-current_phase :
    (a : PeerAction) (ch : SyncChannel) → (act a ch).current_phase ≡ ch.current_phase
unfolding act receive_plan publish_plan request_shutdown
act-current_phase (receives clock plan) ch = ground arith
act-current_phase stops ch = refl

pub act_all-current_phase :
    (actions : List PeerAction) (ch : SyncChannel)
    → (act_all actions ch).current_phase ≡ ch.current_phase
unfolding act_all
act_all-current_phase [] ch = refl
act_all-current_phase (a ∷ rest) ch = act_all-current_phase rest (act a ch) ∙ act-current_phase a ch

pub act-IsSound : (a : PeerAction) (ch : SyncChannel) → IsSound ch → IsSound (act a ch)
unfolding act request_shutdown
act-IsSound (receives clock plan) ch s = receive_plan-IsSound clock plan ch s
act-IsSound stops ch s = record {
  green_only = s.green_only;
  normal = s.normal;
  normal_kind = s.normal_kind;
  emergency = s.emergency;
  emergency_kind = s.emergency_kind;
  one_way = s.one_way;
}

-- Whatever the other threads do, in any order, leaves the channel sound.
pub act_all-IsSound :
    (actions : List PeerAction) (ch : SyncChannel) → IsSound ch → IsSound (act_all actions ch)
unfolding act_all
act_all-IsSound [] ch s = s
act_all-IsSound (a ∷ rest) ch s = act_all-IsSound rest (act a ch) (act-IsSound a ch s)
