-- ===== src/Controller/Output/Shown.antt =====
-- signal_fsm_engine.cpp and output_simulator.cpp together: what the state machine computes is what
-- the output thread shows and sends.
use adaptive_traffic_light.Prelude.{
  ℕ, zero, suc, ◌+◌, ◌*◌, ◌<◌, ◌≡◌, ◌≢◌, refl, sym, ap, ◌∙◌, Bool, true, ◌⊎◌, inl, inr, arith, u64,
  some, Timespec,
}
use adaptive_traffic_light.Ipc.SignalMessage.{
  SignalLamp, lamp_red, lamp_yellow, lamp_green, SignalStateMessage,
  has_valid_signal_state_envelope,
}
use adaptive_traffic_light.Controller.Config.{
  north_south, east_west, SignalDisplay, nanoseconds_per_second,
}
use adaptive_traffic_light.Controller.SyncChannel.{SyncChannel}
use adaptive_traffic_light.Controller.Fsm.{SignalFsmEngine}
use adaptive_traffic_light.Controller.Fsm.Lamps.{DisplayLamp, red, amber, green, lamp_for_phase}
use adaptive_traffic_light.Controller.Fsm.Invariant.{
  phase_of, group_of, IsOnCycle, current_phase_id-IsOnCycle,
}
use adaptive_traffic_light.Controller.Fsm.Display.{
  lamp, lamp-IsOnCycle, shown_for, remaining_for_signal_group-shown_for,
}
use adaptive_traffic_light.Controller.Fsm.Safety.{IsRunning}
use adaptive_traffic_light.Controller.Fsm.Trace.{one-red-at}
use adaptive_traffic_light.Controller.Fsm.Tick.{display_of}
use adaptive_traffic_light.Controller.Output.{OutputSimulator, shown_time, state_of, publish}
use adaptive_traffic_light.Controller.Output.Mailbox.{Fits}

shown-at :
    (i left g1 y1 r1 g2 y2 r2 : ℕ)
    → i < 6
    → left
      ≡ shown_time
          (phase_of i)
          (group_of i)
          (shown_for i north_south left g1 y1 r1 g2 y2 r2)
          (shown_for i east_west left g1 y1 r1 g2 y2 r2)
shown-at zero left g1 y1 r1 g2 y2 r2 h = refl
shown-at (suc zero) left g1 y1 r1 g2 y2 r2 h = refl
shown-at (suc (suc zero)) left g1 y1 r1 g2 y2 r2 h = ground arith
shown-at (suc (suc (suc zero))) left g1 y1 r1 g2 y2 r2 h = refl
shown-at (suc (suc (suc (suc zero)))) left g1 y1 r1 g2 y2 r2 h = refl
shown-at (suc (suc (suc (suc (suc zero))))) left g1 y1 r1 g2 y2 r2 h = ground arith
shown-at (suc (suc (suc (suc (suc (suc n)))))) left g1 y1 r1 g2 y2 r2 h = absurd (omega arith)

-- The display of a running machine fits into the mailbox: its countdowns are below 2^20 ms, and
-- the remaining time is the one that run() works out again.
pub display_of-Fits :
    {f : SignalFsmEngine} {ch : SyncChannel} → IsRunning f ch → Fits (display_of f)
unfolding display_of
display_of-Fits {f} v =
    let c = v.on_cycle in
    let ns = remaining_for_signal_group-shown_for f c north_south v.within in
    let ew = remaining_for_signal_group-shown_for f c east_west v.within in
    record {
      ns_fits = ns.1;
      ew_fits = ew.1;
      shown =
          shown-at f.current_phase_index f.remaining_time_ms c.plan.g1 c.plan.y1 c.plan.r1 c.plan.g2
            c.plan.y2 c.plan.r2 c.index
          ∙ sym (rw (ns.0, ew.0, current_phase_id-IsOnCycle f c, c.group) refl);
    }

abbrev pub lamp_on_wire : DisplayLamp → SignalLamp
lamp_on_wire red = lamp_red
lamp_on_wire amber = lamp_yellow
lamp_on_wire green = lamp_green

lamps-on-wire :
    (sequence : ℕ) (d : SignalDisplay)
    → ((state_of sequence d).north_south_lamp
        ≡ lamp_on_wire (lamp_for_phase d.phase_id d.active_group north_south))
      × ((state_of sequence d).east_west_lamp
          ≡ lamp_on_wire (lamp_for_phase d.phase_id d.active_group east_west))
unfolding lamp_for_phase
lamps-on-wire sequence d = ground arith

one-red :
    (f : SignalFsmEngine) → IsOnCycle f → (lamp north_south f ≡ red) ⊎ (lamp east_west f ≡ red)
one-red f c =
    rw (lamp-IsOnCycle f north_south c, lamp-IsOnCycle f east_west c)
      (one-red-at f.current_phase_index north_south)

-- The message on the wire shows, for both groups, the lamps that the state machine works out; so
-- on a running machine one of the two groups is red in it.
pub state_of-display_of :
    {f : SignalFsmEngine} {ch : SyncChannel} (sequence : ℕ)
    → IsRunning f ch
    → let m = state_of sequence (display_of f) in
      (m.north_south_lamp ≡ lamp_on_wire (lamp north_south f))
      × (m.east_west_lamp ≡ lamp_on_wire (lamp east_west f))
      × ((m.north_south_lamp ≡ lamp_red) ⊎ (m.east_west_lamp ≡ lamp_red))
unfolding display_of
state_of-display_of {f} sequence v =
    let w = lamps-on-wire sequence (display_of f) in
    (
      w.0,
      w.1,
      elim (one-red f v.on_cycle) [
        | inl e ↦ inl (w.0 ∙ ap lamp_on_wire e)
        | inr e ↦ inr (w.1 ∙ ap lamp_on_wire e)
      ],
    )

-- publish() hands a valid message to the queue when it has one, unless the clock reads 0.
pub publish-IsValid :
    (t : Timespec) (sent_ok : Bool) (d : SignalDisplay) (o : OutputSimulator)
    (m : SignalStateMessage)
    → u64 (t.tv_sec * nanoseconds_per_second + t.tv_nsec) ≢ 0
    → (publish (some t) sent_ok d o).1 ≡ some m
    → has_valid_signal_state_envelope m ≡ true
unfolding publish
publish-IsValid t sent_ok d o m h e = ground arith
