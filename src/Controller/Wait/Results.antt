-- ===== src/Controller/Wait/Results.antt =====
-- plan_sync_channel.cpp, WaitForEmergencyUntil: what each result of the wait stands for.
use adaptive_traffic_light.Prelude.{
  ◌≤◌, ◌≡◌, refl, ◌∙◌, ◌&&◌, true, false, Option, some, List, [], ◌∷◌, length, if-elim, some-elim,
  arith,
}
use adaptive_traffic_light.Controller.Config.{PlanData}
use adaptive_traffic_light.Controller.SyncChannel.{SyncChannel, is_emergency_plan}
use adaptive_traffic_light.Controller.SyncChannel.Invariant.{
  IsSound, act_all-IsSound, act_all-current_phase,
}
use adaptive_traffic_light.Controller.Peers.{act_all}
use adaptive_traffic_light.Controller.Wait.{
  Wake, WakeCode, woken, timed_out, failed, WaitResult, emergency_available, timeout, error, Waited,
  keeps_waiting, finish_wait, after_wake, wait_for_emergency_until,
}

-- What holds when the wait that began in the channel `ch` is over.
pub record IsWaited (ch : SyncChannel) (wakes : List Wake) (w : Waited) : Type 0 where
  pub sound : IsSound w.channel
  pub same_phase : w.channel.current_phase ≡ ch.current_phase
  pub fewer : length w.later ≤ length wakes
  pub kind : w.result ≡ emergency_available → is_emergency_plan w.out_plan ≡ true
  pub one_way :
      w.result ≡ emergency_available
      → (w.out_plan.is_emergency_ns && w.out_plan.is_emergency_ew) ≡ false
  pub taken : w.result ≡ emergency_available → w.channel.has_pending_emergency ≡ false

finished :
    (ch : SyncChannel) (out : PlanData) (wakes : List Wake)
    → IsSound ch
    → keeps_waiting ch ≡ false
    → IsWaited ch wakes (finish_wait ch out wakes)
finished ch out wakes s k =
    if-elim (IsWaited ch wakes) ch.shutdown_requested
      (λ _. record {
        sound = s;
        same_phase = refl;
        fewer = omega arith;
        kind = λ h. cc;
        one_way = λ h. cc;
        taken = λ h. cc;
      })
      (λ d. record {
        sound = record {
          green_only = λ h. cc;
          normal = s.normal;
          normal_kind = s.normal_kind;
          emergency = λ h. cc;
          emergency_kind = λ h. cc;
          one_way = λ h. cc;
        };
        same_phase = refl;
        fewer = omega arith;
        kind = λ _. s.emergency_kind (ground arith);
        one_way = λ _. s.one_way (ground arith);
        taken = λ _. refl;
      })

cut_short :
    (ch ch' : SyncChannel) (out : PlanData) (r : WaitResult) (wakes later : List Wake)
    → IsSound ch'
    → ch'.current_phase ≡ ch.current_phase
    → length later ≤ length wakes
    → (r ≡ emergency_available → ⊥)
    → IsWaited ch wakes (record { result = r; out_plan = out; channel = ch'; later = later })
cut_short ch ch' out r wakes later s p l n = record {
  sound = s;
  same_phase = p;
  fewer = l;
  kind = λ h. absurd (n h);
  one_way = λ h. absurd (n h);
  taken = λ h. absurd (n h);
}

after_wake-IsWaited :
    (code : WakeCode) (ch ch' : SyncChannel) (out : PlanData) (w : Wake) (later : List Wake)
    (again : Option Waited)
    → IsSound ch'
    → ch'.current_phase ≡ ch.current_phase
    → ((v : Waited) → again ≡ some v → IsWaited ch' later v)
    → (v : Waited) → after_wake code ch' out later again ≡ some v
    → IsWaited ch (w ∷ later) v
after_wake-IsWaited woken ch ch' out w later again s p ih v e =
    let r = ih v e in
    record {
      sound = r.sound;
      same_phase = r.same_phase ∙ p;
      fewer = omega (arith, r.fewer);
      kind = r.kind;
      one_way = r.one_way;
      taken = r.taken;
    }
after_wake-IsWaited timed_out ch ch' out w later again s p ih v e =
    some-elim (IsWaited ch (w ∷ later)) e
      (cut_short ch ch' out timeout (w ∷ later) later s p (omega arith) (λ h. cc))
after_wake-IsWaited failed ch ch' out w later again s p ih v e =
    some-elim (IsWaited ch (w ∷ later)) e
      (cut_short ch ch' out error (w ∷ later) later s p (omega arith) (λ h. cc))

-- A wait that begins in a sound channel ends in a sound channel with the same phase announced. If
-- it reports an emergency, the plan that it hands out is one, for one direction only, and no
-- emergency is left in the channel.
pub wait_for_emergency_until-IsWaited :
    (wakes : List Wake) (out : PlanData) (ch : SyncChannel) (w : Waited)
    → IsSound ch
    → wait_for_emergency_until wakes out ch ≡ some w
    → IsWaited ch wakes w
unfolding wait_for_emergency_until
wait_for_emergency_until-IsWaited [] out ch w s =
    if-elim (λ r. r ≡ some w → IsWaited ch [] w) (keeps_waiting ch) (λ _ e. cc)
      (λ k e. some-elim (IsWaited ch []) e (finished ch out [] s k))
wait_for_emergency_until-IsWaited (x ∷ later) out ch w s =
    let ch' = act_all x.during ch in
    let s' = act_all-IsSound x.during ch s in
    if-elim (λ r. r ≡ some w → IsWaited ch (x ∷ later) w) (keeps_waiting ch)
      (λ _.
        after_wake-IsWaited x.code ch ch' out x later _ s' (act_all-current_phase x.during ch)
          (λ v. wait_for_emergency_until-IsWaited later out ch' v s') w)
      (λ k e. some-elim (IsWaited ch (x ∷ later)) e (finished ch out (x ∷ later) s k))
