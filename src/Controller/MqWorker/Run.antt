-- ===== src/Controller/MqWorker/Run.antt =====
-- mq_timing_plan_receiver_worker.cpp, Run: the thread around the receive loop.
use adaptive_traffic_light.Prelude.{
  ◌≡◌, refl, Bool, true, false, not, if◌then◌else◌, if-elim, option-elim, some-elim, Option, none,
  some, List, [], ◌∷◌, arith, Timespec,
}
use adaptive_traffic_light.Ipc.Errno.{Errno, is_enoent}
use adaptive_traffic_light.Controller.SyncChannel.{SyncChannel}
use adaptive_traffic_light.Controller.SyncChannel.Invariant.{IsSound, receive_plan-IsSound}
use adaptive_traffic_light.Controller.MqWorker.{
  MqTimingPlanReceiverWorker, OpenEnv, open_and_validate, Round, LoopEnd, broken, drained,
  receive_loop, Processed, after_loop, decode_plan, receive_and_process_newest,
}

-- One pass of Run(): the load of the flag, and what the calls in it return.
pub record Pass : Type 0 where
  pub running : Bool
  pub open_env : OpenEnv
  pub rounds : List Round
  pub clock : Option Timespec

abbrev pub close : MqTimingPlanReceiverWorker → MqTimingPlanReceiverWorker
close w = record w { is_open = false }

-- A pass with an open queue: an error closes it, so that the next pass opens it again.
abbrev pub receive_pass :
    Pass
    → MqTimingPlanReceiverWorker
    → SyncChannel
    → Option (MqTimingPlanReceiverWorker × SyncChannel)
receive_pass pass w ch = elim (receive_and_process_newest pass.rounds pass.clock w ch) [
  | none ↦ none
  | some r ↦ some (if r.success then r.worker else close r.worker, r.channel)
]

-- Run() on the passes to come; `none`: the thread still runs when they end.
unfoldable pub run : List Pass → MqTimingPlanReceiverWorker → SyncChannel → Option Processed
run [] w ch = none
run (pass ∷ later) w ch =
    if not pass.running
    then some (record { worker = close w; channel = ch; success = true })
    else let (w', failure) = if w.is_open then (w, none) else open_and_validate pass.open_env w in
      elim failure [
        | some e ↦
            let rest = run later w' ch in
            if not (is_enoent e)
            then some (record { worker = w'; channel = ch; success = false })
            else rest
        | none ↦ elim (receive_pass pass w' ch) [ none ↦ none | some r ↦ run later r.0 r.1 ]
      ]

after_loop-IsSound :
    (clock : Option Timespec) (ch : SyncChannel) (w : MqTimingPlanReceiverWorker) (e : LoopEnd)
    → IsSound ch
    → IsSound (after_loop clock ch w e).channel
after_loop-IsSound clock ch w broken s = s
after_loop-IsSound clock ch w (drained none) s = s
after_loop-IsSound clock ch w (drained (some m)) s = receive_plan-IsSound clock (decode_plan m) ch s

-- Closed, with a sound channel, if this is where it ended.
abbrev IsClosed : Processed → Option Processed → Type 0
IsClosed p o = o ≡ some p → (p.worker.is_open ≡ false) × IsSound p.channel

closed : (q p : Processed) → q.worker.is_open ≡ false → IsSound q.channel → IsClosed p (some q)
closed q p c s e =
    some-elim (λ (r : Processed). (r.worker.is_open ≡ false) × IsSound r.channel) e (c, s)

receive_and_process_newest-IsSound :
    (rounds : List Round) (clock : Option Timespec) (w : MqTimingPlanReceiverWorker)
    (ch : SyncChannel) (p : Processed)
    → IsSound ch
    → receive_and_process_newest rounds clock w ch ≡ some p
    → IsSound p.channel
unfolding receive_and_process_newest
receive_and_process_newest-IsSound rounds clock w ch p s =
    option-elim (λ o. o ≡ some p → IsSound p.channel) (receive_loop rounds w none)
      (λ _ e. absurd (cc))
      (λ r _ e.
        some-elim (λ (q : Processed). IsSound q.channel) e (after_loop-IsSound clock ch r.0 r.1 s))

receive_pass-IsSound :
    (pass : Pass) (w : MqTimingPlanReceiverWorker) (ch : SyncChannel)
    (r : MqTimingPlanReceiverWorker × SyncChannel)
    → IsSound ch
    → receive_pass pass w ch ≡ some r
    → IsSound r.1
receive_pass-IsSound pass w ch r s =
    option-elim (λ o. o ≡ some r → IsSound r.1)
      (receive_and_process_newest pass.rounds pass.clock w ch) (λ _ e. absurd (cc))
      (λ p f e.
        some-elim (λ (q : MqTimingPlanReceiverWorker × SyncChannel). IsSound q.1) e
          (receive_and_process_newest-IsSound pass.rounds pass.clock w ch p s f))

-- A failed opening leaves the queue closed.
open_failed :
    (env : OpenEnv) (w w' : MqTimingPlanReceiverWorker) (failure : Option Errno) (e : Errno)
    → (w', failure) ≡ (if w.is_open then (w, none) else open_and_validate env w)
    → failure ≡ some e
    → w'.is_open ≡ false
unfolding open_and_validate
open_failed env w w' failure e h k = ground arith

-- However and whenever Run() ends, the queue is closed, and a channel that was sound at the start
-- is sound at the end.
pub run-IsSound :
    (passes : List Pass) (w : MqTimingPlanReceiverWorker) (ch : SyncChannel) (p : Processed)
    → IsSound ch
    → run passes w ch ≡ some p
    → (p.worker.is_open ≡ false) × IsSound p.channel
unfolding run
run-IsSound [] w ch p s = λ e. absurd (cc)
run-IsSound (pass ∷ later) w ch p s =
    let opened = if w.is_open then (w, none) else open_and_validate pass.open_env w in
    if-elim (IsClosed p) (not pass.running) (λ _. closed _ p refl s)
      (λ _.
        option-elim (IsClosed p) opened.1
          (λ _.
            option-elim (IsClosed p) (receive_pass pass opened.0 ch) (λ _ e. absurd (cc))
              (λ r f. run-IsSound later r.0 r.1 p (receive_pass-IsSound pass opened.0 ch r s f)))
          (λ e k.
            if-elim (IsClosed p) (not (is_enoent e))
              (λ _. closed _ p (open_failed pass.open_env w opened.0 opened.1 e refl k) s)
              (λ _. run-IsSound later opened.0 ch p s)))
