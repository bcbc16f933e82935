-- ===== src/Controller/MqWorker/Transport.antt =====
-- mq_timing_plan_receiver_worker.cpp: which messages count as new, and which of them is processed.
use adaptive_traffic_light.Prelude.{
  ℕ, ◌≤◌, ◌<◌, ◌≡◌, ◌≢◌, refl, sym, subst, ap, ◌∙◌, true, false, ◌||◌, ◌⊎◌, inl, inr, Option, none,
  some, List, [], ◌∷◌, if-elim, arith, some-elim, Timespec,
}
use adaptive_traffic_light.Ipc.Errno.{
  Errno, etimedout, eintr, eagain, is_etimedout, is_eintr, is_eagain,
}
use adaptive_traffic_light.Ipc.PlanMessage.{
  TimingPlanMessage, has_valid_timing_plan_envelope, timing_plan_queue_message_size,
}
use adaptive_traffic_light.Controller.MqWorker.{
  MqTimingPlanReceiverWorker, is_newer_transport_message, Round, stop_seen, clock_failed,
  receive_failed, received, LoopEnd, broken, drained, accept_message, receive_loop, Processed,
  after_loop, receive_and_process_newest,
}
use adaptive_traffic_light.Controller.SyncChannel.{SyncChannel}

-- A message that is whole, valid, and from another publisher than the last one or ahead of it.
abbrev pub IsNews : ℕ → TimingPlanMessage → MqTimingPlanReceiverWorker → Type 0
IsNews bytes m w =
    (bytes ≡ timing_plan_queue_message_size)
    × (has_valid_timing_plan_envelope m ≡ true)
    × ((w.has_transport_position ≡ false)
        ⊎ (m.publisher_instance_id ≢ w.publisher_instance_id)
        ⊎ (w.last_sequence_number < m.sequence_number))

-- One arrival on every branch: news becomes the newest message and the transport position; what
-- has the wrong size, an invalid envelope or an old number changes nothing.
pub accept_message_lem :
    (bytes : ℕ) (m : TimingPlanMessage) (w : MqTimingPlanReceiverWorker)
    (newest : Option TimingPlanMessage)
    → (IsNews bytes m w
        × (accept_message bytes m w newest ≡ (
          record w {
            has_transport_position = true;
            publisher_instance_id = m.publisher_instance_id;
            last_sequence_number = m.sequence_number;
          },
          some m,
        )))
      ⊎ ((IsNews bytes m w → ⊥) × (accept_message bytes m w newest ≡ (w, newest)))
unfolding is_newer_transport_message
accept_message_lem bytes m w newest = ground arith

-- What a run of the loop leaves, from the worker `w0` it began with: no news and the same worker,
-- or a valid message that is the transport position from then on.
pub data Drained (w0 w : MqTimingPlanReceiverWorker) : Option TimingPlanMessage → Type 0 where
  nothing_new : w ≡ w0 → Drained w0 w none
  newest_is :
      (m : TimingPlanMessage)
      → has_valid_timing_plan_envelope m ≡ true
      → w.has_transport_position ≡ true
      → w.publisher_instance_id ≡ m.publisher_instance_id
      → w.last_sequence_number ≡ m.sequence_number
      → Drained w0 w (some m)

accept_message-Drained :
    (bytes : ℕ) (m : TimingPlanMessage) (w0 w : MqTimingPlanReceiverWorker)
    (newest : Option TimingPlanMessage)
    → Drained w0 w newest
    → let r = accept_message bytes m w newest in Drained w0 r.0 r.1
accept_message-Drained bytes m w0 w newest d = elim (accept_message_lem bytes m w newest) [
  | inl h ↦
      subst (λ (r : MqTimingPlanReceiverWorker × Option TimingPlanMessage). Drained w0 r.0 r.1)
        (sym h.1) (newest_is m h.0.1 refl refl refl)
  | inr h ↦
      subst (λ (r : MqTimingPlanReceiverWorker × Option TimingPlanMessage). Drained w0 r.0 r.1)
        (sym h.1) d
]

-- The promise of the whole loop, where it ended.
abbrev IsDrained :
    MqTimingPlanReceiverWorker → Option (MqTimingPlanReceiverWorker × LoopEnd) → Type 0
IsDrained w0 o =
    (w : MqTimingPlanReceiverWorker)
    → (newest : Option TimingPlanMessage) → o ≡ some (w, drained newest)
    → Drained w0 w newest

-- The message of a run that ended well.
abbrev newest_of : LoopEnd → Option TimingPlanMessage
newest_of broken = none
newest_of (drained newest) = newest

ended :
    (w0 w : MqTimingPlanReceiverWorker) (newest : Option TimingPlanMessage)
    → Drained w0 w newest
    → IsDrained w0 (some (w, drained newest))
ended w0 w newest d w' newest' e =
    some-elim
      (λ (r : MqTimingPlanReceiverWorker × LoopEnd).
        (n : Option TimingPlanMessage) → r.1 ≡ drained n → Drained w0 r.0 n)
      e (λ n k. subst (Drained w0 w) (ap newest_of k) d) newest' refl

receive_loop-IsDrained :
    (rounds : List Round) (w0 w : MqTimingPlanReceiverWorker) (newest : Option TimingPlanMessage)
    → Drained w0 w newest
    → IsDrained w0 (receive_loop rounds w newest)
unfolding receive_loop
receive_loop-IsDrained [] w0 w newest d w' newest' e = absurd (cc)
receive_loop-IsDrained (stop_seen ∷ later) w0 w newest d w' newest' e =
    ended w0 w newest d w' newest' e
receive_loop-IsDrained (clock_failed ∷ later) w0 w newest d w' newest' e = ground arith
receive_loop-IsDrained (receive_failed e ∷ later) w0 w newest d w' newest' h =
    if-elim (IsDrained w0) (is_etimedout e || is_eintr e || is_eagain e) (λ _. ended w0 w newest d)
      (λ _ w' newest' h. ground arith) w' newest' h
receive_loop-IsDrained (received bytes m ∷ later) w0 w newest d w' newest' e =
    let r = accept_message bytes m w newest in
    receive_loop-IsDrained later w0 r.0 r.1 (accept_message-Drained bytes m w0 w newest d) w'
      newest' e

-- A run of the receive loop that ends without an error either took no new message and left the
-- worker as it was, or gives a message with a valid envelope whose publisher and number are the
-- transport position from then on.
pub newest-Drained :
    (rounds : List Round) (w w' : MqTimingPlanReceiverWorker) (newest : Option TimingPlanMessage)
    → receive_loop rounds w none ≡ some (w', drained newest)
    → Drained w w' newest
newest-Drained rounds w w' newest e =
    receive_loop-IsDrained rounds w w none (nothing_new refl) w' newest e

-- Messages that came in one after the other, each with its number of bytes.
abbrev pub Arrivals : Type 0
Arrivals = List (ℕ × TimingPlanMessage)

abbrev pub rounds_of : Arrivals → List Round → List Round
rounds_of [] later = later
rounds_of ((bytes, m) ∷ arrivals) later = received bytes m ∷ rounds_of arrivals later

-- The worker and the newest message behind them.
abbrev pub accept_all :
    Arrivals
    → MqTimingPlanReceiverWorker
    → Option TimingPlanMessage
    → MqTimingPlanReceiverWorker × Option TimingPlanMessage
accept_all [] w newest = (w, newest)
accept_all ((bytes, m) ∷ arrivals) w newest =
    let (w', newest') = accept_message bytes m w newest in accept_all arrivals w' newest'

pub receive_loop-rounds_of :
    (arrivals : Arrivals) (later : List Round) (w : MqTimingPlanReceiverWorker)
    (newest : Option TimingPlanMessage)
    → let r = accept_all arrivals w newest in
      receive_loop (rounds_of arrivals later) w newest ≡ receive_loop later r.0 r.1
unfolding receive_loop
receive_loop-rounds_of [] later w newest = refl
receive_loop-rounds_of ((bytes, m) ∷ arrivals) later w newest =
    let r = accept_message bytes m w newest in receive_loop-rounds_of arrivals later r.0 r.1

-- What receiveAndProcessNewest() does with the end of its loop.
abbrev pub finish :
    Option Timespec → SyncChannel → Option (MqTimingPlanReceiverWorker × LoopEnd) → Option Processed
finish clock ch o = elim o [ none ↦ none | some r ↦ some (after_loop clock ch r.0 r.1) ]

-- The worker knows this publisher, and has got as far as this number.
abbrev HasPassed : ℕ → ℕ → MqTimingPlanReceiverWorker → Type 0
HasPassed publisher sequence w =
    (w.has_transport_position ≡ true)
    × (w.publisher_instance_id ≡ publisher)
    × (sequence ≤ w.last_sequence_number)

abbrev pub AllFrom : ℕ → Arrivals → Type 0
AllFrom publisher [] = Unit {0}
AllFrom publisher ((bytes, m) ∷ arrivals) =
    (m.publisher_instance_id ≡ publisher) × AllFrom publisher arrivals

accept_all-HasPassed :
    (arrivals : Arrivals) (publisher sequence : ℕ) (w : MqTimingPlanReceiverWorker)
    (newest : Option TimingPlanMessage)
    → AllFrom publisher arrivals
    → HasPassed publisher sequence w
    → HasPassed publisher sequence (accept_all arrivals w newest).0
accept_all-HasPassed [] publisher sequence w newest f h = h
accept_all-HasPassed ((bytes, m) ∷ arrivals) publisher sequence w newest (e, f) h =
    let r = accept_message bytes m w newest in
    accept_all-HasPassed arrivals publisher sequence r.0 r.1 f
      (elim (accept_message_lem bytes m w newest) [
        | inl (n, k) ↦ rw k (ground (arith, n, e, h))
        | inr (n, k) ↦ rw k h
      ])

-- A message that a run of the receive loop gave is not new to a later run as long as no other
-- publisher's message came in between: behind any further messages of the same publisher, a second
-- copy of it, or an older message of that publisher, makes no difference to the rest of the run,
-- whatever follows.
pub no_replay :
    (rounds later : List Round) (between : Arrivals) (w w' : MqTimingPlanReceiverWorker)
    (m old : TimingPlanMessage) (bytes : ℕ) (clock : Option Timespec) (ch : SyncChannel)
    → receive_loop rounds w none ≡ some (w', drained (some m))
    → AllFrom m.publisher_instance_id between
    → old.publisher_instance_id ≡ m.publisher_instance_id
    → old.sequence_number ≤ m.sequence_number
    → receive_and_process_newest (rounds_of between (received bytes old ∷ later)) clock w' ch
      ≡ receive_and_process_newest (rounds_of between later) clock w' ch
unfolding receive_and_process_newest
no_replay rounds later between w w' m old bytes clock ch e f i s =
    elim (newest-Drained rounds w w' (some m) e) [
      | newest_is _ v p j k ↦
          let passed =
            accept_all-HasPassed between m.publisher_instance_id m.sequence_number w' none f
              (p, j, omega (arith, k)) in
          let r = accept_all between w' none in
          ap (finish clock ch) (
            receive_loop-rounds_of between (received bytes old ∷ later) w' none
            ∙ receive_loop-rounds_of ((bytes, old) ∷ []) later r.0 r.1
            ∙ ap
                (λ (x : MqTimingPlanReceiverWorker × Option TimingPlanMessage).
                  receive_loop later x.0 x.1)
                (ignored r passed)
            ∙ sym (receive_loop-rounds_of between later w' none))
    ]
  where
    ignored :
        (r : MqTimingPlanReceiverWorker × Option TimingPlanMessage)
        → HasPassed m.publisher_instance_id m.sequence_number r.0
        → accept_message bytes old r.0 r.1 ≡ r
    ignored r h = elim (accept_message_lem bytes old r.0 r.1) [
      | inl (n, k) ↦ absurd (ground (arith, n, h, i, s))
      | inr (n, k) ↦ k
    ]

-- The rest of a run that brings nothing new to the worker, up to an end without an error: the thread
-- is told to stop, or the queue gives nothing more.
pub data IsQuiet (w : MqTimingPlanReceiverWorker) : List Round → Type 0 where
  stopped : (later : List Round) → IsQuiet w (stop_seen ∷ later)
  empty :
      (e : Errno) (later : List Round)
      → (e ≡ etimedout) ⊎ (e ≡ eintr) ⊎ (e ≡ eagain)
      → IsQuiet w (receive_failed e ∷ later)
  old_news :
      (bytes : ℕ) (m : TimingPlanMessage) (later : List Round)
      → (IsNews bytes m w → ⊥)
      → IsQuiet w later
      → IsQuiet w (received bytes m ∷ later)

pub IsQuiet-drained :
    (w : MqTimingPlanReceiverWorker) (later : List Round) (newest : Option TimingPlanMessage)
    → IsQuiet w later
    → receive_loop later w newest ≡ some (w, drained newest)
unfolding receive_loop
IsQuiet-drained w _ newest (stopped later) = refl
IsQuiet-drained w _ newest (empty e later (inl h)) = rw h refl
IsQuiet-drained w _ newest (empty e later (inr (inl h))) = rw h refl
IsQuiet-drained w _ newest (empty e later (inr (inr h))) = rw h refl
IsQuiet-drained w _ newest (old_news bytes m later n q) =
    elim (accept_message_lem bytes m w newest) [
      | inl h ↦ absurd (n h.0)
      | inr h ↦ rw h.1 (IsQuiet-drained w later newest q)
    ]
