-- ===== src/Ipc/LatestValue/ListChannel.antt =====
-- A channel that satisfies the documented behaviour: a list of at most four messages and a number.
use adaptive_traffic_light.Prelude.{
  ℕ, zero, suc, ◌≤◌, refl, Option, none, some, List, [], ◌∷◌, length, arith,
}
use adaptive_traffic_light.Ipc.Errno.{Errno, eagain}
use adaptive_traffic_light.Ipc.LatestValue.{Channel, IsPosix, Received, message, failed}

-- At most four messages, oldest first.
pub data Queued (M : Type 0) : Type 0 where
  q0 : Queued M
  q1 : M → Queued M
  q2 : M → M → Queued M
  q3 : M → M → M → Queued M
  q4 : M → M → M → M → Queued M

-- The queue and the semaphore's value.
pub record World (M : Type 0) : Type 0 where
  pub queued : Queued M
  pub free : ℕ

abbrev list_of : {M : Type 0} → Queued M → List M
list_of q0 = []
list_of (q1 a) = a ∷ []
list_of (q2 a b) = a ∷ b ∷ []
list_of (q3 a b c) = a ∷ b ∷ c ∷ []
list_of (q4 a b c d) = a ∷ b ∷ c ∷ d ∷ []

abbrev trywait : {M : Type 0} → World M → Option Errno × World M
trywait w = elim w.free [ zero ↦ (some eagain, w) | suc n ↦ (none, record w { free = n }) ]

abbrev enqueue : {M : Type 0} → M → Queued M → Option Errno × Queued M
enqueue m q0 = (none, q1 m)
enqueue m (q1 a) = (none, q2 a m)
enqueue m (q2 a b) = (none, q3 a b m)
enqueue m (q3 a b c) = (none, q4 a b c m)
enqueue m (q4 a b c d) = (some eagain, q4 a b c d)

abbrev dequeue : {M : Type 0} → Queued M → Received M × Queued M
dequeue q0 = (failed eagain, q0)
dequeue (q1 a) = (message a, q0)
dequeue (q2 a b) = (message a, q1 b)
dequeue (q3 a b c) = (message a, q2 b c)
dequeue (q4 a b c d) = (message a, q3 b c d)

abbrev pub list_channel : {M : Type 0} → Channel M
list_channel {M} = record {
  World = World M;
  contents = λ w. list_of w.queued;
  permits = λ w. w.free;
  sem_trywait = trywait;
  sem_post = λ w. record w { free = suc w.free };
  mq_send = λ m w. ((enqueue m w.queued).0, record w { queued = (enqueue m w.queued).1 });
  mq_receive = λ w. ((dequeue w.queued).0, record w { queued = (dequeue w.queued).1 });
}

at_most_four : {M : Type 0} (q : Queued M) → length (list_of q) ≤ 4
at_most_four q0 = omega arith
at_most_four (q1 a) = omega arith
at_most_four (q2 a b) = omega arith
at_most_four (q3 a b c) = omega arith
at_most_four (q4 a b c d) = omega arith

pub list_channel-IsPosix : {M : Type 0} → IsPosix (list_channel {M = M})
list_channel-IsPosix = record {
  bounded = λ w. at_most_four w.queued;
  locked = λ w. ground arith;
  taken = λ w h. ground arith;
  not_taken = λ w h. ground arith;
  unlocked = λ w. refl;
  posted = λ w. refl;
  sent = λ m w h. ground arith;
  not_sent = λ m w e h. ground arith;
  full = λ m w h. ground arith;
  send_keeps = λ m w. refl;
  received = λ w m h. ground arith;
  misread = λ w h. ground arith;
  nothing = λ w e h. ground arith;
  none_there = λ w h. ground arith;
  receive_keeps = λ w. refl;
}
