-- ===== src/Ipc/LatestValue/Locking.antt =====
-- The semaphore: `SemaphoreGuard` gives it back on every return of publish() and receiveLatest().
use adaptive_traffic_light.Prelude.{
  ℕ, zero, suc, ◌≡◌, refl, ◌∙◌, if-elim, if◌then◌else◌, Bool, true, false, Option, none, some,
  arith,
}
use adaptive_traffic_light.Ipc.Errno.{Errno, emsgsize, is_eagain}
use adaptive_traffic_light.Ipc.QueueStatus.{
  QueueStatus, contract_mismatch, system_error, is_success,
}
use adaptive_traffic_light.Ipc.LatestValue.{
  Channel, IsPosix, LatestValuePublisher, LatestValueConsumer, Received, message, other_size,
  failed, try_lock, resend, send_newest, publish, drain, receive_latest, queue_depth,
}

module _ {M : Type 0} (c : Channel M) (posix : IsPosix c) where
  open c use {World, permits, mq_send, mq_receive, sem_post}
  open posix use {taken, not_taken, posted, send_keeps, receive_keeps}

  try_lock-permits :
      (b : Bool) (w : World)
      → let (s, e, v) = try_lock c b w in
        (is_success s ≡ true → permits w ≡ suc (permits v))
        × (is_success s ≡ false → permits v ≡ permits w)
  unfolding try_lock
  try_lock-permits b w = ground (arith, taken w, not_taken w)

  permits-resend :
      (m : M) (p : LatestValuePublisher M) (w : World)
      → permits (resend c m p w).2 ≡ suc (permits w)
  unfolding resend
  permits-resend m p w = ground (arith, posted (mq_send m w).1, send_keeps m w)

  permits-send_newest :
      (m : M) (p : LatestValuePublisher M) (w : World)
      → permits (send_newest c m p w).2 ≡ suc (permits w)
  unfolding send_newest
  permits-send_newest m p w = ground (
    arith,
    posted v,
    posted (mq_receive v).1,
    send_keeps m w,
    receive_keeps v,
    permits-resend m p (mq_receive v).1,
  )
    where
      v : World
      v = (mq_send m w).1

  permits-drain : (n : ℕ) (o : Option M) (w : World) → permits (drain c n o w).1 ≡ permits w
  unfolding drain
  permits-drain zero o w = refl
  permits-drain (suc n) o w = received (mq_receive w).0 (λ m. permits-drain n (some m) v)
    where
      v : World
      v = (mq_receive w).1

      received :
          (r : Received M)
          → ((m : M) → permits (drain c n (some m) v).1 ≡ permits v)
          → permits
              (elim r as (λ _. (Option (QueueStatus × Errno) × Option M) × World) [
                | message m ↦ drain c n (some m) v
                | other_size ↦ ((some (contract_mismatch, emsgsize), o), v)
                | failed e ↦
                    if is_eagain e then ((none, o), v) else ((some (system_error, e), o), v)
              ]).1
            ≡ permits w
      received (message m) rest = rest m ∙ receive_keeps w
      received other_size rest = receive_keeps w
      received (failed e) rest =
          if-elim
            (λ (d : (Option (QueueStatus × Errno) × Option M) × World). permits d.1 ≡ permits w)
            (is_eagain e) (λ _. receive_keeps w) (λ _. receive_keeps w)

  -- publish() leaves the semaphore as it found it, on every return.
  pub permits-publish :
      (m : M) (p : LatestValuePublisher M) (w : World) → permits (publish c m p w).2 ≡ permits w
  unfolding publish
  permits-publish m p w = ground (
    arith,
    try_lock-permits p.semaphore_open w,
    permits-send_newest m (record p { pending_latest = some m; last_error = e }) v,
  )
    where
      e : Errno
      e = (try_lock c p.semaphore_open w).1

      v : World
      v = (try_lock c p.semaphore_open w).2

  -- receiveLatest() leaves the semaphore as it found it, on every return.
  pub permits-receive_latest :
      (k : LatestValueConsumer) (w : World) → permits (receive_latest c k w).3 ≡ permits w
  unfolding receive_latest
  permits-receive_latest k w = ground (
    arith,
    try_lock-permits k.semaphore_open w,
    permits-drain queue_depth none v,
    posted (drain c queue_depth none v).1,
  )
    where
      v : World
      v = (try_lock c k.semaphore_open w).2
