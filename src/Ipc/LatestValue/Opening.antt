-- ===== src/Ipc/LatestValue/Opening.antt =====
-- open(): both handles or none.
use adaptive_traffic_light.Prelude.{ℕ, ◌≡◌, refl, Bool, true, false, ◌⊎◌, none, arith}
use adaptive_traffic_light.Ipc.QueueStatus.{QueueStatus, is_success}
use adaptive_traffic_light.Ipc.LatestValue.{
  LatestValuePublisher, OpenEnv, close, open_owned, open_publisher, queue_depth,
}

-- The queue that was opened has the depth and the message size that the contract asks for.
abbrev pub IsAgreed : ℕ → OpenEnv → Type 0
IsAgreed size env = (env.attributes.mq_msgsize ≡ size) × (env.attributes.mq_maxmsg ≡ queue_depth)

module _ {M : Type 0} where
  -- Both handles are valid, or both are not.
  abbrev pub IsPaired : LatestValuePublisher M → Type 0
  IsPaired p = p.descriptor_open ≡ p.semaphore_open

  open_owned-IsPaired :
      (size : ℕ) (env : OpenEnv) (p : LatestValuePublisher M)
      → IsPaired p
      → let (s, q) = open_owned size env p in
        IsPaired q
        × (q.semaphore_open ≡ is_success s)
        × (is_success s ≡ true → p.semaphore_open ≡ false → IsAgreed size env)
        × (q.pending_latest ≡ p.pending_latest)
  unfolding open_owned
  open_owned-IsPaired size env p h = ground arith

  -- What open() leaves: valid handles on success only, on a queue that is as agreed.
  pub record IsOpened (size : ℕ) (env : OpenEnv) (reset : Bool) (p : LatestValuePublisher M)
      (r : QueueStatus × LatestValuePublisher M) : Type 0 where
    pub paired : IsPaired r.1
    pub reported : r.1.semaphore_open ≡ is_success r.0
    pub agreed :
        is_success r.0 ≡ true → (reset ≡ true) ⊎ (p.semaphore_open ≡ false) → IsAgreed size env
    pub dropped : reset ≡ true → r.1.pending_latest ≡ none

  -- open() of a publisher whose handles are both valid or both not: afterwards both are valid if
  -- it reports success, and neither is if it reports anything else; with a reset, or when it was
  -- closed before, success means that the queue's depth and message size are the agreed ones; and
  -- after a reset the pending value is gone.
  pub open_publisher-IsOpened :
      (size : ℕ) (env : OpenEnv) (reset : Bool) (p : LatestValuePublisher M)
      → IsPaired p
      → IsOpened size env reset p (open_publisher size env reset p)
  unfolding open_publisher
  open_publisher-IsOpened size env false p h = ground (arith, open_owned-IsPaired size env p h)
  open_publisher-IsOpened size env true p h =
      ground (arith, open_owned-IsPaired size env (record (close p) { pending_latest = none }) refl)
