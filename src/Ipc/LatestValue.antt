-- ===== src/Ipc/LatestValue.antt =====
-- ipc/include/traffic_ipc/latest_value_queue.h: a POSIX message queue of depth four behind a
-- semaphore, from which the consumer takes the newest message only. The system calls are the
-- fields of `Channel`; what POSIX says of them is `IsPosix`.
pub mod Publishing
pub mod Draining
pub mod Register
pub mod Locking
pub mod Opening
pub mod ListChannel
mod Tests
use adaptive_traffic_light.Prelude.{
  ℕ, zero, suc, ◌≤◌, ◌≡◌, ◌≢◌, Bool, true, false, ◌||◌, ◌&&◌, not, if◌then◌else◌, ◌==◌, Option,
  none, some, List, [], ◌∷◌, ◌++◌, length,
}
use adaptive_traffic_light.Ipc.Errno.{
  Errno, no_error, eagain, ebadf, emsgsize, is_eagain, is_eintr, is_enoent, MqAttr,
}
use adaptive_traffic_light.Ipc.QueueStatus.{
  QueueStatus, success, busy, empty, not_found, deferred, contract_mismatch, system_error,
}

abbrev pub queue_depth : ℕ
queue_depth = 4

-- mq_receive(): a message of the asked size, bytes of another size, or an error.
pub data Received (M : Type 0) : Type 0 where
  message : M → Received M
  other_size : Received M
  failed : Errno → Received M

-- The queue and the semaphore, as the calls see them. `none` is success.
pub record Channel (M : Type 0) : Type 1 where
  pub World : Type 0
  pub contents : World → List M
  pub permits : World → ℕ
  pub sem_trywait : World → Option Errno × World
  pub sem_post : World → World
  pub mq_send : M → World → Option Errno × World
  pub mq_receive : World → Received M × World

-- Messages of one priority leave in the order in which they came; a call that fails leaves the
-- queue as it is; the queue was created for `queue_depth` messages.
pub record IsPosix {M : Type 0} (c : Channel M) : Type 0 where
  pub bounded : (w : c.World) → length (c.contents w) ≤ queue_depth
  pub locked : (w : c.World) → c.contents (c.sem_trywait w).1 ≡ c.contents w
  pub taken :
      (w : c.World) → (c.sem_trywait w).0 ≡ none → c.permits w ≡ suc (c.permits (c.sem_trywait w).1)
  pub not_taken :
      (w : c.World) → (c.sem_trywait w).0 ≢ none → c.permits (c.sem_trywait w).1 ≡ c.permits w
  pub unlocked : (w : c.World) → c.contents (c.sem_post w) ≡ c.contents w
  pub posted : (w : c.World) → c.permits (c.sem_post w) ≡ suc (c.permits w)
  pub sent :
      (m : M) (w : c.World)
      → (c.mq_send m w).0 ≡ none
      → c.contents (c.mq_send m w).1 ≡ c.contents w ++ (m ∷ [])
  pub not_sent :
      (m : M) (w : c.World) (e : Errno)
      → (c.mq_send m w).0 ≡ some e
      → c.contents (c.mq_send m w).1 ≡ c.contents w
  pub full :
      (m : M) (w : c.World) → (c.mq_send m w).0 ≡ some eagain → length (c.contents w) ≡ queue_depth
  pub send_keeps : (m : M) (w : c.World) → c.permits (c.mq_send m w).1 ≡ c.permits w
  pub received :
      (w : c.World) (m : M)
      → (c.mq_receive w).0 ≡ message m
      → c.contents w ≡ m ∷ c.contents (c.mq_receive w).1
  pub misread :
      (w : c.World) → (c.mq_receive w).0 ≡ other_size → c.contents (c.mq_receive w).1 ≡ c.contents w
  pub nothing :
      (w : c.World) (e : Errno)
      → (c.mq_receive w).0 ≡ failed e
      → c.contents (c.mq_receive w).1 ≡ c.contents w
  pub none_there : (w : c.World) → (c.mq_receive w).0 ≡ failed eagain → c.contents w ≡ []
  pub receive_keeps : (w : c.World) → c.permits (c.mq_receive w).1 ≡ c.permits w

-- `descriptor_open`, `semaphore_open`: the handle is not the invalid one.
pub record LatestValuePublisher (M : Type 0) : Type 0 where
  pub descriptor_open : Bool
  pub semaphore_open : Bool
  pub pending_latest : Option M
  pub last_error : Errno

pub record LatestValueConsumer : Type 0 where
  pub descriptor_open : Bool
  pub semaphore_open : Bool
  pub last_error : Errno

abbrev pub is_open : LatestValueConsumer → Bool
is_open k = k.descriptor_open && k.semaphore_open

module _ {M : Type 0} (c : Channel M) where
  open c use {World, sem_trywait, sem_post, mq_send, mq_receive}

  -- The status, `lastError` and the world. `is_open` says whether the semaphore is valid.
  unfoldable pub try_lock : Bool → World → QueueStatus × Errno × World
  try_lock is_open w =
      if not is_open
      then (system_error, ebadf, w)
      else (let (r, v) = sem_trywait w in
          elim r [
            | none ↦ (success, no_error, v)
            | some e ↦ (if is_eagain e || is_eintr e then busy else system_error, e, v)
          ])

  -- publish() from the second mq_send() on.
  unfoldable pub resend :
      M → LatestValuePublisher M → World → QueueStatus × LatestValuePublisher M × World
  resend m p w =
      let (s, v) = mq_send m w in
      elim s [
        | none ↦ (success, record p { pending_latest = none; last_error = no_error }, sem_post v)
        | some e ↦ (system_error, record p { last_error = e }, sem_post v)
      ]

  -- publish() from the first mq_send() on; the destructor of `unlock` posts on every return.
  unfoldable pub send_newest :
      M → LatestValuePublisher M → World → QueueStatus × LatestValuePublisher M × World
  send_newest m p w =
      let (s, v) = mq_send m w in
      elim s [
        | none ↦ (success, record p { pending_latest = none; last_error = no_error }, sem_post v)
        | some e ↦
            if not (is_eagain e)
            then (system_error, record p { last_error = e }, sem_post v)
            else (let (r, u) = mq_receive v in
                elim r [
                  | failed f ↦ (system_error, record p { last_error = f }, sem_post u)
                  | _ ↦ resend m p u
                ])
      ]

  -- `*pendingLatest_` is `newest` when it is read.
  unfoldable pub publish :
      M → LatestValuePublisher M → World → QueueStatus × LatestValuePublisher M × World
  publish newest p w =
      if not p.descriptor_open || not p.semaphore_open
      then (system_error, record p { last_error = ebadf; pending_latest = some newest }, w)
      else (let (s, e, v) = try_lock p.semaphore_open w in
          let q = record p { pending_latest = some newest; last_error = e } in
          elim s [
            | busy ↦ (deferred, q, v)
            | success ↦ send_newest newest q v
            | other ↦ (other, q, v)
          ])

  -- The rounds that are left, `candidate` of those before, and where the loop stopped: the last
  -- candidate, or the status and error of an early return.
  unfoldable pub drain : ℕ → Option M → World → (Option (QueueStatus × Errno) × Option M) × World
  drain zero candidate w = ((none, candidate), w)
  drain (suc n) candidate w =
      let (r, v) = mq_receive w in
      elim r [
        | message m ↦ drain n (some m) v
        | other_size ↦ ((some (contract_mismatch, emsgsize), candidate), v)
        | failed e ↦
            if is_eagain e then ((none, candidate), v) else ((some (system_error, e), candidate), v)
      ]

  -- The status, what is written to `latest`, the consumer and the world.
  unfoldable pub receive_latest :
      LatestValueConsumer → World → QueueStatus × Option M × LatestValueConsumer × World
  receive_latest k w =
      if not (is_open k)
      then (not_found, none, record k { last_error = ebadf }, w)
      else (let (s, e, v) = try_lock k.semaphore_open w in
          elim s [
            | success ↦
                let ((stopped, candidate), u) = drain queue_depth none v in
                elim stopped [
                  | some (t, f) ↦ (t, none, record k { last_error = f }, sem_post u)
                  | none ↦ elim candidate [
                    | none ↦ (empty, none, record k { last_error = eagain }, sem_post u)
                    | some m ↦ (success, some m, record k { last_error = no_error }, sem_post u)
                  ]
                ]
            | other ↦ (other, none, record k { last_error = e }, v)
          ])

-- What the calls of open() return.
pub record OpenEnv : Type 0 where
  pub mq_unlink_error : Option Errno
  pub sem_unlink_error : Option Errno
  pub sem_open_error : Option Errno
  pub mq_open_error : Option Errno
  pub getattr_error : Option Errno
  pub attributes : MqAttr

-- `size` is sizeof(Message).
abbrev pub validate_queue_contract : ℕ → OpenEnv → QueueStatus × Errno
validate_queue_contract size env = elim env.getattr_error [
  | some e ↦ (system_error, e)
  | none ↦
      if not (env.attributes.mq_msgsize == size) || not (env.attributes.mq_maxmsg == queue_depth)
      then (contract_mismatch, emsgsize)
      else (success, no_error)
]

-- An error of an unlink call, unless there was nothing to unlink.
abbrev pub unlink_failure : Option Errno → Option Errno
unlink_failure none = none
unlink_failure (some e) = if is_enoent e then none else some e

module _ {M : Type 0} where
  abbrev pub close : LatestValuePublisher M → LatestValuePublisher M
  close p = record p { descriptor_open = false; semaphore_open = false }

  -- What open() does after the reset.
  unfoldable pub open_owned :
      ℕ → OpenEnv → LatestValuePublisher M → QueueStatus × LatestValuePublisher M
  open_owned size env p =
      if p.descriptor_open && p.semaphore_open then (success, p) else elim env.sem_open_error [
        | some e ↦ (system_error, record p { semaphore_open = false; last_error = e })
        | none ↦ elim env.mq_open_error [
          | some e ↦ (
            system_error,
            record p { descriptor_open = false; semaphore_open = false; last_error = e },
          )
          | none ↦
              let (s, e) = validate_queue_contract size env in
              let q = record p { descriptor_open = true; semaphore_open = true; last_error = e } in
              elim s [ success ↦ (success, q) | other ↦ (other, close q) ]
        ]
      ]

  unfoldable pub open_publisher :
      ℕ → OpenEnv → Bool → LatestValuePublisher M → QueueStatus × LatestValuePublisher M
  open_publisher size env false p = open_owned size env p
  open_publisher size env true p =
      let q = record (close p) { pending_latest = none } in
      elim (unlink_failure env.mq_unlink_error) [
        | some e ↦ (system_error, record q { last_error = e })
        | none ↦ elim (unlink_failure env.sem_unlink_error) [
          | some e ↦ (system_error, record q { last_error = e })
          | none ↦ open_owned size env q
        ]
      ]

abbrev pub close_consumer : LatestValueConsumer → LatestValueConsumer
close_consumer k = record k { descriptor_open = false; semaphore_open = false }

unfoldable pub open_consumer : ℕ → OpenEnv → LatestValueConsumer → QueueStatus × LatestValueConsumer
open_consumer size env k =
    if k.descriptor_open && k.semaphore_open then (success, k) else elim env.sem_open_error [
      | some e ↦ (
        if is_enoent e then not_found else system_error,
        record k { semaphore_open = false; last_error = e },
      )
      | none ↦ elim env.mq_open_error [
        | some e ↦ (
          if is_enoent e then not_found else system_error,
          record k { descriptor_open = false; semaphore_open = false; last_error = e },
        )
        | none ↦
            let (s, e) = validate_queue_contract size env in
            let q = record k { descriptor_open = true; semaphore_open = true; last_error = e } in
            elim s [ success ↦ (success, q) | other ↦ (other, close_consumer q) ]
      ]
    ]
