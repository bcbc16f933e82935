-- ===== src/Controller/SpscQueue.antt =====
-- traffic_signal_controller/include/common/spsc_queue.h: a ring for one producer and one consumer.
-- The loads and stores of the two indices are not split here: an operation is one step.
pub mod Indices
pub mod Fifo
mod Tests
use adaptive_traffic_light.Prelude.{
  ℕ, ◌+◌, ◌%◌, Bool, true, false, if◌then◌else◌, ◌==◌, Option, none, some, List, length, get_or,
  set,
}

-- The capacity is the length of the storage; it is far below 2^64, so that no index wraps.
pub record SpscQueue (T : Type 0) : Type 0 where
  pub storage : List T
  pub write_index : ℕ
  pub read_index : ℕ

module _ {T : Type 0} where
  abbrev pub capacity : SpscQueue T → ℕ
  capacity q = length q.storage

  abbrev pub increment : SpscQueue T → ℕ → ℕ
  increment q index = (index + 1) % capacity q

  unfoldable pub try_push : T → SpscQueue T → Bool × SpscQueue T
  try_push value q =
      let next = increment q q.write_index in
      if next == q.read_index
      then (false, q)
      else (true, record q { storage = set q.storage q.write_index value; write_index = next })

  -- `d` stands for what is read out of bounds, which does not happen.
  unfoldable pub try_pop : T → SpscQueue T → Option T × SpscQueue T
  try_pop d q = if q.read_index == q.write_index then (none, q) else (
    some (get_or q.storage q.read_index d),
    record q { read_index = increment q q.read_index },
  )

  abbrev pub empty : SpscQueue T → Bool
  empty q = q.read_index == q.write_index
