-- ===== src/Ipc/Errno.antt =====
-- The values of `errno` that the code tells apart. `other_errno` is any other.
use adaptive_traffic_light.Prelude.{ℕ, Bool, true, false}

pub data Errno : Type 0 where
  no_error eagain eintr ebadf emsgsize enoent etimedout : Errno
  other_errno : ℕ → Errno

-- The comparison with one of the constants.
abbrev pub is_eagain : Errno → Bool
is_eagain eagain = true
is_eagain _ = false

abbrev pub is_eintr : Errno → Bool
is_eintr eintr = true
is_eintr _ = false

abbrev pub is_enoent : Errno → Bool
is_enoent enoent = true
is_enoent _ = false

abbrev pub is_etimedout : Errno → Bool
is_etimedout etimedout = true
is_etimedout _ = false

-- What mq_getattr() fills in, as far as the code reads it.
pub record MqAttr : Type 0 where
  pub mq_maxmsg : ℕ
  pub mq_msgsize : ℕ
