-- ===== src/Controller/Output/Handshake.antt =====
-- output_simulator.cpp, submit and run: the atomic accesses of the two threads, one by one. The
-- semaphore is its value: sem_post() adds one, and sem_wait() returns when it can take one away.
pub mod Wakeups
pub mod Submit
use adaptive_traffic_light.Prelude.{
  ℕ, zero, suc, ◌+◌, ◌-◌, ◌≡◌, ◌⊎◌, Bool, true, false, not, if◌then◌else◌, ◌<◌,
}

-- Where the state machine's thread is in submit(): outside, behind the store of the mailbox, or
-- behind an exchange that found no notification pending.
pub data SubmitAt : Type 0 where
  outside stored claimed : SubmitAt

-- Where the output thread is in run(): at sem_wait(), behind it, or behind the load of
-- the mailbox with the flag still to be cleared, or behind the clearing with the load to come. The
-- store that clears is a release and the load an acquire, so that either may take effect first.
pub data RunAt : Type 0 where
  waiting awake loaded cleared : RunAt

-- `shown` is the word that was loaded last; `post_failed` says that the last sem_post() failed.
pub record Handshake : Type 0 where
  pub mailbox : ℕ
  pub notification_pending : Bool
  pub semaphore : ℕ
  pub shown : ℕ
  pub submit_at : SubmitAt
  pub run_at : RunAt
  pub post_failed : Bool

unfoldable pub store_mailbox : ℕ → Handshake → Handshake
store_mailbox packed h = record h { mailbox = packed; submit_at = stored }

unfoldable pub exchange_pending : Handshake → Handshake
exchange_pending h = record h {
  notification_pending = true;
  submit_at = if h.notification_pending then outside else claimed;
}

unfoldable pub post_notification : Bool → Handshake → Handshake
post_notification post_ok h =
    if post_ok
    then record h { semaphore = h.semaphore + 1; submit_at = outside; post_failed = false }
    else record h { notification_pending = false; submit_at = outside; post_failed = true }

unfoldable pub take_notification : Handshake → Handshake
take_notification h = record h { semaphore = h.semaphore - 1; run_at = awake }

abbrev has_loaded : RunAt → Bool
has_loaded loaded = true
has_loaded _ = false

abbrev has_cleared : RunAt → Bool
has_cleared cleared = true
has_cleared _ = false

unfoldable pub clear_pending : Handshake → Handshake
clear_pending h = record h {
  notification_pending = false;
  run_at = if has_loaded h.run_at then waiting else cleared;
}

unfoldable pub load_mailbox : Handshake → Handshake
load_mailbox h = record h {
  shown = h.mailbox;
  run_at = if has_cleared h.run_at then waiting else loaded;
}

-- What either thread can do next.
pub data Move (h : Handshake) : Handshake → Type 0 where
  stores : (packed : ℕ) → h.submit_at ≡ outside → Move h (store_mailbox packed h)
  exchanges : h.submit_at ≡ stored → Move h (exchange_pending h)
  posts : (post_ok : Bool) → h.submit_at ≡ claimed → Move h (post_notification post_ok h)
  takes : h.run_at ≡ waiting → 0 < h.semaphore → Move h (take_notification h)
  clears : (h.run_at ≡ awake) ⊎ (h.run_at ≡ loaded) → Move h (clear_pending h)
  loads : (h.run_at ≡ awake) ⊎ (h.run_at ≡ cleared) → Move h (load_mailbox h)

-- The states that the two threads get to, from an empty mailbox.
pub data Reached : Handshake → Type 0 where
  begins : Reached (record {
    mailbox = 0;
    notification_pending = false;
    semaphore = 0;
    shown = 0;
    submit_at = outside;
    run_at = waiting;
    post_failed = false;
  })
  moves : {h g : Handshake} → Reached h → Move h g → Reached g
