-- ===== src/Ipc/LatestValue/Tests.antt =====
-- A queue and a semaphore as a list and a number, and runs of the two ends on them.
use adaptive_traffic_light.Prelude.{ℕ, ◌≡◌, refl, true, ◌⊎◌, none, some, List, [], ◌∷◌}
use adaptive_traffic_light.Ipc.Errno.{no_error, enoent}
use adaptive_traffic_light.Ipc.QueueStatus.{success, empty, deferred}
use adaptive_traffic_light.Ipc.LatestValue.{
  LatestValuePublisher, LatestValueConsumer, OpenEnv, publish, receive_latest, send_newest, resend,
  drain, try_lock,
}
use adaptive_traffic_light.Ipc.LatestValue.ListChannel.{
  World, q0, q1, q4, list_channel, list_channel-IsPosix,
}
use adaptive_traffic_light.Ipc.LatestValue.Publishing.{IsQueued, IsKept, publish-cases}
use adaptive_traffic_light.Ipc.LatestValue.Register.{
  Call, publishes, receives, published, got, Runs, Ends, calls, value, calls-Runs,
}

-- A full queue whose semaphore is free, and one that another process holds.
abbrev full_queue : World ℕ
full_queue = record { queued = q4 1 2 3 4; free = 1 }

abbrev held_queue : World ℕ
held_queue = record { queued = q1 1; free = 0 }

abbrev opened : LatestValuePublisher ℕ
opened = record {
  descriptor_open = true;
  semaphore_open = true;
  pending_latest = none;
  last_error = no_error;
}

abbrev reader : LatestValueConsumer
reader = record { descriptor_open = true; semaphore_open = true; last_error = no_error }

-- Both processes have the channel open.
abbrev both_open : Ends (list_channel {M = ℕ})
both_open = record { publisher = opened; consumer = reader; world = full_queue }

-- An empty machine, on which every call succeeds.
abbrev fresh_machine : OpenEnv
fresh_machine = record {
  mq_unlink_error = some enoent;
  sem_unlink_error = some enoent;
  sem_open_error = none;
  mq_open_error = none;
  getattr_error = none;
  attributes = record { mq_maxmsg = 4; mq_msgsize = 72 };
}

newest_replaces_oldest : (publish list_channel 5 opened full_queue).2.queued ≡ q4 2 3 4 5
unfolding publish send_newest resend try_lock
newest_replaces_oldest = refl

held_is_deferred : (publish list_channel 5 opened held_queue).0 ≡ deferred
unfolding publish send_newest resend try_lock
held_is_deferred = refl

newest_is_taken :
    ((receive_latest list_channel reader full_queue).1 ≡ some 4)
    × ((receive_latest list_channel reader full_queue).3.queued ≡ q0)
unfolding receive_latest drain try_lock
newest_is_taken = (refl, refl)

publish-cases_example :
    IsQueued list_channel 5 full_queue (publish list_channel 5 opened full_queue)
    ⊎ IsKept list_channel 5 full_queue (publish list_channel 5 opened full_queue)
publish-cases_example = publish-cases list_channel list_channel-IsPosix 5 opened full_queue

abbrev one_published : List (Call ℕ)
one_published = publishes 5 ∷ receives ∷ receives ∷ []

one_is_read :
    (calls list_channel one_published both_open).0
    ≡ published success ∷ got success (some 5) ∷ got empty none ∷ []
unfolding publish receive_latest send_newest resend drain try_lock
one_is_read = refl

calls-Runs_example :
    let (rs, t) = calls list_channel one_published both_open in
    Runs (value list_channel both_open) one_published rs (value list_channel t)
calls-Runs_example = calls-Runs list_channel list_channel-IsPosix one_published both_open
