-- ===== src/Controller/Output/Handshake/Wakeups.antt =====
-- output_simulator.cpp: the flag that lets submit() leave out a notification.
use adaptive_traffic_light.Prelude.{◌<◌, ◌≡◌, refl, ◌⊎◌, inl, inr, true, false, arith}
use adaptive_traffic_light.Controller.Output.Handshake.{
  Handshake, claimed, awake, loaded, store_mailbox, exchange_pending, post_notification,
  take_notification, clear_pending, load_mailbox, Move, stores, exchanges, posts, takes, clears,
  loads, Reached, begins, moves,
}

-- A pending notification is posted, about to be posted, or taken and not yet cleared.
abbrev IsNotified : Handshake → Type 0
IsNotified h =
    h.notification_pending ≡ true
    → (0 < h.semaphore) ⊎ (h.submit_at ≡ claimed) ⊎ (h.run_at ≡ awake) ⊎ (h.run_at ≡ loaded)

Move-IsNotified : {h g : Handshake} → Move h g → IsNotified h → IsNotified g
unfolding store_mailbox exchange_pending post_notification take_notification clear_pending
    load_mailbox
Move-IsNotified {h} (stores packed e) v k = ground (arith, v k, e)
Move-IsNotified {h} (exchanges e) v k = ground (arith, v, e)
Move-IsNotified {h} (posts true e) v k = inl (omega arith)
Move-IsNotified {h} (posts false e) v k = absurd (ground (arith, k))
Move-IsNotified {h} (takes e l) v k = inr (inr (inl refl))
Move-IsNotified {h} (clears e) v k = absurd (ground (arith, k))
Move-IsNotified {h} (loads e) v k = ground (arith, v k, e)

-- However submit() and run() interleave, and whichever of run()'s two accesses takes effect first: as
-- long as the flag says that a notification is pending, so that submit() posts none, one is under
-- way: the semaphore can be taken, or submit() is about to post it, or run() has taken one and is
-- still to clear the flag.
pub pending_is_notified :
    {h : Handshake}
    → Reached h
    → h.notification_pending ≡ true
    → (0 < h.semaphore) ⊎ (h.submit_at ≡ claimed) ⊎ (h.run_at ≡ awake) ⊎ (h.run_at ≡ loaded)
pending_is_notified begins k = absurd (ground (arith, k))
pending_is_notified (moves r m) k = Move-IsNotified m (pending_is_notified r) k
