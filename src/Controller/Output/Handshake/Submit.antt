-- ===== src/Controller/Output/Handshake/Submit.antt =====
-- output_simulator.cpp: the three accesses of submit() in a row are the call that `Output` models.
use adaptive_traffic_light.Prelude.{ℕ, ◌+◌, ◌≡◌, Bool, if◌then◌else◌, arith}
use adaptive_traffic_light.Controller.Config.{SignalDisplay}
use adaptive_traffic_light.Controller.Output.{OutputSimulator, following_sequence, pack, submit}
use adaptive_traffic_light.Controller.Output.Handshake.{
  Handshake, outside, store_mailbox, exchange_pending, post_notification,
}

-- submit() with no other thread in between: the post follows only where no notification was
-- pending.
abbrev pub submit_at_once : Bool → ℕ → Handshake → Handshake
submit_at_once post_ok packed h =
    let g = exchange_pending (store_mailbox packed h) in
    if h.notification_pending then g else post_notification post_ok g

-- The call of submit() and its three accesses in a row agree on the mailbox, on the flag, and on
-- whether the semaphore is posted.
pub submit_at_once-submit :
    (post_ok : Bool) (d : SignalDisplay) (o : OutputSimulator) (h : Handshake)
    → h.notification_pending ≡ o.notification_pending
    → let (o', posted) = submit post_ok d o in
      let g = submit_at_once post_ok (pack (following_sequence o.next_sequence) d) h in
      (g.mailbox ≡ o'.mailbox)
      × (g.notification_pending ≡ o'.notification_pending)
      × (g.semaphore ≡ h.semaphore + (if posted then 1 else 0))
      × (g.submit_at ≡ outside)
unfolding submit store_mailbox exchange_pending post_notification
submit_at_once-submit post_ok d o h e = ground arith
