-- ===== src/Ipc/LatestValue/Publishing.antt =====
-- publish(): where the newest value is afterwards, whatever the calls return.
use adaptive_traffic_light.Prelude.{
  ◌≡◌, refl, option-elim, if-elim, Bool, false, not, ◌||◌, ◌⊎◌, inl, inr, none, some, List, [], ◌∷◌,
  ◌++◌, length, arith,
}
use adaptive_traffic_light.Ipc.Errno.{Errno, eagain, is_eagain}
use adaptive_traffic_light.Ipc.QueueStatus.{
  QueueStatus, success, busy, deferred, system_error, is_success,
}
use adaptive_traffic_light.Ipc.LatestValue.{
  Channel, IsPosix, LatestValuePublisher, Received, message, other_size, failed, try_lock, resend,
  send_newest, publish, queue_depth,
}

module _ {M : Type 0} (c : Channel M) where
  open c use {World, contents, permits}

  -- What is left of the older messages: all of them, or all but the oldest of a full queue.
  abbrev pub IsRest : World → List M → Type 0
  IsRest w kept =
      (kept ≡ contents w)
      ⊎ ((old : M) × (contents w ≡ old ∷ kept) × (length (contents w) ≡ queue_depth))

  -- The newest value is the last of the queue, and nothing is pending.
  pub record IsQueued (m : M) (w : World) (r : QueueStatus × LatestValuePublisher M × World)
      : Type 0 where
    pub status : r.0 ≡ success
    pub pending : r.1.pending_latest ≡ none
    pub queue : (kept : List M) × IsRest w kept × (contents r.2 ≡ kept ++ (m ∷ []))

  -- The newest value is pending.
  pub record IsKept (m : M) (w : World) (r : QueueStatus × LatestValuePublisher M × World)
      : Type 0 where
    pub status : is_success r.0 ≡ false
    pub pending : r.1.pending_latest ≡ some m
    pub deferred_keeps : r.0 ≡ deferred → contents r.2 ≡ contents w
    pub queue : IsRest w (contents r.2)

  abbrev Outcome : M → World → QueueStatus × LatestValuePublisher M × World → Type 0
  Outcome m w r = IsQueued m w r ⊎ IsKept m w r

  module _ (posix : IsPosix c) where
    open posix use {sent, not_sent, received, nothing, unlocked, locked, misread, full}

    resend-cases :
        (m : M) (p : LatestValuePublisher M) (w u : World)
        → p.pending_latest ≡ some m
        → IsRest w (contents u)
        → Outcome m w (resend c m p u)
    unfolding resend
    resend-cases m p w u h rest =
        option-elim (Outcome m w) (c.mq_send m u).0
          (λ e. inl record {
            status = refl;
            pending = refl;
            queue = (contents u, rest, rw (unlocked (c.mq_send m u).1) (sent m u e));
          })
          (λ f e. inr record {
            status = refl;
            pending = h;
            deferred_keeps = λ e. ground arith;
            queue = rw (unlocked (c.mq_send m u).1, not_sent m u f e) rest;
          })

    after_receive :
        (m : M) (p : LatestValuePublisher M) (w u : World) (r : Received M)
        → p.pending_latest ≡ some m
        → ((e : Errno) → r ≡ failed e → contents u ≡ contents w)
        → ((old : M)
            → r ≡ message old
            → (contents w ≡ old ∷ contents u) × (length (contents w) ≡ queue_depth))
        → (r ≡ other_size → contents u ≡ contents w)
        → Outcome m w (elim r [
          | failed f ↦ (system_error, record p { last_error = f }, c.sem_post u)
          | _ ↦ resend c m p u
        ])
    after_receive m p w u (message old) h f r o =
        resend-cases m p w u h (inr (old, (r old refl).0, (r old refl).1))
    after_receive m p w u other_size h f r o = resend-cases m p w u h (inl (o refl))
    after_receive m p w u (failed e) h f r o = inr record {
      status = refl;
      pending = h;
      deferred_keeps = λ d. ground arith;
      queue = inl (rw (unlocked u) (f e refl));
    }

    send_newest-cases :
        (m : M) (p : LatestValuePublisher M) (w : World)
        → p.pending_latest ≡ some m
        → Outcome m w (send_newest c m p w)
    unfolding send_newest
    send_newest-cases m p w h =
        option-elim (Outcome m w) (c.mq_send m w).0
          (λ e. inl record {
            status = refl;
            pending = refl;
            queue = (contents w, inl refl, rw (unlocked v) (sent m w e));
          })
          (λ e g.
            if-elim (Outcome m w) (not (is_eagain e))
              (λ _. inr record {
                status = refl;
                pending = h;
                deferred_keeps = λ d. ground arith;
                queue = inl (rw (unlocked v) (not_sent m w e g));
              })
              (λ t.
                after_receive m p w (c.mq_receive v).1 (c.mq_receive v).0 h
                  (λ f k. rw (nothing v f k) (not_sent m w e g))
                  (λ old k. (rw (← not_sent m w e g) (received v old k), at_depth e g t))
                  (λ k. rw (misread v k) (not_sent m w e g))))
      where
        v : World
        v = (c.mq_send m w).1

        at_depth :
            (e : Errno)
            → (c.mq_send m w).0 ≡ some e
            → not (is_eagain e) ≡ false
            → length (contents w) ≡ queue_depth
        at_depth eagain g t = full m w g
        at_depth _ g t = absurd (ground arith)

    moved_world :
        (m : M) (w v : World) (r : QueueStatus × LatestValuePublisher M × World)
        → contents v ≡ contents w
        → Outcome m v r
        → Outcome m w r
    moved_world m w v r same (inl q) =
        inl record { status = q.status; pending = q.pending; queue = rw (← same) q.queue }
    moved_world m w v r same (inr k) = inr record {
      status = k.status;
      pending = k.pending;
      deferred_keeps = λ d. rw (← same) (k.deferred_keeps d);
      queue = rw (← same) k.queue;
    }

    try_lock-contents : (b : Bool) (w : World) → contents (try_lock c b w).2 ≡ contents w
    unfolding try_lock
    try_lock-contents b w = ground (arith, locked w)

    locked-cases :
        (m : M) (p : LatestValuePublisher M) (v : World) (s : QueueStatus)
        → p.pending_latest ≡ some m
        → Outcome m v (elim s [
          | busy ↦ (deferred, p, v)
          | success ↦ send_newest c m p v
          | other ↦ (other, p, v)
        ])
    locked-cases m p v success h = send_newest-cases m p v h
    locked-cases m p v busy h =
        inr record { status = refl; pending = h; deferred_keeps = λ d. refl; queue = inl refl }
    locked-cases m p v _ h =
        inr record { status = refl; pending = h; deferred_keeps = λ d. refl; queue = inl refl }

    -- publish() on every branch: either it succeeds, and then nothing is pending and the newest value
    -- has joined the end of the queue, which has lost at most its oldest message, and that
    -- only if it was full; or it reports why not, and then the newest value is pending and
    -- the queue is as it was, but for at most the oldest message of a full one; a deferred publish leaves the
    -- queue as it is.
    pub publish-cases :
        (m : M) (p : LatestValuePublisher M) (w : World)
        → IsQueued m w (publish c m p w) ⊎ IsKept m w (publish c m p w)
    unfolding publish
    publish-cases m p w =
        if-elim (Outcome m w) (not p.descriptor_open || not p.semaphore_open)
          (λ _.
            inr record {
              status = refl;
              pending = refl;
              deferred_keeps = λ d. refl;
              queue = inl refl;
            })
          (λ _.
            moved_world m w v _ (try_lock-contents p.semaphore_open w)
              (locked-cases m (record p { pending_latest = some m; last_error = e }) v s refl))
      where
        s : QueueStatus
        s = (try_lock c p.semaphore_open w).0

        e : Errno
        e = (try_lock c p.semaphore_open w).1

        v : World
        v = (try_lock c p.semaphore_open w).2
