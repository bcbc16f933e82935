-- ===== src/Ipc/LatestValue/Register.antt =====
-- The channel xs a register that holds the newest value: publish() and receiveLatest() in any
-- order.
use adaptive_traffic_light.Prelude.{
  ◌≡◌, refl, ap, inl, inr, ◌⊎◌, false, Option, none, some, List, [], ◌∷◌, length, arith,
}
use adaptive_traffic_light.Ipc.QueueStatus.{
  QueueStatus, success, busy, empty, not_found, deferred, contract_mismatch, system_error,
  is_success,
}
use adaptive_traffic_light.Ipc.LatestValue.{
  Channel, IsPosix, LatestValuePublisher, LatestValueConsumer, publish, receive_latest,
}
use adaptive_traffic_light.Ipc.LatestValue.Publishing.{IsRest, publish-cases}
use adaptive_traffic_light.Ipc.LatestValue.Draining.{
  newest, newest-append, IsSpared, Taken, receive_latest-Taken,
}

-- The calls of the two processes, and what a call returns.
pub data Call (M : Type 0) : Type 0 where
  publishes : M → Call M
  receives : Call M

pub data Reply (M : Type 0) : Type 0 where
  published : QueueStatus → Reply M
  got : QueueStatus → Option M → Reply M

-- A register with one place. A call that fails leaves it alone, except a receive that ends with an
-- error, which leaves it alone or loses the value.
pub data Acts {M : Type 0} : Option M → Call M → Reply M → Option M → Type 0 where
  written : (r : Option M) (m : M) → Acts r (publishes m) (published success) (some m)
  refused :
      (r : Option M) (m : M) (s : QueueStatus)
      → is_success s ≡ false
      → Acts r (publishes m) (published s) r
  read : (m : M) → Acts (some m) receives (got success (some m)) none
  nothing_new : Acts none receives (got empty none) none
  locked_out : (r : Option M) → Acts r receives (got busy none) r
  not_open : (r : Option M) → Acts r receives (got not_found none) r
  call_failed : (r t : Option M) → (t ≡ r) ⊎ (t ≡ none) → Acts r receives (got system_error none) t
  size_differs :
      (r t : Option M) → (t ≡ r) ⊎ (t ≡ none) → Acts r receives (got contract_mismatch none) t

pub data Runs {M : Type 0} : Option M → List (Call M) → List (Reply M) → Option M → Type 0 where
  done : (r : Option M) → Runs r [] [] r
  after :
      {r t u : Option M} {a : Call M} {b : Reply M} {xs : List (Call M)} {ys : List (Reply M)}
      → Acts r a b t
      → Runs t xs ys u
      → Runs r (a ∷ xs) (b ∷ ys) u

module _ {M : Type 0} (c : Channel M) where
  open c use {World, contents}

  pub record Ends : Type 0 where
    pub publisher : LatestValuePublisher M
    pub consumer : LatestValueConsumer
    pub world : World

  abbrev pub call : Call M → Ends → Reply M × Ends
  call (publishes m) s =
      let (r, p, w) = publish c m s.publisher s.world in
      (published r, record s { publisher = p; world = w })
  call receives s =
      let (r, o, k, w) = receive_latest c s.consumer s.world in
      (got r o, record s { consumer = k; world = w })

  abbrev pub calls : List (Call M) → Ends → List (Reply M) × Ends
  calls [] s = ([], s)
  calls (a ∷ xs) s = let (b, t) = call a s in let (ys, u) = calls xs t in (b ∷ ys, u)

  abbrev pub value : Ends → Option M
  value s = newest none (contents s.world)

  newest_of_rest :
      (w : World) (kept : List M) → IsRest c w kept → newest none kept ≡ newest none (contents w)
  newest_of_rest w kept (inl same) = ap (newest none) same
  newest_of_rest w [] (inr (old, e, d)) = absurd (omega (arith, ap length e, d))
  newest_of_rest w (x ∷ kept) (inr (old, e, d)) = rw e refl

  module _ (posix : IsPosix c) where
    call-Acts : (a : Call M) (s : Ends) → Acts (value s) a (call a s).0 (value (call a s).1)
    call-Acts (publishes m) s = elim (publish-cases c posix m s.publisher s.world) [
      | inl q ↦ rw (q.status, q.queue.2, newest-append none q.queue.0 m) (written (value s) m)
      | inr k ↦ rw (newest_of_rest s.world _ k.queue) (refused (value s) m _ k.status)
    ]
    call-Acts receives s =
        read_reply (receive_latest c s.consumer s.world)
          (receive_latest-Taken c posix s.consumer s.world)
      where
        kept_or_lost :
            (w : World)
            → IsSpared c s.world w
            → (newest none (contents w) ≡ value s) ⊎ (newest none (contents w) ≡ none)
        kept_or_lost w (inl e) = inl e
        kept_or_lost w (inr e) = inr (ap (newest none) e)

        read_reply :
            (r : QueueStatus × Option M × LatestValueConsumer × World)
            → Taken c s.world r
            → Acts (value s) receives (got r.0 r.1) (newest none (contents r.3))
        read_reply (success, o, k, w) (m, e, n, left) = rw (e, n, left) (read m)
        read_reply (empty, o, k, w) (e, n, left) = rw (e, n, left) nothing_new
        read_reply (busy, o, k, w) (e, same) = rw (e, same) (locked_out (value s))
        read_reply (not_found, o, k, w) (e, same) = rw (e, same) (not_open (value s))
        read_reply (deferred, o, k, w) h = elim h [ ]
        read_reply (system_error, o, k, w) (e, spared) =
            rw e (call_failed (value s) _ (kept_or_lost w spared))
        read_reply (contract_mismatch, o, k, w) (e, spared) =
            rw e (size_differs (value s) _ (kept_or_lost w spared))

    -- Any sequence of publish() and receiveLatest() runs like a register that holds the newest
    -- value: a publish that succeeds writes its value over what is there, a receive that succeeds
    -- takes the value out and returns it, and `empty` is said of an empty register only. Any other
    -- publish, and a receive that meets a held lock or a consumer that is not open, leaves the
    -- register alone; a receive that ends with an error leaves it alone or empties it, and returns
    -- nothing.
    pub calls-Runs :
        (xs : List (Call M)) (s : Ends) → Runs (value s) xs (calls xs s).0 (value (calls xs s).1)
    calls-Runs [] s = done (value s)
    calls-Runs (a ∷ xs) s = after (call-Acts a s) (calls-Runs xs (call a s).1)
