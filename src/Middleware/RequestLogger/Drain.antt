-- ===== src/Middleware/RequestLogger/Drain.antt =====
-- The goroutine gets to the end of the channel.
use api_gateway.Common.{
  ℕ, ltb, leb, List, [], ◌∷◌, ◌++◌, length, length-nil, append_nil, append_assoc, subst, Bool-cases,
  ◌≡◌, refl, sym, ap, ◌∙◌, inl, inr, arith,
}
use api_gateway.Middleware.RequestLogger.{RequestLog, LogQueue, receive, receive_from, tick}
use api_gateway.Middleware.RequestLogger.Batches.{
  Reached, receives, ticks, concat, Reached-Accounted,
}

receive-channel :
    (q : LogQueue) (entry : RequestLog) (rest : List RequestLog)
    → q.log_channel ≡ entry ∷ rest
    → (receive q).0.log_channel ≡ rest
unfolding receive receive_from
receive-channel q entry rest e =
    rw (e) (elim (Bool-cases (leb 100 (length (q.batch ++ entry ∷ [])))) [
      | inl full ↦ rw (full) refl
      | inr open_ ↦ rw (open_) refl
    ])

tick-empties : (q : LogQueue) → ((tick q).0.batch ≡ []) × ((tick q).0.log_channel ≡ q.log_channel)
unfolding tick
tick-empties q = elim (Bool-cases (ltb 0 (length q.batch))) [
  | inl some_ ↦ rw (some_) (refl, refl)
  | inr none_ ↦ rw (none_) (length-nil q.batch (ground (arith, none_)), refl)
]

-- What the goroutine does on its own, from one state to another, and the batches that it inserts.
pub data Onward : LogQueue → LogQueue → List (List RequestLog) → Type 0 where
  rests : (q : LogQueue) → Onward q q []
  receives_on :
      {q q' : LogQueue} {batches : List (List RequestLog)}
      → Onward (receive q).0 q' batches
      → Onward q q' ((receive q).1 ++ batches)
  ticks_on :
      {q q' : LogQueue} {batches : List (List RequestLog)}
      → Onward (tick q).0 q' batches
      → Onward q q' ((tick q).1 ++ batches)

-- Such steps lead on among the states that can be reached, and leave the accepted entries as they are.
Onward-Reached :
    (n : ℕ) (q q' : LogQueue) (accepted : List RequestLog) (before after : List (List RequestLog))
    → Reached n q accepted before
    → Onward q q' after
    → Reached n q' accepted (before ++ after)
Onward-Reached n q q' accepted before after r (rests _) =
    subst (Reached n q accepted) (sym (append_nil before)) r
Onward-Reached n q q' accepted before after r (receives_on {batches = rest} steps) =
    subst (Reached n q' accepted) (append_assoc before (receive q).1 rest)
      (Onward-Reached n (receive q).0 q' accepted (before ++ (receive q).1) rest (receives r) steps)
Onward-Reached n q q' accepted before after r (ticks_on {batches = rest} steps) =
    subst (Reached n q' accepted) (append_assoc before (tick q).1 rest)
      (Onward-Reached n (tick q).0 q' accepted (before ++ (tick q).1) rest (ticks r) steps)

flushes :
    (q : LogQueue)
    → q.log_channel ≡ []
    → (q' : LogQueue) × (batches : List (List RequestLog)) × Onward q q' batches
      × (q'.batch ≡ [])
      × (q'.log_channel ≡ [])
flushes q e =
    let (empty, same) = tick-empties q in (_, _, ticks_on (rests (tick q).0), empty, same ∙ e)

drains :
    (channel : List RequestLog) (q : LogQueue)
    → q.log_channel ≡ channel
    → (q' : LogQueue) × (batches : List (List RequestLog)) × Onward q q' batches
      × (q'.batch ≡ [])
      × (q'.log_channel ≡ [])
drains [] q e = flushes q e
drains (entry ∷ rest) q e =
    let (q', batches, steps, empty, drained) =
      drains rest (receive q).0 (receive-channel q entry rest e) in
    (q', (receive q).1 ++ batches, receives_on steps, empty, drained)

-- From every state that can be reached, the goroutine can go on by steps of its own, whatever was
-- inserted before, until its batch and the channel are empty; with the batches that it inserts on the
-- way all entries that the channel accepted have been inserted, once each and in order.
pub Reached-inserts :
    (buffer_size : ℕ) (q : LogQueue) (accepted : List RequestLog) (batches : List (List RequestLog))
    → Reached buffer_size q accepted batches
    → (q' : LogQueue) × (more : List (List RequestLog)) × Onward q q' more
      × (q'.batch ≡ [])
      × (q'.log_channel ≡ [])
      × (concat (batches ++ more) ≡ accepted)
Reached-inserts n q accepted batches r =
    let (q', more, steps, empty, drained) = drains q.log_channel q refl in
    let all : concat (batches ++ more) ++ (q'.batch ++ q'.log_channel) ≡ accepted =
      (Reached-Accounted n q' accepted (batches ++ more)
        (Onward-Reached n q q' accepted batches more r steps)).4 in
    (
      q',
      more,
      steps,
      empty,
      drained,
      sym (append_nil (concat (batches ++ more)))
          ∙ sym (ap (λ p. concat (batches ++ more) ++ p) (cc (empty, drained)))
          ∙ all,
    )
