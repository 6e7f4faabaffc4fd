-- ===== src/Middleware/RequestLogger/Batches.antt =====
-- Entries are neither lost, doubled nor reordered between the channel and the database.
use api_gateway.Common.{
  ℕ, ◌≤◌, ◌<◌, ltb, leb, List, [], ◌∷◌, ◌++◌, length, All, length-append, append_nil, append_assoc,
  Bool, true, false, Bool-cases, ◌≡◌, refl, sym, ap, ◌∙◌, subst, inl, inr, arith,
}
use api_gateway.Middleware.RequestLogger.{
  RequestLog, LogQueue, init_request_logger, send, receive, receive_from, tick,
}

abbrev sent : Bool → RequestLog → List RequestLog
sent true entry = entry ∷ []
sent false entry = []

-- The states that requests and the goroutine reach in any order of their steps, with the entries that
-- the channel accepted and the batches that were inserted, both in order.
pub data Reached (buffer_size : ℕ)
    : LogQueue → List RequestLog → List (List RequestLog) → Type 0 where
  started : Reached buffer_size (init_request_logger buffer_size) [] []
  sends :
      {q : LogQueue} {accepted : List RequestLog} {batches : List (List RequestLog)}
      (entry : RequestLog)
      → Reached buffer_size q accepted batches
      → Reached buffer_size (send q entry).0 (accepted ++ sent (send q entry).1 entry) batches
  receives :
      {q : LogQueue} {accepted : List RequestLog} {batches : List (List RequestLog)}
      → Reached buffer_size q accepted batches
      → Reached buffer_size (receive q).0 accepted (batches ++ (receive q).1)
  ticks :
      {q : LogQueue} {accepted : List RequestLog} {batches : List (List RequestLog)}
      → Reached buffer_size q accepted batches
      → Reached buffer_size (tick q).0 accepted (batches ++ (tick q).1)

unfoldable pub concat : List (List RequestLog) → List RequestLog
concat [] = []
concat (batch ∷ batches) = batch ++ concat batches

abbrev pub Accounted : ℕ → LogQueue → List RequestLog → List (List RequestLog) → Type 0
Accounted buffer_size q accepted batches =
    (q.buffer_size ≡ buffer_size)
    × (length q.log_channel ≤ buffer_size)
    × (length q.batch < 100)
    × All (λ batch. (0 < length batch) × (length batch ≤ 100)) batches
    × (concat batches ++ (q.batch ++ q.log_channel) ≡ accepted)

concat-append : (bs cs : List (List RequestLog)) → concat (bs ++ cs) ≡ concat bs ++ concat cs
unfolding concat
concat-append [] cs = refl
concat-append (b ∷ bs) cs =
    ap (◌++◌ b) (concat-append bs cs) ∙ sym (append_assoc b (concat bs) (concat cs))

All-append : {A : Type 0} (P : A → Type 0) (xs ys : List A) → All P xs → All P ys → All P (xs ++ ys)
All-append P [] ys h k = k
All-append P (x ∷ xs) ys h k = (h.0, All-append P xs ys h.1 k)

send-Accounted :
    (n : ℕ) (q : LogQueue) (accepted : List RequestLog) (batches : List (List RequestLog))
    (entry : RequestLog)
    → Accounted n q accepted batches
    → Accounted n (send q entry).0 (accepted ++ sent (send q entry).1 entry) batches
unfolding send
send-Accounted n q accepted batches entry (size, room, small, sizes, all) =
    elim (Bool-cases (ltb (length q.log_channel) q.buffer_size)) [
      | inl e ↦ rw (e) (
        size,
        ground (arith, e, size, length-append q.log_channel (entry ∷ [])),
        small,
        sizes,
        ap (◌++◌ (concat batches)) (sym (append_assoc q.batch q.log_channel (entry ∷ [])))
            ∙ sym (append_assoc (concat batches) (q.batch ++ q.log_channel) (entry ∷ []))
            ∙ ap (λ xs. xs ++ entry ∷ []) all,
      )
      | inr e ↦ rw (e) (size, room, small, sizes, all ∙ sym (append_nil accepted))
    ]

flush-Accounted :
    (n : ℕ) (q q' : LogQueue) (accepted batch : List RequestLog) (batches : List (List RequestLog))
    → q'.buffer_size ≡ n
    → length q'.log_channel ≤ n
    → q'.batch ≡ []
    → 0 < length batch
    → length batch ≤ 100
    → All (λ b. (0 < length b) × (length b ≤ 100)) batches
    → concat batches ++ (batch ++ q'.log_channel) ≡ accepted
    → Accounted n q' accepted (batches ++ batch ∷ [])
unfolding concat
flush-Accounted n q q' accepted batch batches size room none_ low high sizes all = (
  size,
  room,
  rw (none_) (omega arith),
  All-append (λ b. (0 < length b) × (length b ≤ 100)) batches (batch ∷ []) sizes ((low, high), tt),
  rw (none_, concat-append batches (batch ∷ []), append_nil batch)
      (append_assoc (concat batches) batch q'.log_channel ∙ all),
)

receive_from-Accounted :
    (n : ℕ) (q : LogQueue) (accepted : List RequestLog) (batches : List (List RequestLog))
    (channel : List RequestLog)
    → q.log_channel ≡ channel
    → Accounted n q accepted batches
    → Accounted n (receive_from q channel).0 accepted (batches ++ (receive_from q channel).1)
unfolding receive_from
receive_from-Accounted n q accepted batches [] e (size, room, small, sizes, all) =
    rw (append_nil batches) (size, room, small, sizes, all)
receive_from-Accounted n q accepted batches (entry ∷ rest) e (size, room, small, sizes, all) =
    let batch = q.batch ++ entry ∷ [] in
    let longer = length-append q.batch (entry ∷ []) in
    let regrouped : concat batches ++ (batch ++ rest) ≡ accepted =
      ap (◌++◌ (concat batches))
        (append_assoc q.batch (entry ∷ []) rest ∙ ap (◌++◌ q.batch) (sym e))
      ∙ all in
    let shorter : length rest ≤ n = omega (arith, subst (λ c. length c ≤ n) e room) in
    elim (Bool-cases (leb 100 (length batch))) [
      | inl full ↦ rw (full) (
          flush-Accounted n q (record q { log_channel = rest; batch = [] }) accepted batch batches
            size shorter refl (omega (arith, longer)) (omega (arith, longer, small)) sizes
            regrouped)
      | inr open_ ↦
          rw (open_, append_nil batches) (size, shorter, ground (arith, open_), sizes, regrouped)
    ]

tick-Accounted :
    (n : ℕ) (q : LogQueue) (accepted : List RequestLog) (batches : List (List RequestLog))
    → Accounted n q accepted batches
    → Accounted n (tick q).0 accepted (batches ++ (tick q).1)
unfolding tick
tick-Accounted n q accepted batches (size, room, small, sizes, all) =
    elim (Bool-cases (ltb 0 (length q.batch))) [
      | inl some_ ↦ rw (some_) (
          flush-Accounted n q (record q { batch = [] }) accepted q.batch batches size room refl
            (ground (arith, some_)) (omega (arith, small)) sizes all)
      | inr none_ ↦ rw (none_, append_nil batches) (size, room, small, sizes, all)
    ]

-- In every state that can be reached: the channel holds at most its buffer and the batch fewer than 100
-- entries, every inserted batch holds 1 to 100, and the inserted batches, then the batch, then the
-- channel are the accepted entries in their order.
pub Reached-Accounted :
    (buffer_size : ℕ) (q : LogQueue) (accepted : List RequestLog) (batches : List (List RequestLog))
    → Reached buffer_size q accepted batches
    → Accounted buffer_size q accepted batches
unfolding init_request_logger concat receive
Reached-Accounted n q accepted batches started = (refl, omega arith, omega arith, tt, refl)
Reached-Accounted n q accepted batches (sends {q = q0} {accepted = a0} {batches = b0} entry r) =
    send-Accounted n q0 a0 b0 entry (Reached-Accounted n q0 a0 b0 r)
Reached-Accounted n q accepted batches (receives {q = q0} {accepted = a0} {batches = b0} r) =
    receive_from-Accounted n q0 a0 b0 q0.log_channel refl (Reached-Accounted n q0 a0 b0 r)
Reached-Accounted n q accepted batches (ticks {q = q0} {accepted = a0} {batches = b0} r) =
    tick-Accounted n q0 a0 b0 (Reached-Accounted n q0 a0 b0 r)
