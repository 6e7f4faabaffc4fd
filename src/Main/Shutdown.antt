-- ===== src/Main/Shutdown.antt =====
-- cmd/gateway/main.go from the signal on, with `Run` and `Shutdown` of internal/server/server.go. Of
-- net/http: `ListenAndServe` returns nothing but errors, one of them once `Shutdown` has closed the
-- listener, while `Shutdown` itself waits for the requests in flight.
use api_gateway.Common.{
  String, ℕ, zero, suc, Bool, true, false, Option, none, some, ◌≡◌, refl, subst, ◌⊎◌, inl, inr,
}

-- Where the main goroutine is: it waits for a signal, or in `Shutdown`.
pub data Stage : Type 0 where
  waiting : Stage
  shutting_down : Stage

-- `exited` is the exit code, once there is one. `connected` is whether Redis and PostgreSQL have not
-- been closed.
pub record Process : Type 0 where
  pub stage : Stage
  pub listening : Bool
  pub in_flight : ℕ
  pub connected : Bool
  pub exited : Option ℕ

abbrev pub serving : Process
serving = record {
  stage = waiting;
  listening = true;
  in_flight = 0;
  connected = true;
  exited = none;
}

-- The goroutine that runs the server, once `Run` has returned: `log.Fatalf` on an error.
abbrev pub run_ended : Process → Option String → Process
run_ended p none = p
run_ended p (some err) = record p { exited = some 1 }

-- The main goroutine, once `Shutdown` has returned: `log.Fatal` on an error, which runs no deferred
-- call; or the end of `main`, where the deferred calls close the connections.
abbrev pub shutdown_ended : Process → Option String → Process
shutdown_ended p none = record p { connected = false; exited = some 0 }
shutdown_ended p (some err) = record p { exited = some 1 }

-- The steps of the requests, of the goroutine that runs the server, and of the main goroutine.
pub data Step : Process → Process → Type 0 where
  -- A request comes in, or is answered.
  accepts :
      (p : Process)
      → p.exited ≡ none
      → p.listening ≡ true
      → Step p (record p { in_flight = suc p.in_flight })
  answers :
      (p : Process) (n : ℕ)
      → p.exited ≡ none
      → p.in_flight ≡ suc n
      → Step p (record p { in_flight = n })
  -- `<-quit`, then `Shutdown`, which closes the listener.
  signalled :
      (p : Process)
      → p.exited ≡ none
      → p.stage ≡ waiting
      → Step p (record p { stage = shutting_down; listening = false })
  -- `ListenAndServe` returns, always with an error: it cannot listen, or the listener is closed.
  run_returns : (p : Process) (err : String) → p.exited ≡ none → Step p (run_ended p (some err))
  -- `Shutdown` returns without an error only when no request is in flight.
  shut_down :
      (p : Process)
      → p.exited ≡ none
      → p.stage ≡ shutting_down
      → p.in_flight ≡ 0
      → Step p (shutdown_ended p none)
  -- `Shutdown` returns an error, after five seconds at most.
  times_out :
      (p : Process) (err : String)
      → p.exited ≡ none
      → p.stage ≡ shutting_down
      → Step p (shutdown_ended p (some err))

pub data Steps : Process → Process → Type 0 where
  stays : (p : Process) → Steps p p
  goes : {p q r : Process} → Step p q → Steps q r → Steps p r

-- What holds of every process that serving leads to: the listener is open while the main goroutine
-- waits, and an exit with 0 leaves nothing in flight and nothing connected.
pub record Orderly (p : Process) : Type 0 where
  pub listens : p.stage ≡ waiting → p.listening ≡ true
  pub closed : p.stage ≡ shutting_down → p.listening ≡ false
  pub clean : p.exited ≡ some 0 → (p.in_flight ≡ 0) × (p.connected ≡ false)

step-Orderly : (p q : Process) → Step p q → Orderly p → Orderly q
step-Orderly p q (accepts _ fresh open_) o = record {
  listens = o.listens;
  closed = o.closed;
  clean = λ e. absurd (cc);
}
step-Orderly p q (answers _ n fresh some_) o = record {
  listens = o.listens;
  closed = o.closed;
  clean = λ e. absurd (cc);
}
step-Orderly p q (signalled _ fresh at) o = record {
  listens = λ e. absurd (cc);
  closed = λ e. refl;
  clean = λ e. absurd (cc);
}
step-Orderly p q (run_returns _ err fresh) o = record {
  listens = o.listens;
  closed = o.closed;
  clean = λ e. absurd (cc);
}
step-Orderly p q (shut_down _ fresh at none_) o = record {
  listens = o.listens;
  closed = o.closed;
  clean = λ e. (none_, refl);
}
step-Orderly p q (times_out _ err fresh at) o = record {
  listens = o.listens;
  closed = o.closed;
  clean = λ e. absurd (cc);
}

Steps-Orderly : (p q : Process) → Steps p q → Orderly p → Orderly q
Steps-Orderly p q (stays _) o = o
Steps-Orderly p q (goes {q = m} step rest) o = Steps-Orderly m q rest (step-Orderly p m step o)

serving-Orderly : Orderly serving
serving-Orderly = record {
  listens = λ e. refl;
  closed = λ e. absurd (cc);
  clean = λ e. absurd (cc);
}

-- A process that exits with 0 has answered every request and closed its connections.
pub exit-clean :
    (p : Process) → Steps serving p → p.exited ≡ some 0 → (p.in_flight ≡ 0) × (p.connected ≡ false)
exit-clean p reached e = (Steps-Orderly serving p reached serving-Orderly).clean e

Steps-append : {p q r : Process} → Steps p q → Steps q r → Steps p r
Steps-append (stays _) after = after
Steps-append (goes step rest) after = goes step (Steps-append rest after)

-- The requests in flight can all be answered.
drains :
    (n : ℕ) (p : Process) → p.exited ≡ none → p.in_flight ≡ n → Steps p (record p { in_flight = 0 })
drains zero p fresh e = subst (λ n. Steps p (record p { in_flight = n })) e (stays p)
drains (suc n) p fresh e =
    goes (answers p n fresh e) (drains n (record p { in_flight = n }) fresh refl)

finishes :
    (p : Process)
    → p.exited ≡ none
    → p.stage ≡ shutting_down
    → (q : Process) × Steps p q × (q.exited ≡ some 0) × (q.in_flight ≡ 0) × (q.connected ≡ false)
finishes p fresh at =
    let p' = record p { in_flight = 0 } in
    (
      _,
      Steps-append (drains p.in_flight p fresh refl) (goes (shut_down p' fresh at refl) (stays _)),
      refl,
      refl,
      refl,
    )

Stage-cases : (stage : Stage) → (stage ≡ waiting) ⊎ (stage ≡ shutting_down)
Stage-cases waiting = inl refl
Stage-cases shutting_down = inr refl

-- Whatever has happened, a process that has not exited can still exit with 0, with no request in
-- flight and its connections closed.
pub can_exit :
    (p : Process)
    → p.exited ≡ none
    → (q : Process) × Steps p q × (q.exited ≡ some 0) × (q.in_flight ≡ 0) × (q.connected ≡ false)
can_exit p fresh = elim (Stage-cases p.stage) [
  | inr at ↦ finishes p fresh at
  | inl at ↦
      let p' = record p { stage = shutting_down; listening = false } in
      let (q, steps, e, none_, closed_) = finishes p' fresh refl in
      (q, goes (signalled p fresh at) steps, e, none_, closed_)
]
