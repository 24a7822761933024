-- ===== src/Lifecycle/Flights/Cancellation.antt =====
-- The cancellation of futures of `SingleFlightReattestor` over the steps of callers and of worker
-- threads: what every step keeps of a task.
use cathedral_compute.Base.{
  ℕ, suc, zero, ◌≡◌, refl, sym, ap, ◌∙◌, String, Bool, true, false, [], ◌∷◌, some, nat_beq,
  nat_beq_iff, nat_eq, ◌==◌, string_eq, arith, Bool-cases, Option-cases, inl, inr,
}
use cathedral_compute.Base.Int.{ℤ, pos, ltb_ℤ, int_eq}
use cathedral_compute.Base.Dict.{Dict, get}
use cathedral_compute.Lifecycle.Flights.{
  discarded, Task, Reattestor, set_task, active_task, task_at, number_or_zero, submit, submit_open,
  join, run, cancel_task, time_out, begin_task, end_task, is_queued, is_running, update_if,
  invoke_begin, invoke_end, set_result, is_checked, return_task, completed, discard, cancel,
  set_events, discard_one, discard_queued, is_current, close,
}
use cathedral_compute.Lifecycle.Flights.Single.{
  Evolves, IsSingle, has_passed, some-injective, cancel_task-Evolves, begin_task-Evolves,
  end_task-Evolves, return_task-Evolves,
}
use cathedral_compute.Lifecycle.Flights.Interleavings.{
  Step, runs, times_out, begins, ends, returns, completes, cancels, closes, Reach, step,
  Reach-IsSingle, active-done,
}

module _ {V : Type 0} where
  -- Every task is still there, and has only evolved.
  abbrev pub Persists : Reattestor V → Reattestor V → Type 0
  Persists r s =
      (id : ℕ) (t : Task V)
      → r.tasks id ≡ some t
      → (u : Task V) × (s.tasks id ≡ some u) × Evolves t u

  Evolves-refl : (t : Task V) → Evolves t t
  Evolves-refl t = record {
    same_hotkey = refl;
    stays_done = λ h. h;
    stays_cancelled = λ h. h;
    never_returns = λ h n. n;
  }

  Evolves-trans : (t u w : Task V) → Evolves t u → Evolves u w → Evolves t w
  Evolves-trans t u w a b = record {
    same_hotkey = b.same_hotkey ∙ a.same_hotkey;
    stays_done = λ h. b.stays_done (a.stays_done h);
    stays_cancelled = λ h. b.stays_cancelled (a.stays_cancelled h);
    never_returns = λ h n. b.never_returns (a.stays_cancelled h) (a.never_returns h n);
  }

  Persists-refl : (r : Reattestor V) → Persists r r
  Persists-refl r id t e = (t, e, Evolves-refl t)

  Persists-trans : (r s q : Reattestor V) → Persists r s → Persists s q → Persists r q
  Persists-trans r s q a b id t e =
      let (u, at_u, ev) = a id t e in
      let (w, at_w, ev') = b id u at_u in (w, at_w, Evolves-trans t u w ev ev')

  set_task-Persists :
      (r : Reattestor V) (k : ℕ) (old new : Task V)
      → r.tasks k ≡ some old
      → Evolves old new
      → Persists r (set_task r k new)
  set_task-Persists r k old new at ev id t e = elim (Bool-cases (nat_beq id k)) [
    | inr other ↦ (t, rw other e, Evolves-refl t)
    | inl same ↦
        let key = (nat_beq_iff id k).0 same in
        let was : old ≡ t = some-injective old t (sym at ∙ (ap r.tasks (sym key) ∙ e)) in
        (new, rw same refl, rw (sym was) ev)
  ]

  update_if-Persists :
      (test : Task V → Bool) (change : Task V → Task V)
      → ((t : Task V) → test t ≡ true → Evolves t (change t))
      → (id : ℕ) (r : Reattestor V) → Persists r (update_if test change id r)
  update_if-Persists test change ev id r = elim (Option-cases (r.tasks id)) [
    | inl absent ↦ rw (absent, update_if) (Persists-refl r)
    | inr (t, at) ↦ elim (Bool-cases (test t)) [
      | inl passes ↦
          rw (at, update_if) (rw passes (set_task-Persists r id t (change t) at (ev t passes)))
      | inr fails ↦ rw (at, update_if) (rw fails (Persists-refl r))
    ]
  ]

  completed-Persists :
      (hotkey : String) (id : ℕ) (r : Reattestor V) → Persists r (completed hotkey id r)
  unfolding completed
  completed-Persists hotkey id r = elim (Bool-cases (is_current (get hotkey r.flights) id)) [
    | inl passes ↦ rw passes (λ k t e. (t, e, Evolves-refl t))
    | inr fails ↦ rw fails (Persists-refl r)
  ]

  discard-Persists :
      (hotkey : String) (id : ℕ) (t : Task V) (r : Reattestor V)
      → r.tasks id ≡ some t
      → Persists r (discard hotkey id t r)
  unfolding discard
  discard-Persists hotkey id t r at = elim (Bool-cases (is_queued t.future)) [
    | inr begun ↦ rw begun (set_task-Persists r id t (cancel_task t) at (cancel_task-Evolves t))
    | inl waits ↦
        let dropped = record (cancel_task t) { future = discarded } in
        let ev : Evolves t dropped = record {
          same_hotkey = refl;
          stays_done = λ h. refl;
          stays_cancelled = λ h. refl;
          never_returns = λ h n. refl;
        } in
        rw waits (
          Persists-trans r (set_task r id dropped) (completed hotkey id (set_task r id dropped))
            (set_task-Persists r id t dropped at ev)
            (completed-Persists hotkey id (set_task r id dropped)))
  ]

  cancel-Persists : (hotkey : String) (r : Reattestor V) → Persists r (cancel hotkey r).0
  unfolding cancel
  cancel-Persists hotkey r = elim (Option-cases (active_task (task_at r (get hotkey r.flights)))) [
    | inl idle ↦ rw (idle, cancel) (Persists-refl r)
    | inr (t, busy) ↦
        rw (busy, cancel)
          (discard-Persists hotkey (number_or_zero (get hotkey r.flights)) t r
            (active-done r _ t busy).0)
  ]

  join-Persists :
      (id : ℕ) (generation : ℤ) (t : Task V) (r : Reattestor V)
      → r.tasks id ≡ some t
      → Persists r (join id generation t r).0
  join-Persists id generation t r at = elim (Bool-cases (t.generation == generation)) [
    | inl same ↦ rw same (Persists-refl r)
    | inr other ↦ rw other (set_task-Persists r id t (cancel_task t) at (cancel_task-Evolves t))
  ]

  submit-Persists :
      (hotkey : String) (generation : ℤ) (r : Reattestor V)
      → IsSingle r
      → Persists r (submit hotkey generation r).0
  submit-Persists hotkey generation r inv id t e =
      let below = inv.numbered id t e in
      let other : nat_beq id r.next ≡ false = ground arith in (t, rw other e, Evolves-refl t)

  submit_open-Persists :
      (hotkey : String) (generation : ℤ) (r : Reattestor V)
      → IsSingle r
      → Persists r (submit_open hotkey generation r).0
  submit_open-Persists hotkey generation r inv = elim (Bool-cases r.closed) [
    | inl over ↦ rw over (Persists-refl r)
    | inr open_yet ↦ rw open_yet (submit-Persists hotkey generation r inv)
  ]

  run-Persists :
      (hotkey : String) (generation : ℤ) (timeout_ok : Bool) (r : Reattestor V)
      → IsSingle r
      → Persists r (run hotkey generation timeout_ok r).0
  unfolding run
  run-Persists hotkey generation timeout_ok r inv = elim (Bool-cases (hotkey == "")) [
    | inl unnamed ↦ rw unnamed (Persists-refl r)
    | inr named ↦ elim (Bool-cases (ltb_ℤ (pos 0) generation)) [
      | inr low ↦ rw (named, low) (Persists-refl r)
      | inl positive ↦ elim (Bool-cases timeout_ok) [
        | inr bad ↦ rw (named, positive, bad) (Persists-refl r)
        | inl good ↦ elim (Option-cases (active_task (task_at r (get hotkey r.flights)))) [
          | inl idle ↦
              rw (named, positive, good, idle) (submit_open-Persists hotkey generation r inv)
          | inr (t, busy) ↦
              rw (named, positive, good, busy)
                (join-Persists (number_or_zero (get hotkey r.flights)) generation t r
                  (active-done r _ t busy).0)
        ]
      ]
    ]
  ]

  set_events-Persists : (d : Dict String ℕ) (r : Reattestor V) → Persists r (set_events d r)
  unfolding set_events
  set_events-Persists [] r = Persists-refl r
  set_events-Persists ((hotkey, id) ∷ rest) r =
      let after = update_if (λ t. true) cancel_task id r in
      Persists-trans r after (set_events rest after)
        (update_if-Persists (λ t. true) cancel_task (λ t h. cancel_task-Evolves t) id r)
        (set_events-Persists rest after)

  discard_one-Persists : (id : ℕ) (r : Reattestor V) → Persists r (discard_one id r)
  unfolding discard_one
  discard_one-Persists id r = elim (Option-cases (r.tasks id)) [
    | inl absent ↦ rw (absent, discard_one) (Persists-refl r)
    | inr (t, at) ↦ elim (Bool-cases (is_queued t.future)) [
      | inr begun ↦ rw (at, discard_one) (rw begun (Persists-refl r))
      | inl waits ↦ rw (at, discard_one) (rw waits (discard-Persists t.hotkey id t r at))
    ]
  ]

  discard_queued-Persists : (n : ℕ) (r : Reattestor V) → Persists r (discard_queued n r)
  unfolding discard_queued
  discard_queued-Persists zero r = Persists-refl r
  discard_queued-Persists (suc id) r =
      Persists-trans r (discard_one id r) (discard_queued id (discard_one id r))
        (discard_one-Persists id r) (discard_queued-Persists id (discard_one id r))

  Step-Persists : {r s : Reattestor V} → Step r s → IsSingle r → Persists r s
  unfolding time_out invoke_begin invoke_end set_result close
  Step-Persists {r} (runs hotkey generation timeout_ok) inv =
      run-Persists hotkey generation timeout_ok r inv
  Step-Persists {r} (times_out id) inv =
      update_if-Persists (λ t. true) cancel_task (λ t h. cancel_task-Evolves t) id r
  Step-Persists {r} (begins id) inv =
      update_if-Persists (λ t. is_queued t.future) begin_task begin_task-Evolves id r
  Step-Persists {r} (ends result id) inv =
      update_if-Persists (λ t. is_running t.future) (end_task result) (end_task-Evolves result) id r
  Step-Persists {r} (returns id) inv =
      update_if-Persists (λ t. is_checked t.future) return_task return_task-Evolves id r
  Step-Persists {r} (completes id t at over) inv = completed-Persists t.hotkey id r
  Step-Persists {r} (cancels hotkey) inv = cancel-Persists hotkey r
  Step-Persists {r} closes inv =
      Persists-trans r (set_events r.flights r) (discard_queued r.next (set_events r.flights r))
        (set_events-Persists r.flights r) (discard_queued-Persists r.next (set_events r.flights r))

  pub data Later (r : Reattestor V) : Reattestor V → Type 0 where
    now : Later r r
    and_then : {s q : Reattestor V} → Later r s → Step s q → Later r q

  Later-Reach : {r s : Reattestor V} → Reach r → Later r s → Reach s
  Later-Reach reached now = reached
  Later-Reach reached (and_then rest taken) = step (Later-Reach reached rest) taken

  Later-Persists : (r s : Reattestor V) → Reach r → Later r s → Persists r s
  Later-Persists r s reached now = Persists-refl r
  Later-Persists r s reached (and_then {s = mid} rest taken) =
      Persists-trans r mid s (Later-Persists r mid reached rest)
        (Step-Persists taken (Reach-IsSingle (Later-Reach reached rest)))

  -- In a reachable state, a task whose event is set and that has neither returned a value nor passed
  -- its second test of the event is still there in every later state, with its event set, and has
  -- still neither passed that test nor returned a value. (A task whose event is set after that test
  -- may return.)
  pub cancelled_never_returns :
      (r s : Reattestor V) (id : ℕ) (t : Task V)
      → Reach r
      → Later r s
      → r.tasks id ≡ some t
      → t.cancelled ≡ true
      → has_passed t.future ≡ false
      → (u : Task V) × (s.tasks id ≡ some u) × (u.cancelled ≡ true) × (has_passed u.future ≡ false)
  cancelled_never_returns r s id t reached later at set not_yet =
      let (u, at_u, ev) = Later-Persists r s reached later id t at in
      (u, at_u, ev.stays_cancelled set, ev.never_returns set not_yet)
