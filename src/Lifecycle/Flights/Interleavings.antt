-- ===== src/Lifecycle/Flights/Interleavings.antt =====
-- The steps of `SingleFlightReattestor`, by callers, waiting callers and worker threads.
use cathedral_compute.Base.{
  ℕ, suc, zero, ◌≡◌, refl, sym, ap, ◌∙◌, String, Bool, true, false, [], ◌∷◌, Option, none, some,
  nat_beq_iff, nat_eq, ◌==◌, string_eq, Result, Bool-cases, Option-cases, inl, inr,
}
use cathedral_compute.Base.Int.{ℤ, pos, ltb_ℤ, int_eq}
use cathedral_compute.Base.Dict.{Dict, get}
use cathedral_compute.Lifecycle.{LifecycleError}
use cathedral_compute.Lifecycle.Flights.{
  discarded, Task, Reattestor, done, set_task, new_reattestor, active_task, task_at, number_or_zero,
  join, submit_open, run, cancel_task, time_out, begin_task, end_task, is_queued, is_running,
  update_if, invoke_begin, invoke_end, set_result, is_checked, return_task, completed, discard,
  cancel, set_events, discard_one, discard_queued, close,
}
use cathedral_compute.Lifecycle.Flights.Single.{
  Evolves, IsSingle, true-ne-false, some-injective, none-ne-some, store-cases, set_task-IsSingle,
  update_if-IsSingle, completed-IsSingle, submit-IsSingle, cancel_task-Evolves, begin_task-Evolves,
  end_task-Evolves, return_task-Evolves, new_reattestor-IsSingle,
}

number-injective : (i j : ℕ) → some i ≡ some j → i ≡ j
number-injective i j e = cc

module _ {V : Type 0} where
  pub active-done :
      (r : Reattestor V) (o : Option ℕ) (t : Task V)
      → active_task (task_at r o) ≡ some t
      → (r.tasks (number_or_zero o) ≡ some t) × (done t.future ≡ false)
  active-done r none t e = elim (none-ne-some t e) [ ]
  active-done r (some id) t e = elim (Option-cases (r.tasks id)) [
    | inl absent ↦ elim (none-ne-some t (rw absent at e)) [ ]
    | inr (u, at) ↦ elim (Bool-cases (done u.future)) [
      | inl over ↦ elim (none-ne-some t (rw over at (rw at at e))) [ ]
      | inr live ↦
          let same = some-injective u t (rw live at (rw at at e)) in
          (at ∙ ap some same, rw (sym same) live)
    ]
  ]

  discard-IsSingle :
      (hotkey : String) (id : ℕ) (t : Task V) (r : Reattestor V)
      → r.tasks id ≡ some t
      → IsSingle r
      → IsSingle (discard hotkey id t r)
  unfolding discard
  discard-IsSingle hotkey id t r at inv = elim (Bool-cases (is_queued t.future)) [
    | inr begun ↦ rw begun (set_task-IsSingle r id t (cancel_task t) at (cancel_task-Evolves t) inv)
    | inl waits ↦
        let dropped = record (cancel_task t) { future = discarded } in
        let ev : Evolves t dropped = record {
          same_hotkey = refl;
          stays_done = λ h. refl;
          stays_cancelled = λ h. refl;
          never_returns = λ h n. refl;
        } in
        rw waits (
          completed-IsSingle hotkey id (set_task r id dropped)
            (λ u e. elim (store-cases r.tasks id id dropped u e) [
              | inl (eq, same) ↦ rw (sym same) refl
              | inr (other, e') ↦
                  elim (true-ne-false (sym ((nat_beq_iff id id).1 refl) ∙ other)) [ ]
            ])
            (set_task-IsSingle r id t dropped at ev inv))
  ]

  cancel-IsSingle : (hotkey : String) (r : Reattestor V) → IsSingle r → IsSingle (cancel hotkey r).0
  unfolding cancel
  cancel-IsSingle hotkey r inv =
      elim (Option-cases (active_task (task_at r (get hotkey r.flights)))) [
        | inl idle ↦ rw (idle, cancel) inv
        | inr (t, busy) ↦
            rw (busy, cancel)
              (discard-IsSingle hotkey (number_or_zero (get hotkey r.flights)) t r
                (active-done r _ t busy).0 inv)
      ]

  join-IsSingle :
      (id : ℕ) (generation : ℤ) (t : Task V) (r : Reattestor V)
      → r.tasks id ≡ some t
      → IsSingle r
      → IsSingle (join id generation t r).0
  join-IsSingle id generation t r at inv = elim (Bool-cases (t.generation == generation)) [
    | inl same ↦ rw same inv
    | inr other ↦ rw other (set_task-IsSingle r id t (cancel_task t) at (cancel_task-Evolves t) inv)
  ]

  submit_open-IsSingle :
      (hotkey : String) (generation : ℤ) (r : Reattestor V)
      → IsSingle r
      → active_task (task_at r (get hotkey r.flights)) ≡ none
      → IsSingle (submit_open hotkey generation r).0
  submit_open-IsSingle hotkey generation r inv idle = elim (Bool-cases r.closed) [
    | inl over ↦ rw over (record { numbered = inv.numbered; current = inv.current })
    | inr open_yet ↦
        let made = submit-IsSingle hotkey generation r inv idle in
        rw open_yet (record { numbered = made.numbered; current = made.current })
  ]

  run-IsSingle :
      (hotkey : String) (generation : ℤ) (timeout_ok : Bool) (r : Reattestor V)
      → IsSingle r
      → IsSingle (run hotkey generation timeout_ok r).0
  unfolding run
  run-IsSingle hotkey generation timeout_ok r inv = elim (Bool-cases (hotkey == "")) [
    | inl unnamed ↦ rw unnamed inv
    | inr named ↦ elim (Bool-cases (ltb_ℤ (pos 0) generation)) [
      | inr low ↦ rw (named, low) inv
      | inl positive ↦ elim (Bool-cases timeout_ok) [
        | inr bad ↦ rw (named, positive, bad) inv
        | inl good ↦ elim (Option-cases (active_task (task_at r (get hotkey r.flights)))) [
          | inl idle ↦
              rw (named, positive, good, idle) (submit_open-IsSingle hotkey generation r inv idle)
          | inr (t, busy) ↦
              rw (named, positive, good, busy)
                (join-IsSingle (number_or_zero (get hotkey r.flights)) generation t r
                  (active-done r _ t busy).0 inv)
        ]
      ]
    ]
  ]

  set_events-IsSingle :
      (d : Dict String ℕ) (r : Reattestor V) → IsSingle r → IsSingle (set_events d r)
  unfolding set_events
  set_events-IsSingle [] r inv = inv
  set_events-IsSingle ((hotkey, id) ∷ rest) r inv =
      set_events-IsSingle rest (update_if (λ t. true) cancel_task id r)
        (update_if-IsSingle (λ t. true) cancel_task (λ t h. cancel_task-Evolves t) id r inv)

  discard_one-IsSingle : (id : ℕ) (r : Reattestor V) → IsSingle r → IsSingle (discard_one id r)
  unfolding discard_one
  discard_one-IsSingle id r inv = elim (Option-cases (r.tasks id)) [
    | inl absent ↦ rw (absent, discard_one) inv
    | inr (t, at) ↦ elim (Bool-cases (is_queued t.future)) [
      | inr begun ↦ rw (at, discard_one) (rw begun inv)
      | inl waits ↦ rw (at, discard_one) (rw waits (discard-IsSingle t.hotkey id t r at inv))
    ]
  ]

  discard_queued-IsSingle : (n : ℕ) (r : Reattestor V) → IsSingle r → IsSingle (discard_queued n r)
  unfolding discard_queued
  discard_queued-IsSingle zero r inv = inv
  discard_queued-IsSingle (suc id) r inv =
      discard_queued-IsSingle id (discard_one id r) (discard_one-IsSingle id r inv)

  -- The steps of callers, of waiting callers and of worker threads. `_completed` is the callback of
  -- a future that is done.
  pub data Step (r : Reattestor V) : Reattestor V → Type 0 where
    runs :
        (hotkey : String) (generation : ℤ) (timeout_ok : Bool)
        → Step r (run hotkey generation timeout_ok r).0
    times_out : (id : ℕ) → Step r (time_out id r)
    begins : (id : ℕ) → Step r (invoke_begin id r)
    ends : (result : Result LifecycleError V) (id : ℕ) → Step r (invoke_end result id r)
    returns : (id : ℕ) → Step r (set_result id r)
    completes :
        (id : ℕ) (t : Task V)
        → r.tasks id ≡ some t
        → done t.future ≡ true
        → Step r (completed t.hotkey id r)
    cancels : (hotkey : String) → Step r (cancel hotkey r).0
    closes : Step r (close r)

  pub data Reach : Reattestor V → Type 0 where
    start : Reach new_reattestor
    step : {r s : Reattestor V} → Reach r → Step r s → Reach s

  pub Step-IsSingle : {r s : Reattestor V} → Step r s → IsSingle r → IsSingle s
  unfolding time_out invoke_begin invoke_end set_result close
  Step-IsSingle {r} (runs hotkey generation timeout_ok) inv =
      run-IsSingle hotkey generation timeout_ok r inv
  Step-IsSingle {r} (times_out id) inv =
      update_if-IsSingle (λ t. true) cancel_task (λ t h. cancel_task-Evolves t) id r inv
  Step-IsSingle {r} (begins id) inv =
      update_if-IsSingle (λ t. is_queued t.future) begin_task begin_task-Evolves id r inv
  Step-IsSingle {r} (ends result id) inv =
      update_if-IsSingle (λ t. is_running t.future) (end_task result) (end_task-Evolves result) id r
        inv
  Step-IsSingle {r} (returns id) inv =
      update_if-IsSingle (λ t. is_checked t.future) return_task return_task-Evolves id r inv
  Step-IsSingle {r} (completes id t at over) inv =
      completed-IsSingle t.hotkey id r (λ u e. rw (some-injective t u (sym at ∙ e)) at over) inv
  Step-IsSingle {r} (cancels hotkey) inv = cancel-IsSingle hotkey r inv
  Step-IsSingle {r} closes inv =
      let kept =
        discard_queued-IsSingle r.next (set_events r.flights r)
          (set_events-IsSingle r.flights r inv) in
      record { numbered = kept.numbered; current = kept.current }

  -- However callers and worker threads interleave, every future that is not done is the current
  -- flight of its hotkey.
  pub Reach-IsSingle : {r : Reattestor V} → Reach r → IsSingle r
  Reach-IsSingle start = new_reattestor-IsSingle
  Reach-IsSingle (step reached taken) = Step-IsSingle taken (Reach-IsSingle reached)

  -- Two futures in flight for the same hotkey, in a reachable state, are the same future.
  pub single_flight :
      (r : Reattestor V) (i j : ℕ) (t u : Task V)
      → Reach r
      → r.tasks i ≡ some t
      → r.tasks j ≡ some u
      → done t.future ≡ false
      → done u.future ≡ false
      → t.hotkey ≡ u.hotkey
      → i ≡ j
  single_flight r i j t u reached at au dt du same =
      let inv = Reach-IsSingle reached in
      let first = inv.current i t at dt in
      let second = inv.current j u au du in
      number-injective i j (sym first ∙ (ap (λ k. get k r.flights) same ∙ second))
