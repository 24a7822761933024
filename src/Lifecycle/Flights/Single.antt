-- ===== src/Lifecycle/Flights/Single.antt =====
-- How a task of `SingleFlightReattestor` may change, and which flight is the current one of its
-- hotkey: the relations that the steps of callers and worker threads keep.
use cathedral_compute.Base.{
  ℕ, ◌<◌, ◌≡◌, ◌≢◌, ◌⊎◌, refl, sym, ap, ◌∙◌, String, Bool, true, false, Option, none, some, nat_beq,
  nat_beq_iff, nat_eq, ◌==◌, string_eq, eq_iff, arith, Result, err, ok, Bool-cases, Option-cases,
  inl, inr,
}
use cathedral_compute.Base.Int.{ℤ, int_eq}
use cathedral_compute.Base.Dict.{get, pop, get-put, get-put_self, get-pop_other}
use cathedral_compute.Lifecycle.{LifecycleError}
use cathedral_compute.Lifecycle.Flights.{
  FutureState, queued, running, checked, returned, raised, discarded, Task, Reattestor, done, store,
  set_task, new_reattestor, active_task, task_at, submit, cancel_task, begin_task, end_task,
  is_queued, is_running, is_checked, return_task, update_if, is_current, completed,
}

pub true-ne-false : true ≢ false
true-ne-false e = cc

module _ {V : Type 0} where
  -- The second test of the event has found it clear.
  abbrev pub has_passed : FutureState V → Bool
  has_passed (checked v) = true
  has_passed (returned v) = true
  has_passed _ = false

  -- How a task may change: it keeps its hotkey, what is done stays done, what is cancelled stays
  -- so, and what is cancelled before its second test of the event does not pass it.
  pub record Evolves (old new : Task V) : Type 0 where
    pub same_hotkey : new.hotkey ≡ old.hotkey
    pub stays_done : done old.future ≡ true → done new.future ≡ true
    pub stays_cancelled : old.cancelled ≡ true → new.cancelled ≡ true
    pub never_returns :
        old.cancelled ≡ true → has_passed old.future ≡ false → has_passed new.future ≡ false

  pub cancel_task-Evolves : (t : Task V) → Evolves t (cancel_task t)
  cancel_task-Evolves t = record {
    same_hotkey = refl;
    stays_done = λ h. h;
    stays_cancelled = λ h. refl;
    never_returns = λ h n. n;
  }

  is_queued-done : (f : FutureState V) → is_queued f ≡ true → {b : Bool} → done f ≡ true → b ≡ true
  is_queued-done queued q h = cc
  is_queued-done running q h = cc
  is_queued-done (checked v) q h = cc
  is_queued-done (returned v) q h = cc
  is_queued-done (raised e) q h = cc
  is_queued-done discarded q h = cc

  pub begin_task-Evolves : (t : Task V) → is_queued t.future ≡ true → Evolves t (begin_task t)
  begin_task-Evolves t q = record {
    same_hotkey = refl;
    stays_done = λ h. is_queued-done t.future q h;
    stays_cancelled = λ h. h;
    never_returns = λ h n. rw h refl;
  }

  is_running-done : (f : FutureState V) → is_running f ≡ true → done f ≡ false
  is_running-done queued q = refl
  is_running-done running q = refl
  is_running-done (checked v) q = refl
  is_running-done (returned v) q = cc
  is_running-done (raised e) q = cc
  is_running-done discarded q = cc

  pub end_task-Evolves :
      (x : Result LifecycleError V) (t : Task V)
      → is_running t.future ≡ true
      → Evolves t (end_task x t)
  end_task-Evolves (err e) t q = record {
    same_hotkey = refl;
    stays_done = λ h. refl;
    stays_cancelled = λ h. h;
    never_returns = λ h n. refl;
  }
  end_task-Evolves (ok v) t q = record {
    same_hotkey = refl;
    stays_done = λ h. elim (true-ne-false (sym h ∙ is_running-done t.future q)) [ ];
    stays_cancelled = λ h. h;
    never_returns = λ h n. rw h refl;
  }

  return_task-future :
      (f : FutureState V) → is_checked f ≡ true → (done f ≡ false) × (has_passed f ≡ true)
  return_task-future queued q = cc
  return_task-future running q = cc
  return_task-future (checked v) q = (refl, refl)
  return_task-future (returned v) q = cc
  return_task-future (raised e) q = cc
  return_task-future discarded q = cc

  pub return_task-Evolves : (t : Task V) → is_checked t.future ≡ true → Evolves t (return_task t)
  return_task-Evolves t q =
      let (open_yet, passed) = return_task-future t.future q in
      record {
        same_hotkey = refl;
        stays_done = λ h. elim (true-ne-false (sym h ∙ open_yet)) [ ];
        stays_cancelled = λ h. h;
        never_returns = λ h n. elim (true-ne-false (sym passed ∙ n)) [ ];
      }

  pub record IsSingle (r : Reattestor V) : Type 0 where
    pub numbered : (id : ℕ) (t : Task V) → r.tasks id ≡ some t → id < r.next
    pub current :
        (id : ℕ) (t : Task V)
        → r.tasks id ≡ some t
        → done t.future ≡ false
        → get t.hotkey r.flights ≡ some id

  pub new_reattestor-IsSingle : IsSingle new_reattestor
  new_reattestor-IsSingle = record {
    numbered = λ id t e. ground arith;
    current = λ id t e d. ground arith;
  }

  pub none-ne-some : (a : Task V) → none ≢ some a
  none-ne-some a e = cc

  pub some-injective : (a b : Task V) → some a ≡ some b → a ≡ b
  some-injective a b e = cc

  pub store-cases :
      (tasks : ℕ → Option (Task V)) (id k : ℕ) (task t : Task V)
      → store tasks id task k ≡ some t
      → ((k ≡ id) × (task ≡ t)) ⊎ ((nat_beq k id ≡ false) × (tasks k ≡ some t))
  store-cases tasks id k task t e = elim (Bool-cases (nat_beq k id)) [
    | inl same ↦ inl ((nat_beq_iff k id).0 same, some-injective task t (rw same at e))
    | inr other ↦ inr (other, rw other at e)
  ]

  not_done_before :
      (old new : Task V) → Evolves old new → done new.future ≡ false → done old.future ≡ false
  not_done_before old new ev d = let stays = ev.stays_done in ground arith

  pub set_task-IsSingle :
      (r : Reattestor V) (id : ℕ) (old new : Task V)
      → r.tasks id ≡ some old
      → Evolves old new
      → IsSingle r
      → IsSingle (set_task r id new)
  set_task-IsSingle r id old new at ev inv = record {
    numbered = λ k t e. elim (store-cases r.tasks id k new t e) [
      | inl (eq, same) ↦ rw eq (inv.numbered id old at)
      | inr (other, e') ↦ inv.numbered k t e'
    ];
    current = λ k t e d. elim (store-cases r.tasks id k new t e) [
      | inl (eq, same) ↦
          let here_now = inv.current id old at (not_done_before old new ev (rw same d)) in
          let name : t.hotkey ≡ old.hotkey =
            ap (λ (x : Task V). x.hotkey) (sym same) ∙ ev.same_hotkey in
          rw (eq, name) here_now
      | inr (other, e') ↦ inv.current k t e' d
    ];
  }

  pub update_if-IsSingle :
      (test : Task V → Bool) (change : Task V → Task V)
      → ((t : Task V) → test t ≡ true → Evolves t (change t))
      → (id : ℕ) (r : Reattestor V) → IsSingle r
      → IsSingle (update_if test change id r)
  update_if-IsSingle test change ev id r inv = elim (Option-cases (r.tasks id)) [
    | inl none_there ↦ rw (none_there, update_if) inv
    | inr (t, at) ↦ elim (Bool-cases (test t)) [
      | inl passes ↦
          rw (at, update_if) (rw passes (set_task-IsSingle r id t (change t) at (ev t passes) inv))
      | inr fails ↦ rw (at, update_if) (rw fails inv)
    ]
  ]

  pub completed-IsSingle :
      (hotkey : String) (id : ℕ) (r : Reattestor V)
      → ((t : Task V) → r.tasks id ≡ some t → done t.future ≡ true)
      → IsSingle r
      → IsSingle (completed hotkey id r)
  unfolding completed
  completed-IsSingle hotkey id r finished inv =
      elim (Bool-cases (is_current (get hotkey r.flights) id)) [
        | inr fails ↦ rw fails inv
        | inl passes ↦ rw passes (record {
          numbered = inv.numbered;
          current = λ k t e d.
              let now = inv.current k t e d in
              elim (Bool-cases (hotkey == t.hotkey)) [
                | inr other ↦ get-pop_other hotkey t.hotkey r.flights other ∙ now
                | inl same ↦
                    let key = (eq_iff hotkey t.hotkey).0 same in
                    let held : get hotkey r.flights ≡ some k = rw key now in
                    let numbers : k ≡ id = (nat_beq_iff k id).0 (rw held at passes) in
                    let over = finished t (rw (sym numbers) e) in
                    elim (true-ne-false (sym over ∙ d)) [ ]
              ];
        })
      ]

  -- No future of the hotkey is in flight when its entry is missing or done.
  no_active :
      (hotkey : String) (r : Reattestor V)
      → IsSingle r
      → active_task (task_at r (get hotkey r.flights)) ≡ none
      → (id : ℕ) (t : Task V) → r.tasks id ≡ some t
      → done t.future ≡ false
      → t.hotkey ≡ hotkey
      → ⊥
  no_active hotkey r inv idle id t e d same =
      let now = inv.current id t e d in
      let held : get hotkey r.flights ≡ some id = rw (sym same) now in
      let busy : active_task (task_at r (some id)) ≡ some t = rw e (rw d refl) in
      none-ne-some t (sym idle ∙ rw held busy)

  pub submit-IsSingle :
      (hotkey : String) (generation : ℤ) (r : Reattestor V)
      → IsSingle r
      → active_task (task_at r (get hotkey r.flights)) ≡ none
      → IsSingle (submit hotkey generation r).0
  submit-IsSingle hotkey generation r inv idle = record {
    numbered = λ k t e. elim (store-cases r.tasks r.next k _ t e) [
      | inl (eq, same) ↦ omega arith
      | inr (other, e') ↦ let below = inv.numbered k t e' in omega arith
    ];
    current = λ k t e d. elim (store-cases r.tasks r.next k _ t e) [
      | inl (eq, same) ↦
          let name : t.hotkey ≡ hotkey = ap (λ (x : Task V). x.hotkey) (sym same) in
          rw (name, eq) (get-put_self hotkey r.next (pop hotkey r.flights))
      | inr (other, e') ↦ elim (Bool-cases (hotkey == t.hotkey)) [
        | inl key ↦
            elim (no_active hotkey r inv idle k t e' d (sym ((eq_iff hotkey t.hotkey).0 key))) [ ]
        | inr differs ↦
            get-put hotkey t.hotkey r.next (pop hotkey r.flights)
            ∙ rw differs (get-pop_other hotkey t.hotkey r.flights differs ∙ inv.current k t e' d)
      ]
    ];
  }
