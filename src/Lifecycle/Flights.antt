-- ===== src/Lifecycle/Flights.antt =====
-- `SingleFlightReattestor` of cathedral/lifecycle.py. Its methods run under one lock, so each is a
-- function on the shared state; the worker threads of the executor, and waiting callers whose
-- timeout passes, act between them. A task is a submitted future with the event and the generation
-- of its flight, and lives in a store under a number, so that identity of futures is equality of
-- numbers. `math.isfinite(timeout) and timeout > 0` is a Boolean argument.
pub mod Single
pub mod Interleavings
pub mod Cancellation
use cathedral_compute.Base.{
  ℕ, suc, zero, String, Bool, true, false, not, ◌&&◌, ◌||◌, List, [], ◌∷◌, Option, none, some,
  nat_beq, Eq, ◌==◌, string_eq, nat_eq, Result, err, ok, if◌then◌else◌,
}
use cathedral_compute.Base.Int.{ℤ, pos, ltb_ℤ, int_eq}
use cathedral_compute.Base.Dict.{Dict, get, put, pop}
use cathedral_compute.Lifecycle.{
  LifecycleError, invalid_refresh_hotkey, invalid_refresh_generation, invalid_refresh_timeout,
  generation_changed, was_cancelled, shut_down,
}

module _ (V : Type 0) where
  pub data FutureState : Type 0 where
    queued running : FutureState
    -- `_invoke` has found the event clear and the executor has not set the result yet.
    checked : V → FutureState
    returned : V → FutureState
    raised : LifecycleError → FutureState
    discarded : FutureState

  pub record Task : Type 0 where
    pub hotkey : String
    pub generation : ℤ
    pub cancelled : Bool
    pub future : FutureState

  pub record Reattestor : Type 0 where
    pub flights : Dict String ℕ
    pub tasks : ℕ → Option Task
    pub next : ℕ
    -- The executor was shut down.
    pub closed : Bool

abbrev pub number_or_zero : Option ℕ → ℕ
number_or_zero none = 0
number_or_zero (some id) = id

abbrev pub is_current : Option ℕ → ℕ → Bool
is_current none id = false
is_current (some current) id = nat_beq current id

module _ {V : Type 0} where
  -- `future.done()`
  abbrev pub done : FutureState V → Bool
  done queued = false
  done running = false
  done (checked v) = false
  done (returned v) = true
  done (raised e) = true
  done discarded = true

  abbrev pub store : (ℕ → Option (Task V)) → ℕ → Task V → ℕ → Option (Task V)
  store tasks id task k = if nat_beq k id then some task else tasks k

  abbrev pub set_task : Reattestor V → ℕ → Task V → Reattestor V
  set_task r id task = record r { tasks = store r.tasks id task }

  abbrev pub new_reattestor : Reattestor V
  new_reattestor = record { flights = []; tasks = λ k. none; next = 0; closed = false }

  -- The flight of a hotkey whose future is not done.
  abbrev pub active_task : Option (Task V) → Option (Task V)
  active_task none = none
  active_task (some task) = if done task.future then none else some task

  abbrev pub task_at : Reattestor V → Option ℕ → Option (Task V)
  task_at r none = none
  task_at r (some id) = r.tasks id

  abbrev pub submit : String → ℤ → Reattestor V → Reattestor V × Result LifecycleError ℕ
  submit hotkey generation r = (
    record {
      flights = put hotkey r.next (pop hotkey r.flights);
      tasks =
          store r.tasks r.next (record {
            hotkey = hotkey;
            generation = generation;
            cancelled = false;
            future = queued;
          });
      next = suc r.next;
      closed = r.closed;
    },
    ok r.next,
  )

  -- An executor that was shut down refuses a new task.
  abbrev pub submit_open : String → ℤ → Reattestor V → Reattestor V × Result LifecycleError ℕ
  submit_open hotkey generation r =
      if r.closed then (r, err shut_down) else submit hotkey generation r

  abbrev pub join : ℕ → ℤ → Task V → Reattestor V → Reattestor V × Result LifecycleError ℕ
  join id generation task r =
      if task.generation == generation
      then (r, ok id)
      else (set_task r id (record task { cancelled = true }), err generation_changed)

  -- `run` until it waits: the task that the caller waits for, or the error.
  unfoldable pub run : String → ℤ → Bool → Reattestor V → Reattestor V × Result LifecycleError ℕ
  run hotkey generation timeout_ok r =
      if hotkey == ""
      then (r, err invalid_refresh_hotkey)
      else if not (ltb_ℤ (pos 0) generation)
      then (r, err invalid_refresh_generation)
      else if not timeout_ok
      then (r, err invalid_refresh_timeout)
      else elim (active_task (task_at r (get hotkey r.flights))) [
        | none ↦ submit_open hotkey generation r
        | some task ↦ join (number_or_zero (get hotkey r.flights)) generation task r
      ]

  abbrev pub cancel_task : Task V → Task V
  cancel_task task = record task { cancelled = true }

  -- `_invoke` up to the call of the operation.
  abbrev pub begin_task : Task V → Task V
  begin_task task = record task {
    future = if task.cancelled then raised was_cancelled else running;
  }

  -- `_invoke` after the operation returned a value or raised, up to its second test of the event,
  -- which holds no lock: the event may be set between the test and the result.
  abbrev pub end_task : Result LifecycleError V → Task V → Task V
  end_task (err e) task = record task { future = raised e }
  end_task (ok v) task = record task {
    future = if task.cancelled then raised was_cancelled else checked v;
  }

  -- What the executor does with the value that `_invoke` returned.
  abbrev pub returned_of : FutureState V → FutureState V
  returned_of (checked v) = returned v
  returned_of future = future

  abbrev pub return_task : Task V → Task V
  return_task task = record task { future = returned_of task.future }

  abbrev pub is_queued : FutureState V → Bool
  is_queued queued = true
  is_queued _ = false

  abbrev pub is_running : FutureState V → Bool
  is_running running = true
  is_running _ = false

  abbrev pub is_checked : FutureState V → Bool
  is_checked (checked v) = true
  is_checked _ = false

  abbrev pub update_if : (Task V → Bool) → (Task V → Task V) → ℕ → Reattestor V → Reattestor V
  update_if test change id r = elim (r.tasks id) [
    | none ↦ r
    | some task ↦ if test task then set_task r id (change task) else r
  ]

  -- The `except TimeoutError` of `run`, for the task waited for.
  unfoldable pub time_out : ℕ → Reattestor V → Reattestor V
  time_out = update_if (λ task. true) cancel_task

  unfoldable pub invoke_begin : ℕ → Reattestor V → Reattestor V
  invoke_begin = update_if (λ task. is_queued task.future) begin_task

  unfoldable pub invoke_end : Result LifecycleError V → ℕ → Reattestor V → Reattestor V
  invoke_end result = update_if (λ task. is_running task.future) (end_task result)

  -- The executor sets the result of the future.
  unfoldable pub set_result : ℕ → Reattestor V → Reattestor V
  set_result = update_if (λ task. is_checked task.future) return_task

  -- `_completed`
  unfoldable pub completed : String → ℕ → Reattestor V → Reattestor V
  completed hotkey id r =
      if is_current (get hotkey r.flights) id
      then record r { flights = pop hotkey r.flights }
      else r

  -- The event is set, and a future that no thread has begun is discarded, which calls `_completed`.
  abbrev pub discard : String → ℕ → Task V → Reattestor V → Reattestor V
  unfolding completed
  discard hotkey id task r =
      if is_queued task.future
      then completed hotkey id (set_task r id (record (cancel_task task) { future = discarded }))
      else set_task r id (cancel_task task)

  -- `cancel`
  unfoldable pub cancel : String → Reattestor V → Reattestor V × Bool
  cancel hotkey r = elim (active_task (task_at r (get hotkey r.flights))) [
    | none ↦ (r, false)
    | some task ↦ (discard hotkey (number_or_zero (get hotkey r.flights)) task r, true)
  ]

  unfoldable pub set_events : Dict String ℕ → Reattestor V → Reattestor V
  set_events [] r = r
  set_events ((hotkey, id) ∷ rest) r = set_events rest (update_if (λ task. true) cancel_task id r)

  unfoldable pub discard_one : ℕ → Reattestor V → Reattestor V
  discard_one id r = elim (r.tasks id) [
    | none ↦ r
    | some task ↦ if is_queued task.future then discard task.hotkey id task r else r
  ]

  -- The futures below a number that no thread has begun.
  unfoldable pub discard_queued : ℕ → Reattestor V → Reattestor V
  unfolding discard_one
  discard_queued zero r = r
  discard_queued (suc id) r = discard_queued id (discard_one id r)

  -- `close`: the events under the lock, then `shutdown(cancel_futures=True)` of the executor.
  unfoldable pub close : Reattestor V → Reattestor V
  unfolding set_events discard_queued
  close r = record (discard_queued r.next (set_events r.flights r)) { closed = true }

  count_active : Reattestor V → Dict String ℕ → ℕ
  count_active r [] = 0
  count_active r ((hotkey, id) ∷ rest) =
      let more = count_active r rest in
      elim (active_task (r.tasks id)) [ none ↦ more | some task ↦ suc more ]

  -- `active_count`
  unfoldable pub active_count : Reattestor V → ℕ
  unfolding count_active
  active_count r = count_active r r.flights
