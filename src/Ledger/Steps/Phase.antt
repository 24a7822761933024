-- ===== src/Ledger/Steps/Phase.antt =====
-- An abstract machine of the epochs of cathedral/ledger.py, whose turns carry the methods as labels:
-- the newest source epoch published, and the one epoch, if any, that is open or that waits for its
-- publication.
pub mod Rows
pub mod Run
use cathedral_compute.Base.{
  ℕ, Bool, ◌≡◌, refl, true, false, not, nat_beq, List, [], ◌∷◌, Option, none, some, all,
  if◌then◌else◌, arith,
}
use cathedral_compute.Ledger.{Epoch, is_running, is_complete, is_published, is_blocking}
use cathedral_compute.Ledger.Epochs.{blocking_epoch, last_final, above, max_option}
use cathedral_compute.Ledger.Epochs.Order.{is_behind, idle_row, final_below, last_final-above}

pub data Phase : Type 0 where
  idle : Phase
  opened closing : ℕ → ℕ → Phase

-- What a method that returned says of itself: its name and the ids of its arguments.
pub data Label : Type 0 where
  begins : (id source : ℕ) → Label
  aborts completes publishes abandons : (id : ℕ) → Label
  works : Label

abbrev pub is_opened : ℕ → Phase → Bool
is_opened id (opened open_id source) = nat_beq open_id id
is_opened id _ = false

abbrev pub is_named : ℕ → Phase → Bool
is_named id idle = false
is_named id (opened open_id source) = nat_beq open_id id
is_named id (closing open_id source) = nat_beq open_id id

-- The methods that may leave the phase: an abort or a completion of an epoch that is not open, a
-- publication of an epoch that neither is open nor waits, and all work within an epoch.
abbrev pub may_rest : Label → Phase → Bool
may_rest (begins id source) phase = false
may_rest (aborts id) phase = not (is_named id phase)
may_rest (completes id) phase = not (is_opened id phase)
may_rest (publishes id) phase = not (is_named id phase)
may_rest (abandons id) phase = false
may_rest works phase = true

-- The turns of the machine, on the newest published source epoch and the phase.
pub data Turn : Label → Option ℕ × Phase → Option ℕ × Phase → Type 0 where
  rests :
      {label : Label} {floor : Option ℕ} {phase : Phase}
      → may_rest label phase ≡ true
      → Turn label (floor, phase) (floor, phase)
  opens :
      {floor : Option ℕ} {id source : ℕ}
      → above floor source ≡ true
      → Turn (begins id source) (floor, idle) (floor, opened id source)
  drops :
      {floor : Option ℕ} {id source : ℕ} → Turn (aborts id) (floor, opened id source) (floor, idle)
  closes :
      {floor : Option ℕ} {id source : ℕ}
      → Turn (completes id) (floor, opened id source) (floor, closing id source)
  posts :
      {floor : Option ℕ} {id source : ℕ}
      → above floor source ≡ true
      → Turn (publishes id) (floor, closing id source) (some source, idle)
  gives_up :
      {floor : Option ℕ} {id source : ℕ}
      → Turn (abandons id) (floor, closing id source) (floor, idle)

-- A run of the machine, with its labels, the newest first.
pub data Turns : List Label → Option ℕ × Phase → Option ℕ × Phase → Type 0 where
  done : {s : Option ℕ × Phase} → Turns [] s s
  next :
      {label : Label} {labels : List Label} {s t u : Option ℕ × Phase}
      → Turns labels s t
      → Turn label t u
      → Turns (label ∷ labels) s u

unfoldable pub last_published : List Epoch → Option ℕ
last_published [] = none
last_published (e ∷ es) =
    let rest = last_published es in
    if is_published e.status then max_option e.source_epoch rest else rest

abbrev pub phase_of : Option Epoch → Phase
phase_of none = idle
phase_of (some e) =
    if is_running e.status
    then opened e.epoch_id e.source_epoch
    else closing e.epoch_id e.source_epoch

-- The machine's state that the epochs stand for.
unfoldable pub view : List Epoch → Option ℕ × Phase
unfolding last_published blocking_epoch
view es = (last_published es, phase_of (blocking_epoch es))

pub idle-blocking_epoch : (es : List Epoch) → all idle_row es ≡ true → blocking_epoch es ≡ none
unfolding blocking_epoch
idle-blocking_epoch [] h = refl
idle-blocking_epoch (e ∷ es) h = ground (arith, idle-blocking_epoch es)

idle-last_published : (es : List Epoch) → all idle_row es ≡ true → last_published es ≡ last_final es
unfolding last_published last_final
idle-last_published [] h = refl
idle-last_published (e ∷ es) h = ground (arith, idle-last_published es)

pub behind_parts :
    (e : Epoch) (es : List Epoch)
    → all (is_behind e) es ≡ true
    → (all idle_row es ≡ true) × (all (final_below e.source_epoch) es ≡ true)
behind_parts e [] h = (refl, refl)
behind_parts e (x ∷ xs) h = ground (arith, behind_parts e xs)

max_above : (n : ℕ) (o : Option ℕ) → above o n ≡ true → max_option n o ≡ some n
max_above n none h = refl
max_above n (some m) h = ground arith

-- What the view is when only the newest row can be active.
module _ (e : Epoch) (rest : List Epoch) (behind : all (is_behind e) rest ≡ true) where
  pub rest-blocking_epoch : blocking_epoch rest ≡ none
  rest-blocking_epoch = idle-blocking_epoch rest (behind_parts e rest behind).0

  pub rest-above : above (last_published rest) e.source_epoch ≡ true
  rest-above =
      let (quiet, lower) = behind_parts e rest behind in
      rw (idle-last_published rest quiet, last_final-above e.source_epoch rest, lower)

  pub view-running :
      is_running e.status ≡ true
      → view (e ∷ rest) ≡ (last_published rest, opened e.epoch_id e.source_epoch)
  unfolding view last_published blocking_epoch
  view-running runs =
      let unpublished : is_published e.status ≡ false = ground (arith, runs) in
      rw (runs, unpublished) (rw runs)

  pub view_complete :
      (f : Epoch)
      → is_complete f.status ≡ true
      → view (f ∷ rest) ≡ (last_published rest, closing f.epoch_id f.source_epoch)
  unfolding view last_published blocking_epoch
  view_complete f ready =
      let stopped : is_running f.status ≡ false = ground (arith, ready) in
      let unpublished : is_published f.status ≡ false = ground (arith, ready) in
      rw (ready, stopped, unpublished) (rw stopped)

  pub view-rest : view rest ≡ (last_published rest, idle)
  unfolding view
  view-rest = rw rest-blocking_epoch

  -- A row that neither blocks nor is published is not seen.
  pub view-hidden :
      (f : Epoch)
      → is_blocking f.status ≡ false
      → is_published f.status ≡ false
      → view (f ∷ rest) ≡ (last_published rest, idle)
  unfolding view last_published blocking_epoch
  view-hidden f quiet unpublished = rw (quiet, unpublished, rest-blocking_epoch)

  pub view-published :
      (f : Epoch)
      → f.source_epoch ≡ e.source_epoch
      → is_blocking f.status ≡ false
      → is_published f.status ≡ true
      → view (f ∷ rest) ≡ (some e.source_epoch, idle)
  unfolding view last_published blocking_epoch
  view-published f same quiet shown = rw (
    quiet,
    shown,
    rest-blocking_epoch,
    same,
    max_above e.source_epoch (last_published rest) rest-above,
  )
