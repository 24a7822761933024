-- ===== src/Ledger/Steps/Phase/Rows.antt =====
-- What a change of one epoch of cathedral/ledger.py is in the machine of the epochs.
use cathedral_compute.Base.{
  ℕ, ◌≡◌, ◌∙◌, ◌&&◌, none, refl, sym, Bool, true, false, List, [], ◌∷◌, some, all, nat_beq_iff,
  find_first, update_first, subst, &&_parts, Bool-cases, inl, inr,
}
use cathedral_compute.Base.Text.{Bytes}
use cathedral_compute.Ledger.{
  Epoch, Report, aborted, published, abandoned, has_id, is_running, is_complete, is_blocking,
}
use cathedral_compute.Ledger.Epochs.{blocking_epoch, last_final, above}
use cathedral_compute.Ledger.Epochs.Order.{
  ordered, below, is_behind, active_head, all-is_behind, find_first-cases,
}
use cathedral_compute.Ledger.Completion.{frozen}
use cathedral_compute.Ledger.Steps.Effects.{head-update_first}
use cathedral_compute.Ledger.Steps.Phase.{
  Label, begins, aborts, completes, publishes, abandons, Turn, view, phase_of, is_opened, is_named,
  rest-blocking_epoch, rest-above, view-running, view_complete, view-rest, view-hidden,
  view-published,
}

-- The change of the newest row, when only it can be active.
module _ (e : Epoch) (rest : List Epoch) (behind : all (is_behind e) rest ≡ true) where
  pub aborted-Turn :
      is_running e.status ≡ true
      → Turn (aborts e.epoch_id) (view (e ∷ rest)) (view (record e { status = aborted } ∷ rest))
  aborted-Turn runs =
      rw
        (
          view-running e rest behind runs,
          view-hidden e rest behind (record e { status = aborted }) refl refl,
        )
        Turn.drops

  pub frozen-Turn :
      (report : Report) (digest : Bytes)
      → is_running e.status ≡ true
      → Turn (completes e.epoch_id) (view (e ∷ rest)) (view (frozen report digest e ∷ rest))
  frozen-Turn report digest runs =
      rw
        (view-running e rest behind runs, view_complete e rest behind (frozen report digest e) refl)
        Turn.closes

  pub published-Turn :
      is_complete e.status ≡ true
      → Turn
          (publishes e.epoch_id)
          (view (e ∷ rest))
          (view (record e { status = published } ∷ rest))
  published-Turn ready =
      rw
        (
          view_complete e rest behind e ready,
          view-published e rest behind (record e { status = published }) refl refl refl,
        )
        (Turn.posts (rest-above e rest behind))

  pub abandoned-Turn :
      is_complete e.status ≡ true
      → Turn (abandons e.epoch_id) (view (e ∷ rest)) (view (record e { status = abandoned } ∷ rest))
  abandoned-Turn ready =
      rw
        (
          view_complete e rest behind e ready,
          view-hidden e rest behind (record e { status = abandoned }) refl refl,
        )
        Turn.gives_up

-- The change of the row of an id, which can still change.
pub update-Turn :
    (label : ℕ → Label) (id : ℕ) (f : Epoch → Epoch) (es : List Epoch) {e : Epoch}
    → ordered es ≡ true
    → find_first (has_id id) es ≡ some e
    → is_blocking e.status ≡ true
    → ((rest : List Epoch)
        → all (is_behind e) rest ≡ true
        → Turn (label e.epoch_id) (view (e ∷ rest)) (view (f e ∷ rest)))
    → Turn (label id) (view es) (view (update_first (has_id id) f es))
unfolding ordered
update-Turn label id f es {e = e} inv found active change =
    let (rest, same, holds) = active_head (has_id id) es inv found active in
    let behind =
      (&&_parts (all (is_behind e) rest) _ (subst (λ xs. ordered xs ≡ true) same inv)).0 in
    let own = (nat_beq_iff e.epoch_id id).0 holds in
    subst (λ i. Turn (label i) (view es) (view (update_first (has_id id) f es))) own
      (subst (λ xs. Turn (label e.epoch_id) (view es) (view xs))
        (head-update_first (has_id id) f es same holds)
        (subst (λ xs. Turn (label e.epoch_id) (view xs) (view (f e ∷ rest))) (sym same)
          (change rest behind)))

-- A new row above the final ones, when no epoch is active.
pub begun-Turn :
    (e : Epoch) (es : List Epoch)
    → all (below e.epoch_id) es ≡ true
    → blocking_epoch es ≡ none
    → above (last_final es) e.source_epoch ≡ true
    → is_running e.status ≡ true
    → Turn (begins e.epoch_id e.source_epoch) (view es) (view (e ∷ es))
begun-Turn e es older free higher runs =
    let behind = all-is_behind e es free higher older in
    rw (view-rest e es behind, view-running e es behind runs) (Turn.opens (rest-above e es behind))

&&_false : (b : Bool) → (b && false) ≡ false
&&_false true = refl
&&_false false = refl

-- What the phase says of the epoch that blocks.
named_head : (id : ℕ) (x : Epoch) → is_named id (phase_of (some x)) ≡ has_id id x
named_head id x = elim (Bool-cases (is_running x.status)) [
  | inl runs ↦ rw runs refl
  | inr stopped ↦ rw stopped refl
]

opened_head :
    (id : ℕ) (x : Epoch) → is_opened id (phase_of (some x)) ≡ (is_running x.status && has_id id x)
opened_head id x = elim (Bool-cases (is_running x.status)) [
  | inl runs ↦ rw runs refl
  | inr stopped ↦ rw stopped refl
]

-- A row that fails a test that the newest row passes is not the newest one.
other_row :
    (test : Epoch → Bool) (id : ℕ) (x : Epoch) (xs : List Epoch) {e : Epoch}
    → find_first (has_id id) (x ∷ xs) ≡ some e
    → test e ≡ false
    → (test x && has_id id x) ≡ false
other_row test id x xs {e = e} found fails = elim (find_first-cases (has_id id) x xs found) [
  | inl (own, same) ↦ rw (subst (λ y. test y ≡ false) (sym same) fails) refl
  | inr (other, later) ↦ rw other (&&_false (test x))
]

pub not_named :
    (id : ℕ) (es : List Epoch) {e : Epoch}
    → ordered es ≡ true
    → find_first (has_id id) es ≡ some e
    → is_blocking e.status ≡ false
    → is_named id (view es).1 ≡ false
unfolding view ordered blocking_epoch
not_named id [] inv found quiet = refl
not_named id (x ∷ xs) inv found quiet =
    let behind = (&&_parts (all (is_behind x) xs) _ inv).0 in
    elim (Bool-cases (is_blocking x.status)) [
      | inl active ↦
          let other = other_row (λ y. is_blocking y.status) id x xs found quiet in
          rw active (named_head id x ∙ rw active at other)
      | inr idle_now ↦ rw (idle_now, rest-blocking_epoch x xs behind) refl
    ]

pub not_opened :
    (id : ℕ) (es : List Epoch) {e : Epoch}
    → ordered es ≡ true
    → find_first (has_id id) es ≡ some e
    → is_running e.status ≡ false
    → is_opened id (view es).1 ≡ false
unfolding view ordered blocking_epoch
not_opened id [] inv found quiet = refl
not_opened id (x ∷ xs) inv found quiet =
    let behind = (&&_parts (all (is_behind x) xs) _ inv).0 in
    elim (Bool-cases (is_blocking x.status)) [
      | inl active ↦
          rw active (opened_head id x ∙ other_row (λ y. is_running y.status) id x xs found quiet)
      | inr idle_now ↦ rw (idle_now, rest-blocking_epoch x xs behind) refl
    ]
