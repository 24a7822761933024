-- ===== src/Ledger/Steps/Retrying.antt =====
-- `begin_epoch` of cathedral/ledger.py beside a blocking epoch and after an aborted one.
use cathedral_compute.Base.{
  ℕ, ◌≡◌, true, false, not, List, ◌∷◌, Option, none, some, String, ok, err, all, nat_beq,
  if◌then◌else◌, arith, ok->>=, pass->>, find_first, subst, ap, sym, ◌∙◌, inl, inr, &&_parts,
  Bool-cases, nat_beq_iff, ok-injective,
}
use cathedral_compute.Base.Int.{ℤ, pos_part}
use cathedral_compute.Ledger.{
  Ledger, Epoch, aborted, ledger_closed, retry_first, not_greater, epoch_blocking, has_id, epoch_at,
  is_running, is_aborted, find_epoch,
}
use cathedral_compute.Ledger.Epochs.{
  BeginRequest, validate_begin, begin_epoch, insert_epoch, new_row, blocking_epoch, last_final,
  above, retries_other, is_retry,
}
use cathedral_compute.Ledger.Epochs.Order.{ordered, is_behind, active_head, last_final-above}
use cathedral_compute.Ledger.Completion.{abort_epoch, abort_running}
use cathedral_compute.Ledger.Steps.{consistent}
use cathedral_compute.Ledger.Steps.Effects.{find_epoch-found, head-update_first}
use cathedral_compute.Ledger.Steps.Invariant.{consistent-parts}
use cathedral_compute.Ledger.Steps.Phase.{behind_parts, idle-blocking_epoch}

-- On an open ledger with a running or complete epoch, a valid request to begin an epoch raises the
-- error that names the blocking epoch.
pub begin_epoch-blocked :
    (r : BeginRequest) (l : Ledger) (e : Epoch)
    (checked : Option (ℤ × List ℕ) × Option (String × ℤ))
    → validate_begin r ≡ ok checked
    → l.closed ≡ false
    → blocking_epoch l.epochs ≡ some e
    → begin_epoch r l ≡ err (epoch_blocking e.epoch_id)
unfolding begin_epoch insert_epoch
begin_epoch-blocked r l e checked valid is_open blocks =
    ok->>= (validate_begin r) _ valid ∙ pass->> l.closed ledger_closed _ is_open ∙ rw blocks

-- The insertion once the guards hold.
insert_epoch-returns :
    (source : ℕ) (release : Option ℤ) (digest : Option String) (anchor : Option (String × ℤ))
    (anchor_block : Option (ℤ × List ℕ)) (l : Ledger)
    → l.closed ≡ false
    → blocking_epoch l.epochs ≡ none
    → retries_other (find_first (is_retry (last_final l.epochs)) l.epochs) source ≡ false
    → above (last_final l.epochs) source ≡ true
    → insert_epoch source release digest anchor anchor_block l
      ≡ ok (l.next_id, new_row source release digest anchor anchor_block l)
unfolding insert_epoch
insert_epoch-returns source release digest anchor anchor_block l is_open free first higher =
    pass->> l.closed ledger_closed _ is_open
    ∙ rw free (
        pass->> (retries_other (find_first (is_retry (last_final l.epochs)) l.epochs) source)
          retry_first _ first
        ∙ pass->> (not (above (last_final l.epochs) source)) not_greater _ (ground (arith, higher)))

insert_epoch-refuses :
    (source : ℕ) (release : Option ℤ) (digest : Option String) (anchor : Option (String × ℤ))
    (anchor_block : Option (ℤ × List ℕ)) (l : Ledger)
    → l.closed ≡ false
    → blocking_epoch l.epochs ≡ none
    → retries_other (find_first (is_retry (last_final l.epochs)) l.epochs) source ≡ true
    → insert_epoch source release digest anchor anchor_block l ≡ err retry_first
unfolding insert_epoch
insert_epoch-refuses source release digest anchor anchor_block l is_open free other =
    pass->> l.closed ledger_closed _ is_open ∙ rw free (rw other)

-- The epochs after the newest one, `e`, is aborted: nothing blocks, and `e` is the one to retry.
module _ (e : Epoch) (rest : List Epoch) (inv : ordered (e ∷ rest) ≡ true) where
  dropped : List Epoch
  dropped = record e { status = aborted } ∷ rest

  behind : all (is_behind e) rest ≡ true
  unfolding ordered
  behind = (&&_parts (all (is_behind e) rest) _ inv).0

  dropped_free : blocking_epoch dropped ≡ none
  unfolding blocking_epoch dropped
  dropped_free = idle-blocking_epoch rest (behind_parts e rest behind).0

  dropped-above : above (last_final dropped) e.source_epoch ≡ true
  unfolding last_final dropped
  dropped-above = last_final-above e.source_epoch rest ∙ (behind_parts e rest behind).1

  dropped_retry :
      find_first (is_retry (last_final dropped)) dropped ≡ some (record e { status = aborted })
  unfolding dropped
  dropped_retry = rw dropped-above

-- The request against tables whose newest epoch was dropped.
begin_dropped :
    (r : BeginRequest) (m : Ledger) (e : Epoch) (rest : List Epoch)
    (checked : Option (ℤ × List ℕ) × Option (String × ℤ))
    → ordered (e ∷ rest) ≡ true
    → m.epochs ≡ record e { status = aborted } ∷ rest
    → m.closed ≡ false
    → validate_begin r ≡ ok checked
    → begin_epoch r m ≡ (
        if nat_beq (pos_part r.source_epoch) e.source_epoch
        then ok (
          m.next_id,
          new_row
              (pos_part r.source_epoch)
              r.registry_release
              r.registry_digest
              checked.1
              checked.0
              m,
        )
        else err retry_first)
unfolding begin_epoch dropped
begin_dropped r m e rest checked inv after is_open valid =
    let source = pos_part r.source_epoch in
    let free = ap blocking_epoch after ∙ dropped_free e rest inv in
    let retry =
      ap (λ es. find_first (is_retry (last_final es)) es) after ∙ dropped_retry e rest inv in
    ok->>= (validate_begin r) _ valid ∙ elim (Bool-cases (nat_beq source e.source_epoch)) [
      | inl same ↦
          let higher =
            ap (λ es. above (last_final es) source) after
            ∙ ap (above (last_final (dropped e rest inv)))
                ((nat_beq_iff source e.source_epoch).0 same)
            ∙ dropped-above e rest inv in
          rw same (
            insert_epoch-returns source r.registry_release r.registry_digest checked.1 checked.0 m
              is_open free (rw (retry, same)) higher)
      | inr other ↦ rw other (
          insert_epoch-refuses source r.registry_release r.registry_digest checked.1 checked.0 m
            is_open free (rw (retry, other)))
    ]

aborted_tables :
    (id now : ℕ) (l m : Ledger) (e : Epoch)
    → epoch_at id l.epochs ≡ some e
    → is_running e.status ≡ true
    → l.closed ≡ false
    → abort_epoch id now l ≡ ok m
    → abort_running id now l ≡ m
unfolding abort_epoch
aborted_tables id now l m e found runs is_open h =
    let still : is_aborted e.status ≡ false = ground (arith, runs) in
    let returned =
      pass->> l.closed ledger_closed _ is_open
      ∙ ok->>= (find_epoch id l) _ (find_epoch-found id l found)
      ∙ rw (still, runs) in
    ok-injective (sym returned ∙ h)

-- After the running epoch of consistent tables is aborted, a valid request to begin an epoch returns
-- exactly when it names the aborted source epoch, and raises the error that asks for the retry
-- otherwise.
pub begin_epoch-abort_epoch :
    (r : BeginRequest) (id now : ℕ) (l m : Ledger) (e : Epoch)
    (checked : Option (ℤ × List ℕ) × Option (String × ℤ))
    → consistent l ≡ true
    → l.closed ≡ false
    → epoch_at id l.epochs ≡ some e
    → is_running e.status ≡ true
    → abort_epoch id now l ≡ ok m
    → validate_begin r ≡ ok checked
    → begin_epoch r m ≡ (
        if nat_beq (pos_part r.source_epoch) e.source_epoch
        then ok (
          m.next_id,
          new_row
              (pos_part r.source_epoch)
              r.registry_release
              r.registry_digest
              checked.1
              checked.0
              m,
        )
        else err retry_first)
unfolding abort_running
begin_epoch-abort_epoch r id now l m e checked inv is_open found runs h valid =
    let (in_order, older, tallied) = consistent-parts l inv in
    let tables = aborted_tables id now l m e found runs is_open h in
    let (rest, same, here_id) =
      active_head (has_id id) l.epochs in_order found (ground (arith, runs)) in
    let after =
      subst (λ t. t.epochs ≡ record e { status = aborted } ∷ rest) tables
        (sym (
          head-update_first (has_id id) (λ row. record row { status = aborted }) l.epochs same
            here_id)) in
    begin_dropped r m e rest checked (subst (λ es. ordered es ≡ true) same in_order) after
      (subst (λ t. t.closed ≡ false) tables is_open) valid
