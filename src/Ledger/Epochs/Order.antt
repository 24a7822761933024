-- ===== src/Ledger/Epochs/Order.antt =====
-- The order of the epochs of cathedral/ledger.py: what the older rows owe to a newer one.
use cathedral_compute.Base.{
  ℕ, suc, ◌<◌, ◌≡◌, refl, Bool, true, false, not, ◌&&◌, ◌||◌, List, [], ◌∷◌, Option, none, some,
  ltb, all, find_first, arith, inl, inr, Bool-cases, Member, Any, ap, sym, subst, &&_parts, ◌⊎◌,
  ◌∙◌,
}
use cathedral_compute.Ledger.{Epoch, is_blocking, is_final}
use cathedral_compute.Ledger.Epochs.{above, last_final, blocking_epoch, max_option}

-- What an older row `x` owes to a newer row `e`.
abbrev pub is_behind : Epoch → Epoch → Bool
is_behind e x =
    not (is_blocking x.status)
    && ltb x.epoch_id e.epoch_id
    && (not (is_final x.status) || ltb x.source_epoch e.source_epoch)

unfoldable pub ordered : List Epoch → Bool
ordered [] = true
ordered (e ∷ es) = all (is_behind e) es && ordered es

abbrev pub below : ℕ → Epoch → Bool
below n e = ltb e.epoch_id n

pub find_first-cases {ℓ} :
    {A : Type ℓ} (p : A → Bool) (x : A) (xs : List A) {a : A}
    → find_first p (x ∷ xs) ≡ some a
    → ((p x ≡ true) × (x ≡ a)) ⊎ ((p x ≡ false) × (find_first p xs ≡ some a))
find_first-cases p x xs found = elim (Bool-cases (p x)) [
  | inl e ↦ inl (e, (let same = rw e at found in cc))
  | inr e ↦ inr (e, rw e at found)
]

-- A test that holds of all rows holds of the row found.
pub all-find_first {ℓ} :
    {A : Type ℓ} (q p : A → Bool) (xs : List A) {a : A}
    → all q xs ≡ true
    → find_first p xs ≡ some a
    → q a ≡ true
all-find_first q p [] every found = cc
all-find_first q p (x ∷ xs) every found = elim (find_first-cases p x xs found) [
  | inl (e, same) ↦ subst (λ y. q y ≡ true) same (&&_parts (q x) (all q xs) every).0
  | inr (e, later) ↦ all-find_first q p xs (&&_parts (q x) (all q xs) every).1 later
]

pub all-Member {ℓ} :
    {A : Type ℓ} (q : A → Bool) (xs : List A) (a : A) → all q xs ≡ true → Member a xs → q a ≡ true
all-Member q (x ∷ xs) a every (Any.here e) = subst (λ y. q y ≡ true) (sym e) (&&_parts _ _ every).0
all-Member q (x ∷ xs) a every (Any.there m) = all-Member q xs a (&&_parts (q x) _ every).1 m
all-Member q [] a every m = elim m [ ]

-- A row that is found and can still change is the newest.
pub active_head :
    (p : Epoch → Bool) (es : List Epoch) {e : Epoch}
    → ordered es ≡ true
    → find_first p es ≡ some e
    → is_blocking e.status ≡ true
    → (rest : List Epoch) × (es ≡ e ∷ rest) × (p e ≡ true)
unfolding ordered
active_head p [] inv found active = cc
active_head p (x ∷ xs) {e = e} inv found active = elim (find_first-cases p x xs found) [
  | inl (holds, same) ↦ (xs, ap (λ y. y ∷ xs) same, subst (λ y. p y ≡ true) same holds)
  | inr (fails, later) ↦
      let behind = all-find_first (is_behind x) p xs (&&_parts _ _ inv).0 later in ground arith
]

-- The three parts of being behind, each held by all rows.
abbrev pub idle_row : Epoch → Bool
idle_row x = not (is_blocking x.status)

abbrev pub final_below : ℕ → Epoch → Bool
final_below n x = not (is_final x.status) || ltb x.source_epoch n

pub all-idle_row : (es : List Epoch) → blocking_epoch es ≡ none → all idle_row es ≡ true
unfolding blocking_epoch
all-idle_row [] h = refl
all-idle_row (e ∷ es) h = ground (arith, all-idle_row es)

above-max_option : (n m : ℕ) (o : Option ℕ) → above (max_option m o) n ≡ (ltb m n && above o n)
above-max_option n m none = ground arith
above-max_option n m (some k) = ground arith

pub last_final-above : (n : ℕ) (es : List Epoch) → above (last_final es) n ≡ all (final_below n) es
unfolding last_final
last_final-above n [] = refl
last_final-above n (e ∷ es) =
    ground (arith, last_final-above n es, above-max_option n e.source_epoch (last_final es))

-- A new row may join in front.
pub all-is_behind :
    (e : Epoch) (es : List Epoch)
    → blocking_epoch es ≡ none
    → above (last_final es) e.source_epoch ≡ true
    → all (below e.epoch_id) es ≡ true
    → all (is_behind e) es ≡ true
all-is_behind e es none_blocks higher older =
    join es (all-idle_row es none_blocks) (sym (last_final-above e.source_epoch es) ∙ higher) older
  where
    join :
        (xs : List Epoch)
        → all idle_row xs ≡ true
        → all (final_below e.source_epoch) xs ≡ true
        → all (below e.epoch_id) xs ≡ true
        → all (is_behind e) xs ≡ true
    join [] a b c = refl
    join (x ∷ xs) a b c = ground (arith, join xs)

pub all-below-suc :
    (n : ℕ) (es : List Epoch) → all (below n) es ≡ true → all (below (suc n)) es ≡ true
all-below-suc n [] h = refl
all-below-suc n (e ∷ es) h = ground (arith, all-below-suc n es)

-- Being behind looks only at the newer row's id and source epoch.
pub all-is_behind_same :
    (e f : Epoch) (es : List Epoch)
    → e.epoch_id ≡ f.epoch_id
    → e.source_epoch ≡ f.source_epoch
    → all (is_behind e) es ≡ true
    → all (is_behind f) es ≡ true
all-is_behind_same e f [] ids sources h = refl
all-is_behind_same e f (x ∷ xs) ids sources h = ground (arith, all-is_behind_same e f xs)

-- The final epochs of a ledger in order have source epochs that rise with their ids.
pub ordered-final_lt :
    (es : List Epoch) (e x : Epoch)
    → ordered es ≡ true
    → Member e es
    → Member x es
    → x.epoch_id < e.epoch_id
    → is_final x.status ≡ true
    → x.source_epoch < e.source_epoch
unfolding ordered
ordered-final_lt (y ∷ ys) e x inv (Any.here a) (Any.here b) older final =
    let same = a ∙ sym b in let ids = ap (λ r. r.epoch_id) same in ground arith
ordered-final_lt (y ∷ ys) e x inv (Any.here a) (Any.there m) older final =
    let behind = all-Member (is_behind y) ys x (&&_parts _ _ inv).0 m in
    let behind_e = subst (λ r. is_behind r x ≡ true) (sym a) behind in ground arith
ordered-final_lt (y ∷ ys) e x inv (Any.there m) (Any.here b) older final =
    let behind = all-Member (is_behind y) ys e (&&_parts _ _ inv).0 m in
    let behind_x = subst (λ r. is_behind r e ≡ true) (sym b) behind in ground arith
ordered-final_lt (y ∷ ys) e x inv (Any.there m) (Any.there k) older final =
    ordered-final_lt ys e x (&&_parts _ _ inv).1 m k older final
ordered-final_lt [] e x inv m k older final = elim m [ ]

-- Two rows that are running or complete are the same row.
pub ordered-blocking_unique :
    (es : List Epoch) (e x : Epoch)
    → ordered es ≡ true
    → Member e es
    → Member x es
    → is_blocking e.status ≡ true
    → is_blocking x.status ≡ true
    → e ≡ x
unfolding ordered
ordered-blocking_unique (y ∷ ys) e x inv (Any.here a) (Any.here b) active also = a ∙ sym b
ordered-blocking_unique (y ∷ ys) e x inv (Any.here a) (Any.there m) active also =
    let behind = all-Member (is_behind y) ys x (&&_parts _ _ inv).0 m in ground arith
ordered-blocking_unique (y ∷ ys) e x inv (Any.there m) (Any.here b) active also =
    let behind = all-Member (is_behind y) ys e (&&_parts _ _ inv).0 m in ground arith
ordered-blocking_unique (y ∷ ys) e x inv (Any.there m) (Any.there k) active also =
    ordered-blocking_unique ys e x (&&_parts _ _ inv).1 m k active also
ordered-blocking_unique [] e x inv m k active also = elim m [ ]
