-- ===== src/Base/Dict.antt =====
-- A dict as an association list: the newest entry of a key is the one read, and no program here
-- depends on the order of its entries.
use mathlib.Core.Path.{◌≡◌, refl}
use mathlib.Core.Logic.{inl, inr}
use mathlib.Core.Bool.{false}
use mathlib.Core.Option.{Option, none, some}
use mathlib.Core.List.{List, [], ◌∷◌}
use cathedral_compute.Base.Tests.{if◌then◌else◌, Bool-cases}
use cathedral_compute.Base.Interfaces.{Eq, ◌==◌}

abbrev pub Dict {ℓ κ} : Type ℓ → Type κ → Type (ℓ ⊔ κ)
Dict K V = List (K × V)

module _ {ℓ κ} {K : Type ℓ} {V : Type κ} ⦃e : Eq K⦄ where
  unfoldable pub get : K → Dict K V → Option V
  get k [] = none
  get k ((j, v) ∷ d) = if j == k then some v else get k d

  -- `d[k] = v`
  unfoldable pub put : K → V → Dict K V → Dict K V
  put k v d = (k, v) ∷ d

  -- `d.pop(k, None)`
  unfoldable pub pop : K → Dict K V → Dict K V
  pop k [] = []
  pop k ((j, v) ∷ d) = let rest = pop k d in if j == k then rest else (j, v) ∷ rest

  pub get-put :
      (k j : K) (v : V) (d : Dict K V) → get j (put k v d) ≡ (if k == j then some v else get j d)
  unfolding get put
  get-put k j v d = refl

  pub get-put_self : (k : K) (v : V) (d : Dict K V) → get k (put k v d) ≡ some v
  unfolding get put
  get-put_self k v d = rw ((e.same_iff k k).1 refl)

  pub get-pop_self : (k : K) (d : Dict K V) → get k (pop k d) ≡ none
  unfolding get pop
  get-pop_self k [] = refl
  get-pop_self k ((j, v) ∷ d) = elim (Bool-cases (j == k)) [
    | inl same ↦ rw same (get-pop_self k d)
    | inr other ↦ rw other (rw other (get-pop_self k d))
  ]

  pub get-pop_other : (k j : K) (d : Dict K V) → (k == j) ≡ false → get j (pop k d) ≡ get j d
  unfolding get pop
  get-pop_other k j [] other = refl
  get-pop_other k j ((i, v) ∷ d) other =
      let rest = get-pop_other k j d other in
      elim (Bool-cases (i == k)) [
        | inl same ↦
            let eq : i ≡ k = (e.same_iff i k).0 same in
            let different : (i == j) ≡ false = rw eq other in rw (same, different) rest
        | inr kept ↦ rw kept (rw rest refl)
      ]
