-- ===== src/Lifecycle/Retry.antt =====
-- `retry_delay_seconds` of cathedral/lifecycle.py. SHA-256 is a parameter; the text that it is
-- taken of is `f"{hotkey}\0{generation}\0{attempt}"`.
use cathedral_compute.Base.{
  ℕ, ◌+◌, ◌*◌, ◌-◌, ◌%◌, ◌^◌, ◌≤◌, ◌≡◌, ◌≢◌, min, String, Bool, true, not, ◌&&◌, ◌∷◌, ◌++◌, take,
  ◌==◌, string_eq, eq_iff, nat_eq, nat_beq, if◌then◌else◌, arith, refl, Result, ok, ◌>>◌, raise_if,
}
use native.Mathlib.Nat.{one-le-pow}
use cathedral_compute.Base.Int.{ℤ, pos, pos_part, leb_ℤ, ltb_ℤ, ◌≤ℤ◌, pos_part_mono}
use cathedral_compute.Base.Text.{utf8, decimal_int, from_bytes_big, Bytes}
use cathedral_compute.Lifecycle.{LifecycleError, invalid_retry_policy}

pub record RetryPolicy : Type 0 where
  pub base_seconds : ℤ
  pub maximum_seconds : ℤ
  pub jitter_seconds : ℤ

policy_ok : String → ℤ → ℤ → RetryPolicy → Bool
policy_ok hotkey generation attempt p =
    not (hotkey == "")
    && ltb_ℤ (pos 0) generation
    && ltb_ℤ (pos 0) attempt
    && leb_ℤ (pos 1) p.base_seconds
    && leb_ℤ p.base_seconds p.maximum_seconds
    && leb_ℤ p.maximum_seconds (pos 86400)
    && leb_ℤ (pos 0) p.jitter_seconds
    && leb_ℤ p.jitter_seconds p.maximum_seconds

-- `min(maximum, base * 2 ** min(attempt - 1, 30))`, on positive numbers
unfoldable pub exponential : ℕ → ℕ → ℕ → ℕ
exponential base maximum attempt = min maximum (base * 2 ^ min (attempt - 1) 30)

unfoldable pub jitter : (Bytes → Bytes) → String → ℤ → ℤ → ℕ → ℕ
jitter sha256 hotkey generation attempt seconds =
    if nat_beq seconds 0
    then 0
    else (from_bytes_big 0
          (take 8 (sha256 (utf8 hotkey ++ 0 ∷ decimal_int generation ++ 0 ∷ decimal_int attempt)))
        % (seconds + 1))

unfoldable pub retry_delay_seconds :
    (Bytes → Bytes) → String → ℤ → ℤ → RetryPolicy → Result LifecycleError ℕ
unfolding policy_ok exponential jitter
retry_delay_seconds sha256 hotkey generation attempt p = do
  raise_if (not (policy_ok hotkey generation attempt p)) invalid_retry_policy
  let maximum = pos_part p.maximum_seconds
  ok (
      min maximum (
        exponential (pos_part p.base_seconds) maximum (pos_part attempt)
        + jitter sha256 hotkey generation attempt (pos_part p.jitter_seconds)))

-- The bounds that a policy must keep.
pub record IsPolicy (p : RetryPolicy) : Type 0 where
  pub some_base : pos 1 ≤ℤ p.base_seconds
  pub base_below : p.base_seconds ≤ℤ p.maximum_seconds
  pub at_most_a_day : p.maximum_seconds ≤ℤ pos 86400
  pub some_jitter : pos 0 ≤ℤ p.jitter_seconds
  pub jitter_below : p.jitter_seconds ≤ℤ p.maximum_seconds

jitter-le :
    (sha256 : Bytes → Bytes) (hotkey : String) (g a : ℤ) (s : ℕ) → jitter sha256 hotkey g a s ≤ s
unfolding jitter
jitter-le sha256 hotkey g a s = ground arith

pow_pos : (n : ℕ) → 1 ≤ 2 ^ n
pow_pos n = one-le-pow n 2 (omega arith)

mul_pos_le : (a b : ℕ) → 1 ≤ a → 1 ≤ b → 1 ≤ a * b
mul_pos_le a b p q = grind arith

exponential_pos :
    (base maximum attempt : ℕ) → 1 ≤ base → base ≤ maximum → 1 ≤ exponential base maximum attempt
unfolding exponential
exponential_pos base maximum attempt p q =
    let power = mul_pos_le base (2 ^ min (attempt - 1) 30) p (pow_pos (min (attempt - 1) 30)) in
    omega arith

exponential_le : (base maximum attempt : ℕ) → exponential base maximum attempt ≤ maximum
unfolding exponential
exponential_le base maximum attempt = omega arith

policy_ok-true :
    (hotkey : String) (g a : ℤ) (p : RetryPolicy)
    → hotkey ≢ ""
    → pos 1 ≤ℤ g
    → pos 1 ≤ℤ a
    → IsPolicy p
    → policy_ok hotkey g a p ≡ true
unfolding policy_ok
policy_ok-true hotkey g a p named gp ap q =
    let base = q.some_base in
    let below = q.base_below in
    let day = q.at_most_a_day in
    let some = q.some_jitter in let jit = q.jitter_below in ground (arith, eq_iff hotkey "")

-- For a named worker, a positive generation and attempt and a legal policy, a delay is returned:
-- at least a second and at least the exponential backoff, at most the backoff with all of the
-- jitter, and never above the maximum.
pub retry_delay_bounds :
    (sha256 : Bytes → Bytes) (hotkey : String) (generation attempt : ℤ) (p : RetryPolicy)
    → hotkey ≢ ""
    → pos 1 ≤ℤ generation
    → pos 1 ≤ℤ attempt
    → IsPolicy p
    → let backoff =
        exponential (pos_part p.base_seconds) (pos_part p.maximum_seconds) (pos_part attempt) in
      (d : ℕ) × (retry_delay_seconds sha256 hotkey generation attempt p ≡ ok d)
      × (1 ≤ d)
      × (backoff ≤ d)
      × (d ≤ backoff + pos_part p.jitter_seconds)
      × (d ≤ pos_part p.maximum_seconds)
unfolding retry_delay_seconds
retry_delay_bounds sha256 hotkey g a p named gp ap q =
    let base = pos_part p.base_seconds in
    let maximum = pos_part p.maximum_seconds in
    let drawn = jitter sha256 hotkey g a (pos_part p.jitter_seconds) in
    let backoff = exponential base maximum (pos_part a) in
    let small : drawn ≤ pos_part p.jitter_seconds =
      jitter-le sha256 hotkey g a (pos_part p.jitter_seconds) in
    let capped : backoff ≤ maximum = exponential_le base maximum (pos_part a) in
    let some_base = q.some_base in
    let positive : 1 ≤ backoff =
      exponential_pos base maximum (pos_part a) (omega arith)
        (pos_part_mono p.base_seconds p.maximum_seconds q.base_below) in
    let good = policy_ok-true hotkey g a p named gp ap q in
    (
      min maximum (backoff + drawn),
      rw good refl,
      omega arith,
      omega arith,
      omega arith,
      omega arith,
    )
