-- ===== src/Base/Search.antt =====
-- C arrays as functions from indices, and the search loop over a range of one.
use Prim.Native.Nat.{ℕ, zero, suc, ◌+◌, ◌≤◌, ◌<◌}
use mathlib.Core.Path.{◌≡◌, refl}
use mathlib.Core.Logic.{◌≢◌}
use mathlib.Core.Bool.{Bool, true, false}
use mathlib.Core.Option.{Option, none, some}
use native.Mathlib.Omega.{arith}
use native.Mathlib.Decide.{ℕ_discrete}
use npsql.Base.Tests.{◌==◌, ==_iff, if◌then◌else◌}

-- a[i] = v
abbrev pub put_at {ℓ} : {A : Type ℓ} → (ℕ → A) → ℕ → A → ℕ → A
put_at a i v k = if k == i then v else a k

-- The first index from `i` on, among the next `n`, whose element passes the test.
unfoldable pub find_from {ℓ} : {A : Type ℓ} → (A → Bool) → (ℕ → A) → ℕ → ℕ → Option ℕ
find_from test a i zero = none
find_from test a i (suc n) =
    let rest = find_from test a (i + 1) n in if test (a i) then some i else rest

module _ {ℓ} {A : Type ℓ} where
  pub find_from-some :
      (test : A → Bool) (bs : ℕ → A) (i n k : ℕ)
      → find_from test bs i n ≡ some k
      → (i ≤ k) × (k < i + n) × (test (bs k) ≡ true)
  unfolding find_from
  find_from-some test bs i zero k h = cc
  find_from-some test bs i (suc n) k h = ground (arith, find_from-some test bs (i + 1) n k)

  pub find_from-none :
      (test : A → Bool) (bs : ℕ → A) (i n : ℕ)
      → find_from test bs i n ≡ none
      → (k : ℕ) → i ≤ k
      → k < i + n
      → test (bs k) ≡ false
  unfolding find_from
  find_from-none test bs i zero h k lo hi = absurd (omega arith)
  find_from-none test bs i (suc n) h k lo hi = elim (ℕ_discrete i k) [
    | yes e ↦ rw (← e) (ground arith)
    | no ne ↦
        ground
          (arith, find_from-none test bs (i + 1) n (ground arith) k (omega arith) (omega arith))
  ]

  pub find_from-eq-none :
      (test : A → Bool) (bs : ℕ → A) (i n : ℕ)
      → ((k : ℕ) → i ≤ k → k < i + n → test (bs k) ≡ false)
      → find_from test bs i n ≡ none
  unfolding find_from
  find_from-eq-none test bs i zero fails = refl
  find_from-eq-none test bs i (suc n) fails =
      rw (fails i (omega arith) (omega arith))
        (find_from-eq-none test bs (i + 1) n (λ k lo hi. fails k (omega arith) (omega arith)))

  pub find_from_ext :
      (test : A → Bool) (bs bs' : ℕ → A) (i n : ℕ)
      → ((k : ℕ) → test (bs' k) ≡ test (bs k))
      → find_from test bs' i n ≡ find_from test bs i n
  unfolding find_from
  find_from_ext test bs bs' i zero same = refl
  find_from_ext test bs bs' i (suc n) same = rw (same i, find_from_ext test bs bs' (i + 1) n same)

  pub put_at_self : (bs : ℕ → A) (i : ℕ) (b : A) → put_at bs i b i ≡ b
  put_at_self bs i b = rw ((==_iff i i).1 refl)

  pub put_at-ne : (bs : ℕ → A) (i : ℕ) (b : A) (k : ℕ) → k ≢ i → put_at bs i b k ≡ bs k
  put_at-ne bs i b k ne = rw other
    where
      other : (k == i) ≡ false
      other = ground arith
