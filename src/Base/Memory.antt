-- ===== src/Base/Memory.antt =====
-- Byte memory: a page, a file or a C array is a function from addresses to bytes, and `memcpy`,
-- `read` and `write` are one copy. Bounds are stated by the theorems, not by the type.
use Prim.Native.Nat.{ℕ, zero, suc, ◌+◌, ◌-◌, ◌≤◌, ◌<◌}
use mathlib.Core.Path.{◌≡◌, refl, ap₂, ap, ◌∙◌}
use mathlib.Core.Logic.{◌⊎◌}
use mathlib.Core.Bool.{◌&&◌}
use mathlib.Core.List.{List, [], ◌∷◌}
use native.Mathlib.Omega.{arith}
use npsql.Base.Tests.{ltb, leb, if◌then◌else◌}
use npsql.Base.Lists.{length, get_or}

abbrev pub Mem : Type 0
Mem = ℕ → ℕ

-- memcpy(dst + off, src, n)
unfoldable pub copy : Mem → ℕ → Mem → ℕ → Mem
copy dst off src n j = if leb off j && ltb j (off + n) then src (j - off) else dst j

-- src + off
abbrev pub from : Mem → ℕ → Mem
from src off j = src (off + j)

abbrev pub of_bytes : List ℕ → Mem
of_bytes xs j = get_or xs j 0

-- the `n` bytes at `off`
abbrev pub bytes : Mem → ℕ → ℕ → List ℕ
bytes m off zero = []
bytes m off (suc n) = m off ∷ bytes m (off + 1) n

pub copy_in :
    (dst : Mem) (off : ℕ) (src : Mem) (n k j : ℕ)
    → k ≡ off + j
    → j < n
    → copy dst off src n k ≡ src j
unfolding copy
copy_in dst off src n k j e h = let e' : k - off ≡ j = omega arith in ground (arith, ap src e')

pub copy_out :
    (dst : Mem) (off : ℕ) (src : Mem) (n k : ℕ)
    → (k < off) ⊎ (off + n ≤ k)
    → copy dst off src n k ≡ dst k
unfolding copy
copy_out dst off src n k h = ground arith

-- Two memories that agree on a range hold the same bytes there.
pub bytes_ext :
    (m m' : Mem) (n o o' : ℕ)
    → ((j : ℕ) → j < n → m (o + j) ≡ m' (o' + j))
    → bytes m o n ≡ bytes m' o' n
bytes_ext m m' zero o o' h = refl
bytes_ext m m' (suc n) o o' h =
    ap₂ ◌∷◌ (ground (arith, h 0))
      (bytes_ext m m' n (o + 1) (o' + 1) (λ j p. (ground (arith, h (suc j)))))

pub bytes-of_bytes : (xs : List ℕ) → bytes (of_bytes xs) 0 (length xs) ≡ xs
bytes-of_bytes [] = refl
bytes-of_bytes (x ∷ xs) =
    ap (λ ys. x ∷ ys)
      (bytes_ext (of_bytes (x ∷ xs)) (of_bytes xs) (length xs) 1 0 (λ j p. ground arith)
        ∙ bytes-of_bytes xs)

pub length-bytes : (m : Mem) (o n : ℕ) → length (bytes m o n) ≡ n
length-bytes m o zero = refl
length-bytes m o (suc n) = ap suc (length-bytes m (o + 1) n)
