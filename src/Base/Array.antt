-- ===== src/Base/Array.antt =====
-- C arrays as functions of the index. An array's length is a bound on the indices that the code
-- uses; the theorems of the modules state those bounds.
use Prim.Native.Nat.{ℕ, zero, suc, ◌+◌, ◌-◌}
use mathlib.Core.List.{List, [], ◌∷◌}
use mathlib.Core.Bool.{◌&&◌}
use gba_emulator.Base.Test.{◌==◌, ltb, leb, if◌then◌else◌}

module _ {ℓ} {A : Type ℓ} where
  -- `a[i] = v`
  abbrev pub update : (ℕ → A) → ℕ → A → ℕ → A
  update a i v j = if j == i then v else a j

  -- `memset(&a[from], v, n)`
  abbrev pub fill : (ℕ → A) → ℕ → ℕ → A → ℕ → A
  fill a from n v j = if leb from j && ltb j (from + n) then v else a j

  -- `memcpy(&dst[to], &src[from], n)`, between two arrays
  abbrev pub copy : (ℕ → A) → ℕ → (ℕ → A) → ℕ → ℕ → ℕ → A
  copy dst to src from n j = if leb to j && ltb j (to + n) then src (from + (j - to)) else dst j

-- The entry of a table, and `d` past its end
abbrev pub entry {ℓ} : {A : Type ℓ} → A → List A → ℕ → A
entry d [] i = d
entry d (x ∷ xs) zero = x
entry d (x ∷ xs) (suc i) = entry d xs i
