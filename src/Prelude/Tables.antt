-- ===== src/Prelude/Tables.antt =====
-- Constant tables of the sources, and facts about them checked entry by entry.
use Prim.Native.Nat.{ℕ, zero, suc, ◌+◌, ◌<◌}
use Prim.Native.Char.{code}
use Prim.Native.String.{String}
use libchronoid.Prelude.Lists.{AllBelow, replicate}
use libchronoid.Prelude.Tests.{ltb, if◌then◌else◌, lt_or_ge}
use mathlib.Core.Path.{◌≡◌, ap, ◌∙◌}
use mathlib.Core.Logic.{inl, inr}
use mathlib.Core.Bool.{Bool, true, false, ◌&&◌}
use mathlib.Core.List.{List, [], ◌∷◌}
use native.Mathlib.Omega.{arith}

-- The bytes of an ASCII literal.
abbrev pub codes : String → List ℕ
codes String.[] = []
codes (String.◌∷◌ c s) = code c ∷ codes s

-- from, from + 1, ... with `n` entries.
abbrev pub count_from : ℕ → ℕ → List ℕ
count_from k zero = []
count_from k (suc n) = k ∷ count_from (k + 1) n

-- A test of the first `count` numbers, from the last one down.
unfoldable pub every : ℕ → (ℕ → Bool) → Bool
every zero test = true
every (suc count) test = if test count then every count test else false

pub every-at :
    (count : ℕ) (test : ℕ → Bool) (i : ℕ) → every count test ≡ true → i < count → test i ≡ true
unfolding every
every-at zero test i passed below = absurd (omega (arith, below))
every-at (suc count) test i passed below = elim (lt_or_ge i count) [
  | inl lt ↦ every-at count test i (ground (arith, passed)) lt
  | inr ge ↦ ap test {y = count} (omega (arith, below, ge)) ∙ ground (arith, passed)
]

-- `AllBelow`, tested.
abbrev pub tested_below : ℕ → List ℕ → Bool
tested_below b [] = true
tested_below b (x ∷ xs) = ltb x b && tested_below b xs

pub AllBelow-tested : (b : ℕ) (xs : List ℕ) → tested_below b xs ≡ true → AllBelow b xs
AllBelow-tested b [] h = tt
AllBelow-tested b (x ∷ xs) h = ground (arith, AllBelow-tested b xs)

pub AllBelow-replicate : (b n x : ℕ) → x < b → AllBelow b (replicate n x)
AllBelow-replicate b zero x h = tt
AllBelow-replicate b (suc n) x h = (h, AllBelow-replicate b n x h)
