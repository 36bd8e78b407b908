-- ===== src/Simd/Laws.antt =====
-- A chain of lane-wise instructions is one function of the lane.
use native.Mathlib.Nat.{pow-suc}
use libchronoid.Prelude.{
  ℕ, zero, suc, ◌+◌, ◌^◌, ◌<◌, ◌≤◌, ◌≡◌, refl, ap, ap₂, List, [], ◌∷◌, map, replicate, length,
  arith, Bool, true, ◌&&◌, AllBelow, if◌then◌else◌, ◌==◌,
}
use libchronoid.Simd.{zip_with, set1_epi8, movemask_epi8, minv_u8}

module _ {ℓ κ} {A : Type ℓ} {B : Type κ} where
  pub zip_with-map :
      (f : B → B → B) (g h : A → B) (xs : List A)
      → zip_with f (map g xs) (map h xs) ≡ map (λ x. f (g x) (h x)) xs
  unfolding zip_with
  zip_with-map f g h [] = refl
  zip_with-map f g h (x ∷ xs) = ap (λ t. f (g x) (h x) ∷ t) (zip_with-map f g h xs)

  pub replicate-map :
      (k : B) (xs : List A) (n : ℕ) → length xs ≡ n → replicate n k ≡ map (λ _. k) xs
  replicate-map k [] zero e = refl
  replicate-map k [] (suc n) e = absurd (omega arith)
  replicate-map k (x ∷ xs) zero e = absurd (omega arith)
  replicate-map k (x ∷ xs) (suc n) e = ap (λ t. k ∷ t) (replicate-map k xs n (omega arith))

-- A constant vector beside a vector of 16 lanes.
pub set1_epi8-map : (xs : List ℕ) → length xs ≡ 16 → (k : ℕ) → set1_epi8 k ≡ map (λ _. k) xs
unfolding set1_epi8
set1_epi8-map xs e k = replicate-map k xs 16 e

pub map_self : (xs : List ℕ) → map (λ x. x) xs ≡ xs
map_self [] = refl
map_self (x ∷ xs) = ap (λ t. x ∷ t) (map_self xs)

-- Functions that agree on bytes agree on a list of bytes.
pub map_bytes :
    (f g : ℕ → ℕ)
    → ((x : ℕ) → x < 256 → f x ≡ g x)
    → (xs : List ℕ) → AllBelow 256 xs
    → map f xs ≡ map g xs
map_bytes f g e [] h = refl
map_bytes f g e (x ∷ xs) h = ap₂ ◌∷◌ (e x h.0) (map_bytes f g e xs h.1)

-- Every lane passes a test.
abbrev pub all_lanes : (ℕ → Bool) → List ℕ → Bool
all_lanes p [] = true
all_lanes p (x ∷ xs) = p x && all_lanes p xs

abbrev pub mask_of : Bool → ℕ
mask_of b = if b then 0xff else 0

movemask-le :
    (p : ℕ → Bool) (xs : List ℕ) → movemask_epi8 (map (λ x. mask_of (p x)) xs) < 2 ^ length xs
unfolding movemask_epi8
movemask-le p [] = omega arith
movemask-le p (x ∷ xs) = ground (arith, movemask-le p xs, pow-suc 2 (length xs))

-- All mask bits are set exactly when every lane passes.
pub movemask-all_lanes :
    (p : ℕ → Bool) (xs : List ℕ)
    → (movemask_epi8 (map (λ x. mask_of (p x)) xs) + 1 == 2 ^ length xs) ≡ all_lanes p xs
unfolding movemask_epi8
movemask-all_lanes p [] = refl
movemask-all_lanes p (x ∷ xs) =
    ground (arith, movemask-all_lanes p xs, movemask-le p xs, pow-suc 2 (length xs))

minv-le : (p : ℕ → Bool) (xs : List ℕ) → minv_u8 (map (λ x. mask_of (p x)) xs) ≤ 0xff
unfolding minv_u8
minv-le p [] = omega arith
minv-le p (x ∷ xs) = ground (arith, minv-le p xs)

-- The least lane is 0xff exactly when every lane passes.
pub minv-all_lanes :
    (p : ℕ → Bool) (xs : List ℕ) → (minv_u8 (map (λ x. mask_of (p x)) xs) == 0xff) ≡ all_lanes p xs
unfolding minv_u8
minv-all_lanes p [] = refl
minv-all_lanes p (x ∷ xs) = ground (arith, minv-all_lanes p xs, minv-le p xs)
