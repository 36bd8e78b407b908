-- ===== src/Prelude/Lists.antt =====
-- C arrays as lists, measured and indexed by native numbers, under the library's names.
use Prim.Native.Nat.{ℕ, zero, suc, ◌+◌, ◌-◌, ◌≤◌, ◌<◌, min}
use mathlib.Core.Path.{◌≡◌, refl, sym, ap, ◌∙◌}
use mathlib.Core.List.{List, [], ◌∷◌, ◌++◌, map}
use native.Mathlib.Omega.{arith}

module _ {ℓ} {A : Type ℓ} where
  abbrev pub length : List A → ℕ
  length [] = 0
  length (x ∷ xs) = suc (length xs)

  -- A write out of bounds changes nothing.
  abbrev pub set : List A → ℕ → A → List A
  set [] i v = []
  set (x ∷ xs) zero v = v ∷ xs
  set (x ∷ xs) (suc i) v = x ∷ set xs i v

  abbrev pub get_or : List A → ℕ → A → A
  get_or [] i d = d
  get_or (x ∷ xs) zero d = x
  get_or (x ∷ xs) (suc i) d = get_or xs i d

  abbrev pub take : ℕ → List A → List A
  take zero xs = []
  take (suc n) [] = []
  take (suc n) (x ∷ xs) = x ∷ take n xs

  abbrev pub drop : ℕ → List A → List A
  drop zero xs = xs
  drop (suc n) [] = []
  drop (suc n) (x ∷ xs) = drop n xs

  abbrev pub replicate : ℕ → A → List A
  replicate zero a = []
  replicate (suc n) a = a ∷ replicate n a

  pub length-append : (xs ys : List A) → length (xs ++ ys) ≡ length xs + length ys
  length-append [] ys = omega arith
  length-append (x ∷ xs) ys = omega (arith, length-append xs ys)

  pub take-append-drop : (n : ℕ) (xs : List A) → take n xs ++ drop n xs ≡ xs
  take-append-drop zero xs = refl
  take-append-drop (suc n) [] = refl
  take-append-drop (suc n) (x ∷ xs) = rw (take-append-drop n xs)

  pub length-take : (n : ℕ) (xs : List A) → length (take n xs) ≡ min n (length xs)
  length-take zero xs = omega arith
  length-take (suc n) [] = omega arith
  length-take (suc n) (x ∷ xs) = omega (arith, length-take n xs)

  pub length-drop : (n : ℕ) (xs : List A) → length (drop n xs) ≡ length xs - n
  length-drop zero xs = omega arith
  length-drop (suc n) [] = omega arith
  length-drop (suc n) (x ∷ xs) = omega (arith, length-drop n xs)

  pub length-replicate : (n : ℕ) (a : A) → length (replicate n a) ≡ n
  length-replicate zero a = refl
  length-replicate (suc n) a = ap suc (length-replicate n a)

  pub replicate-append_self : (n : ℕ) (a : A) → replicate n a ++ (a ∷ []) ≡ a ∷ replicate n a
  replicate-append_self zero a = refl
  replicate-append_self (suc n) a = ap (λ t. a ∷ t) (replicate-append_self n a)

  pub drop-nil : (n : ℕ) → drop n [] ≡ []
  drop-nil zero = refl
  drop-nil (suc n) = refl

  pub drop-drop : (m n : ℕ) (xs : List A) → drop m (drop n xs) ≡ drop (n + m) xs
  drop-drop m zero xs = ap (λ k. drop k xs) (omega arith)
  drop-drop m (suc n) [] = drop-nil m ∙ sym (drop-nil (suc n + m))
  drop-drop m (suc n) (x ∷ xs) =
      drop-drop m n xs ∙ ap (λ k. drop k (x ∷ xs)) {x = suc (n + m)} (omega arith)

  pub drop-length : (xs : List A) (n : ℕ) → length xs ≤ n → drop n xs ≡ []
  drop-length [] n h = drop-nil n
  drop-length (x ∷ xs) zero h = absurd (omega arith)
  drop-length (x ∷ xs) (suc n) h = drop-length xs n (omega arith)

  pub length-set : (xs : List A) (n : ℕ) (c : A) → length (set xs n c) ≡ length xs
  length-set [] n c = refl
  length-set (x ∷ xs) zero c = refl
  length-set (x ∷ xs) (suc n) c = ap suc (length-set xs n c)

  pub drop-set :
      (n : ℕ) (c : A) (xs : List A) → n < length xs → drop n (set xs n c) ≡ c ∷ drop (suc n) xs
  drop-set n c [] h = absurd (omega arith)
  drop-set zero c (x ∷ xs) h = refl
  drop-set (suc n) c (x ∷ xs) h = drop-set n c xs (omega arith)

  pub drop-set_add :
      (n k : ℕ) (c : A) (xs : List A) → drop n (set xs (n + k) c) ≡ set (drop n xs) k c
  drop-set_add zero k c xs = ap (λ i. set xs i c) (omega arith)
  drop-set_add (suc n) k c [] = refl
  drop-set_add (suc n) k c (x ∷ xs) =
      ap (λ i. drop (suc n) (set (x ∷ xs) i c)) {y = suc (n + k)} (omega arith)
      ∙ drop-set_add n k c xs

  pub drop-set_at : (n : ℕ) (c : A) (xs : List A) → drop n (set xs n c) ≡ set (drop n xs) 0 c
  drop-set_at n c xs =
      ap (λ i. drop n (set xs i c)) {y = n + 0} (omega arith) ∙ drop-set_add n 0 c xs

  -- A write into one of two parts.
  pub set-append_left :
      (xs ys : List A) (n : ℕ) (c : A) → n < length xs → set (xs ++ ys) n c ≡ set xs n c ++ ys
  set-append_left [] ys n c h = absurd (omega arith)
  set-append_left (x ∷ xs) ys zero c h = refl
  set-append_left (x ∷ xs) ys (suc n) c h =
      ap (λ t. x ∷ t) (set-append_left xs ys n c (omega arith))

  pub set-append_right :
      (xs ys : List A) (m n : ℕ) (c : A)
      → length xs ≡ m
      → set (xs ++ ys) (m + n) c ≡ xs ++ set ys n c
  set-append_right [] ys m n c h = ap (λ k. set ys k c) (omega arith)
  set-append_right (x ∷ xs) ys m n c h =
      ap (λ k. set (x ∷ (xs ++ ys)) k c) {y = suc (length xs + n)} (omega arith)
      ∙ ap (λ t. x ∷ t) (set-append_right xs ys (length xs) n c refl)

  pub take-append : (xs ys : List A) (n : ℕ) → length xs ≡ n → take n (xs ++ ys) ≡ xs
  take-append [] ys zero h = refl
  take-append [] ys (suc n) h = absurd (omega arith)
  take-append (x ∷ xs) ys zero h = absurd (omega arith)
  take-append (x ∷ xs) ys (suc n) h = ap (λ t. x ∷ t) (take-append xs ys n (omega arith))

  pub drop-append : (xs ys : List A) (n : ℕ) → length xs ≡ n → drop n (xs ++ ys) ≡ ys
  drop-append [] ys zero h = refl
  drop-append [] ys (suc n) h = absurd (omega arith)
  drop-append (x ∷ xs) ys zero h = absurd (omega arith)
  drop-append (x ∷ xs) ys (suc n) h = drop-append xs ys n (omega arith)

  pub take-length : (xs : List A) (n : ℕ) → length xs ≡ n → take n xs ≡ xs
  take-length [] zero h = refl
  take-length [] (suc n) h = refl
  take-length (x ∷ xs) zero h = absurd (omega arith)
  take-length (x ∷ xs) (suc n) h = ap (λ t. x ∷ t) (take-length xs n (omega arith))

  -- The list of `f 0 .. f (n - 1)`: for an `n` that is a literal it computes to its cells.
  abbrev pub build : ℕ → (ℕ → A) → List A
  build zero f = []
  build (suc n) f = f 0 ∷ build n (λ i. f (suc i))

  pub build-get_or :
      (xs : List A) (n : ℕ) (d : A) → length xs ≡ n → build n (λ i. get_or xs i d) ≡ xs
  build-get_or [] zero d h = refl
  build-get_or [] (suc n) d h = absurd (omega arith)
  build-get_or (x ∷ xs) zero d h = absurd (omega arith)
  build-get_or (x ∷ xs) (suc n) d h = ap (λ t. x ∷ t) (build-get_or xs n d (omega arith))

  pub build-take :
      (xs : List A) (n : ℕ) (d : A) → n ≤ length xs → build n (λ i. get_or xs i d) ≡ take n xs
  build-take xs zero d h = refl
  build-take [] (suc n) d h = absurd (omega arith)
  build-take (x ∷ xs) (suc n) d h = ap (λ t. x ∷ t) (build-take xs n d (omega arith))

module _ {ℓ κ} {A : Type ℓ} {B : Type κ} where
  pub length-map : (xs : List A) (f : A → B) → length (map f xs) ≡ length xs
  length-map [] f = refl
  length-map (x ∷ xs) f = ap suc (length-map xs f)

-- Every element is below a bound: the values that a machine type can hold.
abbrev pub AllBelow : ℕ → List ℕ → Type 0
AllBelow b [] = Unit
AllBelow b (x ∷ xs) = (x < b) × AllBelow b xs

pub AllBelow-append :
    (b : ℕ) (xs ys : List ℕ) → AllBelow b xs → AllBelow b ys → AllBelow b (xs ++ ys)
AllBelow-append b [] ys h k = k
AllBelow-append b (x ∷ xs) ys h k = (h.0, AllBelow-append b xs ys h.1 k)

pub AllBelow-take : (b n : ℕ) (xs : List ℕ) → AllBelow b xs → AllBelow b (take n xs)
AllBelow-take b zero xs h = tt
AllBelow-take b (suc n) [] h = tt
AllBelow-take b (suc n) (x ∷ xs) h = (h.0, AllBelow-take b n xs h.1)

pub AllBelow-drop : (b n : ℕ) (xs : List ℕ) → AllBelow b xs → AllBelow b (drop n xs)
AllBelow-drop b zero xs h = h
AllBelow-drop b (suc n) [] h = tt
AllBelow-drop b (suc n) (x ∷ xs) h = AllBelow-drop b n xs h.1

-- A C array of `n` bytes.
pub record IsArray (n : ℕ) (xs : List ℕ) : Type 0 where
  pub size : length xs ≡ n
  pub bytes : AllBelow 256 xs
