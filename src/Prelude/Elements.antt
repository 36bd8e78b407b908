-- ===== src/Prelude/Elements.antt =====
-- Predicates on all elements of a list, and lists that are joined.
use Prim.Native.Nat.{ℕ, zero, suc}
use libchronoid.Prelude.Lists.{take, drop}
use mathlib.Core.Path.{◌≡◌, refl, sym, ap, ap₂, ◌∙◌}
use mathlib.Core.List.{List, [], ◌∷◌, ◌++◌, map, append_assoc}

-- Every element satisfies a predicate.
abbrev pub All {ℓ κ} : {A : Type ℓ} → (A → Type κ) → List A → Type κ
All P [] = Unit
All P (x ∷ xs) = P x × All P xs

module _ {ℓ κ μ} {A : Type ℓ} {B : Type κ} where
  -- Functions that agree where a predicate holds.
  pub map_agree :
      (P : A → Type μ) (f g : A → B)
      → ((x : A) → P x → f x ≡ g x)
      → (xs : List A) → All P xs
      → map f xs ≡ map g xs
  map_agree P f g e [] h = refl
  map_agree P f g e (x ∷ xs) h = ap₂ ◌∷◌ (e x h.0) (map_agree P f g e xs h.1)

  pub All-map :
      (P : A → Type μ) (Q : B → Type μ) (f : A → B)
      → ((x : A) → P x → Q (f x))
      → (xs : List A) → All P xs
      → All Q (map f xs)
  All-map P Q f e [] h = tt
  All-map P Q f e (x ∷ xs) h = (e x h.0, All-map P Q f e xs h.1)

-- The elements of the lists in turn.
abbrev pub flatten {ℓ} : {A : Type ℓ} → List (List A) → List A
flatten [] = []
flatten (xs ∷ xss) = xs ++ flatten xss

module _ {ℓ κ} {A : Type ℓ} (P : A → Type κ) where
  pub All-append : (xs ys : List A) → All P xs → All P ys → All P (xs ++ ys)
  All-append [] ys h k = k
  All-append (x ∷ xs) ys h k = (h.0, All-append xs ys h.1 k)

  pub All-take : (n : ℕ) (xs : List A) → All P xs → All P (take n xs)
  All-take zero xs h = tt
  All-take (suc n) [] h = tt
  All-take (suc n) (x ∷ xs) h = (h.0, All-take n xs h.1)

  pub All-drop : (n : ℕ) (xs : List A) → All P xs → All P (drop n xs)
  All-drop zero xs h = h
  All-drop (suc n) [] h = tt
  All-drop (suc n) (x ∷ xs) h = All-drop n xs h.1

-- The images of two lists, joined.
pub flatten-map-append {ℓ κ} :
    {A : Type ℓ} {B : Type κ} (f : A → List B) (xs ys : List A)
    → flatten (map f (xs ++ ys)) ≡ flatten (map f xs) ++ flatten (map f ys)
flatten-map-append f [] ys = refl
flatten-map-append f (x ∷ xs) ys =
    ap (λ t. f x ++ t) (flatten-map-append f xs ys)
    ∙ sym (append_assoc (f x) (flatten (map f xs)) (flatten (map f ys)))
