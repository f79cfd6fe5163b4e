-- ===== src/Prelude/Mapped.antt =====
-- The array methods on the image of a list under a function.
use mathlib.Core.Path.{◌≡◌, refl}
use mathlib.Core.Bool.{Bool}
use mathlib.Core.Option.{Option, none, some}
use mathlib.Core.Option
use mathlib.Core.List.{List, [], ◌∷◌, map}
use Prim.Native.Nat.{ℕ, zero, suc}
use native.Mathlib.Omega.{arith}
use msclaude_connector.Prelude.Lists.{length, take, drop, get_elem?, get_last?, drop_last, any}

module _ {ℓ κ} {A : Type ℓ} {B : Type κ} (f : A → B) where
  pub length-map : (xs : List A) → length (map f xs) ≡ length xs
  length-map [] = refl
  length-map (x ∷ xs) = omega (arith, length-map xs)

  pub take-map : (n : ℕ) (xs : List A) → take n (map f xs) ≡ map f (take n xs)
  take-map zero xs = refl
  take-map (suc n) [] = refl
  take-map (suc n) (x ∷ xs) = rw (take-map n xs)

  pub drop-map : (n : ℕ) (xs : List A) → drop n (map f xs) ≡ map f (drop n xs)
  drop-map zero xs = refl
  drop-map (suc n) [] = refl
  drop-map (suc n) (x ∷ xs) = drop-map n xs

  pub get_elem?-map : (xs : List A) (i : ℕ) → get_elem? (map f xs) i ≡ Option.map f (get_elem? xs i)
  get_elem?-map [] i = refl
  get_elem?-map (x ∷ xs) zero = refl
  get_elem?-map (x ∷ xs) (suc i) = get_elem?-map xs i

  pub get_last?-map : (xs : List A) → get_last? (map f xs) ≡ Option.map f (get_last? xs)
  get_last?-map [] = refl
  get_last?-map (x ∷ []) = refl
  get_last?-map (x ∷ y ∷ xs) = get_last?-map (y ∷ xs)

  pub drop_last-map : (xs : List A) → drop_last (map f xs) ≡ map f (drop_last xs)
  drop_last-map [] = refl
  drop_last-map (x ∷ []) = refl
  drop_last-map (x ∷ y ∷ xs) = rw (drop_last-map (y ∷ xs))

  pub any-map :
      (p : B → Bool) (q : A → Bool)
      → ((x : A) → p (f x) ≡ q x)
      → (xs : List A) → any p (map f xs) ≡ any q xs
  any-map p q same [] = refl
  any-map p q same (x ∷ xs) = rw (same x, any-map p q same xs)
