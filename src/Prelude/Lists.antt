-- ===== src/Prelude/Lists.antt =====
-- Lists measured by native numbers, and tables: a table is the list of its rows, a query a test.
use Prim.Native.Nat.{ℕ, zero, suc, ◌+◌}
use mathlib.Core.Path.{◌≡◌, refl, subst}
use mathlib.Core.Logic.{inl, inr}
use mathlib.Core.Bool.{Bool, true, false, ◌||◌, ◌&&◌}
use mathlib.Core.List.{List, [], ◌∷◌, ◌++◌}
use mathlib.Core.Option.{Option, none, some}
use native.Mathlib.Omega.{arith}
use payment_processing.Prelude.Tests.{if◌then◌else◌, Bool-cases}

module _ {ℓ} {A : Type ℓ} where
  abbrev pub length : List A → ℕ
  length [] = 0
  length (x ∷ xs) = suc (length xs)

  abbrev pub take : ℕ → List A → List A
  take zero xs = []
  take (suc n) [] = []
  take (suc n) (x ∷ xs) = x ∷ take n xs

  abbrev pub drop : ℕ → List A → List A
  drop zero xs = xs
  drop (suc n) [] = []
  drop (suc n) (x ∷ xs) = drop n xs

  abbrev pub replicate : ℕ → A → List A
  replicate zero a = []
  replicate (suc n) a = a ∷ replicate n a

  pub length-append : (xs ys : List A) → length (xs ++ ys) ≡ length xs + length ys
  length-append [] ys = omega arith
  length-append (x ∷ xs) ys = omega (arith, length-append xs ys)

  -- The first row that a query finds.
  abbrev pub find : (A → Bool) → List A → Option A
  find p [] = none
  find p (x ∷ xs) = if p x then some x else find p xs

  -- Whether a query finds a row.
  abbrev pub exists_row : (A → Bool) → List A → Bool
  exists_row p [] = false
  exists_row p (x ∷ xs) = p x || exists_row p xs

  -- Whether every row passes a CHECK constraint.
  abbrev pub all_rows : (A → Bool) → List A → Bool
  all_rows p [] = true
  all_rows p (x ∷ xs) = p x && all_rows p xs

  -- The rows of a WHERE clause, in table order.
  abbrev pub select : (A → Bool) → List A → List A
  select p [] = []
  select p (x ∷ xs) = let rest = select p xs in if p x then x ∷ rest else rest

  -- UPDATE … SET f WHERE p.
  abbrev pub update_where : (A → Bool) → (A → A) → List A → List A
  update_where p f [] = []
  update_where p f (x ∷ xs) = (if p x then f x else x) ∷ update_where p f xs

  -- The number of rows that a WHERE clause matches.
  abbrev pub count_where : (A → Bool) → List A → ℕ
  count_where p [] = 0
  count_where p (x ∷ xs) = (if p x then 1 else 0) + count_where p xs

-- A table with a new last row, which is the only one that a query finds.
module _ {ℓ} {A : Type ℓ} (p : A → Bool) where
  pub update_where-last :
      (f : A → A) (xs : List A) (y : A)
      → exists_row p xs ≡ false
      → p y ≡ true
      → update_where p f (xs ++ (y ∷ [])) ≡ xs ++ (f y ∷ [])
  update_where-last f [] y h k = rw k
  update_where-last f (x ∷ xs) y h k = ground (arith, update_where-last f xs y)

  pub count_where-last :
      (xs : List A) (y : A)
      → exists_row p xs ≡ false
      → p y ≡ true
      → count_where p (xs ++ (y ∷ [])) ≡ 1
  count_where-last [] y h k = rw k
  count_where-last (x ∷ xs) y h k = ground (arith, count_where-last xs y)

  pub find-last :
      (xs : List A) (y : A)
      → exists_row p xs ≡ false
      → p y ≡ true
      → find p (xs ++ (y ∷ [])) ≡ some y
  find-last [] y h k = rw k
  find-last (x ∷ xs) y h k = ground (arith, find-last xs y)

  pub find-exists :
      (xs : List A) (y : A) → find p xs ≡ some y → (exists_row p xs ≡ true) × (p y ≡ true)
  find-exists [] y h = cc
  find-exists (x ∷ xs) y h = ground (arith, find-exists xs y)

  -- What a query finds first it still finds in a longer table.
  pub find-append : (xs ys : List A) (y : A) → find p xs ≡ some y → find p (xs ++ ys) ≡ some y
  find-append [] ys y h = cc
  find-append (x ∷ xs) ys y h = ground (arith, find-append xs ys y)

  pub exists_row-append : (xs ys : List A) → exists_row p xs ≡ true → exists_row p (xs ++ ys) ≡ true
  exists_row-append [] ys h = cc
  exists_row-append (x ∷ xs) ys h = ground (arith, exists_row-append xs ys)

  pub exists_row-last : (xs : List A) (y : A) → p y ≡ true → exists_row p (xs ++ (y ∷ [])) ≡ true
  exists_row-last [] y h = rw h
  exists_row-last (x ∷ xs) y h = ground (arith, exists_row-last xs y)

  -- A narrower query finds no more.
  pub exists_row-narrow :
      (q : A → Bool) (xs : List A)
      → ((x : A) → q x ≡ true → p x ≡ true)
      → exists_row p xs ≡ false
      → exists_row q xs ≡ false
  exists_row-narrow q [] k h = refl
  exists_row-narrow q (x ∷ xs) k h = ground (arith, k x, exists_row-narrow q xs k)

-- Every element satisfies `P`.
abbrev pub All {ℓ κ} : {A : Type ℓ} → (A → Type κ) → List A → Type κ
All P [] = Unit
All P (x ∷ xs) = P x × All P xs

module _ {ℓ κ} {A : Type ℓ} (P : A → Type κ) where
  pub All-last : (xs : List A) (y : A) → All P xs → P y → All P (xs ++ (y ∷ []))
  All-last [] y h k = (k, tt)
  All-last (x ∷ xs) y h k = (h.0, All-last xs y h.1 k)

  pub All-map {μ} : (Q : A → Type μ) (xs : List A) → ((x : A) → P x → Q x) → All P xs → All Q xs
  All-map Q [] f h = tt
  All-map Q (x ∷ xs) f h = (f x h.0, All-map Q xs f h.1)

  pub All-find : (p : A → Bool) (xs : List A) (y : A) → All P xs → find p xs ≡ some y → P y
  All-find p [] y h k = cc
  All-find p (x ∷ xs) y h k = elim (Bool-cases (p x)) [
    | inl hit ↦ subst P (cc (rw hit at k)) h.0
    | inr miss ↦ All-find p xs y h.1 (rw miss at k)
  ]
