-- ===== src/Base/Lists.antt =====
-- Lists measured and indexed by native numbers, under the library's names, with the updates that
-- the program makes at an index.
use Prim.Native.Nat.{ℕ, zero, suc, ◌+◌, ◌-◌, ◌<◌, ◌≤◌}
use mathlib.Core.Path.{◌≡◌, refl, ap}
use mathlib.Core.Bool.{Bool}
use mathlib.Core.List.{List, [], ◌∷◌, ◌++◌, map}
use mathlib.Core.Option.{Option, none, some}
use native.Mathlib.Omega.{arith}
use open_chat.Base.Tests.{if◌then◌else◌}

module _ {ℓ} {A : Type ℓ} where
  abbrev pub length : List A → ℕ
  length [] = 0
  length (x ∷ xs) = suc (length xs)

  abbrev pub get_elem? : List A → ℕ → Option A
  get_elem? [] i = none
  get_elem? (x ∷ xs) zero = some x
  get_elem? (x ∷ xs) (suc i) = get_elem? xs i

  -- The element at `i` replaced by its image; out of range nothing changes.
  abbrev pub modify : List A → ℕ → (A → A) → List A
  modify [] i f = []
  modify (x ∷ xs) zero f = f x ∷ xs
  modify (x ∷ xs) (suc i) f = x ∷ modify xs i f

  -- Before the element at `i`, or at the end where there is none.
  abbrev pub insert_at : List A → ℕ → A → List A
  insert_at [] i a = a ∷ []
  insert_at (x ∷ xs) zero a = a ∷ x ∷ xs
  insert_at (x ∷ xs) (suc i) a = x ∷ insert_at xs i a

  abbrev pub erase_at : List A → ℕ → List A
  erase_at [] i = []
  erase_at (x ∷ xs) zero = xs
  erase_at (x ∷ xs) (suc i) = x ∷ erase_at xs i

  abbrev pub take : ℕ → List A → List A
  take zero xs = []
  take (suc n) [] = []
  take (suc n) (x ∷ xs) = x ∷ take n xs

  abbrev pub drop : ℕ → List A → List A
  drop zero xs = xs
  drop (suc n) [] = []
  drop (suc n) (x ∷ xs) = drop n xs

  abbrev pub replicate : ℕ → A → List A
  replicate zero a = []
  replicate (suc n) a = a ∷ replicate n a

  -- The first element that passes the test is left out.
  abbrev pub erase_first : (A → Bool) → List A → List A
  erase_first p [] = []
  erase_first p (x ∷ xs) = if p x then xs else x ∷ erase_first p xs

  abbrev pub All {κ} : (A → Type κ) → List A → Type κ
  All P [] = Unit
  All P (x ∷ xs) = P x × All P xs

  pub length-append : (xs ys : List A) → length (xs ++ ys) ≡ length xs + length ys
  length-append [] ys = omega arith
  length-append (x ∷ xs) ys = omega (arith, length-append xs ys)

  pub length-replicate : (n : ℕ) (a : A) → length (replicate n a) ≡ n
  length-replicate zero a = refl
  length-replicate (suc n) a = ap suc (length-replicate n a)

  pub replicate-append : (n : ℕ) (a : A) → replicate n a ++ a ∷ [] ≡ replicate (n + 1) a
  replicate-append zero a = refl
  replicate-append (suc n) a =
      let e : suc n + 1 ≡ suc (n + 1) = omega arith in rw e (ap (◌∷◌ a) (replicate-append n a))

  pub drop-replicate : (k n : ℕ) (a : A) → drop k (replicate n a) ≡ replicate (n - k) a
  drop-replicate zero n a = let e : n - 0 ≡ n = omega arith in rw e
  drop-replicate (suc k) zero a = let e : 0 - suc k ≡ 0 = omega arith in rw e
  drop-replicate (suc k) (suc n) a =
      let e : suc n - suc k ≡ n - k = omega arith in rw e (drop-replicate k n a)

  pub length-drop : (n : ℕ) (xs : List A) → length (drop n xs) ≡ length xs - n
  length-drop zero xs = omega arith
  length-drop (suc n) [] = omega arith
  length-drop (suc n) (x ∷ xs) = omega (arith, length-drop n xs)

  pub insert_at-past :
      (xs : List A) (i : ℕ) (a : A) → length xs ≤ i → insert_at xs i a ≡ xs ++ a ∷ []
  insert_at-past [] i a h = refl
  insert_at-past (x ∷ xs) zero a h = absurd (omega arith)
  insert_at-past (x ∷ xs) (suc i) a h = ap (◌∷◌ x) (insert_at-past xs i a (omega arith))

  pub drop-length : (xs ys : List A) → drop (length xs) (xs ++ ys) ≡ ys
  drop-length [] ys = refl
  drop-length (x ∷ xs) ys = drop-length xs ys

  pub drop-all : (xs : List A) → drop (length xs) xs ≡ []
  drop-all [] = refl
  drop-all (x ∷ xs) = drop-all xs

  -- What stands at or behind the last place of a list is its last element.
  pub get_elem?-last :
      (xs : List A) (a : A) (i : ℕ) (b : A)
      → length xs ≤ i
      → get_elem? (xs ++ a ∷ []) i ≡ some b
      → a ≡ b
  get_elem?-last [] a zero b h e = cc
  get_elem?-last [] a (suc i) b h e = absurd (cc)
  get_elem?-last (x ∷ xs) a zero b h e = absurd (omega arith)
  get_elem?-last (x ∷ xs) a (suc i) b h e = get_elem?-last xs a i b (omega arith) e

  pub insert_at-length : (xs : List A) (a : A) → insert_at xs (length xs) a ≡ xs ++ a ∷ []
  insert_at-length [] a = refl
  insert_at-length (x ∷ xs) a = ap (◌∷◌ x) (insert_at-length xs a)

  pub modify-length :
      (xs : List A) (a : A) (f : A → A) → modify (xs ++ a ∷ []) (length xs) f ≡ xs ++ f a ∷ []
  modify-length [] a f = refl
  modify-length (x ∷ xs) a f = ap (◌∷◌ x) (modify-length xs a f)

  pub get_elem?-middle :
      (xs : List A) (a : A) (ys : List A) → get_elem? (xs ++ a ∷ ys) (length xs) ≡ some a
  get_elem?-middle [] a ys = refl
  get_elem?-middle (x ∷ xs) a ys = get_elem?-middle xs a ys

  pub erase_at-middle :
      (xs : List A) (a : A) (ys : List A) → erase_at (xs ++ a ∷ ys) (length xs) ≡ xs ++ ys
  erase_at-middle [] a ys = refl
  erase_at-middle (x ∷ xs) a ys = ap (◌∷◌ x) (erase_at-middle xs a ys)

  pub All-append {κ} : (P : A → Type κ) (xs ys : List A) → All P xs → All P ys → All P (xs ++ ys)
  All-append P [] ys hx hy = hy
  All-append P (x ∷ xs) ys hx hy = (hx.0, All-append P xs ys hx.1 hy)

  pub All-get_elem? {κ} :
      (P : A → Type κ) (xs : List A) (i : ℕ) (a : A) → get_elem? xs i ≡ some a → All P xs → P a
  All-get_elem? P [] i a e h = absurd (cc)
  All-get_elem? P (x ∷ xs) zero a e h = rw (← some-eq e) h.0
    where
      some-eq : {x a : A} → some x ≡ some a → x ≡ a
      some-eq e = cc
  All-get_elem? P (x ∷ xs) (suc i) a e h = All-get_elem? P xs i a e h.1

pub length-map {ℓ κ} :
    {A : Type ℓ} {B : Type κ} (xs : List A) (f : A → B) → length (map f xs) ≡ length xs
length-map [] f = refl
length-map (x ∷ xs) f = ap suc (length-map xs f)

module _ {ℓ} {A : Type ℓ} where
  abbrev pub tabulate : ℕ → (ℕ → A) → List A
  tabulate zero f = []
  tabulate (suc n) f = f 0 ∷ tabulate n (λ i. f (suc i))

  pub eq_tabulate :
      (n : ℕ) (xs : List A) (f : ℕ → A)
      → length xs ≡ n
      → ((i : ℕ) → i < n → get_elem? xs i ≡ some (f i))
      → xs ≡ tabulate n f
  eq_tabulate zero [] f l h = refl
  eq_tabulate zero (x ∷ xs) f l h = absurd (omega arith)
  eq_tabulate (suc n) [] f l h = absurd (omega arith)
  eq_tabulate (suc n) (x ∷ xs) f l h =
      let first : x ≡ f 0 = let e = h 0 (omega arith) in cc e in
      rw (first, eq_tabulate n xs (λ i. f (suc i)) (omega arith) (λ i lt. h (suc i) (omega arith)))
