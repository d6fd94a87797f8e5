-- ===== src/Base/Updates.antt =====
-- What the updates of a list at an index leave.
use Prim.Native.Nat.{ℕ, zero, suc, ◌≤◌}
use mathlib.Core.Path.{◌≡◌, refl, sym, ap, ◌∙◌}
use mathlib.Core.List.{List, [], ◌∷◌, ◌++◌, map}
use mathlib.Core.Option.{none, some}
use native.Mathlib.Omega.{arith}
use open_chat.Base.Lists.{length, All, get_elem?, modify, erase_at}

module _ {ℓ} {A : Type ℓ} where
  -- The place of an element in a list, and what the updates there leave.
  pub record SplitAt (xs : List A) (i : ℕ) (a : A) : Type ℓ where
    pub before : List A
    pub behind : List A
    pub whole : xs ≡ before ++ a ∷ behind
    pub modified : (f : A → A) → modify xs i f ≡ before ++ f a ∷ behind
    pub erased : erase_at xs i ≡ before ++ behind

  pub get_elem?-SplitAt : (xs : List A) (i : ℕ) (a : A) → get_elem? xs i ≡ some a → SplitAt xs i a
  get_elem?-SplitAt [] i a e = absurd (cc)
  get_elem?-SplitAt (x ∷ xs) zero a e = record {
    before = [];
    behind = xs;
    whole = cc;
    modified = λ f. cc;
    erased = refl;
  }
  get_elem?-SplitAt (x ∷ xs) (suc i) a e =
      let s = get_elem?-SplitAt xs i a e in
      record {
        before = x ∷ s.before;
        behind = s.behind;
        whole = ap (◌∷◌ x) s.whole;
        modified = λ f. ap (◌∷◌ x) (s.modified f);
        erased = ap (◌∷◌ x) s.erased;
      }

module _ {ℓ} {A : Type ℓ} where
  pub get_elem?-modify :
      (xs : List A) (i : ℕ) (f : A → A) (a : A)
      → get_elem? xs i ≡ some a
      → get_elem? (modify xs i f) i ≡ some (f a)
  get_elem?-modify [] i f a e = absurd (cc)
  get_elem?-modify (x ∷ xs) zero f a e = cc
  get_elem?-modify (x ∷ xs) (suc i) f a e = get_elem?-modify xs i f a e

  pub modify-modify :
      (xs : List A) (i : ℕ) (f g : A → A) → modify (modify xs i f) i g ≡ modify xs i (λ a. g (f a))
  modify-modify [] i f g = refl
  modify-modify (x ∷ xs) zero f g = refl
  modify-modify (x ∷ xs) (suc i) f g = ap (◌∷◌ x) (modify-modify xs i f g)

  pub erase_at-modify :
      (xs : List A) (i : ℕ) (f : A → A) → erase_at (modify xs i f) i ≡ erase_at xs i
  erase_at-modify [] i f = refl
  erase_at-modify (x ∷ xs) zero f = refl
  erase_at-modify (x ∷ xs) (suc i) f = ap (◌∷◌ x) (erase_at-modify xs i f)

  -- A change that leaves the element as it is.
  pub modify-same :
      (xs : List A) (i : ℕ) (f : A → A) (a : A)
      → get_elem? xs i ≡ some a
      → f a ≡ a
      → modify xs i f ≡ xs
  modify-same [] i f a e same = refl
  modify-same (x ∷ xs) zero f a e same =
      let here : x ≡ a = cc in ap (λ (y : A). y ∷ xs) (ap f here ∙ same ∙ sym here)
  modify-same (x ∷ xs) (suc i) f a e same = ap (◌∷◌ x) (modify-same xs i f a e same)

module _ {ℓ κ} {A : Type ℓ} {B : Type κ} (f : A → B) where
  pub erase_at-map : (xs : List A) (i : ℕ) → erase_at (map f xs) i ≡ map f (erase_at xs i)
  erase_at-map [] i = refl
  erase_at-map (x ∷ xs) zero = refl
  erase_at-map (x ∷ xs) (suc i) = ap (◌∷◌ (f x)) (erase_at-map xs i)

  pub get_elem?-map :
      (xs : List A) (i : ℕ) (a : A) → get_elem? xs i ≡ some a → get_elem? (map f xs) i ≡ some (f a)
  get_elem?-map [] i a e = absurd (cc)
  get_elem?-map (x ∷ xs) zero a e = cc
  get_elem?-map (x ∷ xs) (suc i) a e = get_elem?-map xs i a e

module _ {ℓ κ} {A : Type ℓ} (P : A → Type κ) where
  pub All-erase_at : (xs : List A) (i : ℕ) → All P xs → All P (erase_at xs i)
  All-erase_at [] i all = all
  All-erase_at (x ∷ xs) zero all = all.1
  All-erase_at (x ∷ xs) (suc i) all = (all.0, All-erase_at xs i all.1)

  pub All-modify :
      (xs : List A) (i : ℕ) (f : A → A) → ((a : A) → P (f a)) → All P xs → All P (modify xs i f)
  All-modify [] i f h all = all
  All-modify (x ∷ xs) zero f h all = (h x, all.1)
  All-modify (x ∷ xs) (suc i) f h all = (all.0, All-modify xs i f h all.1)

module _ {ℓ} {A : Type ℓ} where
  pub get_elem?-none : (xs : List A) (i : ℕ) → get_elem? xs i ≡ none → length xs ≤ i
  get_elem?-none [] i e = omega arith
  get_elem?-none (x ∷ xs) zero e = absurd (cc)
  get_elem?-none (x ∷ xs) (suc i) e = omega (arith, get_elem?-none xs i e)

  pub get_elem?-past : (xs : List A) (i : ℕ) → length xs ≤ i → get_elem? xs i ≡ none
  get_elem?-past [] i h = refl
  get_elem?-past (x ∷ xs) zero h = absurd (omega arith)
  get_elem?-past (x ∷ xs) (suc i) h = get_elem?-past xs i (omega arith)
