-- ===== src/Client/Calls/Counting.antt =====
-- How many receiving threads stand before a call (ClientFunc of winSockServer/src/TcpClient.cpp).
use open_chat.Base.{
  ℕ, ◌+◌, ◌<◌, ◌≤◌, ◌≡◌, ◌⊎◌, ap, Bool, true, false, List, [], ◌∷◌, ◌++◌, Option, none, some,
  SplitAt, arith, if◌then◌else◌,
}
use open_chat.Client.Calls.{Stage, marking, closing, moved}

-- The thread has not yet told the user that the connection is lost.
abbrev pub is_early : Stage → Bool
is_early marking = false
is_early closing = false
is_early other = true

-- The thread has not yet set the status to OFF.
abbrev pub is_live : Stage → Bool
is_live closing = false
is_live other = true

abbrev pub one_if : Bool → ℕ
one_if b = if b then 1 else 0

abbrev pub count_at : (Stage → Bool) → List Stage → ℕ
count_at p [] = 0
count_at p (t ∷ ts) = (if p t then 1 else 0) + count_at p ts

-- A thread that has ended counts for nothing.
abbrev pub weight : (Stage → Bool) → Option Stage → ℕ
weight p none = 0
weight p (some t) = one_if (p t)

pub count_at-append :
    (p : Stage → Bool) (xs ys : List Stage) → count_at p (xs ++ ys) ≡ count_at p xs + count_at p ys
count_at-append p [] ys = omega arith
count_at-append p (x ∷ xs) ys = omega (arith, count_at-append p xs ys)

pub count_at-moved :
    (p : Stage → Bool) (ts : List Stage) (i : ℕ) (t : Stage) (o : Option Stage)
    → SplitAt ts i t
    → count_at p (moved ts i o) + one_if (p t) ≡ count_at p ts + weight p o
count_at-moved p ts i t none at = omega (
  arith,
  ap (count_at p) at.whole,
  ap (count_at p) at.erased,
  count_at-append p at.before (t ∷ at.behind),
  count_at-append p at.before at.behind,
)
count_at-moved p ts i t (some u) at = omega (
  arith,
  ap (count_at p) at.whole,
  ap (count_at p) (at.modified (λ _. u)),
  count_at-append p at.before (t ∷ at.behind),
  count_at-append p at.before (u ∷ at.behind),
)

pub early-le-live : (ts : List Stage) → count_at is_early ts ≤ count_at is_live ts
early-le-live [] = omega arith
early-le-live (t ∷ ts) = ground (arith, early-le-live ts)

pub early_stays :
    (ts us : List Stage)
    → (count_at is_early ts ≤ count_at is_early us) ⊎ (false ≡ true)
    → 0 < count_at is_early ts
    → 0 < count_at is_early us
early_stays ts us h e = ground arith
