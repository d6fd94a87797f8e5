-- ===== src/Text/Decimal.antt =====
-- Reading back what was printed: the round trips of `to_string`, `%d` and `%ld` (used by
-- InsertClient, RemoveClient and the Return key in winSockServer/PCServer/ServerDlg.cpp).
use open_chat.Base.{
  ℕ, zero, suc, ◌+◌, ◌-◌, ◌*◌, ◌/◌, ◌%◌, ◌^◌, ◌<◌, ◌≡◌, refl, ◌∙◌, ◌↔◌, true, false, List, [], ◌∷◌,
  ◌++◌, some, arith, All, All-append, replicate, ltb, Bool-cases, inl, inr, pos,
}
use open_chat.Text.{
  Text, text_eq, c_string, digits_fuel, to_string, signed32, format_d, format_ld, is_digit,
  read_digits, skip_spaces, read_sign, ttoi, tcstoul,
}

abbrev pub IsDigit : ℕ → Type 0
IsDigit c = is_digit c ≡ true

add-IsDigit : (d : ℕ) → d < 10 → IsDigit (b'0' + d)
add-IsDigit d h = ground arith

digits_fuel-IsDigit : (f n : ℕ) → All IsDigit (digits_fuel f n)
unfolding digits_fuel
digits_fuel-IsDigit zero n = tt
digits_fuel-IsDigit (suc f) n = elim (Bool-cases (ltb n 10)) [
  | inl small ↦ rw small (ground arith, tt)
  | inr large ↦ rw large (
      All-append IsDigit (digits_fuel f (n / 10)) ((b'0' + n % 10) ∷ [])
        (digits_fuel-IsDigit f (n / 10)) (add-IsDigit (n % 10) (omega arith), tt))
]

read_digits-append :
    (acc : ℕ) (ds : Text) (d : ℕ)
    → All IsDigit ds
    → d < 10
    → read_digits acc (ds ++ (b'0' + d) ∷ []) ≡ read_digits acc ds * 10 + d
unfolding read_digits
read_digits-append acc [] d h lt = ground arith
read_digits-append acc (c ∷ cs) d h lt =
    rw h.0 (read_digits-append (acc * 10 + (c - b'0')) cs d h.1 lt)

read_digits-digits_fuel : (f n : ℕ) → n < f → read_digits 0 (digits_fuel f n) ≡ n
unfolding digits_fuel
read_digits-digits_fuel zero n h = absurd (omega arith)
read_digits-digits_fuel (suc f) n h = elim (Bool-cases (ltb n 10)) [
  | inl small ↦ rw small (unfold read_digits in ground arith)
  | inr large ↦
      rw
        (
          large,
          read_digits-append 0 (digits_fuel f (n / 10)) (n % 10) (digits_fuel-IsDigit f (n / 10))
              (omega arith),
        )
        (ground (arith, read_digits-digits_fuel f (n / 10)))
]

pub to_string-IsDigit : (n : ℕ) → All IsDigit (to_string n)
unfolding to_string
to_string-IsDigit n = digits_fuel-IsDigit (suc n) n

read_digits-to_string : (n : ℕ) → read_digits 0 (to_string n) ≡ n
unfolding to_string
read_digits-to_string n = read_digits-digits_fuel (suc n) n (omega arith)

skip_spaces-digits : (t : Text) → All IsDigit t → skip_spaces t ≡ t
unfolding skip_spaces
skip_spaces-digits [] h = refl
skip_spaces-digits (c ∷ cs) h = ground (arith, h.0)

read_sign-digits : (t : Text) → All IsDigit t → read_sign t ≡ (false, t)
read_sign-digits [] h = refl
read_sign-digits (c ∷ cs) h = ground (arith, h.0)

-- `_ttoi` reads back any number that fits an `int`.
pub ttoi-to_string : (n : ℕ) → n < 2 ^ 31 → ttoi (to_string n) ≡ pos n
unfolding ttoi
ttoi-to_string n h = rw (skip_spaces-digits (to_string n) (to_string-IsDigit n)) (
    rw (read_sign-digits (to_string n) (to_string-IsDigit n), read_digits-to_string n)
      (ground arith))

-- A port printed with %d is the number that `_ttoi` reads.
pub ttoi-format_d : (n : ℕ) → n < 2 ^ 31 → ttoi (format_d n) ≡ pos n
unfolding format_d
ttoi-format_d n h = let e : signed32 n ≡ pos n = ground arith in rw e (ttoi-to_string n h)

tcstoul-to_string : (n : ℕ) → n < 2 ^ 32 → tcstoul (to_string n) ≡ n
unfolding tcstoul
tcstoul-to_string n h = rw (skip_spaces-digits (to_string n) (to_string-IsDigit n)) (
    rw (read_sign-digits (to_string n) (to_string-IsDigit n), read_digits-to_string n)
      (ground arith))

tcstoul-minus : (n : ℕ) → n < 2 ^ 32 → tcstoul (b'-' ∷ to_string n) ≡ (2 ^ 32 - n) % 2 ^ 32
unfolding tcstoul skip_spaces
tcstoul-minus n h = rw (read_digits-to_string n) (ground arith)

-- A handle printed with %ld and read back by `_tcstoul` is the handle modulo 2^32.
pub tcstoul-format_ld : (s : ℕ) → tcstoul (format_ld s) ≡ s % 2 ^ 32
unfolding format_ld
tcstoul-format_ld s = elim (Bool-cases (ltb (s % 2 ^ 32) (2 ^ 31))) [
  | inl low ↦ rw low (tcstoul-to_string (s % 2 ^ 32) (omega arith))
  | inr high ↦ rw high (tcstoul-minus (suc (2 ^ 32 - s % 2 ^ 32 - 1)) (ground arith) ∙ ground arith)
]

pub text_eq_iff : (s t : Text) → (text_eq s t ≡ true) ↔ (s ≡ t)
unfolding text_eq
text_eq_iff [] [] = (λ _. refl, λ _. refl)
text_eq_iff [] (d ∷ t) = (λ e. cc, λ e. cc)
text_eq_iff (c ∷ s) [] = (λ e. cc, λ e. cc)
text_eq_iff (c ∷ s) (d ∷ t) = ground (arith, text_eq_iff s t)

-- The text before the first terminator of a char array, whatever follows it.
pub c_string-append : (s rest : List ℕ) → All (λ c. 0 < c) s → c_string (s ++ 0 ∷ rest) ≡ some s
unfolding c_string
c_string-append [] rest h = refl
c_string-append (c ∷ s) rest h = ground (arith, h.0, c_string-append s rest h.1)

-- The contents of a zeroed array after a message that leaves room for the terminator.
pub c_string-padded :
    (t : Text) (k : ℕ) → 0 < k → All (λ c. 0 < c) t → c_string (t ++ replicate k 0) ≡ some t
c_string-padded t zero h p = absurd (omega arith)
c_string-padded t (suc k) h p = c_string-append t (replicate k 0) p
