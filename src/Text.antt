-- ===== src/Text.antt =====
-- Character strings as lists of code units, and the C runtime's number formats that the dialogs
-- and the server use on them (winSockServer/PCServer/ServerDlg.cpp, winSockServer/src/TcpServer.cpp):
-- `std::to_string`, CString::Format with %d and %ld, `_ttoi`, `_tcstoul` in base 10, and the reading
-- of a char array up to its terminator.
pub mod Decimal
use Prim.Native.Char.{code}
use Prim.Native.String.{String}
use open_chat.Base.{
  ℕ, zero, suc, ◌+◌, ◌-◌, ◌*◌, ◌/◌, ◌%◌, ◌^◌, Bool, true, false, ◌&&◌, ◌||◌, List, [], ◌∷◌, ◌++◌,
  Option, none, some, ltb, leb, ◌==◌, if◌then◌else◌, ℤ, pos, negsuc,
}

abbrev pub Text : Type 0
Text = List ℕ

-- A literal of the source.
abbrev pub codes : String → Text
codes String.[] = []
codes (String.◌∷◌ c s) = code c ∷ codes s

-- `==` on strings.
unfoldable pub text_eq : Text → Text → Bool
text_eq [] [] = true
text_eq [] (d ∷ t) = false
text_eq (c ∷ s) [] = false
text_eq (c ∷ s) (d ∷ t) = c == d && text_eq s t

-- `std::string(buffer)` on a char array: the characters before the first terminator. `none` is a
-- read past the end of the array.
unfoldable pub c_string : List ℕ → Option Text
c_string [] = none
c_string (c ∷ cs) = elim (c == 0) [
  | true ↦ some []
  | false ↦ elim (c_string cs) [ none ↦ none | some t ↦ some (c ∷ t) ]
]

-- The decimal digits of `n`, by `f` rounds of division.
digits_fuel : ℕ → ℕ → Text
digits_fuel zero n = []
digits_fuel (suc f) n =
    let rest = digits_fuel f (n / 10) ++ (b'0' + n % 10) ∷ [] in
    if ltb n 10 then (b'0' + n) ∷ [] else rest

-- `std::to_string(n)`; a number has fewer digits than `n + 1`.
unfoldable pub to_string : ℕ → Text
unfolding digits_fuel
to_string n = digits_fuel (suc n) n

-- The 32-bit signed number that `%d` and `%ld` read from an argument.
abbrev pub signed32 : ℕ → ℤ
signed32 n =
    if ltb (n % 2 ^ 32) (2 ^ 31) then pos (n % 2 ^ 32) else negsuc (2 ^ 32 - n % 2 ^ 32 - 1)

abbrev pub show_int : ℤ → Text
show_int (pos n) = to_string n
show_int (negsuc n) = b'-' ∷ to_string (suc n)

-- `CString::Format(_T("%d"), n)`
unfoldable pub format_d : ℕ → Text
format_d n = show_int (signed32 n)

-- `CString::Format(_T("%ld"), n)`: `long` has 32 bits on Windows.
unfoldable pub format_ld : ℕ → Text
format_ld n = show_int (signed32 n)

abbrev pub is_digit : ℕ → Bool
is_digit c = leb b'0' c && leb c b'9'

abbrev pub is_space : ℕ → Bool
is_space c = c == 32 || (leb 9 c && leb c 13)

-- The value of the leading digits, after `acc`.
unfoldable pub read_digits : ℕ → Text → ℕ
read_digits acc [] = acc
read_digits acc (c ∷ cs) =
    let rest = read_digits (acc * 10 + (c - b'0')) cs in if is_digit c then rest else acc

unfoldable pub skip_spaces : Text → Text
skip_spaces [] = []
skip_spaces (c ∷ cs) = let rest = skip_spaces cs in if is_space c then rest else c ∷ cs

-- The sign, `true` for minus, and what follows it.
abbrev pub read_sign : Text → Bool × Text
read_sign [] = (false, [])
read_sign (c ∷ cs) =
    if c == b'-' then (true, cs) else if c == b'+' then (false, cs) else (false, c ∷ cs)

-- `_ttoi(t)`, clamped to the range of `int`.
unfoldable pub ttoi : Text → ℤ
unfolding read_digits skip_spaces
ttoi t =
    let (minus, rest) = read_sign (skip_spaces t) in
    let n = read_digits 0 rest in
    if minus
    then (if leb (2 ^ 31) n then negsuc (2 ^ 31 - 1) else if n == 0 then pos 0 else negsuc (n - 1))
    else if leb (2 ^ 31) n
    then pos (2 ^ 31 - 1)
    else pos n

-- `_tcstoul(t, NULL, 10)`: too large a number gives ULONG_MAX, a minus sign negates modulo 2^32.
unfoldable pub tcstoul : Text → ℕ
unfolding read_digits skip_spaces
tcstoul t =
    let (minus, rest) = read_sign (skip_spaces t) in
    let n = read_digits 0 rest in
    if leb (2 ^ 32) n then 2 ^ 32 - 1 else if minus then (2 ^ 32 - n) % 2 ^ 32 else n

-- An `int` compared with a `size_t` is converted to it first.
abbrev pub int_to_size : ℤ → ℕ
int_to_size (pos n) = n
int_to_size (negsuc n) = 2 ^ 64 - 1 - n
