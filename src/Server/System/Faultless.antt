-- ===== src/Server/System/Faultless.antt =====
-- A received text that is shorter than the buffer of ClientFunc ends inside it
-- (winSockServer/src/TcpServer.cpp).
use open_chat.Base.{
  ℕ, zero, suc, ◌-◌, ◌<◌, ◌≡◌, refl, true, List, [], ◌∷◌, ◌++◌, length, replicate, drop-replicate,
  ◌==◌, Bool-cases, some, inl, inr, arith, is_positive,
}
use open_chat.Text.{Text, c_string}
use open_chat.Platform.{Winsock, Log, Received}
use open_chat.Server.State.{max_buff}
use open_chat.Server.Threads.{received_in}

-- Every message fits ClientFunc's buffer with its terminator.
abbrev pub ShortMessages : Winsock → Type 0
ShortMessages os = (h : Log) (sock : ℕ) → length (os.recv_ret h sock max_buff).bytes < max_buff

c_string-zero : (xs ys : List ℕ) → (t : Text) × (c_string (xs ++ 0 ∷ ys) ≡ some t)
unfolding c_string
c_string-zero [] ys = ([], refl)
c_string-zero (x ∷ xs) ys =
    let (t, e) = c_string-zero xs ys in
    elim (Bool-cases (x == 0)) [
      | inl z ↦ ([], rw (z, c_string))
      | inr p ↦ (x ∷ t, rw (p, e, c_string))
    ]

replicate-cons : (k : ℕ) → 0 < k → (ys : List ℕ) × (replicate k 0 ≡ 0 ∷ ys)
replicate-cons zero h = absurd (omega arith)
replicate-cons (suc k) h = (replicate k 0, refl)

-- A message that is shorter than the array is followed by a terminator.
pub received_in-terminated :
    (size : ℕ) (r : Received)
    → length r.bytes < size
    → is_positive r.count ≡ true
    → (t : Text) × (c_string (received_in size r) ≡ some t)
received_in-terminated size r lt yes_data =
    let (ys, zeros) = replicate-cons (size - length r.bytes) (omega arith) in
    let (t, q) = c_string-zero r.bytes ys in
    (t, rw (yes_data, drop-replicate {A = ℕ} (length r.bytes) size 0, zeros) q)
