-- ===== src/Client/Receiving.antt =====
-- What receiving and losing the connection do (winSockServer/src/TcpClient.cpp).
use open_chat.Base.{
  ℕ, zero, suc, ◌-◌, ◌<◌, ◌≡◌, refl, ap, ◌∙◌, true, List, ◌∷◌, ◌++◌, some, length, replicate,
  drop-replicate, All, Option-cases, ltb, inl, inr, arith, if_ind, is_positive, pos,
}
use open_chat.Text.{Text, codes, c_string}
use open_chat.Text.Decimal.{c_string-padded}
use open_chat.Platform.{Winsock, Log, read, off, recv, send, getpeername, shutdown_both}
use open_chat.Server.Threads.{Turn, goes_on, ends, fault, received_in}
use open_chat.Client.Tcp.{
  TcpClient, ClientApp, with_log, select_socket, echo, lose, next_turn, receive_turn, receive,
  buf_size, add_info, disconnected_text,
}

module _ (os : Winsock) (a : ClientApp) where
  -- The handle that `socket` returns.
  abbrev handle : ℕ
  handle = os.socket_ret a.log

-- How the end of the receiving thread leaves the dialog.
abbrev pub Lost : Winsock → ClientApp → ClientApp → Type 0
Lost os a b =
    (b.server_status ≡ off)
    × (b.client ≡ a.client)
    × (b.receive_threads ≡ a.receive_threads - 1)
    × ((h : Log) × (b.log ≡ shutdown_both a.client.m_socket ∷ add_info os disconnected_text h))

Lost-later :
    (os : Winsock) (a c b : ClientApp)
    → c.client ≡ a.client
    → c.receive_threads ≡ a.receive_threads
    → Lost os c b
    → Lost os a b
Lost-later os a c b client threads (status, same, fewer, (h, calls)) = (
  status,
  same ∙ client,
  fewer ∙ ap (λ (n : ℕ). n - 1) threads,
  (
    h,
    calls
        ∙ ap (λ (t : TcpClient). shutdown_both t.m_socket ∷ add_info os disconnected_text h) client,
  ),
)

-- A turn of the receiving thread, by how it leaves the thread.
abbrev pub Received : Winsock → ClientApp → Turn ClientApp → Type 0
Received os a (goes_on b) = (b.client ≡ a.client) × (b.receive_threads ≡ a.receive_threads)
Received os a (ends b) = Lost os a b
Received os a fault = Unit

echo-Received :
    (os : Winsock) (msg : List ℕ) (a b : ClientApp)
    → b.client ≡ a.client
    → b.receive_threads ≡ a.receive_threads
    → Received os a (echo os msg b)
unfolding echo
echo-Received os msg a b c t = elim (Option-cases (c_string msg)) [
  | inl e ↦ rw (e, echo) tt
  | inr (s, e) ↦ rw (e, echo) (c, t)
]

pub receive_turn-Received : (os : Winsock) (a : ClientApp) → Received os a (receive_turn os a)
unfolding receive_turn lose
receive_turn-Received os a =
    let (ready, h) = select_socket os a.client.m_socket 100 read a.log in
    let r = os.recv_ret h a.client.m_socket buf_size in
    if_ind (Received os a) ready
      (λ _.
        if_ind (Received os a) (is_positive r.count)
          (λ _. echo-Received os (received_in buf_size r) a _ refl refl)
          (λ _. (refl, refl, refl, (_, refl))))
      (λ _. (refl, refl))

-- The thread of ClientFunc ends only by losing the connection: then the status is OFF, the last calls
-- tell the user and shut the socket down, and one thread fewer runs.
pub receive_ends : (os : Winsock) (n : ℕ) (a b : ClientApp) → receive os n a ≡ ends b → Lost os a b
unfolding receive
receive_ends os zero a b e = absurd (cc)
receive_ends os (suc n) a b e =
    after (receive_turn os a) (receive_turn-Received os a) (receive_ends os n) e
  where
    after :
        (t : Turn ClientApp)
        → Received os a t
        → ((c d : ClientApp) → receive os n c ≡ ends d → Lost os c d)
        → next_turn (receive os n) t ≡ ends b
        → Lost os a b
    after (goes_on c) r later q = Lost-later os a c b r.0 r.1 (later c b q)
    after (ends c) r later q = let same : c ≡ b = cc in rw same at r
    after fault r later q = absurd (cc)

-- A message of fewer than 256 characters, none of them zero, that arrives is shown with a line feed,
-- and goes back to the server as a block of 256 bytes: the message, filled up with zeros.
pub receive_turn_echoes :
    (os : Winsock) (a : ClientApp) (t : Text)
    → let (ready, h) = select_socket os a.client.m_socket 100 read a.log in
      ready ≡ true
      → os.recv_ret h a.client.m_socket buf_size ≡ record { count = pos (length t); bytes = t }
      → 0 < length t
      → length t < buf_size
      → All (λ c. 0 < c) t
      → receive_turn os a
        ≡ goes_on (
            with_log a (
              send a.client.m_socket (t ++ replicate (buf_size - length t) 0)
              ∷ add_info os
                  (t ++ codes "\n")
                  (getpeername a.client.m_socket ∷ recv a.client.m_socket buf_size ∷ h)))
unfolding receive_turn echo
receive_turn_echoes os a t ready got some_text short text =
    let e : ltb 0 (length t) ≡ true = ground arith in
    let text_of : c_string (t ++ replicate (buf_size - length t) 0) ≡ some t =
      c_string-padded t (buf_size - length t) (omega arith) text in
    rw (ready, got, e, drop-replicate {A = ℕ} (length t) buf_size 0) (rw (echo, text_of))
