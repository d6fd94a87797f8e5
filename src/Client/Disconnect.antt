-- ===== src/Client/Disconnect.antt =====
-- The receiving thread sees that the server has hung up (winSockServer/src/TcpClient.cpp).
use open_chat.Base.{
  ℕ, zero, suc, ◌+◌, ◌-◌, ◌<◌, ◌≡◌, refl, ap, ◌∙◌, Bool, true, false, ◌∷◌, arith, is_positive,
}
use open_chat.Platform.{Winsock, Log, read, select, recv}
use open_chat.Server.Threads.{goes_on, ends}
use open_chat.Client.Tcp.{
  ClientApp, with_log, select_socket, lose, next_turn, receive_turn, receive, buf_size,
}
use open_chat.Client.Receiving.{Lost, receive_ends}

-- The history after `n` turns in which nothing is there to read.
abbrev pub waits : ℕ → ℕ → Log → Log
waits sock zero h = h
waits sock (suc n) h = waits sock n (select read sock 100 ∷ h)

select_socket-log :
    (os : Winsock) (sock : ℕ) (h : Log)
    → (select_socket os sock 100 read h).1 ≡ select read sock 100 ∷ h
unfolding select_socket
select_socket-log os sock h = ground arith

receive_turn-waits :
    (os : Winsock) (a : ClientApp)
    → (select_socket os a.client.m_socket 100 read a.log).0 ≡ false
    → receive_turn os a ≡ goes_on (with_log a (select read a.client.m_socket 100 ∷ a.log))
unfolding receive_turn
receive_turn-waits os a idle = rw (idle, select_socket-log os a.client.m_socket a.log) refl

receive_turn-loses :
    (os : Winsock) (a : ClientApp)
    → (select_socket os a.client.m_socket 100 read a.log).0 ≡ true
    → is_positive
        (os.recv_ret (select read a.client.m_socket 100 ∷ a.log) a.client.m_socket buf_size).count
      ≡ false
    → (b : ClientApp) × (receive_turn os a ≡ ends b)
unfolding receive_turn
receive_turn-loses os a ready gone =
    let h : Log = select read a.client.m_socket 100 ∷ a.log in
    (
      record (lose os (with_log a (recv a.client.m_socket buf_size ∷ h))) {
        receive_threads = a.receive_threads - 1;
      },
      rw (ready, select_socket-log os a.client.m_socket a.log, gone) refl,
    )

module _ (os : Winsock) where
  -- What `select` says after `n` such turns, and whether `recv` then has data.
  abbrev pub ready_after : ℕ → ClientApp → Bool
  ready_after n a =
      (select_socket os a.client.m_socket 100 read (waits a.client.m_socket n a.log)).0

  abbrev pub heard_after : ℕ → ClientApp → Bool
  heard_after n a =
      is_positive
        (os.recv_ret (select read a.client.m_socket 100 ∷ waits a.client.m_socket n a.log)
          a.client.m_socket buf_size).count

  receive-ends :
      (n : ℕ) (a : ClientApp)
      → ((k : ℕ) → k < n → ready_after k a ≡ false)
      → ready_after n a ≡ true
      → heard_after n a ≡ false
      → (b : ClientApp) × (receive os (suc n) a ≡ ends b)
  unfolding receive
  receive-ends zero a idle ready gone =
      let (b, e) = receive_turn-loses os a ready gone in (b, ap (next_turn (receive os zero)) e)
  receive-ends (suc n) a idle ready gone =
      let (b, e) =
        receive-ends n (with_log a (select read a.client.m_socket 100 ∷ a.log))
          (λ k lt. idle (suc k) (omega arith)) ready gone in
      (b, ap (next_turn (receive os (suc n))) (receive_turn-waits os a (idle 0 (omega arith))) ∙ e)

  -- If nothing is there to read for `n` turns, and then `recv` says that the connection has ended or
  -- failed, the thread of ClientFunc ends within `n + 1` turns, with the status OFF, the user told and
  -- the socket shut down.
  pub receive_loses :
      (n : ℕ) (a : ClientApp)
      → ((k : ℕ) → k < n → ready_after k a ≡ false)
      → ready_after n a ≡ true
      → heard_after n a ≡ false
      → (b : ClientApp) × (receive os (n + 1) a ≡ ends b) × Lost os a b
  receive_loses n a idle ready gone =
      let one : n + 1 ≡ suc n = omega arith in
      let (b, e) = receive-ends n a idle ready gone in (b, rw one e, receive_ends os (suc n) a b e)
