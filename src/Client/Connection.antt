-- ===== src/Client/Connection.antt =====
-- What connecting does (winSockServer/src/TcpClient.cpp and winSockClient/PCClient/ClientDlg.cpp).
use open_chat.Base.{
  ℕ, ◌+◌, ◌≡◌, ◌≢◌, refl, Bool, true, false, ◌∷◌, Bool-cases, inl, inr, arith, if_ind,
  if◌then◌else◌, ◌==◌, ==-eq, ==-ne, is_minus_one,
}
use open_chat.Text.{codes}
use open_chat.Platform.{Winsock, on, socket, connect}
use open_chat.Client.Tcp.{
  TcpClient, ClientApp, connect_server, connect_socket, server_addr, set_port, set_ip,
}
use open_chat.Client.Dialog.{connect_to_server, learn_port, is_zero}

module _ (os : Winsock) (a : ClientApp) where
  -- The handle that `socket` returns.
  abbrev handle : ℕ
  handle = os.socket_ret a.log

  abbrev opened : TcpClient
  opened = record (a.client) { m_socket = handle }

  -- How far Connect came: the result and the state after.
  pub data ConnectResult (r : Bool × ClientApp) : Type 0 where
    no_socket :
        handle ≡ os.invalid_socket
        → r ≡ (false, record a { client = opened; log = socket ∷ a.log })
        → ConnectResult r
    refused :
        handle ≢ os.invalid_socket
        → is_minus_one (os.connect_ret (socket ∷ a.log) handle (server_addr os opened)) ≡ true
        → r ≡ (
          false,
          record a {
            client = opened;
            log = connect handle (server_addr os opened) ∷ socket ∷ a.log;
          },
        )
        → ConnectResult r
    connected :
        handle ≢ os.invalid_socket
        → is_minus_one (os.connect_ret (socket ∷ a.log) handle (server_addr os opened)) ≡ false
        → r ≡ (
          true,
          record a {
            client = opened;
            receive_threads = a.receive_threads + 1;
            log = connect handle (server_addr os opened) ∷ socket ∷ a.log;
          },
        )
        → ConnectResult r

  -- Connect ends in one of three ways: without a socket, refused, or connected with one more receiving
  -- thread; it connects to the stored address at the stored port, and a refused socket stays open (there
  -- is no closesocket call) and stays the object's socket.
  pub connect_server-ConnectResult : ConnectResult (connect_server os a)
  unfolding connect_server connect_socket
  connect_server-ConnectResult =
      if_ind ConnectResult (handle == os.invalid_socket)
        (λ invalid. no_socket (==-eq _ _ invalid) refl)
        (λ valid.
          if_ind ConnectResult
            (is_minus_one (os.connect_ret (socket ∷ a.log) handle (server_addr os opened)))
            (λ down. refused (==-ne _ _ valid) down refl)
            (λ up. connected (==-ne _ _ valid) up refl))

-- The dialog with the address that ConnectToServer sets.
abbrev pub at_server : ClientApp → ClientApp
at_server a = record a { client = record (a.client) { m_port = 8888; m_ip = codes "127.0.0.1" } }

server_status-connect_server :
    (os : Winsock) (a : ClientApp)
    → ((connect_server os a).1.server_status ≡ a.server_status)
      × ((connect_server os a).1.own_port ≡ a.own_port)
unfolding connect_server connect_socket
server_status-connect_server os a = (ground arith, ground arith)

-- ConnectToServer goes to port 8888 of 127.0.0.1. It says yes exactly if Connect succeeds and then the
-- socket's own name can be read; the status becomes ON, and the own port is taken over, exactly when it
-- says yes; the receiving thread runs whenever Connect succeeded, also if it says no.
pub connect_to_server_lem :
    (os : Winsock) (a : ClientApp)
    → let r = connect_to_server os a in
      let c = connect_server os (at_server a) in
      let name = os.getsockname_ret c.1.log c.1.client.m_socket in
      (r.0 ≡ (if c.0 then is_zero name.ret else false))
      × (r.1.server_status ≡ (if r.0 then on else a.server_status))
      × (r.1.own_port ≡ (if r.0 then os.ntohs name.addr.sin_port else a.own_port))
      × (r.1.receive_threads ≡ c.1.receive_threads)
      × (r.1.client ≡ c.1.client)
unfolding connect_to_server learn_port set_ip set_port
connect_to_server_lem os a =
    let kept = server_status-connect_server os (at_server a) in
    learned (connect_server os (at_server a)) kept.0 kept.1
  where
    learned :
        (c : Bool × ClientApp)
        → c.1.server_status ≡ a.server_status
        → c.1.own_port ≡ a.own_port
        → let r = if c.0 then learn_port os c.1 else (false, c.1) in
          let name = os.getsockname_ret c.1.log c.1.client.m_socket in
          (r.0 ≡ (if c.0 then is_zero name.ret else false))
          × (r.1.server_status ≡ (if r.0 then on else a.server_status))
          × (r.1.own_port ≡ (if r.0 then os.ntohs name.addr.sin_port else a.own_port))
          × (r.1.receive_threads ≡ c.1.receive_threads)
          × (r.1.client ≡ c.1.client)
    learned (false, b) s p = (refl, s, p, refl, refl)
    learned (true, b) s p =
        elim (Bool-cases (is_zero (os.getsockname_ret b.log b.client.m_socket).ret)) [
          | inl named ↦ rw named (refl, refl, refl, refl, refl)
          | inr unnamed ↦ rw unnamed (refl, s, p, refl, refl)
        ]
