-- ===== src/Client/Tcp.antt =====
-- class TcpClient and the state of the client process (winSockServer/src/TcpClient.cpp,
-- winSockServer/include/TcpClient.h, and the members of PCClientDlg in
-- winSockClient/PCClient/ClientDlg.h).
use open_chat.Base.{
  ℕ, zero, suc, ◌+◌, ◌-◌, ◌%◌, ◌^◌, Bool, true, false, not, List, [], ◌∷◌, ◌++◌, none, some, ltb,
  ◌==◌, if◌then◌else◌, is_minus_one, is_positive, minus_one,
}
use open_chat.Text.{Text, codes, c_string}
use open_chat.Platform.{
  Winsock, Log, Mode, read, ServerStatus, off, SockAddr, socket, connect, select, recv, send,
  getpeername, shutdown_both, set_sel, replace_sel, info_box,
}
use open_chat.Server.Threads.{Turn, goes_on, ends, fault, received_in}

abbrev pub buf_size : ℕ
buf_size = 256

pub record TcpClient : Type 0 where
  pub m_socket : ℕ
  pub m_port : ℕ
  pub m_ip : Text

-- The constructor of TcpClient with a port and an address.
unfoldable pub tcp_client : Winsock → ℕ → Text → TcpClient
tcp_client os port ip = record { m_socket = os.invalid_socket; m_port = port; m_ip = ip }

-- PCClientDlg, its receiving threads and the history of calls.
pub record ClientApp : Type 0 where
  pub client : TcpClient
  pub server_status : ServerStatus
  pub own_port : ℕ
  pub receive_threads : ℕ
  pub log : Log

-- The constructor of PCClientDlg.
unfoldable pub client_dlg : Winsock → ClientApp
unfolding tcp_client
client_dlg os = record {
  client = tcp_client os 8888 (codes "127.0.0.1");
  server_status = off;
  own_port = 0;
  receive_threads = 0;
  log = [];
}

abbrev pub with_log : ClientApp → Log → ClientApp
with_log a h = record a { log = h }

-- TcpClient::SetPort
unfoldable pub set_port : ℕ → TcpClient → TcpClient
set_port port c = record c { m_port = port }

-- TcpClient::SetIp
unfoldable pub set_ip : Text → TcpClient → TcpClient
set_ip ip c = record c { m_ip = ip }

-- TcpClient::DisConnect, whose body is empty.
unfoldable pub dis_connect : TcpClient → TcpClient
dis_connect c = c

-- PCClientDlg::AddInfo
unfoldable pub add_info : Winsock → Text → Log → Log
add_info os info h = replace_sel info_box (os.widen info) ∷ set_sel info_box minus_one minus_one ∷ h

-- The text "已断线，请重新连接\n" in GBK.
abbrev pub disconnected_text : Text
disconnected_text =
    0xd2 ∷ 0xd1 ∷ 0xb6 ∷ 0xcf ∷ 0xcf ∷ 0xdf ∷ 0xa3 ∷ 0xac ∷ 0xc7 ∷ 0xeb ∷ 0xd6 ∷ 0xd8 ∷ 0xd0 ∷ 0xc2
    ∷ 0xc1 ∷ 0xac ∷ 0xbd ∷ 0xd3 ∷ 10 ∷ []

-- What comes after a turn of a loop.
abbrev pub next_turn : (ClientApp → Turn ClientApp) → Turn ClientApp → Turn ClientApp
next_turn f (goes_on a) = f a
next_turn f (ends a) = ends a
next_turn f fault = fault

module _ (os : Winsock) where
  open os use {invalid_socket, htons, inet_addr, socket_ret, connect_ret, select_ret, recv_ret}

  -- The address of TcpClient::Connect; `htons` takes 16 bits of the port.
  abbrev pub server_addr : TcpClient → SockAddr
  server_addr c = record { sin_addr = inet_addr c.m_ip; sin_port = htons (c.m_port % 2 ^ 16) }

  -- The rest of TcpClient::Connect after `socket`.
  unfoldable pub connect_socket : ClientApp → Bool × ClientApp
  connect_socket a =
      let addr = server_addr a.client in
      let sock = a.client.m_socket in
      let h = connect sock addr ∷ a.log in
      if is_minus_one (connect_ret a.log sock addr)
      then (false, with_log a h)
      else (true, record a { receive_threads = a.receive_threads + 1; log = h })

  -- TcpClient::Connect, with the thread that it starts.
  unfoldable pub connect_server : ClientApp → Bool × ClientApp
  unfolding connect_socket
  connect_server a =
      let sock = socket_ret a.log in
      let a' = record a { client = record (a.client) { m_socket = sock }; log = socket ∷ a.log } in
      if sock == invalid_socket then (false, a') else connect_socket a'

  -- TcpClient::Select. A negative time-out is out of the model: the caller passes 100.
  unfoldable pub select_socket : ℕ → ℕ → Mode → Log → Bool × Log
  select_socket sock timeout mode h =
      let limit = if ltb 1000 timeout then 1000 else timeout in
      let answer = select_ret h mode sock in
      let h' = select mode sock limit ∷ h in
      if not (is_positive answer.ret)
      then (false, h')
      else if answer.is_set
      then (true, h')
      else (false, h')

  -- ClientFunc's branch for a message: it is shown, and the whole array goes back to the server.
  unfoldable pub echo : List ℕ → ClientApp → Turn ClientApp
  echo msg a = elim (c_string msg) [
    | none ↦ fault
    | some text ↦ goes_on (
        with_log a (
          send a.client.m_socket msg
          ∷ add_info os (text ++ codes "\n") (getpeername a.client.m_socket ∷ a.log)))
  ]

  -- ClientFunc's branch for a connection that has ended.
  unfoldable pub lose : ClientApp → ClientApp
  lose a = record a {
    server_status = off;
    log = shutdown_both a.client.m_socket ∷ add_info os disconnected_text a.log;
  }

  -- One turn of the loop of TcpClient::ClientFunc; the dialog is never null.
  unfoldable pub receive_turn : ClientApp → Turn ClientApp
  receive_turn a =
      let (ready, h) = select_socket a.client.m_socket 100 read a.log in
      let r = recv_ret h a.client.m_socket buf_size in
      let a' = with_log a (recv a.client.m_socket buf_size ∷ h) in
      if ready
      then (if is_positive r.count
          then echo (received_in buf_size r) a'
          else ends (record (lose a') { receive_threads = a.receive_threads - 1 }))
      else goes_on (with_log a h)

  -- The thread of ClientFunc until it ends, for at most `n` turns.
  unfoldable pub receive : ℕ → ClientApp → Turn ClientApp
  receive zero a = goes_on a
  receive (suc n) a = next_turn (receive n) (receive_turn a)
