-- ===== src/Server/Threads.antt =====
-- The thread functions of TcpServer, one turn of their loops at a time
-- (TcpServer::SelectFunc and TcpServer::ClientFunc in winSockServer/src/TcpServer.cpp), and
-- TcpServer::Start and Stop.
pub mod Effects
pub mod Buffer
pub mod Steps
use open_chat.Base.{
  ℕ, ◌+◌, ◌-◌, List, [], ◌∷◌, ◌++◌, none, some, Option, length, drop, replicate, ◌==◌,
  if◌then◌else◌, is_positive, ◌%◌, ◌^◌,
}
use open_chat.Text.{Text, codes, to_string, c_string}
use open_chat.ClientItem.{ClientItem}
use open_chat.Platform.{Winsock, SockAddr, read, accept, recv, Received}
use open_chat.Platform.ListCtrl.{ListCtrl}
use open_chat.Server.State.{App, max_buff, with_log, with_server}
use open_chat.Server.Tcp.{
  init, uninit, select_socket, add_client, delete_client, client_num, get_client,
}
use open_chat.Server.ClientView.{insert_client, remove_client, notify_ui, add_info}

-- How a turn of a loop leaves the thread; `fault` is an exception or an undefined read.
pub data Turn {ℓ} (A : Type ℓ) : Type ℓ where
  goes_on : A → Turn A
  ends : A → Turn A
  fault : Turn A

-- The literals " 已离开" and "已登录", in the source's GBK.
abbrev pub has_left : Text
has_left = 0x20 ∷ 0xd2 ∷ 0xd1 ∷ 0xc0 ∷ 0xeb ∷ 0xbf ∷ 0xaa ∷ []

abbrev pub logged_in : Text
logged_in = 0xd2 ∷ 0xd1 ∷ 0xb5 ∷ 0xc7 ∷ 0xc2 ∷ 0xbc ∷ []

-- A zeroed char array after `recv` has written to its front.
abbrev pub received_in : ℕ → Received → List ℕ
received_in size r =
    if is_positive r.count
    then r.bytes ++ drop (length r.bytes) (replicate size 0)
    else replicate size 0

-- The message of SelectFunc for a new client.
abbrev pub login_message : Winsock → SockAddr → Text
login_message os addr = codes "[SYS] " ++ (to_string (os.ntohs addr.sin_port) ++ logged_in)

-- The message of ClientFunc for a client that has left.
abbrev pub leave_message : ClientItem → Text
leave_message c = codes "[SYS] " ++ (to_string c.c_port ++ has_left)

module _ (os : Winsock) {lc : ListCtrl} where
  open os use {invalid_socket, accept_ret, recv_ret}

  -- The thread of a client; `none` is the exception of GetClient. That of std::thread's constructor, where
  -- the system has no thread left, is not modelled.
  unfoldable pub spawn_thread : App lc → Option ClientItem → Turn (App lc)
  spawn_thread a none = fault
  spawn_thread a (some c) = goes_on (record a { client_threads = a.client_threads ++ c ∷ [] })

  -- The end of SelectFunc's turn: the thread of the last client, GetClient(ClientNum() - 1).
  unfoldable pub spawn_client : App lc → Turn (App lc)
  unfolding spawn_thread
  spawn_client a =
      spawn_thread a (get_client a.server ((client_num a.server + 2 ^ 32 - 1) % 2 ^ 32))

  -- A connection that SelectFunc has accepted.
  unfoldable pub admit : SockAddr → ℕ → App lc → Turn (App lc)
  admit addr sock a =
      let a1 = insert_client os lc addr sock a in
      let a2 = notify_ui os lc (login_message os addr) a1 in
      spawn_client (with_server a2 (add_client os addr sock a2.server))

  -- The body of SelectFunc's loop.
  unfoldable pub accept_body : App lc → Turn (App lc)
  accept_body a =
      let (ready, h) = select_socket os a.server.lis_sock 100 read a.log in
      let r = accept_ret h a.server.lis_sock in
      let a' = with_log a (accept a.server.lis_sock ∷ h) in
      if ready
      then (if r.sock == invalid_socket then goes_on a' else admit r.addr r.sock a')
      else goes_on (with_log a h)

  -- One turn of `while (IsRun())` in SelectFunc.
  unfoldable pub accept_turn : App lc → Turn (App lc)
  accept_turn a = if a.server.run then accept_body a else ends a

  -- ClientFunc after `recv` returned no data.
  unfoldable pub disconnect : ClientItem → App lc → App lc
  disconnect c a =
      let a1 = remove_client os lc c a in
      let a2 =
        with_server a1
          (record (a1.server) { clients = delete_client c.c_port a1.server.clients }) in
      notify_ui os lc (leave_message c) a2

  -- ClientFunc after `recv` returned data.
  unfoldable pub show_received : List ℕ → App lc → Turn (App lc)
  show_received buffer a = elim (c_string buffer) [
    | none ↦ fault
    | some msg ↦ goes_on (with_log a (add_info os (msg ++ codes "\n") a.log))
  ]

  -- One turn of ClientFunc's loop; the dialog is never null.
  unfoldable pub client_turn : ClientItem → App lc → Turn (App lc)
  client_turn c a =
      let (ready, h) = select_socket os c.c_socket 100 read a.log in
      let r = recv_ret h c.c_socket max_buff in
      let a' = with_log a (recv c.c_socket max_buff ∷ h) in
      if ready
      then (if is_positive r.count
          then show_received (received_in max_buff r) a'
          else ends (disconnect c a'))
      else goes_on (with_log a h)

  -- TcpServer::Start: the thread is started only if Init succeeds.
  unfoldable pub start_server : App lc → App lc
  start_server a =
      let (done, s, h) = init os a.server a.log in
      let a' = with_log (with_server a s) h in
      if done then record a' { accept_threads = a.accept_threads + 1 } else a'

  -- TcpServer::Stop
  unfoldable pub stop_server : App lc → App lc
  stop_server a = let (s, h) = uninit os a.server a.log in with_log (with_server a s) h
