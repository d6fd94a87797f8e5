-- ===== src/Server/Tcp.antt =====
-- class TcpServer, except its two thread functions (winSockServer/src/TcpServer.cpp and
-- winSockServer/include/TcpServer.h). A `bool` function that makes calls returns its result, the
-- object and the history.
pub mod Lifecycle
pub mod Registry
pub mod Ports
mod Tests
use open_chat.Base.{
  ℕ, ◌%◌, ◌^◌, Bool, true, false, not, List, [], ◌∷◌, ◌++◌, Option, length, get_elem?, ltb, ◌==◌,
  if◌then◌else◌, is_minus_one, is_positive,
}
use open_chat.ClientItem.{ClientItem}
use open_chat.Platform.{Winsock, Log, Mode, SockAddr, socket, bind, listen, select, closesocket}
use open_chat.Server.State.{TcpServer}

-- TcpServer::DeleteClient
unfoldable pub delete_client : ℕ → List ClientItem → List ClientItem
delete_client port [] = []
delete_client port (c ∷ cs) =
    let rest = delete_client port cs in if c.c_port == port then cs else c ∷ rest

-- The loop of TcpServer::UnInit.
unfoldable pub close_clients : List ClientItem → Log → Log
close_clients [] h = h
close_clients (c ∷ cs) h = close_clients cs (closesocket c.c_socket ∷ h)

-- TcpServer::UnInit
unfoldable pub uninit : Winsock → TcpServer → Log → TcpServer × Log
uninit os s h = (
  record { lis_sock = os.invalid_socket; port = 0; run = false; clients = [] },
  closesocket s.lis_sock ∷ close_clients s.clients h,
)

-- TcpServer::ClientNum; `unsigned int` has 32 bits.
unfoldable pub client_num : TcpServer → ℕ
client_num s = length s.clients % 2 ^ 32

-- TcpServer::GetClient; `none` stands for the exception of `at`.
unfoldable pub get_client : TcpServer → ℕ → Option ClientItem
get_client s i = get_elem? s.clients i

-- TcpServer::SetPort
unfoldable pub set_port : ℕ → TcpServer → TcpServer
set_port port s = record s { port = port }

module _ (os : Winsock) where
  open os use {
    invalid_socket, somaxconn, inaddr_any, htons, ntohs, htonl, inet_ntoa, socket_ret, bind_ret,
    listen_ret, select_ret,
  }

  -- The address of TcpServer::Init; `htons` takes 16 bits of the port.
  abbrev pub listen_addr : TcpServer → SockAddr
  listen_addr s = record { sin_addr = htonl inaddr_any; sin_port = htons (s.port % 2 ^ 16) }

  -- The rest of TcpServer::Init after `bind`.
  unfoldable pub init_listen : TcpServer → Log → Bool × TcpServer × Log
  init_listen s h =
      let h' = listen s.lis_sock somaxconn ∷ h in
      if is_minus_one (listen_ret h s.lis_sock)
      then (false, s, h')
      else (true, record s { run = true }, h')

  -- The rest of TcpServer::Init after `socket`.
  unfoldable pub init_bind : TcpServer → Log → Bool × TcpServer × Log
  unfolding init_listen
  init_bind s h =
      let h' = bind s.lis_sock (listen_addr s) ∷ h in
      if is_minus_one (bind_ret h s.lis_sock (listen_addr s))
      then (false, s, h')
      else init_listen s h'

  -- TcpServer::Init
  unfoldable pub init : TcpServer → Log → Bool × TcpServer × Log
  unfolding init_bind
  init s h =
      let s' = record s { lis_sock = socket_ret h } in
      if socket_ret h == invalid_socket then (false, s', socket ∷ h) else init_bind s' (socket ∷ h)

  -- TcpServer::Select. A negative time-out is out of the model: the callers pass 100.
  unfoldable pub select_socket : ℕ → ℕ → Mode → Log → Bool × Log
  select_socket sock timeout mode h =
      let limit = if ltb 1000 timeout then 1000 else timeout in
      let answer = select_ret h mode sock in
      let h' = select mode sock limit ∷ h in
      if not (is_positive answer.ret)
      then (false, h')
      else if not answer.is_set
      then (false, h')
      else (true, h')

  -- The item that TcpServer::AddClient constructs.
  abbrev pub item_of : SockAddr → ℕ → ClientItem
  item_of a sock = record {
    c_addr = inet_ntoa a.sin_addr;
    c_port = ntohs a.sin_port;
    c_socket = sock;
  }

  -- TcpServer::AddClient
  unfoldable pub add_client : SockAddr → ℕ → TcpServer → TcpServer
  add_client a sock s = record s { clients = s.clients ++ item_of a sock ∷ [] }
