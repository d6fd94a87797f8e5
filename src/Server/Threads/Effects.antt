-- ===== src/Server/Threads/Effects.antt =====
-- What the operations of winSockServer/src/TcpServer.cpp do to the vector of clients, the list of
-- clients shown and the threads, each operation as a whole.
use open_chat.Base.{
  ℕ, suc, ◌+◌, ◌-◌, ◌<◌, ◌^◌, ◌%◌, ◌≡◌, refl, ap, ◌∙◌, List, [], ◌∷◌, ◌++◌, length, length-append,
  get_elem?, get_elem?-middle, erase_first, insert_at, some, arith,
}
use open_chat.ClientItem.{ClientItem}
use open_chat.Platform.{Winsock, Log, SockAddr}
use open_chat.Platform.ListCtrl.{ListCtrl}
use open_chat.Server.State.{App, TcpServer, with_server}
use open_chat.Server.Tcp.{
  init, init_bind, init_listen, add_client, delete_client, client_num, get_client, item_of,
}
use open_chat.Server.ClientView.{insert_client, remove_client, notify_ui}
use open_chat.Server.ClientView.Rows.{row_of, has_port, rows-insert_client, rows-remove_client}
use open_chat.Server.Threads.{goes_on, admit, spawn_client, disconnect, login_message}

module _ (os : Winsock) {lc : ListCtrl} where
  pub clients-disconnect :
      (c : ClientItem) (a : App lc)
      → (disconnect os c a).server.clients ≡ delete_client c.c_port a.server.clients
  unfolding disconnect notify_ui remove_client
  clients-disconnect c a = refl

  pub rows-disconnect :
      (c : ClientItem) (a : App lc)
      → lc.rows (disconnect os c a).client_list
        ≡ erase_first (has_port c.c_port) (lc.rows a.client_list)
  unfolding disconnect notify_ui
  rows-disconnect c a = rows-remove_client os lc c a

  pub client_threads-disconnect :
      (c : ClientItem) (a : App lc) → (disconnect os c a).client_threads ≡ a.client_threads
  unfolding disconnect notify_ui remove_client
  client_threads-disconnect c a = refl

  -- SelectFunc's state after AddClient.
  abbrev pub listed : SockAddr → ℕ → App lc → App lc
  listed addr sock a =
      let a2 = notify_ui os lc (login_message os addr) (insert_client os lc addr sock a) in
      with_server a2 (add_client os addr sock a2.server)

  pub clients-listed :
      (addr : SockAddr) (sock : ℕ) (a : App lc)
      → (listed addr sock a).server.clients ≡ a.server.clients ++ item_of os addr sock ∷ []
  unfolding notify_ui insert_client add_client
  clients-listed addr sock a = refl

  pub rows-listed :
      (addr : SockAddr) (sock : ℕ) (a : App lc)
      → lc.rows (listed addr sock a).client_list
        ≡ insert_at (lc.rows a.client_list) (client_num a.server) (row_of os addr sock)
  unfolding notify_ui
  rows-listed addr sock a = rows-insert_client os lc addr sock a

  client_threads-listed :
      (addr : SockAddr) (sock : ℕ) (a : App lc)
      → (listed addr sock a).client_threads ≡ a.client_threads
  unfolding notify_ui insert_client
  client_threads-listed addr sock a = refl

  -- The last client is the one just added.
  spawn_client-last :
      (a : App lc) (cs : List ClientItem) (c : ClientItem)
      → a.server.clients ≡ cs ++ c ∷ []
      → length cs < 2 ^ 32 - 1
      → spawn_client os a ≡ goes_on (record a { client_threads = a.client_threads ++ c ∷ [] })
  unfolding spawn_client get_client client_num
  spawn_client-last a cs c e h =
      let len : length a.server.clients ≡ suc (length cs) =
        omega (arith, ap length e, length-append cs (c ∷ [])) in
      let at : (length a.server.clients % 2 ^ 32 + 2 ^ 32 - 1) % 2 ^ 32 ≡ length cs = omega arith in
      let found : get_elem? a.server.clients (length cs) ≡ some c =
        rw e (get_elem?-middle cs c []) in
      rw (at, found)

  -- While there are fewer than 2^32 - 1 clients, a new connection is shown in the list, put behind the
  -- vector, and gets a thread of its own with its own item, behind the other client threads.
  pub admit-listed :
      (addr : SockAddr) (sock : ℕ) (a : App lc)
      → length a.server.clients < 2 ^ 32 - 1
      → admit os addr sock a
        ≡ goes_on (record (listed addr sock a) {
          client_threads = a.client_threads ++ item_of os addr sock ∷ [];
        })
  unfolding admit
  admit-listed addr sock a h =
      spawn_client-last (listed addr sock a) a.server.clients (item_of os addr sock)
        (clients-listed addr sock a) h
      ∙ ap
          (λ (t : List ClientItem).
            goes_on
              (record (listed addr sock a) { client_threads = t ++ item_of os addr sock ∷ [] }))
          (client_threads-listed addr sock a)

pub clients-init : (os : Winsock) (s : TcpServer) (h : Log) → (init os s h).1.clients ≡ s.clients
unfolding init init_bind init_listen
clients-init os s h = ground arith
