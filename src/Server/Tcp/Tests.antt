-- ===== src/Server/Tcp/Tests.antt =====
-- TcpServer's operations (winSockServer/src/TcpServer.cpp) on concrete inputs.
use open_chat.Base.{List, ℕ, ◌≡◌, refl, true, [], ◌∷◌, arith}
use open_chat.Text.{codes}
use open_chat.ClientItem.{ClientItem}
use open_chat.Server.Tcp.Registry.{
  Change, enters, leaves, changes, change_registries, IsDistinct, find_client, changes_refine,
}
use open_chat.Platform.{SockAddr}
use open_chat.Platform.Sample.{friendly}
use open_chat.Server.State.{TcpServer}
use open_chat.Server.Tcp.{init, delete_client}
use open_chat.Server.Tcp.Lifecycle.{InitResult, init-InitResult, delete_client_split}

abbrev item : ℕ → ℕ → ClientItem
item port sock = record { c_addr = codes "127.0.0.1"; c_port = port; c_socket = sock }

abbrev served : TcpServer
served = record {
  lis_sock = 3;
  port = 8888;
  run = true;
  clients = item 50001 4 ∷ item 50002 5 ∷ [];
}

init-InitResult_example : InitResult friendly served [] (init friendly served [])
init-InitResult_example = init-InitResult friendly served []

-- Two clients with one port: the one that connected first goes.
delete_client_split_example :
    delete_client 50002 (item 50001 4 ∷ item 50002 5 ∷ item 50002 6 ∷ [])
    ≡ item 50001 4 ∷ item 50002 6 ∷ []
delete_client_split_example =
    delete_client_split 50002 (item 50001 4 ∷ []) (item 50002 5) (item 50002 6 ∷ []) (ground arith)
      refl

abbrev at_port : ℕ → SockAddr
at_port port = record { sin_addr = 0; sin_port = port }

abbrev visits : List Change
visits = enters (at_port 50003) 6 ∷ leaves 50001 ∷ enters (at_port 50001) 7 ∷ []

changes_refine_example :
    IsDistinct (changes friendly visits served).clients
    × (find_client (changes friendly visits served).clients
        ≡ change_registries friendly visits (find_client served.clients))
changes_refine_example =
    changes_refine friendly visits served (ground arith) (refl, (tt, (refl, tt)))
