-- ===== src/Server/Threads/Steps/Tests.antt =====
-- Calls of SelectFunc (winSockServer/src/TcpServer.cpp) on concrete inputs.
use open_chat.Base.{◌≡◌, refl, true, false, [], ◌∷◌, arith, and_then, some, none}
use open_chat.Text.{codes}
use open_chat.ClientItem.{ClientItem}
use open_chat.Platform.{SockAddr}
use open_chat.Platform.Sample.{plain_list, friendly}
use open_chat.Server.State.{App}
use open_chat.Server.Tcp.{item_of}
use open_chat.Server.Buttons.{on_btn_close}
use open_chat.Server.Threads.{disconnect}
use open_chat.Server.Threads.Steps.{Place, at_head, adding, counting, advance, advances, interleave}
use open_chat.Server.Threads.Steps.Whole.{with_clients, with_thread}
use open_chat.Server.Threads.Steps.Races.{interrupted_turn, two_accept_threads}

abbrev ada : ClientItem
ada = record { c_addr = codes "127.0.0.1"; c_port = 50001; c_socket = 4 }

abbrev from_bob : SockAddr
from_bob = record { sin_addr = 1; sin_port = 50002 }

abbrev from_eve : SockAddr
from_eve = record { sin_addr = 1; sin_port = 50003 }

-- A running server with one client.
abbrev serving : App plain_list
serving = record {
  dlg = record {
    server = record { lis_sock = 3; port = 8888; run = true; clients = ada ∷ [] };
    server_port = 8888;
    client_list = [];
    tool_bar_visible = true;
    info = [];
  };
  accept_threads = 1;
  client_threads = ada ∷ [];
  log = [];
}

interrupted_turn_example :
    let closed = on_btn_close friendly serving in
    let bob = item_of friendly from_bob 5 in
    (advances friendly 2 (counting, closed) ≡ none)
    × (advances friendly 3 (adding from_bob 5, closed)
        ≡ some (at_head, with_thread friendly bob (with_clients friendly (bob ∷ []) closed)))
    × (closed.server.run ≡ false)
    × (and_then
          (advance friendly counting serving)
          (λ (s : Place × App plain_list). advance friendly s.0 (disconnect friendly ada s.1))
        ≡ none)
interrupted_turn_example = interrupted_turn friendly from_bob 5 ada serving [] [] refl (omega arith)

two_accept_threads_example :
    let bob = item_of friendly from_bob 5 in
    let eve = item_of friendly from_eve 6 in
    interleave friendly
      (0 ∷ 1 ∷ 0 ∷ 0 ∷ 1 ∷ 1 ∷ [])
      (adding from_bob 5 ∷ adding from_eve 6 ∷ [], serving)
    ≡ some (
      at_head ∷ at_head ∷ [],
      with_thread friendly eve
          (with_thread friendly eve (with_clients friendly (ada ∷ bob ∷ eve ∷ []) serving)),
    )
two_accept_threads_example = two_accept_threads friendly from_bob from_eve 5 6 serving (omega arith)
