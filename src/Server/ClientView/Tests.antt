-- ===== src/Server/ClientView/Tests.antt =====
-- The rows shown (winSockServer/PCServer/ServerDlg.cpp) on concrete inputs.
use open_chat.Base.{ℕ, ◌≡◌, true, [], ◌∷◌, ◌++◌, arith, erase_first, insert_at}
use open_chat.Platform.{SockAddr}
use open_chat.Platform.Sample.{plain_list, friendly}
use open_chat.Server.State.{App}
use open_chat.Server.Tcp.{client_num, item_of}
use open_chat.Server.ClientView.{insert_client, remove_client}
use open_chat.Server.ClientView.Rows.{row_of, has_port, rows-insert_client, rows-remove_client}
use open_chat.Server.Threads.{goes_on, admit}
use open_chat.Server.Threads.Effects.{listed, admit-listed}

abbrev address : ℕ → SockAddr
address port = record { sin_addr = 0; sin_port = port }

abbrev busy : App plain_list
busy = record {
  dlg = record {
    server = record {
      lis_sock = 3;
      port = 8888;
      run = true;
      clients = item_of friendly (address 50001) 4 ∷ item_of friendly (address 50002) 5 ∷ [];
    };
    server_port = 8888;
    client_list = row_of friendly (address 50001) 4 ∷ row_of friendly (address 50002) 5 ∷ [];
    tool_bar_visible = true;
    info = [];
  };
  accept_threads = 1;
  client_threads = item_of friendly (address 50001) 4 ∷ item_of friendly (address 50002) 5 ∷ [];
  log = [];
}

rows-insert_client_example :
    (insert_client friendly plain_list (address 50003) 6 busy).client_list
    ≡ insert_at busy.client_list (client_num busy.server) (row_of friendly (address 50003) 6)
rows-insert_client_example = rows-insert_client friendly plain_list (address 50003) 6 busy

rows-remove_client_example :
    (remove_client friendly plain_list (item_of friendly (address 50002) 5) busy).client_list
    ≡ erase_first (has_port 50002) busy.client_list
rows-remove_client_example =
    rows-remove_client friendly plain_list (item_of friendly (address 50002) 5) busy

admit-listed_example :
    admit friendly (address 50003) 6 busy
    ≡ goes_on (record (listed friendly (address 50003) 6 busy) {
      client_threads = busy.client_threads ++ item_of friendly (address 50003) 6 ∷ [];
    })
admit-listed_example = admit-listed friendly (address 50003) 6 busy (omega arith)
