-- ===== src/Server/Input/Tests.antt =====
-- The server's sending (winSockServer/PCServer/ServerDlg.cpp) on concrete inputs.
use open_chat.Base.{
  List, is_minus_one, if◌then◌else◌, ◌≤◌, ℕ, ◌≡◌, ◌⊎◌, ◌<◌, Bool, true, false, [], ◌∷◌, ◌++◌,
  length, length-replicate, take, replicate, some, none, arith,
}
use open_chat.Text.{Text, codes, tcstoul, skip_spaces, read_digits}
use open_chat.ClientItem.{ClientItem}
use open_chat.Platform.{file_dialog, file_open}
use open_chat.Platform.ListCtrl.{Row}
use open_chat.Platform.Sample.{plain_list, friendly}
use open_chat.Server.State.{App, with_log}
use open_chat.Server.ClientView.{add_info}
use open_chat.Server.Input.{send_error, on_btn_file, FileInput, send_client_msg, recipients}
use open_chat.Server.Input.Blocks.{send_client_msg_lem, sent}
use open_chat.Server.Input.Files.{Delivers, on_btn_file_lem}

abbrev row : Text → Bool → Row
row sock ticked = record {
  port_text = codes "50001";
  ip_text = codes "127.0.0.1";
  socket_text = sock;
  checked = ticked;
}

abbrev client : ℕ → ClientItem
client sock = record { c_addr = codes "127.0.0.1"; c_port = 50001; c_socket = sock }

-- Two clients, the second one checked.
abbrev serving : App plain_list
serving = record {
  dlg = record {
    server = record { lis_sock = 3; port = 8888; run = true; clients = client 4 ∷ client 5 ∷ [] };
    server_port = 8888;
    client_list = row (codes "4") false ∷ row (codes "5") true ∷ [];
    tool_bar_visible = true;
    info = [];
  };
  accept_threads = 1;
  client_threads = client 4 ∷ client 5 ∷ [];
  log = [];
}

-- A file of two lines.
abbrev two_lines : FileInput
two_lines = record {
  chosen = some (codes "a.txt");
  opens = λ p. true;
  lines = codes "one line" ∷ codes "and another" ∷ [];
  convert = λ t. t ++ 0 ∷ [];
  stack = λ h. replicate 512 7;
}

on_btn_file_lem_example :
    (on_btn_file two_lines serving ≡ with_log serving (on_btn_file two_lines serving).log)
    × Delivers two_lines
        ((5, codes "one line") ∷ (5, codes "and another") ∷ [])
        (file_open (codes "a.txt") ∷ file_dialog ∷ [])
        (on_btn_file two_lines serving).log
unfolding tcstoul skip_spaces read_digits
on_btn_file_lem_example =
    on_btn_file_lem two_lines serving (λ h. length-replicate {A = ℕ} 512 7)
      (omega arith, (omega arith, tt))

abbrev long_text : Text
long_text = replicate 300 97

send_client_msg_lem_example :
    let block = take 256 (long_text ++ 0 ∷ []) in
    ((recipients none serving ≡ [])
      × (send_client_msg friendly long_text none serving ≡ some serving))
    ⊎ ((cs : List ClientItem) × (c : ClientItem) × (recipients none serving ≡ cs ++ c ∷ [])
        × (((length long_text < 255) × (send_client_msg friendly long_text none serving ≡ none))
            ⊎ ((255 ≤ length long_text)
                × (send_client_msg friendly long_text none serving
                    ≡ some (
                        with_log serving (
                          let h = sent block (cs ++ c ∷ []) [] in
                          if is_minus_one (friendly.send_ret (sent block cs []) c.c_socket block)
                          then add_info friendly send_error h
                          else h))))))
send_client_msg_lem_example = send_client_msg_lem friendly long_text none serving
