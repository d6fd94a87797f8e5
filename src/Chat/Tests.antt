-- ===== src/Chat/Tests.antt =====
-- A text that goes round (winSockServer/), at concrete inputs.
use open_chat.Base.{◌≡◌, refl, true, [], ◌∷◌, ◌++◌, arith}
use open_chat.Text.{codes, tcstoul}
use open_chat.ClientItem.{ClientItem}
use open_chat.Platform.{
  Winsock, read, recv, send, getpeername, edit_send, get_window_text, set_window_text,
}
use open_chat.Platform.ListCtrl.{Row}
use open_chat.Platform.Sample.{plain_list, friendly}
use open_chat.Server.State.{App, with_log}
use open_chat.Server.Tcp.{select_socket}
use open_chat.Server.ClientView.{add_info}
use open_chat.Server.Input.{press_return}
use open_chat.Server.Threads.{goes_on, client_turn}
use open_chat.Server.Threads.Buffer.{message}
use open_chat.Client.Tcp
use open_chat.Client.Tcp.{ClientApp, receive_turn, client_dlg}
use open_chat.Chat.{echo_of, up_to_recv, text_goes_round}

-- The text "hello" arrives at the client, and comes back to the server as a block.
abbrev at_client : Winsock
at_client = record friendly { recv_ret = λ h s n. message (codes "hello") }

abbrev at_server : Winsock
at_server = record friendly { recv_ret = λ h s n. message (echo_of (codes "hello")) }

abbrev ada : ClientItem
ada = record { c_addr = codes "127.0.0.1"; c_port = 50001; c_socket = 5 }

abbrev ada_row : Row
ada_row = record {
  port_text = codes "50001";
  ip_text = codes "127.0.0.1";
  socket_text = codes "5";
  checked = true;
}

abbrev desk : App plain_list
desk = record {
  dlg = record {
    server = record { lis_sock = 3; port = 8888; run = true; clients = ada ∷ [] };
    server_port = 8888;
    client_list = ada_row ∷ [];
    tool_bar_visible = true;
    info = [];
  };
  accept_threads = 1;
  client_threads = ada ∷ [];
  log = [];
}

text_goes_round_example :
    let dialog = client_dlg at_client in
    let text = codes "hello" in
    ((press_return at_server desk).log
      ≡ set_window_text edit_send [] ∷ send 5 text ∷ get_window_text edit_send ∷ [])
    × (receive_turn at_client dialog
        ≡ goes_on (
            Tcp.with_log dialog (
              send dialog.client.m_socket (echo_of text)
              ∷ Tcp.add_info at_client (text ++ codes "\n") (
                  getpeername dialog.client.m_socket
                  ∷ recv dialog.client.m_socket 256
                  ∷ (Tcp.select_socket at_client dialog.client.m_socket 100 read dialog.log).1))))
    × (client_turn at_server ada desk
        ≡ goes_on (
            with_log desk
              (add_info at_server (text ++ codes "\n") (up_to_recv at_server ada desk))))
unfolding client_dlg tcstoul
text_goes_round_example =
    text_goes_round at_server at_client desk desk ada (client_dlg at_client) (omega arith)
      (omega arith) (omega arith) there refl here refl
  where
    there :
        (Tcp.select_socket at_client (client_dlg at_client).client.m_socket 100 read []).0 ≡ true
    there = unfold Tcp.select_socket in refl

    here : (select_socket at_server 5 100 read []).0 ≡ true
    here = unfold select_socket in refl
