-- ===== src/Client/Tests.antt =====
-- The client's connection (winSockServer/src/TcpClient.cpp and
-- winSockClient/PCClient/ClientDlg.cpp) on concrete inputs.
use open_chat.Base.{
  ℕ, zero, suc, ◌<◌, ltb, length, List, some, none, ◌+◌, ◌≡◌, ◌-◌, refl, true, false, [], ◌∷◌,
  arith, if◌then◌else◌, pos,
}
use open_chat.Text.{c_string}
use open_chat.Platform.{Winsock, on, recv, select, read}
use open_chat.Platform.Sample.{friendly}
use open_chat.Server.Threads.{ends}
use open_chat.Client.Tcp.{
  connect_socket, set_port, set_ip, echo, ClientApp, client_dlg, connect_server, receive,
  receive_turn, select_socket, lose, add_info, buf_size,
}
use open_chat.Client.Dialog.{
  connect_to_server, is_zero, on_clicked_connect, learn_port, pre_translate_message,
}
use open_chat.Client.Disconnect.{ready_after, receive_loses}
use open_chat.Client.Connection.{
  ConnectResult, connect_server-ConnectResult, at_server, connect_to_server_lem,
}
use open_chat.Startup.{begin_instance, prepare_dialog, count_calls}
use open_chat.Client.Startup.{init_instance}
use open_chat.Client.Startup.Ending.{is_close, shown_dialog}
use open_chat.Client.System.{Event, connects, receives, presses, run, step}
use open_chat.Client.System.Sockets.{is_socket, process_sockets}
use open_chat.Server.Input.{key_return}
use open_chat.Client.Receiving.{Lost}

abbrev dialog : ClientApp
dialog = client_dlg friendly

connect_server-ConnectResult_example :
    ConnectResult friendly dialog (connect_server friendly dialog)
connect_server-ConnectResult_example = connect_server-ConnectResult friendly dialog

connect_to_server_lem_example :
    let r = connect_to_server friendly dialog in
    let c = connect_server friendly (at_server dialog) in
    let name = friendly.getsockname_ret c.1.log c.1.client.m_socket in
    (r.0 ≡ (if c.0 then is_zero name.ret else false))
    × (r.1.server_status ≡ (if r.0 then on else dialog.server_status))
    × (r.1.own_port ≡ (if r.0 then friendly.ntohs name.addr.sin_port else dialog.own_port))
    × (r.1.receive_threads ≡ c.1.receive_threads)
    × (r.1.client ≡ c.1.client)
connect_to_server_lem_example = connect_to_server_lem friendly dialog

-- A network on which the server has hung up.
abbrev hung_up : Winsock
hung_up = record friendly { recv_ret = λ h s n. record { count = pos 0; bytes = [] } }

-- The dialog after its thread has found that out.
abbrev alone : ClientApp
alone =
    record (lose hung_up (record dialog {
      log =
          recv dialog.client.m_socket buf_size
          ∷ select read dialog.client.m_socket 100
          ∷ dialog.log;
    })) { receive_threads = dialog.receive_threads - 1 }

receive-alone : receive hung_up 3 dialog ≡ ends alone
unfolding receive receive_turn select_socket lose
receive-alone = refl

-- A network on which nothing is there to read for two turns, before the server hangs up.
abbrev hangs_up_later : Winsock
hangs_up_later = record hung_up {
  select_ret = λ h m s.
      if ltb (length h) 2
      then record { ret = pos 0; is_set = false }
      else record { ret = pos 1; is_set = true };
}

waits : (k : ℕ) → k < 2 → ready_after hangs_up_later k dialog ≡ false
unfolding select_socket client_dlg
waits zero lt = refl
waits (suc zero) lt = refl
waits (suc (suc k)) lt = absurd (omega arith)

ready : ready_after hangs_up_later 2 dialog ≡ true
unfolding select_socket client_dlg
ready = refl

receive_loses_example :
    (b : ClientApp) × (receive hangs_up_later (2 + 1) dialog ≡ ends b)
    × Lost hangs_up_later dialog b
receive_loses_example = receive_loses hangs_up_later 2 dialog waits ready refl

-- A run of the dialog in which nothing happens.
abbrev idle : ClientApp → ClientApp
idle a = a

-- The user connects, a message comes and a text goes.
abbrev chat : List Event
chat = connects ∷ receives ∷ presses key_return ∷ []

after_chat : ClientApp
after_chat = elim (run friendly chat dialog) [ none ↦ dialog | some a ↦ a ]

run-chat : run friendly chat dialog ≡ some after_chat
unfolding after_chat run step on_clicked_connect connect_to_server connect_server connect_socket
    learn_port set_port set_ip receive_turn select_socket echo c_string pre_translate_message
    client_dlg add_info
run-chat = refl

-- The user connects twice.
abbrev twice : List Event
twice = connects ∷ connects ∷ receives ∷ []

after_twice : ClientApp
after_twice = elim (run friendly twice (shown_dialog friendly)) [ none ↦ dialog | some a ↦ a ]

run-twice : run friendly twice (shown_dialog friendly) ≡ some after_twice
unfolding after_twice run step on_clicked_connect connect_to_server connect_server connect_socket
    learn_port set_port set_ip receive_turn select_socket echo c_string client_dlg add_info
    begin_instance prepare_dialog
run-twice = refl

process_sockets_example :
    let h = (init_instance friendly true (λ _. after_twice) []).1 in
    (count_calls is_socket after_twice.log ≡ 2)
    × (count_calls is_close after_twice.log ≡ 0)
    × (count_calls is_socket h ≡ 2)
    × (count_calls is_close h ≡ 1)
process_sockets_example = process_sockets friendly twice run-twice
