-- ===== src/Server/Process/Tests.antt =====
-- The whole server process (winSockServer/), at concrete inputs.
use open_chat.Base.{
  ◌≡◌, refl, List, [], ◌∷◌, ◌++◌, arith, none, some, pos, replicate, if◌then◌else◌, true, All, ◌≢◌,
  length,
}
use open_chat.Platform.{Winsock}
use open_chat.Platform.Sample.{plain_list, friendly}
use open_chat.Server.State.{start, server_dlg}
use open_chat.Server.Tcp.{
  init, init_bind, select_socket, add_client, client_num, get_client, set_port, uninit,
  close_clients, init_listen,
}
use open_chat.Server.ClientView.{insert_client, remove_client, notify_ui}
use open_chat.Server.Threads.{start_server, spawn_thread, stop_server}
use open_chat.Server.Threads.Steps.{advance, at_head}
use open_chat.Server.Buttons.{
  on_btn_open, on_btn_close, is_enabled, id_button_2, init_buttons, enable_buttons,
}
use open_chat.Server.System.{opened_dialog}
use open_chat.Server.System.Faultless.{ShortMessages}
use open_chat.Server.System.Guard.{listening}
use open_chat.Server.System.InSync.{Documented}
use open_chat.Server.Calls.{serve}
use open_chat.Server.Process.Agreement.{Agrees, run-Agrees}
use open_chat.Server.Process.{
  Process, Event, accept_call, client_call, opens, closes, step, run, shown,
}
use open_chat.Server.Process.Listening.{opens_once, listens_alone}
use open_chat.Server.Process.Totality.{StayConnected, run_completes}
use open_chat.Server.Process.Reopening.{reopen_adds_thread}
use open_chat.Server.Buttons.Outcome.{at_dialog_port}
use open_chat.Text.{codes, ttoi, format_d, to_string}

abbrev quiet : Winsock
quiet = record friendly { recv_ret = λ h s n. record { count = pos 0; bytes = [] } }

quiet-Documented : Documented quiet
quiet-Documented = record { ntohs-lt = λ n. omega arith; ntop-eq-ntoa = λ n. refl }

abbrev or_shown : List Event → Process plain_list
or_shown es = elim (run quiet es (shown quiet plain_list [])) [
  | none ↦ shown quiet plain_list []
  | some s ↦ s
]

-- A client connects, and the server is closed between ClientNum and GetClient.
abbrev closing : List Event
closing = opens ∷ replicate 7 (accept_call 0) ++ closes ∷ []

after_closing : Process plain_list
after_closing = or_shown closing

run-closing : run quiet closing (shown quiet plain_list []) ≡ some after_closing
unfolding after_closing run step advance opened_dialog start server_dlg on_btn_open on_btn_close
    init_buttons is_enabled set_port start_server stop_server init init_bind enable_buttons uninit
    select_socket insert_client client_num notify_ui add_client get_client spawn_thread
run-closing = refl

closing-throws : step quiet (accept_call 0) after_closing ≡ none
unfolding after_closing run step advance opened_dialog start server_dlg on_btn_open on_btn_close
    init_buttons is_enabled set_port start_server stop_server init init_bind enable_buttons uninit
    select_socket insert_client client_num notify_ui add_client get_client spawn_thread
closing-throws = refl

-- The server is opened, closed in the middle of a turn of the accept thread, and opened again.
abbrev reopening : List Event
reopening = opens ∷ accept_call 0 ∷ closes ∷ opens ∷ accept_call 1 ∷ accept_call 0 ∷ []

after_reopening : Process plain_list
after_reopening = or_shown reopening

run-reopening : run quiet reopening (shown quiet plain_list []) ≡ some after_reopening
unfolding after_reopening run step advance opened_dialog start server_dlg on_btn_open on_btn_close
    init_buttons is_enabled set_port start_server stop_server init init_bind enable_buttons uninit
    select_socket close_clients
run-reopening = refl

after_reopening-runs : after_reopening.app.server.run ≡ true
unfolding after_reopening run step advance opened_dialog start server_dlg on_btn_open on_btn_close
    init_buttons is_enabled set_port start_server stop_server init init_bind enable_buttons uninit
    select_socket close_clients
after_reopening-runs = refl

opens_once_example : step quiet opens after_reopening ≡ some after_reopening
opens_once_example = opens_once quiet [] reopening run-reopening after_reopening-runs

listens_alone_example :
    listening quiet after_reopening.app.log
    ≡ (if after_reopening.app.server.run then after_reopening.app.server.lis_sock ∷ [] else [])
listens_alone_example = listens_alone quiet [] reopening run-reopening

-- One client connects; while a second one is shown and not yet added, the row of the first one goes.
abbrev calls : List Event
calls = opens ∷ replicate 12 (accept_call 0) ++ client_call 0 ∷ client_call 0 ∷ client_call 0 ∷ []

calls_open : All (λ e. e ≢ closes) calls
calls_open = ground arith

after_calls : Process plain_list
after_calls = or_shown calls

run-calls : run quiet calls (shown quiet plain_list []) ≡ some after_calls
unfolding after_calls run step advance serve opened_dialog start server_dlg on_btn_open init_buttons
    is_enabled set_port start_server init init_bind enable_buttons select_socket insert_client
    client_num notify_ui add_client get_client spawn_thread remove_client
run-calls = refl

run-Agrees_example : Agrees quiet after_calls
run-Agrees_example =
    run-Agrees quiet quiet-Documented [] calls refl calls_open (omega arith) run-calls

-- The close button while the second client is on its way in.
calls_enabled : is_enabled id_button_2 after_calls.app.log ≡ true
unfolding after_calls run step advance serve opened_dialog start server_dlg on_btn_open init_buttons
    is_enabled set_port start_server init init_bind enable_buttons select_socket insert_client
    client_num notify_ui add_client get_client spawn_thread remove_client
calls_enabled = refl

calls_reopen :
    (init quiet
      (at_dialog_port (on_btn_close quiet after_calls.app))
      (on_btn_close quiet after_calls.app).log).0
    ≡ true
unfolding after_calls run step advance serve opened_dialog start server_dlg on_btn_open on_btn_close
    init_buttons is_enabled set_port start_server stop_server uninit close_clients init init_bind
    init_listen enable_buttons select_socket insert_client client_num notify_ui add_client
    get_client spawn_thread remove_client
calls_reopen = refl

-- There are an accept thread, a client thread and a row.
calls_standing :
    (length after_calls.places ≡ 1)
    × (length after_calls.threads ≡ 1)
    × (length after_calls.app.client_list ≡ 1)
unfolding after_calls run step advance serve opened_dialog start server_dlg on_btn_open init_buttons
    is_enabled set_port start_server init init_bind enable_buttons select_socket insert_client
    client_num notify_ui add_client get_client spawn_thread remove_client ttoi format_d to_string
calls_standing = (refl, refl, refl)

reopen_adds_thread_example :
    (t : Process plain_list) × (run quiet (closes ∷ opens ∷ []) after_calls ≡ some t)
    × (t.places ≡ after_calls.places ++ at_head ∷ [])
    × (t.threads ≡ after_calls.threads)
    × (t.app.client_list ≡ after_calls.app.client_list)
    × (t.app.server.clients ≡ [])
    × (t.app.server.run ≡ true)
reopen_adds_thread_example = reopen_adds_thread quiet after_calls calls_enabled calls_reopen

-- Each client sends without an end.
abbrev chatting : Winsock
chatting = record friendly { recv_ret = λ h s n. record { count = pos 2; bytes = codes "hi" } }

chatting-ShortMessages : ShortMessages chatting
chatting-ShortMessages h sock = omega arith

chatting-StayConnected : StayConnected chatting
chatting-StayConnected h sock = refl

-- Two clients connect while the thread of the first one receives and shows.
abbrev staying : List Event
staying =
    opens ∷ replicate 8 (accept_call 0)
    ++ (replicate 3 (client_call 0) ++ replicate 8 (accept_call 0))

staying_open : All (λ e. e ≢ closes) staying
staying_open = ground arith

run_completes_example :
    (s : Process plain_list) × (run chatting staying (shown chatting plain_list []) ≡ some s)
run_completes_example =
    run_completes chatting [] staying chatting-ShortMessages chatting-StayConnected staying_open
      (omega arith)
