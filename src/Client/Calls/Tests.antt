-- ===== src/Client/Calls/Tests.antt =====
-- The client a call at a time (winSockClient/, winSockServer/src/TcpClient.cpp), at concrete inputs.
use open_chat.Base.{
  ◌≡◌, ◌≢◌, ◌⊎◌, ◌<◌, refl, List, [], ◌∷◌, ◌++◌, none, some, arith, length-append, pos,
}
use open_chat.Text.{codes}
use open_chat.Platform.{Winsock, Log, on, off, socket}
use open_chat.Platform.Sample.{friendly}
use open_chat.Startup.{count_calls}
use open_chat.Client.Tcp.{ClientApp, client_dlg, select_socket, set_port, set_ip, add_info}
use open_chat.Client.Calls.{
  Stage, receiving, creating, Process, Event, click, dialog_call, thread_call, receive_call,
  connect_call, step, run, at_rest,
}
use open_chat.Client.Calls.Counting.{is_live, count_at}
use open_chat.Client.Calls.Honesty.{run-IsHonest_calls}
use open_chat.Client.Calls.Unused.{uses}
use open_chat.Client.Calls.Abandoned.{click_abandons}
use open_chat.Server.System.Faultless.{ShortMessages}
use open_chat.Client.Calls.Totality.{client_run_completes}

abbrev dialog : ClientApp
dialog = client_dlg friendly

-- The server hangs up at once, and the thread finds that out while the dialog is inside ConnectToServer.
abbrev hung_up : Winsock
hung_up = record friendly { recv_ret = λ h s n. record { count = pos 0; bytes = [] } }

abbrev losing : List Event
losing =
    click
    ∷ dialog_call
    ∷ dialog_call
    ∷ thread_call 0
    ∷ thread_call 0
    ∷ thread_call 0
    ∷ dialog_call
    ∷ dialog_call
    ∷ thread_call 0
    ∷ dialog_call
    ∷ []

after_losing : Process
after_losing = elim (run hung_up losing (at_rest (client_dlg hung_up))) [
  | none ↦ at_rest dialog
  | some s ↦ s
]

run-losing : run hung_up losing (at_rest (client_dlg hung_up)) ≡ some after_losing
unfolding after_losing run step receive_call connect_call select_socket set_port set_ip client_dlg
    add_info
run-losing = refl

-- The thread has waited with its message, and the status is ON.
after_losing-on :
    (after_losing.app.server_status ≡ on) × (after_losing.threads ≡ Stage.telling ∷ [])
unfolding after_losing run step receive_call connect_call select_socket set_port set_ip client_dlg
    add_info
after_losing-on = (refl, refl)

run-IsHonest_calls_example :
    (after_losing.app.server_status ≡ off) ⊎ (0 < count_at is_live after_losing.threads)
run-IsHonest_calls_example = run-IsHonest_calls hung_up losing run-losing

-- A client that is connected over socket 0, with its thread between Select and recv, where the user has
-- clicked once more.
abbrev clicked : Process
clicked = record {
  app = record {
    client = record { m_socket = 0; m_port = 8888; m_ip = codes "127.0.0.1" };
    server_status = on;
    own_port = 50001;
    receive_threads = 1;
    log = socket ∷ [];
  };
  place = creating;
  threads = receiving ∷ [];
}

abbrev reading : List Event
reading = thread_call 0 ∷ dialog_call ∷ thread_call 0 ∷ thread_call 0 ∷ thread_call 0 ∷ []

after_reading : Process
after_reading = elim (run friendly (dialog_call ∷ reading) clicked) [ none ↦ clicked | some s ↦ s ]

run-reading : run friendly (dialog_call ∷ reading) clicked ≡ some after_reading
unfolding after_reading run step receive_call connect_call
run-reading = refl

no_more_zero : (h : Log) → friendly.socket_ret (h ++ socket ∷ []) ≢ 0
no_more_zero h e = absurd (omega (arith, length-append h (socket ∷ []), e))

click_abandons_example :
    (since : Log) × (after_reading.app.log ≡ since ++ socket ∷ [])
    × (count_calls (uses 0) since ≡ 0)
    × (after_reading.app.client.m_socket ≢ 0)
click_abandons_example = click_abandons friendly reading clicked refl no_more_zero run-reading

hung_up-ShortMessages : ShortMessages hung_up
hung_up-ShortMessages h sock = omega arith

client_run_completes_example :
    (s : Process) × (run hung_up losing (at_rest (client_dlg hung_up)) ≡ some s)
client_run_completes_example = client_run_completes hung_up losing hung_up-ShortMessages
