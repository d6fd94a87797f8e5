-- ===== src/Server/Tests.antt =====
-- Runs of the server of winSockServer/ on concrete inputs.
use open_chat.Base.{true, ◌++◌, ◌≡◌, ◌≢◌, refl, List, [], ◌∷◌, map, some, none, arith, Option, All}
use open_chat.Text.{codes, to_string, format_d, format_ld, c_string, read_digits, skip_spaces, ttoi}
use open_chat.Platform.{edit_send, set_window_text, get_window_text}
use open_chat.Platform.Sample.{plain_list, friendly}
use open_chat.Server.Tcp.Ports.{ports_of}
use open_chat.Server.System.Serving.Run.{run-serves_clients}
use open_chat.Server.State.{App, start, server_dlg}
use open_chat.Server.Tcp.{
  init, init_bind, select_socket, add_client, client_num, get_client, set_port, delete_client,
}
use open_chat.Server.ClientView.{insert_client, remove_client, notify_ui, add_info, set_style}
use open_chat.Server.Threads.{
  accept_turn, accept_body, admit, spawn_client, client_turn, show_received, disconnect,
  start_server,
}
use open_chat.Server.Buttons.{on_btn_open, is_enabled, init_buttons, enable_buttons}
use open_chat.Server.System.{
  Event, opens, accepts, serves, closes, checks, run, step, opened_dialog,
}
use open_chat.Server.System.InSync.{entry, shown, Documented}
use open_chat.Server.System.Agreement.{run-shows_clients}
use open_chat.Server.System.Delivery.{sockets, press_return-run}
use open_chat.Server.Input.{press_return}
use open_chat.Server.Input.Sending.{picked, ticks_of, sends}

friendly-Documented : Documented friendly
friendly-Documented = record { ntohs-lt = λ n. omega arith; ntop-eq-ntoa = λ n. refl }

abbrev schedule : List Event
schedule =
    opens
    ∷ accepts
    ∷ accepts
    ∷ serves 0
    ∷ accepts
    ∷ serves 1
    ∷ serves 0
    ∷ serves 1
    ∷ serves 1
    ∷ serves 1
    ∷ checks 0 true
    ∷ []

abbrev or_else {ℓ} : {A : Type ℓ} → Option A → A → A
or_else none b = b
or_else (some a) b = a

-- Three clients log in, two of them send a text, and two hang up; the row of the third is checked.
after_schedule : App plain_list
after_schedule =
    or_else (run friendly schedule (opened_dialog friendly plain_list []))
      (opened_dialog friendly plain_list [])

run-schedule : run friendly schedule (opened_dialog friendly plain_list []) ≡ some after_schedule
unfolding after_schedule run step opened_dialog start server_dlg on_btn_open init_buttons is_enabled
    set_port start_server init init_bind enable_buttons accept_turn accept_body select_socket admit
    insert_client client_num notify_ui add_client spawn_client get_client client_turn show_received
    c_string add_info set_style disconnect remove_client delete_client to_string format_d format_ld
    ttoi read_digits skip_spaces
run-schedule = refl

schedule_open : All (λ e. e ≢ closes) schedule
schedule_open = ground arith

run-shows_clients_example :
    map entry after_schedule.client_list ≡ map (shown friendly) after_schedule.server.clients
run-shows_clients_example =
    run-shows_clients friendly friendly-Documented [] schedule refl schedule_open (omega arith)
      run-schedule

run-serves_clients_example :
    ports_of after_schedule.client_threads ≡ ports_of after_schedule.server.clients
run-serves_clients_example =
    run-serves_clients friendly [] schedule schedule_open (omega arith) run-schedule

press_return-run_example :
    (press_return friendly after_schedule).log
    ≡ set_window_text edit_send []
      ∷ (sends
            (codes "hello")
            (picked (ticks_of after_schedule.client_list) (sockets after_schedule.server.clients))
          ++ get_window_text edit_send ∷ after_schedule.log)
press_return-run_example =
    press_return-run friendly friendly-Documented [] schedule refl schedule_open (omega arith)
      run-schedule
