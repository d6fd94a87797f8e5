-- ===== src/Server/Startup/Tests.antt =====
-- The server's process (winSockServer/PCServer/Server.cpp) on a concrete platform.
use open_chat.Base.{◌≡◌, refl, true, false, List, [], ◌∷◌, none, some, if◌then◌else◌}
use open_chat.Platform.Sample.{plain_list, friendly}
use open_chat.Server.State.{start, server_dlg}
use open_chat.Server.Tcp.{init, init_bind, init_listen, set_port}
use open_chat.Server.Threads.{start_server}
use open_chat.Server.Threads.Steps.{advance}
use open_chat.Server.Buttons.{on_btn_open, is_enabled, init_buttons, enable_buttons}
use open_chat.Server.System.Guard.{listening}
use open_chat.Server.Process.{Process, Event, accept_call, opens, step, run}
use open_chat.Server.Startup.{init_instance}
use open_chat.Server.Startup.Ending.{running, init_instance-listening}
use open_chat.Startup.{begin_instance, prepare_dialog}
use open_chat.Server.Setup.{show_dialog}

-- The dialog is closed while the server runs.
abbrev ending : List Event
ending = opens ∷ accept_call 0 ∷ []

at_end : Process plain_list
at_end = elim (run friendly ending (running friendly plain_list [])) [
  | none ↦ running friendly plain_list []
  | some s ↦ s
]

run-ending : run friendly ending (running friendly plain_list []) ≡ some at_end
unfolding at_end run step advance show_dialog start server_dlg on_btn_open init_buttons is_enabled
    set_port start_server init init_bind init_listen enable_buttons begin_instance prepare_dialog
run-ending = refl

init_instance-listening_example :
    let r = init_instance friendly [] true (λ a. at_end.app) [] in
    (r.0 ≡ false)
    × (listening friendly r.1
        ≡ (if at_end.app.server.run then at_end.app.server.lis_sock ∷ [] else []))
init_instance-listening_example =
    init_instance-listening friendly [] (λ a. at_end.app) ending run-ending refl
