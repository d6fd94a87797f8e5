-- ===== src/Server/Startup/Ending.antt =====
-- How the server's process ends (winSockServer/PCServer/Server.cpp).
use open_chat.Base.{
  ◌≡◌, refl, ap, ◌∙◌, true, false, List, [], ◌∷◌, if◌then◌else◌, inl, some, OnSome-some,
}
use open_chat.Platform.{Winsock, load_icon, do_modal, main_window, delete_shell_manager}
use open_chat.Platform.ListCtrl.{ListCtrl}
use open_chat.Startup.{begin_instance, prepare_dialog}
use open_chat.Server.State.{App, start, with_log, server_dlg, tcp_server}
use open_chat.Server.Resource.{idr_mainframe}
use open_chat.Server.Setup.{show_dialog}
use open_chat.Server.System.Guard.{listening}
use open_chat.Server.Process.{Process, Event, run}
use open_chat.Server.Process.Listening.{GuardedProcess, run-Guarded}
use open_chat.Server.Startup.{init_instance, destroy}

-- The dialog as InitInstance creates it, when DoModal is called.
abbrev pub shown_dialog : Winsock → (lc : ListCtrl) → lc.Ctrl → App lc
shown_dialog os lc ctrl =
    with_log (start os lc ctrl)
      (do_modal main_window ∷ load_icon idr_mainframe ∷ prepare_dialog (begin_instance []))

-- The process inside DoModal, once the dialog is set up.
abbrev pub running : Winsock → (lc : ListCtrl) → lc.Ctrl → Process lc
running os lc ctrl =
    let a = shown_dialog os lc ctrl in
    record { app = with_log a (show_dialog os a.tool_bar_visible a.log); places = []; threads = [] }

running-Guarded :
    (os : Winsock) (lc : ListCtrl) (ctrl : lc.Ctrl) → GuardedProcess os (running os lc ctrl)
unfolding start server_dlg tcp_server show_dialog begin_instance prepare_dialog
running-Guarded os lc ctrl = record { guard = inl refl; listens = refl }

-- Ending the program does not stop the server. If DoModal ends after whatever calls of the threads and
-- handlers, closes and reopenings included, InitInstance returns FALSE with the dialog and the TcpServer
-- deleted, and of the sockets on which a `listen` has succeeded and that no `closesocket` has closed since
-- there is still the server's own if the server was running, and none if it was not.
pub init_instance-listening :
    (os : Winsock) {lc : ListCtrl} (ctrl : lc.Ctrl) (modal : App lc → App lc) (es : List Event)
    → {s : Process lc} → run os es (running os lc ctrl) ≡ some s
    → modal (shown_dialog os lc ctrl) ≡ s.app
    → let r = init_instance os ctrl true modal [] in
      (r.0 ≡ false)
      × (listening os r.1 ≡ (if s.app.server.run then s.app.server.lis_sock ∷ [] else []))
unfolding init_instance
init_instance-listening os {lc} ctrl modal es {s} ran ended =
    let g =
      OnSome-some (GuardedProcess os) (run os es (running os lc ctrl))
        (run-Guarded os es (running os lc ctrl) (running-Guarded os lc ctrl)) ran in
    (
      refl,
      ap (λ (a : App lc). listening os (destroy (with_log a (delete_shell_manager ∷ a.log)))) ended
          ∙ unfold destroy in g.listens,
    )
