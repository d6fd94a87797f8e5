-- ===== src/Server/Startup.antt =====
-- PCServerApp (winSockServer/PCServer/Server.cpp): the server's process from its start to its end.
pub mod Ending
mod Tests
use open_chat.Base.{
  ℕ, Bool, true, false, not, List, [], ◌∷◌, if◌then◌else◌, Option, some, none, ◌==◌,
}
use open_chat.Platform.{
  Winsock, Log, load_icon, message_box_id, delete_shell_manager, do_modal, main_window, Flag,
  afx_restart_manager_support_restart, on_help,
}
use open_chat.Platform.ListCtrl.{ListCtrl}
use open_chat.Startup.{begin_instance, prepare_dialog}
use open_chat.Server.State.{App, start, with_log}
use open_chat.Server.Resource.{idr_mainframe, idp_sockets_init_failed}

-- PCServerApp: the member of CWinApp that its constructor sets.
record PcServerApp : Type 0 where
  restart_manager_support_flags : Flag

-- PCServerApp::PCServerApp
abbrev pc_server_app : PcServerApp
pc_server_app = record { restart_manager_support_flags = afx_restart_manager_support_restart }

-- PCServerApp's message map: the history after the handler of a command, where it has one. `id_help` is
-- MFC's ID_HELP, and the handler is MFC's CWinApp::OnHelp.
unfoldable on_command : (id_help : ℕ) → ℕ → Log → Option Log
on_command id_help id h = if id == id_help then some (on_help ∷ h) else none

-- PCServerDlg::~PCServerDlg deletes the TcpServer, which has no destructor of its own: no call is made.
unfoldable pub destroy : {lc : ListCtrl} → App lc → Log
destroy a = a.log

-- PCServerApp::InitInstance: its result, and the history. `sockets` is what AfxSocketInit returns,
-- `modal` what the dialog does until it ends. (`new` does not return a null pointer.)
unfoldable pub init_instance :
    Winsock
    → {lc : ListCtrl} → lc.Ctrl
    → (sockets : Bool) → (modal : App lc → App lc) → Log
    → Bool × Log
unfolding begin_instance prepare_dialog start destroy
init_instance os {lc} ctrl sockets modal h =
    let h1 = begin_instance h in
    let dlg = with_log (start os lc ctrl) (load_icon idr_mainframe ∷ prepare_dialog h1) in
    let ended = modal (with_log dlg (do_modal main_window ∷ dlg.log)) in
    if not sockets
    then (false, message_box_id idp_sockets_init_failed ∷ h1)
    else (false, destroy (with_log ended (delete_shell_manager ∷ ended.log)))
