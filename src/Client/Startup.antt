-- ===== src/Client/Startup.antt =====
-- PCClientApp (winSockClient/PCClient/Client.cpp): the client's process from its start to its end.
pub mod Ending
use open_chat.Base.{Bool, true, false, not, ◌∷◌, if◌then◌else◌, Option, some, none, ◌==◌, ℕ}
use open_chat.Platform.{
  Winsock, Log, load_icon, message_box_id, delete_shell_manager, do_modal, main_window, Flag,
  afx_restart_manager_support_restart, on_help,
}
use open_chat.Startup.{begin_instance, prepare_dialog}
use open_chat.Client.Tcp.{ClientApp, client_dlg, with_log}
use open_chat.Client.Dialog.{destroy}
use open_chat.Client.Resource.{idr_mainframe, idp_sockets_init_failed}

-- PCClientApp: the member of CWinApp that its constructor sets.
record PcClientApp : Type 0 where
  restart_manager_support_flags : Flag

-- PCClientApp::PCClientApp
abbrev pc_client_app : PcClientApp
pc_client_app = record { restart_manager_support_flags = afx_restart_manager_support_restart }

-- PCClientApp's message map: the history after the handler of a command, where it has one. `id_help` is
-- MFC's ID_HELP, and the handler is MFC's CWinApp::OnHelp.
unfoldable on_command : (id_help : ℕ) → ℕ → Log → Option Log
on_command id_help id h = if id == id_help then some (on_help ∷ h) else none

-- PCClientApp::InitInstance: its result, and the history when the dialog is destroyed. `sockets` is
-- what AfxSocketInit returns, `modal` what the dialog does until it ends. (`new` does not return a
-- null pointer.)
unfoldable pub init_instance :
    Winsock → (sockets : Bool) → (modal : ClientApp → ClientApp) → Log → Bool × Log
unfolding begin_instance prepare_dialog client_dlg destroy
init_instance os sockets modal h =
    let h1 = begin_instance h in
    let dlg = with_log (client_dlg os) (load_icon idr_mainframe ∷ prepare_dialog h1) in
    let ended = modal (with_log dlg (do_modal main_window ∷ dlg.log)) in
    if not sockets
    then (false, message_box_id idp_sockets_init_failed ∷ h1)
    else (false, (destroy (with_log ended (delete_shell_manager ∷ ended.log))).log)
