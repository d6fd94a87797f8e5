-- ===== src/Client/Startup/Ending.antt =====
-- How the client's process ends (winSockClient/PCClient/Client.cpp).
use open_chat.Base.{ℕ, ◌≡◌, refl, Bool, true, false, [], ◌∷◌, arith, if◌then◌else◌}
use open_chat.Platform.{Winsock, Call, load_icon, do_modal, main_window, closesocket}
use open_chat.Startup.{begin_instance, prepare_dialog, count_calls, is_new, is_delete}
use open_chat.Client.Tcp.{ClientApp, client_dlg, with_log}
use open_chat.Client.Resource.{idr_mainframe}
use open_chat.Client.Startup.{init_instance}

-- The dialog as InitInstance shows it, on a fresh history.
abbrev pub shown_dialog : Winsock → ClientApp
shown_dialog os =
    with_log (client_dlg os)
      (do_modal main_window ∷ load_icon idr_mainframe ∷ prepare_dialog (begin_instance []))

abbrev pub is_close : Call → Bool
is_close (closesocket s) = true
is_close c = false

-- If the dialog's run neither creates nor deletes a shell manager and closes no socket, InitInstance
-- returns FALSE in every case, and creates one shell manager, deletes one and closes one socket if
-- the sockets could be initialised, and none otherwise.
count_calls-init_instance :
    (os : Winsock) (sockets : Bool) (modal : ClientApp → ClientApp)
    → ((a : ClientApp) → count_calls is_new (modal a).log ≡ count_calls is_new a.log)
    → ((a : ClientApp) → count_calls is_delete (modal a).log ≡ count_calls is_delete a.log)
    → ((a : ClientApp) → count_calls is_close (modal a).log ≡ count_calls is_close a.log)
    → let r = init_instance os sockets modal [] in
      let made : ℕ = if sockets then 1 else 0 in
      (r.0 ≡ false)
      × (count_calls is_new r.1 ≡ made)
      × (count_calls is_delete r.1 ≡ made)
      × (count_calls is_close r.1 ≡ made)
unfolding init_instance count_calls begin_instance prepare_dialog
count_calls-init_instance os false modal new del close = (refl, refl, refl, refl)
count_calls-init_instance os true modal new del close =
    let a = shown_dialog os in
    (refl, omega (arith, new a), omega (arith, del a), omega (arith, close a))
