-- ===== src/Server/Buttons/Outcome.antt =====
-- What OnBtn_Open, OnBtn_Close and OnTimer leave behind (winSockServer/PCServer/ServerDlg.cpp).
use open_chat.Base.{
  ◌+◌, ◌≡◌, ◌≢◌, refl, Bool, true, false, [], ◌∷◌, Bool-cases, inl, inr, arith, if◌then◌else◌, ap,
}
use open_chat.Text.{Text, text_eq}
use open_chat.Text.Decimal.{text_eq_iff}
use open_chat.Platform.{Winsock, Log, set_pane_text, default_handler}
use open_chat.Platform.ListCtrl.{ListCtrl}
use open_chat.Server.State.{App, TcpServer}
use open_chat.Server.Tcp.{init, init_bind, init_listen, uninit, set_port}
use open_chat.Server.Threads.{start_server, stop_server}
use open_chat.Server.ClientView.{notify_ui}
use open_chat.Server.Buttons.{
  on_btn_open, on_btn_close, enable_buttons, is_enabled, on_timer, timer_client, id_button_1,
  id_button_2, id_button_3, id_button_4, id_button_5, opened_text,
}

-- The buttons as a pair of flags: the first, and the others.
abbrev pub ButtonsAre : Bool → Bool → Log → Type 0
ButtonsAre first others h =
    (is_enabled id_button_1 h ≡ first)
    × (is_enabled id_button_2 h ≡ others)
    × (is_enabled id_button_3 h ≡ others)
    × (is_enabled id_button_4 h ≡ others)
    × (is_enabled id_button_5 h ≡ others)

pub enable_buttons-ButtonsAre :
    (first others : Bool) (h : Log) → ButtonsAre first others (enable_buttons first others h)
unfolding enable_buttons is_enabled
enable_buttons-ButtonsAre first others h = (refl, refl, refl, refl, refl)

-- The server that OnBtn_Open hands to Init: the one in the dialog, at the dialog's port.
abbrev pub at_dialog_port : {lc : ListCtrl} → App lc → TcpServer
at_dialog_port a = record (a.server) { port = a.server_port }

start_server_lem :
    (os : Winsock) {lc : ListCtrl} (a : App lc)
    → ((start_server os a).server ≡ (init os a.server a.log).1)
      × ((start_server os a).accept_threads
          ≡ (if (init os a.server a.log).0 then a.accept_threads + 1 else a.accept_threads))
      × ((start_server os a).log ≡ (init os a.server a.log).2)
unfolding start_server
start_server_lem os a = elim (Bool-cases (init os a.server a.log).0) [
  | inl done ↦ rw done (refl, refl, refl)
  | inr failed ↦ rw failed (refl, refl, refl)
]

pub init-run :
    (os : Winsock) (s : TcpServer) (h : Log) → (init os s h).0 ≡ true → (init os s h).1.run ≡ true
unfolding init init_bind init_listen
init-run os s h = ground arith

start_server_keeps :
    (os : Winsock) {lc : ListCtrl} (a : App lc)
    → ((start_server os a).client_list ≡ a.client_list)
      × ((start_server os a).client_threads ≡ a.client_threads)
unfolding start_server
start_server_keeps os a = elim (Bool-cases (init os a.server a.log).0) [
  | inl done ↦ rw done (refl, refl)
  | inr failed ↦ rw failed (refl, refl)
]

module _ (os : Winsock) {lc : ListCtrl} (a : App lc) where
  pub on_btn_open_keeps :
      ((on_btn_open os a).client_list ≡ a.client_list)
      × ((on_btn_open os a).client_threads ≡ a.client_threads)
  unfolding on_btn_open set_port
  on_btn_open_keeps =
      start_server_keeps os (record a { dlg = record (a.dlg) { server = at_dialog_port a } })

  -- OnBtn_Open runs Init on the dialog's port, and starts a thread exactly if Init succeeds; but
  -- whether it succeeds or fails, it shows the text "opened", disables the first button and enables the
  -- others.
  pub on_btn_open_lem :
      ((on_btn_open os a).server ≡ (init os (at_dialog_port a) a.log).1)
      × ((on_btn_open os a).accept_threads ≡ (
          if (init os (at_dialog_port a) a.log).0 then a.accept_threads + 1 else a.accept_threads))
      × ((on_btn_open os a).log
          ≡ enable_buttons false true
              (set_pane_text 0 opened_text ∷ (init os (at_dialog_port a) a.log).2))
      × ButtonsAre false true (on_btn_open os a).log
  unfolding on_btn_open set_port
  on_btn_open_lem =
      let started =
        start_server_lem os (record a { dlg = record (a.dlg) { server = at_dialog_port a } }) in
      (
        started.0,
        started.1,
        ap (λ (h : Log). enable_buttons false true (set_pane_text 0 opened_text ∷ h)) started.2,
        enable_buttons-ButtonsAre false true _,
      )

  -- OnBtn_Close empties the vector and stops the running flag, but leaves every row of the list of clients
  -- and every thread, accept threads included, as they were.
  pub on_btn_close_leaves :
      ((on_btn_close os a).server.clients ≡ [])
      × ((on_btn_close os a).server.run ≡ false)
      × ((on_btn_close os a).client_list ≡ a.client_list)
      × ((on_btn_close os a).client_threads ≡ a.client_threads)
      × ((on_btn_close os a).accept_threads ≡ a.accept_threads)
      × ButtonsAre true false (on_btn_close os a).log
  unfolding on_btn_close stop_server uninit
  on_btn_close_leaves = (refl, refl, refl, refl, refl, enable_buttons-ButtonsAre true false _)

-- A status message shows at the next timer turn and is then gone. Of two that come before the turn only the
-- second is ever shown.
pub on_timer_shows_last :
    (os : Winsock) {lc : ListCtrl} (now m1 m2 : Text) (a : App lc)
    → os.widen m2 ≢ []
    → let b = on_timer timer_client now (notify_ui os lc m2 (notify_ui os lc m1 a)) in
      (b.info ≡ [])
      × (b.log ≡ default_handler ∷ set_pane_text 0 (os.widen m2) ∷ a.log)
      × (on_timer timer_client now b ≡ record b { log = default_handler ∷ b.log })
unfolding on_timer notify_ui text_eq
on_timer_shows_last os now m1 m2 a h = elim (Bool-cases (text_eq (os.widen m2) [])) [
  | inl blank ↦ absurd (h ((text_eq_iff (os.widen m2) []).0 blank))
  | inr some_text ↦ rw (some_text, text_eq) (refl, refl, refl)
]
