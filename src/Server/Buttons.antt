-- ===== src/Server/Buttons.antt =====
-- The tool bar, the timers and the tool tips of PCServerDlg (winSockServer/PCServer/ServerDlg.cpp).
pub mod Outcome
mod Tests
use open_chat.Base.{ℕ, Bool, true, false, [], ◌∷◌, Option, none, some, ◌==◌, if◌then◌else◌}
use open_chat.Text.{Text, codes, text_eq}
use open_chat.Platform.{Winsock, Log, set_pane_text, enable_button, default_handler}
use open_chat.Platform.ListCtrl.{ListCtrl}
use open_chat.Server.State.{App, with_log, with_server, with_info}
use open_chat.Server.Tcp.{set_port}
use open_chat.Server.Threads.{start_server, stop_server}

-- The command identifiers ID_BUTTON_1 to ID_BUTTON_5 of winSockServer/PCServer/resource.h.
abbrev pub id_button_1 : ℕ
id_button_1 = 32778

abbrev pub id_button_2 : ℕ
id_button_2 = 32779

abbrev pub id_button_3 : ℕ
id_button_3 = 32783

abbrev pub id_button_4 : ℕ
id_button_4 = 32784

abbrev pub id_button_5 : ℕ
id_button_5 = 32785

-- EnableButton of button 1, and of buttons 2 to 5, in the order of the handlers.
unfoldable pub enable_buttons : (first others : Bool) → Log → Log
enable_buttons first others h =
    enable_button id_button_5 others
    ∷ enable_button id_button_4 others
    ∷ enable_button id_button_3 others
    ∷ enable_button id_button_2 others
    ∷ enable_button id_button_1 first
    ∷ h

-- The EnableButton calls of InitToolBar.
unfoldable pub init_buttons : Log → Log
init_buttons h =
    enable_button id_button_5 false
    ∷ enable_button id_button_4 false
    ∷ enable_button id_button_3 false
    ∷ enable_button id_button_2 false
    ∷ h

-- Whether a button sends its command: the last EnableButton call for it decides.
unfoldable pub is_enabled : ℕ → Log → Bool
is_enabled id [] = true
is_enabled id (enable_button j b ∷ h) = let rest = is_enabled id h in if j == id then b else rest
is_enabled id (c ∷ h) = is_enabled id h

-- "[SYS] 服务器已开启！" and "[SYS] 服务器已关闭！"
abbrev pub opened_text : Text
opened_text = codes "[SYS] 服务器已开启！"

abbrev pub closed_text : Text
closed_text = codes "[SYS] 服务器已关闭！"

module _ (os : Winsock) {lc : ListCtrl} where
  -- PCServerDlg::OnBtn_Open
  unfoldable pub on_btn_open : App lc → App lc
  on_btn_open a =
      let a1 = start_server os (with_server a (set_port a.server_port a.server)) in
      with_log a1 (enable_buttons false true (set_pane_text 0 opened_text ∷ a1.log))

  -- PCServerDlg::OnBtn_Close
  unfoldable pub on_btn_close : App lc → App lc
  on_btn_close a =
      let a1 = stop_server os a in
      with_log a1 (enable_buttons true false (set_pane_text 0 closed_text ∷ a1.log))

-- The timers that OnInitDialog sets.
abbrev pub timer_count : ℕ
timer_count = 1

abbrev pub timer_client : ℕ
timer_client = 2

-- PCServerDlg::OnTimer; `now` is the formatted time of day.
unfoldable pub on_timer : {lc : ListCtrl} → ℕ → Text → App lc → App lc
on_timer id now a =
    if id == timer_count
    then with_log a (default_handler ∷ set_pane_text 1 now ∷ a.log)
    else if id == timer_client
    then (if text_eq a.info []
        then with_log a (default_handler ∷ a.log)
        else with_log (with_info a []) (default_handler ∷ set_pane_text 0 a.info ∷ a.log))
    else with_log a (default_handler ∷ a.log)

-- PCServerDlg::OnToolTipNotify: the text, if the notification is handled. `command_to_index` is the
-- tool bar's position of a command, `none` for -1.
unfoldable pub on_tool_tip_notify : (ℕ → Option ℕ) → ℕ → Option Text
on_tool_tip_notify command_to_index id = if id == 0 then none else elim (command_to_index id) [
  | none ↦ none
  | some n ↦ some (
      if n == 0
      then codes "Open Server"
      else if n == 1
      then codes "Close"
      else if n == 2
      then codes "Close Server"
      else [])
]
