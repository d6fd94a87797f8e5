-- ===== src/Server/Buttons/Tests.antt =====
-- The tool bar's handlers (winSockServer/PCServer/ServerDlg.cpp) on concrete inputs.
use open_chat.Base.{◌≡◌, true, false, [], ◌∷◌, ◌+◌, if◌then◌else◌, arith}
use open_chat.Platform.{set_pane_text, default_handler}
use open_chat.Platform.Sample.{plain_list, friendly}
use open_chat.Server.State.{App, start}
use open_chat.Server.Tcp.{init}
use open_chat.Text.{codes}
use open_chat.Server.ClientView.{notify_ui}
use open_chat.Server.Buttons.{on_btn_open, on_timer, timer_client, enable_buttons, opened_text}
use open_chat.Server.Buttons.Outcome.{
  ButtonsAre, at_dialog_port, on_btn_open_lem, on_timer_shows_last,
}

-- The server's dialog before any button is pressed.
abbrev fresh : App plain_list
fresh = start friendly plain_list []

on_btn_open_lem_example :
    ((on_btn_open friendly fresh).server ≡ (init friendly (at_dialog_port fresh) []).1)
    × ((on_btn_open friendly fresh).accept_threads
        ≡ (if (init friendly (at_dialog_port fresh) []).0 then 0 + 1 else 0))
    × ((on_btn_open friendly fresh).log
        ≡ enable_buttons false true
            (set_pane_text 0 opened_text ∷ (init friendly (at_dialog_port fresh) []).2))
    × ButtonsAre false true (on_btn_open friendly fresh).log
unfolding start
on_btn_open_lem_example = on_btn_open_lem friendly fresh

on_timer_shows_last_example :
    let first = codes "ada logs in" in
    let second = codes "bob logs in" in
    let b =
      on_timer timer_client []
        (notify_ui friendly plain_list second (notify_ui friendly plain_list first fresh)) in
    (b.info ≡ [])
    × (b.log ≡ default_handler ∷ set_pane_text 0 (friendly.widen second) ∷ fresh.log)
    × (on_timer timer_client [] b ≡ record b { log = default_handler ∷ b.log })
on_timer_shows_last_example =
    on_timer_shows_last friendly [] (codes "ada logs in") (codes "bob logs in") fresh (ground arith)
