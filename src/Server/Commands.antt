-- ===== src/Server/Commands.antt =====
-- The commands of PCServerDlg's message map (winSockServer/PCServer/ServerDlg.cpp).
use open_chat.Base.{ℕ, Option, none, some, ◌==◌, if◌then◌else◌}
use open_chat.Platform.{Winsock}
use open_chat.Platform.ListCtrl.{ListCtrl}
use open_chat.Server.State.{App}
use open_chat.Server.Buttons.{
  id_button_1, id_button_2, id_button_3, id_button_4, id_button_5, on_btn_open, on_btn_close,
}
use open_chat.Server.Input.{FileInput, on_btn_file}
use open_chat.Server.Setup.{on_btn_pic, on_btn_video}

pub data Handler : Type 0 where
  opening closing file pic video : Handler

-- The ON_COMMAND entries, in their order: the first one with the identifier counts.
unfoldable pub on_command : ℕ → Option Handler
on_command id =
    if id == id_button_1
    then some opening
    else if id == id_button_2
    then some closing
    else if id == id_button_3
    then some file
    else if id == id_button_4
    then some pic
    else if id == id_button_5
    then some video
    else none

-- The member function of an entry. `f` is what the file dialog is answered with.
unfoldable pub handle : Winsock → {lc : ListCtrl} → FileInput → Handler → App lc → App lc
handle os f opening a = on_btn_open os a
handle os f closing a = on_btn_close os a
handle os f file a = on_btn_file f a
handle os f pic a = on_btn_pic a
handle os f video a = on_btn_video a
