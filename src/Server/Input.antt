-- ===== src/Server/Input.antt =====
-- Keyboard, messages and files of PCServerDlg (winSockServer/PCServer/ServerDlg.cpp).
pub mod Sending
pub mod Blocks
pub mod Files
mod Tests
use open_chat.Base.{
  ℕ, zero, suc, ◌+◌, Bool, true, List, [], ◌∷◌, ◌++◌, Option, none, some, length, take, drop,
  modify, leb, if◌then◌else◌, ℤ, pos, is_minus_one,
}
use open_chat.Text.{Text, tcstoul}
use open_chat.ClientItem.{ClientItem}
use open_chat.Platform.{
  Winsock, Log, edit_send, send, get_window_text, set_window_text, default_handler, file_dialog,
  file_open, file_read_string,
}
use open_chat.Platform.ListCtrl.{ListCtrl}
use open_chat.Server.State.{App, with_log}
use open_chat.Server.ClientView.{add_info}

-- What PreTranslateMessage distinguishes of a message.
pub data Message : Type 0 where
  key_escape key_return key_other no_key : Message

module _ (lc : ListCtrl) where
  open lc use {Ctrl, get_item_count, get_item_text, get_check}

  -- A loop over the rows from `i`, `n` of them left, that sends the same bytes to the socket of
  -- each row that is checked.
  unfoldable pub send_checked : Text → Ctrl → ℕ → ℕ → Log → Log
  send_checked str c zero i h = h
  send_checked str c (suc n) i h =
      send_checked str c n (i + 1)
        (if get_check c i then send (tcstoul (get_item_text c i 2)) str ∷ h else h)

module _ {lc : ListCtrl} where
  -- The case VK_RETURN.
  unfoldable pub press_return : Winsock → App lc → App lc
  press_return os a =
      let str = os.narrow (os.window_text a.log edit_send) in
      let h = get_window_text edit_send ∷ a.log in
      let h' = send_checked lc str a.client_list (lc.get_item_count a.client_list) 0 h in
      with_log a (set_window_text edit_send [] ∷ h')

  -- PCServerDlg::PreTranslateMessage: the result, and the state after.
  unfoldable pub pre_translate_message :
      Winsock → (base : Log → Bool) → Message → App lc → Bool × App lc
  pre_translate_message os base key_escape a = (true, a)
  pre_translate_message os base key_return a = (true, press_return os a)
  pre_translate_message os base key_other a = (base a.log, with_log a (default_handler ∷ a.log))
  pre_translate_message os base no_key a = (base a.log, with_log a (default_handler ∷ a.log))

-- The 256 bytes that `send(…, strMsg.c_str(), 256, 0)` reads: the string, its terminator, and what
-- lies behind; `none` where that is past the end of the string's array.
unfoldable pub fixed_block : Text → Option (List ℕ)
fixed_block msg = if leb 256 (length msg + 1) then some (take 256 (msg ++ 0 ∷ [])) else none

-- The loop of SendClientMsg over all clients; with the last result of `send`.
unfoldable pub send_all : Winsock → List ℕ → List ClientItem → ℤ → Log → ℤ × Log
send_all os block [] ret h = (ret, h)
send_all os block (c ∷ cs) ret h =
    send_all os block cs (os.send_ret h c.c_socket block) (send c.c_socket block ∷ h)

-- The text "发送错误!\r\n" in GBK.
abbrev pub send_error : Text
send_error = 0xb7 ∷ 0xa2 ∷ 0xcb ∷ 0xcd ∷ 0xb4 ∷ 0xed ∷ 0xce ∷ 0xf3 ∷ 0x21 ∷ 13 ∷ 10 ∷ []

-- The recipients of SendClientMsg: one client, or with a null pointer all of them.
abbrev pub recipients : {lc : ListCtrl} → Option ClientItem → App lc → List ClientItem
recipients (some c) a = c ∷ []
recipients none a = a.server.clients

-- The report at the end of SendClientMsg.
abbrev pub report : Winsock → ℤ × Log → Log
report os (ret, h) = if is_minus_one ret then add_info os send_error h else h

-- The sends of SendClientMsg. `none` is the read past the string, which happens at the first `send`.
unfoldable pub send_block :
    {lc : ListCtrl} → Winsock → Option (List ℕ) → List ClientItem → App lc → Option (App lc)
send_block os block [] a = some a
send_block os none (c ∷ cs) a = none
send_block os (some block) (c ∷ cs) a =
    some (with_log a (report os (send_all os block (c ∷ cs) (pos 0) a.log)))

-- PCServerDlg::SendClientMsg
unfoldable pub send_client_msg :
    {lc : ListCtrl} → Winsock → Text → Option ClientItem → App lc → Option (App lc)
send_client_msg os msg client a = send_block os (fixed_block msg) (recipients client a) a

-- The 512 bytes that OnBtn_File sends for a line. `converted` is what WideCharToMultiByte has written
-- to the front of the array, `stack` what the array held before.
unfoldable pub line_block : (converted stack : List ℕ) → List ℕ
line_block converted stack =
    modify (take 512 (converted ++ drop (length converted) stack)) 511 (λ _. 10)

-- The file that the dialog opens: the lines that ReadString gives, what WideCharToMultiByte writes
-- for a line, and what each 512-byte array holds before that.
pub record FileInput : Type 0 where
  pub chosen : Option Text
  pub opens : Text → Bool
  pub lines : List Text
  pub convert : Text → List ℕ
  pub stack : Log → List ℕ

-- GetPathName; a dialog that is left without a choice leaves the empty path.
abbrev pub chosen_path : Option Text → Text
chosen_path none = []
chosen_path (some p) = p

module _ (lc : ListCtrl) where
  open lc use {Ctrl, get_item_count, get_item_text, get_check}

  -- The loop over the rows in OnBtn_File, from row `i` with `n` rows left.
  unfoldable pub send_line : FileInput → Text → Ctrl → ℕ → ℕ → Log → Log
  send_line f line c zero i h = h
  send_line f line c (suc n) i h = send_line f line c n (i + 1) (
      if get_check c i
      then send (tcstoul (get_item_text c i 2)) (line_block (f.convert line) (f.stack h)) ∷ h
      else h)

  -- The loop over the lines in OnBtn_File.
  unfoldable pub send_lines : FileInput → Ctrl → List Text → Log → Log
  send_lines f c [] h = file_read_string ∷ h
  send_lines f c (line ∷ rest) h =
      send_lines f c rest (send_line f line c (get_item_count c) 0 (file_read_string ∷ h))

-- PCServerDlg::OnBtn_File
unfoldable pub on_btn_file : {lc : ListCtrl} → FileInput → App lc → App lc
on_btn_file {lc} f a =
    let path = chosen_path f.chosen in
    let h = file_open path ∷ file_dialog ∷ a.log in
    if f.opens path then with_log a (send_lines lc f a.client_list f.lines h) else with_log a h
