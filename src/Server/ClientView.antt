-- ===== src/Server/ClientView.antt =====
-- The list of clients and the message box of PCServerDlg (winSockServer/PCServer/ServerDlg.cpp).
pub mod Rows
mod Tests
use open_chat.Base.{ℕ, zero, suc, ◌+◌, [], ◌∷◌, length, ◌==◌, if◌then◌else◌, pos, minus_one, ◌*◌}
use open_chat.Text.{Text, format_d, format_ld, ttoi, int_to_size}
use open_chat.ClientItem.{ClientItem}
use open_chat.Platform.{
  Winsock, Log, SockAddr, info_box, set_sel, replace_sel, set_char_format, set_para_format,
}
use open_chat.Platform.ListCtrl.{ListCtrl}
use open_chat.Server.State.{App, with_list, with_info}
use open_chat.Server.Tcp.{client_num}

-- RGB(r, g, b)
abbrev pub rgb : ℕ → ℕ → ℕ → ℕ
rgb r g b = r + 256 * g + 65536 * b

-- The font name that SetStyle copies, in UTF-16.
abbrev pub font_name : Text
font_name = 0x5fae ∷ 0x8f6f ∷ 0x96c5 ∷ 0x9ed1 ∷ []

-- PCServerDlg::SetStyle
unfoldable pub set_style : ℕ → ℕ → Log → Log
set_style from to h =
    set_para_format info_box 355 4
    ∷ set_char_format info_box (15 * 15) (rgb 255 0 0) font_name
    ∷ set_sel info_box (pos from) (pos to)
    ∷ h

-- PCServerDlg::AddInfo
unfoldable pub add_info : Winsock → Text → Log → Log
add_info os msg h =
    set_style 0 (length msg)
      (replace_sel info_box (os.widen msg) ∷ set_sel info_box minus_one minus_one ∷ h)

module _ (os : Winsock) (lc : ListCtrl) where
  open os use {ntohs, inet_ntop, widen}
  open lc use {
    Ctrl, get_item_count, get_item_text, insert_item, inserted_at, set_item_text, delete_item,
  }

  -- The three SetItemText calls of PCServerDlg::InsertClient.
  set_texts : Ctrl → ℕ → SockAddr → ℕ → Ctrl
  set_texts c row addr sock =
      let c1 = set_item_text c row 0 (format_d (ntohs addr.sin_port)) in
      let c2 = set_item_text c1 row 1 (widen (inet_ntop addr.sin_addr)) in
      set_item_text c2 row 2 (format_ld sock)

  -- PCServerDlg::InsertClient
  unfoldable pub insert_client : SockAddr → ℕ → App lc → App lc
  unfolding set_texts
  insert_client addr sock a =
      let at = client_num a.server in
      with_list a
        (set_texts (insert_item a.client_list at) (inserted_at a.client_list at) addr sock)

  -- The loop of PCServerDlg::RemoveClient from row `i`, with `n` rows left.
  remove_row : ℕ → ℕ → ℕ → Ctrl → Ctrl
  remove_row port zero i c = c
  remove_row port (suc n) i c =
      let rest = remove_row port n (i + 1) c in
      if int_to_size (ttoi (get_item_text c i 0)) == port then delete_item c i else rest

  -- PCServerDlg::RemoveClient
  unfoldable pub remove_client : ClientItem → App lc → App lc
  unfolding remove_row
  remove_client item a =
      with_list a (remove_row item.c_port (get_item_count a.client_list) 0 a.client_list)

  -- PCServerDlg::NotifyUi
  unfoldable pub notify_ui : Text → App lc → App lc
  notify_ui msg a = with_info a (widen msg)
