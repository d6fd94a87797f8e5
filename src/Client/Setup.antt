-- ===== src/Client/Setup.antt =====
-- How PCClientDlg is built and painted (winSockClient/PCClient/ClientDlg.cpp). The part of
-- OnInitDialog that `#if 0` takes out is no part of the program.
use Prim.Native.Nat.{bit_and}
use open_chat.Base.{
  ℕ, Bool, true, false, not, ◌∷◌, ℤ, pos, minus_one, ltb, ◌==◌, ◌&&◌, if◌then◌else◌,
}
use open_chat.Platform.{
  Winsock, Log, Rect, info_box, edit_send, default_handler, set_icon, set_background, bind_control,
  enable_item, draw_icon, erase_icon_background,
}
use open_chat.Server.ClientView.{rgb}
use open_chat.Server.Window.{icon_origin, width, height}
use open_chat.Client.Tcp.{ClientApp}
use open_chat.Client.Dialog.{idm_aboutbox, on_clicked_connect}
use open_chat.Client.Resource.{
  idc_mfcbutton_connect, idd_aboutbox, idc_richedit21_info, idc_richedit21_send,
}

-- CAboutDlg: the template that its constructor hands to the base class.
pub record AboutDlg : Type 0 where
  pub idd : ℕ

unfoldable pub about_dlg : AboutDlg
about_dlg = record { idd = idd_aboutbox }

-- CAboutDlg::DoDataExchange
unfoldable pub about_data_exchange : Log → Log
about_data_exchange h = default_handler ∷ h

-- PCClientDlg::DoDataExchange
unfoldable pub do_data_exchange : Log → Log
do_data_exchange h =
    bind_control idc_richedit21_info info_box
    ∷ bind_control idc_richedit21_send edit_send
    ∷ default_handler
    ∷ h

-- The two assertions of OnInitDialog.
abbrev pub asserts : Bool
asserts = bit_and idm_aboutbox 0xFFF0 == idm_aboutbox && ltb idm_aboutbox 0xF000

-- PCClientDlg::OnInitDialog
unfoldable pub on_init_dialog : Log → Log
on_init_dialog h =
    set_background edit_send (rgb 152 210 240)
    ∷ set_background info_box (rgb 192 210 240)
    ∷ set_icon false
    ∷ set_icon true
    ∷ default_handler
    ∷ h

-- PCClientDlg::OnPaint. `cx` and `cy` are the icon's size.
unfoldable pub on_paint : (iconic : Bool) → (cx cy : ℤ) → Rect → Log → Log
on_paint iconic cx cy rect h =
    if iconic
    then draw_icon (icon_origin (width rect) cx) (icon_origin (height rect) cy)
      ∷ erase_icon_background
      ∷ h
    else default_handler ∷ h

-- PCClientDlg::OnCreate: the result and the calls. `base` says whether the base class's OnCreate
-- returned something else than -1.
unfoldable pub on_create : (base : Bool) → Log → ℤ × Log
on_create base h =
    if not base then (minus_one, default_handler ∷ h) else (pos 0, default_handler ∷ h)

-- PCClientDlg::EnableWindow. `answer` is what the item's EnableWindow returns.
unfoldable pub enable_dlg_item : (answer : Log → Bool) → (id : ℕ) → (used : Bool) → Log → Bool × Log
enable_dlg_item answer id used h = (answer h, enable_item id used ∷ h)

-- The ON_BN_CLICKED entry of PCClientDlg's message map: what a control's click does.
unfoldable pub click : Winsock → (id : ℕ) → ClientApp → ClientApp
click os id a = if id == idc_mfcbutton_connect then on_clicked_connect os a else a

-- PCClientDlg::GetClientSocket
unfoldable pub get_client_socket : ClientApp → ℕ
get_client_socket a = a.client.m_socket
