-- ===== src/Server/Setup.antt =====
-- How PCServerDlg is built: OnCreate, InitToolBar, InitClientList and OnInitDialog
-- (winSockServer/PCServer/ServerDlg.cpp), as the calls that they make on the controls. Messages that
-- Windows sends while such a call runs are not followed.
pub mod Shown
use Prim.Native.Nat.{bit_and, bit_or}
use open_chat.Base.{
  ℕ, ◌-◌, ◌^◌, Bool, true, false, not, List, [], ◌∷◌, ℤ, pos, minus_one, ltb, ◌==◌, ◌&&◌,
  if◌then◌else◌,
}
use open_chat.Text.{Text, codes}
use open_chat.Platform.{
  Winsock, Rect, Log, Widget, main_window, info_box, edit_send, tool_bar, status_bar, client_list,
  ws_child, ws_visible, cbrs_top, cbrs_tooltips, tbbs_separator, sw_show, lvcfmt_center,
  ilc_color32, ilc_mask, afx_idw_controlbar_first, afx_idw_controlbar_last, zero_flag,
  default_handler, set_icon, set_window_text, set_background, set_timer, create_bar, load_tool_bar,
  reposition_bars, create_images, set_image_background, new_image, load_image, add_image,
  delete_image_object, set_image_list, set_button_style, set_button_text, show_window,
  set_window_style, set_extended_style, insert_column, bind_control, move_window, enable_item,
}
use open_chat.Platform.ListCtrl.{ListCtrl}
use open_chat.Server.State.{App}
use open_chat.Server.Resource.{
  idm_aboutbox, idd_aboutbox, idr_toolbar_server, idb_png_open, idb_png_close, idb_png_file,
  idb_png_pic, idb_png_video, idc_list_client_show, idc_richedit21_show, idc_richedit22_send,
}
use open_chat.Server.ClientView.{rgb}
use open_chat.Server.Buttons.{init_buttons, timer_count, timer_client}
use open_chat.Server.Window.{move_controls, init_status_bar}

-- The two assertions of OnInitDialog.
abbrev pub asserts : Bool
asserts = bit_and idm_aboutbox 0xFFF0 == idm_aboutbox && ltb idm_aboutbox 0xF000

-- CAboutDlg: the template that its constructor hands to the base class.
pub record AboutDlg : Type 0 where
  pub idd : ℕ

unfoldable pub about_dlg : AboutDlg
about_dlg = record { idd = idd_aboutbox }

-- CAboutDlg::DoDataExchange
unfoldable pub about_data_exchange : Log → Log
about_data_exchange h = default_handler ∷ h

-- PCServerDlg::DoDataExchange
unfoldable pub do_data_exchange : Log → Log
do_data_exchange h =
    bind_control idc_richedit22_send edit_send
    ∷ bind_control idc_list_client_show client_list
    ∷ bind_control idc_richedit21_show info_box
    ∷ default_handler
    ∷ h

-- One picture of InitToolBar: Load, Add and DeleteObject on a new CPngImage.
unfoldable pub picture : ℕ → Log → Log
picture id h = delete_image_object ∷ add_image (rgb 0 0 0) ∷ load_image id ∷ new_image ∷ h

-- The captions of InitToolBar.
unfoldable pub captions : Log → Log
captions h =
    set_button_text 5 (codes "Video")
    ∷ set_button_text 4 (codes "Picture")
    ∷ set_button_text 3 (codes "File")
    ∷ set_button_text 2 (codes "Close")
    ∷ set_button_text 0 (codes "Open")
    ∷ set_button_style 1 tbbs_separator
    ∷ h

-- PCServerDlg::InitToolBar
unfoldable pub init_tool_bar : Log → Log
unfolding picture captions init_buttons
init_tool_bar h =
    let bar =
      reposition_bars afx_idw_controlbar_first afx_idw_controlbar_last zero_flag
      ∷ load_tool_bar idr_toolbar_server
      ∷ create_bar tool_bar (ws_child ∷ ws_visible ∷ cbrs_top ∷ cbrs_tooltips ∷ [])
      ∷ h in
    let images =
      set_image_background (rgb 255 255 255)
      ∷ create_images 48 48 (ilc_color32 ∷ ilc_mask ∷ []) 2 2
      ∷ bar in
    let pictures = picture idb_png_video (
      picture idb_png_pic
        (picture idb_png_file (picture idb_png_close (picture idb_png_open images)))) in
    show_window tool_bar sw_show ∷ captions (init_buttons (set_image_list ∷ pictures))

-- The styles of the list control in the Windows headers.
abbrev pub lvs_typemask : ℕ
lvs_typemask = 0x0003

abbrev pub lvs_report : ℕ
lvs_report = 0x0001

abbrev pub lvs_ex_fullrowselect : ℕ
lvs_ex_fullrowselect = 0x0020

abbrev pub lvs_ex_gridlines : ℕ
lvs_ex_gridlines = 0x0001

abbrev pub lvs_ex_checkboxes : ℕ
lvs_ex_checkboxes = 0x0004

-- `lStyle &= ~LVS_TYPEMASK; lStyle |= LVS_REPORT;` on 32 bits.
unfoldable pub report_style : ℕ → ℕ
report_style style = bit_or (bit_and style (2 ^ 32 - 1 - lvs_typemask)) lvs_report

-- The three `dwStyle |= …`.
unfoldable pub table_style : ℕ → ℕ
table_style style =
    bit_or (bit_or (bit_or style lvs_ex_fullrowselect) lvs_ex_gridlines) lvs_ex_checkboxes

-- PCServerDlg::InitClientList
unfoldable pub init_client_list : Winsock → Log → Log
unfolding report_style table_style
init_client_list os h =
    let h1 = set_window_style client_list (report_style (os.window_style h client_list)) ∷ h in
    insert_column 2 (codes "套接字") lvcfmt_center 90
    ∷ insert_column 1 (codes "ip地址") lvcfmt_center 90
    ∷ insert_column 0 (codes "端口") lvcfmt_center 90
    ∷ set_extended_style client_list (table_style (os.extended_style h1 client_list))
    ∷ h1

-- PCServerDlg::OnInitDialog, after the base class. The list control's window exists by then.
unfoldable pub on_init_dialog : Winsock → (tool_bar_visible : Bool) → Log → Log
unfolding init_client_list move_controls
on_init_dialog os visible h =
    let titled =
      set_window_text main_window (codes "服务器：8888") ∷ set_icon false ∷ set_icon true ∷ h in
    let listed = init_client_list os titled in
    set_background edit_send (rgb 152 210 240)
    ∷ set_background info_box (rgb 192 210 240)
    ∷ set_timer timer_client 1000
    ∷ set_timer timer_count 1000
    ∷ set_background status_bar (rgb 0 0 255)
    ∷ move_controls true visible (os.client_rect listed) listed

-- PCServerDlg::OnCreate: the result and the calls. `base` says whether the base class's OnCreate
-- returned something else than -1.
unfoldable pub on_create : Winsock → (base : Bool) → Log → ℤ × Log
unfolding init_tool_bar init_status_bar
on_create os base h =
    let h1 = default_handler ∷ h in
    let rect = os.client_rect h1 in
    let bar =
      init_tool_bar (move_window main_window rect.left rect.top (pos 1200) (pos 800) ∷ h1) in
    if not base then (minus_one, h1) else (pos 0, init_status_bar (os.client_rect bar) bar)

-- The dialog's window once it is shown: WM_CREATE has succeeded, and the base class's OnInitDialog has
-- bound the controls.
unfoldable pub show_dialog : Winsock → (tool_bar_visible : Bool) → Log → Log
unfolding on_init_dialog do_data_exchange on_create
show_dialog os visible h = on_init_dialog os visible (do_data_exchange (on_create os true h).1)

-- PCServerDlg::EnableWindow. `answer` is what the item's EnableWindow returns.
unfoldable pub enable_dlg_item : (answer : Log → Bool) → (id : ℕ) → (used : Bool) → Log → Bool × Log
enable_dlg_item answer id used h = (answer h, enable_item id used ∷ h)

-- PCServerDlg::OnQueryDragIcon, from the icon that the constructor has loaded.
unfoldable pub on_query_drag_icon : (icon : ℕ) → ℕ
on_query_drag_icon icon = icon

module _ {lc : ListCtrl} where
  -- PCServerDlg::OnBtn_Pic
  unfoldable pub on_btn_pic : App lc → App lc
  on_btn_pic a = a

  -- PCServerDlg::OnBtn_Video
  unfoldable pub on_btn_video : App lc → App lc
  on_btn_video a = a
