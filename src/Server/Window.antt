-- ===== src/Server/Window.antt =====
-- The geometry of PCServerDlg (winSockServer/PCServer/ServerDlg.cpp). The products with 0.8 and 0.2,
-- which the source computes in doubles and truncates, are computed in tenths; for the sizes of a
-- screen that is the same number.
pub mod Geometry
mod Tests
use open_chat.Base.{
  ℕ, Bool, true, false, not, List, [], ◌∷◌, ℤ, pos, ◌+ℤ◌, ◌-ℤ◌, div_ℤ, scale_ℤ, if◌then◌else◌,
}
use open_chat.Text.{Text}
use open_chat.Platform.{
  draw_icon, erase_icon_background, reposition_bars, afx_idw_controlbar_first,
  afx_idw_controlbar_last, set_indicators, create_bar, Rect, Log, Widget, client_list, info_box,
  edit_send, status_bar, tool_bar, move_window, set_pane_info, set_pane_text, default_handler,
}

abbrev pub toolbar_height : ℤ
toolbar_height = pos 80

abbrev pub statusbar_height : ℤ
statusbar_height = pos 40

abbrev pub client_list_width : ℤ
client_list_width = pos 300

abbrev pub id_indicators_x : ℕ
id_indicators_x = 2001

abbrev pub id_indicators_y : ℕ
id_indicators_y = 2002

unfoldable pub width : Rect → ℤ
width r = r.right -ℤ r.left

unfoldable pub height : Rect → ℤ
height r = r.bottom -ℤ r.top

-- The arguments of MoveWindow.
pub record Area : Type 0 where
  pub x : ℤ
  pub y : ℤ
  pub w : ℤ
  pub h : ℤ

-- `int(v * k / 10.0 + c)`
unfoldable pub tenths : (k : ℕ) → (v c : ℤ) → ℤ
tenths k v c = div_ℤ (scale_ℤ k v +ℤ scale_ℤ 10 c) 10

module _ (tool_bar_visible : Bool) (rect : Rect) where
  -- The part of the height that the message box and the edit box share.
  unfoldable pub shared_height : ℤ
  shared_height =
      if tool_bar_visible
      then height rect -ℤ toolbar_height -ℤ statusbar_height
      else height rect -ℤ statusbar_height

  unfoldable pub client_list_area : Area
  client_list_area = record {
    x = rect.left;
    y = if tool_bar_visible then toolbar_height else rect.top;
    w = client_list_width;
    h =
        if tool_bar_visible
        then height rect -ℤ toolbar_height -ℤ pos 5 -ℤ statusbar_height
        else height rect -ℤ statusbar_height -ℤ pos 5;
  }

  unfoldable pub info_box_area : Area
  unfolding shared_height
  info_box_area = record {
    x = rect.left +ℤ client_list_width +ℤ pos 5;
    y = if tool_bar_visible then toolbar_height else rect.top;
    w = width rect -ℤ client_list_width -ℤ pos 10;
    h = tenths 8 shared_height (pos 0);
  }

  unfoldable pub edit_send_area : Area
  unfolding shared_height
  edit_send_area = record {
    x = rect.left +ℤ client_list_width +ℤ pos 5;
    y = tenths 8 shared_height (if tool_bar_visible then toolbar_height +ℤ pos 5 else pos 5);
    w = width rect -ℤ client_list_width -ℤ pos 10;
    h = tenths 2 shared_height (pos 0 -ℤ pos 10);
  }

  unfoldable pub status_bar_area : Area
  status_bar_area = record {
    x = rect.left;
    y = height rect -ℤ statusbar_height;
    w = width rect;
    h = statusbar_height;
  }

  unfoldable pub tool_bar_area : Area
  tool_bar_area = record { x = rect.left; y = rect.top; w = width rect; h = toolbar_height }

abbrev pub move_to : Widget → Area → Log → Log
move_to widget a h = move_window widget a.x a.y a.w a.h ∷ h

-- PCServerDlg::MoveControls. `created` says whether the list control's window exists.
unfoldable pub move_controls : (created tool_bar_visible : Bool) → Rect → Log → Log
move_controls created visible rect h =
    if created
    then set_pane_info 1 id_indicators_y (tenths 2 (width rect) (pos 0))
      ∷ set_pane_info 0 id_indicators_x (tenths 8 (width rect) (pos 0))
      ∷ move_to tool_bar (tool_bar_area visible rect) (
          move_to status_bar (status_bar_area visible rect) (
            move_to edit_send (edit_send_area visible rect) (
              move_to info_box (info_box_area visible rect)
                (move_to client_list (client_list_area visible rect) h))))
    else h

-- PCServerDlg::OnSize, after the base class.
unfoldable pub on_size : (created tool_bar_visible : Bool) → Rect → Log → Log
on_size created visible rect h =
    if created
    then move_controls created visible rect (default_handler ∷ h)
    else default_handler ∷ h

-- PCServerDlg::InitStatusBar
unfoldable pub init_status_bar : Rect → Log → Log
init_status_bar rect h =
    reposition_bars afx_idw_controlbar_first afx_idw_controlbar_last afx_idw_controlbar_first
    ∷ set_pane_text 1 []
    ∷ set_pane_text 0 []
    ∷ set_pane_info 1 id_indicators_y (tenths 2 (width rect) (pos 0))
    ∷ set_pane_info 0 id_indicators_x (tenths 8 (width rect) (pos 0))
    ∷ set_indicators (id_indicators_x ∷ id_indicators_y ∷ [])
    ∷ create_bar status_bar []
    ∷ h

-- The place of the icon in OnPaint, of the server's and of the client's dialog.
unfoldable pub icon_origin : (extent icon : ℤ) → ℤ
icon_origin extent icon = div_ℤ (extent -ℤ icon +ℤ pos 1) 2

-- PCServerDlg::OnPaint: the icon in the middle while the window is an icon, and otherwise the base
-- class. `cx` and `cy` are the icon's size.
unfoldable pub on_paint : (iconic : Bool) → (cx cy : ℤ) → Rect → Log → Log
on_paint iconic cx cy rect h =
    if iconic
    then draw_icon (icon_origin (width rect) cx) (icon_origin (height rect) cy)
      ∷ erase_icon_background
      ∷ h
    else default_handler ∷ h
