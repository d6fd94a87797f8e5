-- ===== src/Server/Window/Geometry.antt =====
-- Where MoveControls puts the controls (winSockServer/PCServer/ServerDlg.cpp).
use open_chat.Base.{
  ℕ, ◌+◌, ◌-◌, ◌*◌, ◌/◌, ◌≤◌, ◌≡◌, true, ℤ, pos, ◌+ℤ◌, ◌-ℤ◌, ◌≤ℤ◌, div_ℤ, scale_ℤ, arith,
}
use open_chat.Platform.{Rect}
use open_chat.Server.Window.{
  Area, width, height, tenths, client_list_area, info_box_area, edit_send_area, status_bar_area,
  tool_bar_area, icon_origin,
}

-- What GetClientRect returns for a window of that size.
abbrev pub client_rect : ℕ → ℕ → Rect
client_rect w h = record { left = pos 0; top = pos 0; right = pos w; bottom = pos h }

-- An area of whole pixels.
abbrev pub at : ℕ → ℕ → ℕ → ℕ → Area
at x y w h = record { x = pos x; y = pos y; w = pos w; h = pos h }

module _ (w h : ℕ) (wide : 310 ≤ w) (high : 170 ≤ h) where
  client_list_area_lem : client_list_area true (client_rect w h) ≡ at 0 80 300 (h - 125)
  unfolding client_list_area height ◌-ℤ◌
  client_list_area_lem = ground arith

  info_box_area_lem :
      info_box_area true (client_rect w h) ≡ at 305 80 (w - 310) (8 * (h - 120) / 10)
  unfolding info_box_area width height tenths div_ℤ scale_ℤ ◌-ℤ◌ ◌+ℤ◌
  info_box_area_lem = ground arith

  edit_send_area_lem :
      edit_send_area true (client_rect w h)
      ≡ at 305 ((8 * (h - 120) + 850) / 10) (w - 310) ((2 * (h - 120) - 100) / 10)
  unfolding edit_send_area width height tenths div_ℤ scale_ℤ ◌-ℤ◌ ◌+ℤ◌
  edit_send_area_lem = ground arith

  status_bar_area_lem : status_bar_area true (client_rect w h) ≡ at 0 (h - 40) w 40
  unfolding status_bar_area width height ◌-ℤ◌
  status_bar_area_lem = ground arith

  tool_bar_area_lem : tool_bar_area true (client_rect w h) ≡ at 0 0 w 80
  unfolding tool_bar_area width ◌-ℤ◌
  tool_bar_area_lem = ground arith

abbrev pub right_edge : Area → ℤ
right_edge a = a.x +ℤ a.w

abbrev pub bottom_edge : Area → ℤ
bottom_edge a = a.y +ℤ a.h

-- The area is not turned over and lies in a window of that size.
abbrev pub Inside : ℕ → ℕ → Area → Type 0
Inside w h a =
    (pos 0 ≤ℤ a.x)
    × (pos 0 ≤ℤ a.y)
    × (pos 0 ≤ℤ a.w)
    × (pos 0 ≤ℤ a.h)
    × (right_edge a ≤ℤ pos w)
    × (bottom_edge a ≤ℤ pos h)

abbrev pub LeftOf : Area → Area → Type 0
LeftOf a b = right_edge a ≤ℤ b.x

abbrev pub Above : Area → Area → Type 0
Above a b = bottom_edge a ≤ℤ b.y

-- Every control lies inside a window of that size.
abbrev pub AllInside : ℕ → ℕ → Rect → Type 0
AllInside w h r =
    Inside w h (tool_bar_area true r)
    × Inside w h (client_list_area true r)
    × Inside w h (info_box_area true r)
    × Inside w h (edit_send_area true r)
    × Inside w h (status_bar_area true r)

-- The tool bar is above all others and the status bar below them, the list of clients is left of both
-- text boxes, and the message box is above the edit box.
abbrev pub Apart : Rect → Type 0
Apart r =
    Above (tool_bar_area true r) (client_list_area true r)
    × Above (tool_bar_area true r) (info_box_area true r)
    × LeftOf (client_list_area true r) (info_box_area true r)
    × LeftOf (client_list_area true r) (edit_send_area true r)
    × Above (info_box_area true r) (edit_send_area true r)
    × Above (client_list_area true r) (status_bar_area true r)
    × Above (edit_send_area true r) (status_bar_area true r)

-- In a window of at least 310 by 170 pixels with the tool bar shown, MoveControls puts every control
-- inside the client area, and no two of the five overlap: the tool bar is above all others and the
-- status bar below them, the list of clients is left of both text boxes, and the message box is above
-- the edit box.
pub controls_layout :
    (w h : ℕ) → 310 ≤ w → 170 ≤ h → AllInside w h (client_rect w h) × Apart (client_rect w h)
unfolding ◌+ℤ◌
controls_layout w h wide high =
    rw
      (
        tool_bar_area_lem w h wide high,
        client_list_area_lem w h wide high,
        info_box_area_lem w h wide high,
        edit_send_area_lem w h wide high,
        status_bar_area_lem w h wide high,
      )
      (ground arith)

-- OnPaint puts an icon that is not larger than the window in its middle: the margins on the two sides
-- differ by at most one pixel.
icon_centred :
    (extent icon : ℕ)
    → icon ≤ extent
    → (k : ℕ) × (icon_origin (pos extent) (pos icon) ≡ pos k)
      × (k + k + icon ≤ extent + 1)
      × (extent ≤ k + k + icon)
unfolding icon_origin div_ℤ ◌-ℤ◌ ◌+ℤ◌
icon_centred extent icon h = ((extent - icon + 1) / 2, ground arith, ground arith, ground arith)
