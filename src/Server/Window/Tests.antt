-- ===== src/Server/Window/Tests.antt =====
-- The window's geometry (winSockServer/PCServer/ServerDlg.cpp) at one size.
use open_chat.Base.{arith}
use open_chat.Platform.{Rect}
use open_chat.Server.Window.Geometry.{client_rect, AllInside, Apart, controls_layout}

abbrev small : Rect
small = client_rect 640 480

controls_layout_example : AllInside 640 480 small × Apart small
controls_layout_example = controls_layout 640 480 (omega arith) (omega arith)
