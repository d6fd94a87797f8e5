-- ===== src/Platform.antt =====
-- What the two programs call and do not implement: Winsock, the MFC controls and the MySQL client
-- library. A program keeps the history of the calls that it made, newest first; an answer is any
-- function of that history, so an environment may answer the same call differently at each time.
-- winSockServer/include/common_header.h declares the two enumerations.
pub mod ListCtrl
pub mod Sample
use open_chat.Base.{ℕ, Bool, List, ◌∷◌, ℤ}
use open_chat.Text.{Text}

pub data Mode : Type 0 where
  write read : Mode

pub data ServerStatus : Type 0 where
  on off : ServerStatus

-- `sockaddr_in`: the address and the port are in network byte order.
pub record SockAddr : Type 0 where
  pub sin_addr : ℕ
  pub sin_port : ℕ

-- CRect
pub record Rect : Type 0 where
  pub left : ℤ
  pub top : ℤ
  pub right : ℤ
  pub bottom : ℤ

-- A constant of Windows or MFC that the source passes on and computes nothing with, by its name.
pub data Flag : Type 0 where
  ws_child ws_visible cbrs_top cbrs_tooltips tbbs_separator sw_show lvcfmt_center : Flag
  ilc_color32 ilc_mask afx_idw_controlbar_first afx_idw_controlbar_last zero_flag : Flag
  icc_win95_classes afx_restart_manager_support_restart : Flag

-- A window, control or command, by the constant or member that the source names it with.
pub data Widget : Type 0 where
  main_window info_box edit_send tool_bar status_bar client_list : Widget
  edit_account edit_password login_info register_button login_window parent_window : Widget

pub data Call : Type 0 where
  socket : Call
  bind : (sock : ℕ) → SockAddr → Call
  listen : (sock backlog : ℕ) → Call
  select : Mode → (sock timeout : ℕ) → Call
  accept : (sock : ℕ) → Call
  recv : (sock size : ℕ) → Call
  send : (sock : ℕ) → List ℕ → Call
  closesocket : (sock : ℕ) → Call
  shutdown_both : (sock : ℕ) → Call
  connect : (sock : ℕ) → SockAddr → Call
  getsockname getpeername : (sock : ℕ) → Call
  set_sel : Widget → ℤ → ℤ → Call
  replace_sel : Widget → Text → Call
  set_char_format : Widget → (height colour : ℕ) → Text → Call
  set_para_format : Widget → (line_spacing rule : ℕ) → Call
  set_window_text : Widget → Text → Call
  get_window_text : Widget → Call
  set_pane_text : (pane : ℕ) → Text → Call
  set_pane_info : (pane : ℕ) → (id : ℕ) → (width : ℤ) → Call
  enable_button : (id : ℕ) → Bool → Call
  enable_window : Widget → Bool → Call
  move_window : Widget → (x y width height : ℤ) → Call
  message_box : Text → Call
  end_dialog : ℕ → Call
  mysql_init mysql_close : Call
  mysql_connect : (ip name password database : Text) → (port : ℕ) → Call
  mysql_query : Text → Call
  mysql_store_result mysql_affected_rows mysql_fetch_row mysql_free_result : Call
  mysql_num_fields : Call
  file_dialog : Call
  file_open : Text → Call
  file_read_string : Call
  default_handler about_dialog on_help : Call
  enable_item : (id : ℕ) → Bool → Call
  load_icon : (id : ℕ) → Call
  set_icon : (big : Bool) → Call
  draw_icon : (x y : ℤ) → Call
  erase_icon_background : Call
  bind_control : (id : ℕ) → Widget → Call
  set_timer : (id period : ℕ) → Call
  set_background : Widget → (colour : ℕ) → Call
  show_window : Widget → Flag → Call
  create_bar : Widget → List Flag → Call
  reposition_bars : (first last left_over : Flag) → Call
  set_indicators : List ℕ → Call
  load_tool_bar : (id : ℕ) → Call
  create_images : (width height : ℕ) → List Flag → (initial grow : ℕ) → Call
  set_image_background : (colour : ℕ) → Call
  new_image delete_image_object : Call
  load_image : (id : ℕ) → Call
  add_image : (mask : ℕ) → Call
  set_image_list : Call
  set_button_style : (index : ℕ) → Flag → Call
  set_button_text : (index : ℕ) → Text → Call
  set_window_style set_extended_style : Widget → (style : ℕ) → Call
  insert_column : (index : ℕ) → Text → Flag → (width : ℕ) → Call
  init_common_controls : Flag → Call
  init_rich_edit base_init_instance socket_init enable_control_container : Call
  set_registry_key : Text → Call
  message_box_id : (id : ℕ) → Call
  new_shell_manager delete_shell_manager : Call
  do_modal : Widget → Call

abbrev pub Log : Type 0
Log = List Call

-- What `recv` returns, and what it has written to the buffer where the number is positive.
pub record Received : Type 0 where
  pub count : ℤ
  pub bytes : List ℕ

-- What `select` returns, and whether the socket is then in the set.
pub record Selected : Type 0 where
  pub ret : ℤ
  pub is_set : Bool

pub record Accepted : Type 0 where
  pub sock : ℕ
  pub addr : SockAddr

pub record Named : Type 0 where
  pub ret : ℤ
  pub addr : SockAddr

-- Winsock's constants, byte order, address formats, and its answers to the calls; the conversions
-- between the ANSI code page and UTF-16; what a window answers about its text, size and style.
pub record Winsock : Type 0 where
  pub invalid_socket : ℕ
  pub somaxconn : ℕ
  pub inaddr_any : ℕ
  pub htons : ℕ → ℕ
  pub ntohs : ℕ → ℕ
  pub htonl : ℕ → ℕ
  pub inet_ntoa : ℕ → Text
  pub inet_ntop : ℕ → Text
  pub inet_addr : Text → ℕ
  pub widen : Text → Text
  pub narrow : Text → Text
  pub socket_ret : Log → ℕ
  pub bind_ret : Log → ℕ → SockAddr → ℤ
  pub listen_ret : Log → ℕ → ℤ
  pub select_ret : Log → Mode → ℕ → Selected
  pub accept_ret : Log → ℕ → Accepted
  pub recv_ret : Log → ℕ → ℕ → Received
  pub send_ret : Log → ℕ → List ℕ → ℤ
  pub connect_ret : Log → ℕ → SockAddr → ℤ
  pub getsockname_ret : Log → ℕ → Named
  pub window_text : Log → Widget → Text
  pub client_rect : Log → Rect
  pub window_style : Log → Widget → ℕ
  pub extended_style : Log → Widget → ℕ
