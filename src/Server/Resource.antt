-- ===== src/Server/Resource.antt =====
-- The identifiers of winSockServer/PCServer/resource.h that the server's sources use, except those of
-- the tool bar's buttons (Server/Buttons) and of the status bar's panes (Server/Window).
use open_chat.Base.{ℕ}

abbrev pub idm_aboutbox : ℕ
idm_aboutbox = 0x0010

abbrev pub idd_aboutbox : ℕ
idd_aboutbox = 100

abbrev pub idp_sockets_init_failed : ℕ
idp_sockets_init_failed = 103

abbrev pub idr_mainframe : ℕ
idr_mainframe = 128

abbrev pub idr_toolbar_server : ℕ
idr_toolbar_server = 140

abbrev pub idb_png_close : ℕ
idb_png_close = 142

abbrev pub idb_png_open : ℕ
idb_png_open = 143

abbrev pub idb_png_file : ℕ
idb_png_file = 144

abbrev pub idb_png_pic : ℕ
idb_png_pic = 145

abbrev pub idb_png_video : ℕ
idb_png_video = 146

abbrev pub idc_list_client_show : ℕ
idc_list_client_show = 1018

abbrev pub idc_richedit21_show : ℕ
idc_richedit21_show = 1021

abbrev pub idc_richedit22_send : ℕ
idc_richedit22_send = 1022
