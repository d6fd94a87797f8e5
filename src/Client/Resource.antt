-- ===== src/Client/Resource.antt =====
-- The identifiers of winSockClient/PCClient/resource.h that the client's sources use.
use open_chat.Base.{ℕ}

abbrev pub idd_aboutbox : ℕ
idd_aboutbox = 100

abbrev pub idp_sockets_init_failed : ℕ
idp_sockets_init_failed = 103

abbrev pub idr_mainframe : ℕ
idr_mainframe = 128

abbrev pub idc_richedit21_info : ℕ
idc_richedit21_info = 1033

abbrev pub idc_mfcbutton_register : ℕ
idc_mfcbutton_register = 1038

abbrev pub idc_mfcbutton_login : ℕ
idc_mfcbutton_login = 1039

abbrev pub idc_mfcbutton_cancel : ℕ
idc_mfcbutton_cancel = 1040

abbrev pub idc_mfcbutton_connect : ℕ
idc_mfcbutton_connect = 1041

abbrev pub idc_richedit21_send : ℕ
idc_richedit21_send = 1043
