-- ===== src/Login.antt =====
-- LoginDlg (winSockClient/PCClient/LoginDlg.cpp and LoginDlg.h). The dialog's controls are read by
-- the platform's `window_text` and written by calls; strings pass between UTF-16 and the ANSI code
-- page by the platform's `narrow` and `widen`.
pub mod Access
pub mod Quoting
mod Tests
use open_chat.Base.{
  ℕ, Bool, true, false, List, [], ◌∷◌, ◌++◌, Option, none, some, ◌==◌, if◌then◌else◌,
}
use open_chat.Text.{Text, codes, to_string, text_eq}
use open_chat.Platform.{
  default_handler, Winsock, Log, Widget, edit_account, edit_password, login_info, login_window,
  register_button, parent_window, get_window_text, set_window_text, enable_window, end_dialog,
}
use open_chat.Client.Tcp.{ClientApp}
use open_chat.Client.Dialog.{get_query_string}
use open_chat.Client.Resource.{idc_mfcbutton_login, idc_mfcbutton_cancel, idc_mfcbutton_register}
use open_chat.Database.{Mysql, Result, rquery, RMysql, rmysql}
use open_chat.Server.ClientView.{rgb}

-- How a click is dealt with; `throws` is the exception of `at`.
pub data Outcome : Type 0 where
  accepted rejected : Log → Outcome
  throws : Outcome

-- "没有账号？点击注册！" and "注册账号"
abbrev pub no_account_text : Text
no_account_text = codes "没有账号？点击注册！"

abbrev pub register_text : Text
register_text = codes "注册账号"

-- The codes that the dialog ends with: LOGIN and REGIS in ClientDlg.h.
abbrev pub login : ℕ
login = 11

abbrev pub regis : ℕ
regis = 10

-- LoginDlg: its connection, and the window that mpParent points to.
pub record LoginDlg : Type 0 where
  pub mysql : RMysql
  pub mp_parent : Option Widget

-- The constructor, which connects to the database.
unfoldable pub login_dlg : Option Widget → Log → LoginDlg × Log
unfolding rmysql
login_dlg parent h =
    let (m, g) = rmysql (codes "localhost") (codes "root") (codes "123456") (codes "new") h in
    (record { mysql = m; mp_parent = parent }, g)

-- The destructor: the connection is neither closed nor deleted.
unfoldable pub destroy : LoginDlg → Log → Log
destroy d h = h

-- LoginDlg::Init
unfoldable pub init : Widget → LoginDlg → LoginDlg
init parent d = record d { mp_parent = some parent }

-- LoginDlg::DoDataExchange
unfoldable pub do_data_exchange : Log → Log
do_data_exchange h = default_handler ∷ h

-- LoginDlg::OnInitDialog
unfoldable pub on_init_dialog : Log → Log
on_init_dialog h = enable_window register_button false ∷ default_handler ∷ h

-- The ON_BN_CLICKED entries of LoginDlg's message map.
pub data Handler : Type 0 where
  clicked_login clicked_cancel clicked_register : Handler

unfoldable pub on_command : ℕ → Option Handler
on_command id =
    if id == idc_mfcbutton_login
    then some clicked_login
    else if id == idc_mfcbutton_cancel
    then some clicked_cancel
    else if id == idc_mfcbutton_register
    then some clicked_register
    else none

-- LoginDlg::GetAccount
unfoldable pub get_account : Winsock → Log → Text × Log
get_account os h = (os.window_text h edit_account, get_window_text edit_account ∷ h)

-- LoginDlg::GetPassword
unfoldable pub get_password : Winsock → Log → Text × Log
get_password os h = (os.window_text h edit_password, get_window_text edit_password ∷ h)

-- LoginDlg::SetInfo
unfoldable pub set_info : Text → Log → Log
set_info info h = set_window_text login_info info ∷ h

-- LoginDlg::OnCtlColor: the colour of the brush, or the base class's. `kind` is nCtlColor.
pub data CtlColor : Type 0 where
  dlg edit other : CtlColor

unfoldable pub on_ctl_color : CtlColor → (base : ℕ) → ℕ
on_ctl_color dlg base = rgb 193 210 240
on_ctl_color edit base = rgb 255 0 0
on_ctl_color other base = base

-- The query of OnBnClickedMfcbuttonLogin.
unfoldable pub login_query : Text → Text
login_query password =
    codes "select account from info where password = '" ++ (password ++ codes "'")

-- The branches that offer to register.
unfoldable pub reject : Log → Log
reject h =
    set_window_text edit_password []
    ∷ set_window_text edit_account []
    ∷ enable_window register_button true
    ∷ set_window_text login_info no_account_text
    ∷ h

-- The end of the handler, where the account is the one typed.
unfoldable pub admit : Text → Log → Log
admit account h = end_dialog login ∷ set_window_text parent_window account ∷ h

-- The query of OnBnClickedMfcbuttonRegister.
unfoldable pub register_query : (port socket : ℕ) → (account password : Text) → Text
register_query port socket account password =
    codes "insert into info(ip,port,socket,account,password) values"
    ++ (codes "("
        ++ (get_query_string (codes "127.0.0.1")
            ++ (codes ","
                ++ (get_query_string (to_string port)
                    ++ (codes ","
                        ++ (get_query_string (to_string socket)
                            ++ (codes ","
                                ++ (get_query_string account
                                    ++ (codes ","
                                        ++ (get_query_string password ++ codes ")"))))))))))

module _ (os : Winsock) (db : Mysql) where
  open os use {window_text, narrow, widen}

  -- The handler after the query: `result.at(0).at(0)` against the account.
  unfoldable pub compare_account : Text → Option (Bool × Result × Log) → Outcome
  compare_account account none = throws
  compare_account account (some (done, [], h)) = throws
  compare_account account (some (done, [] ∷ columns, h)) = rejected (reject h)
  compare_account account (some (done, (found ∷ more) ∷ columns, h)) =
      if text_eq (widen found) account then accepted (admit account h) else rejected (reject h)

  -- LoginDlg::OnBnClickedMfcbuttonLogin
  unfoldable pub on_clicked_login : Log → Outcome
  on_clicked_login h =
      let account = window_text h edit_account in
      let h1 = get_window_text edit_account ∷ h in
      let password = window_text h1 edit_password in
      let h2 = get_window_text edit_password ∷ h1 in
      compare_account account (rquery db (login_query (narrow password)) [] true h2)

  -- LoginDlg::OnBnClickedMfcbuttonCancel
  unfoldable pub on_clicked_cancel : Log → Log
  on_clicked_cancel h = end_dialog regis ∷ h

  -- The end of the handler, whatever became of the query.
  unfoldable pub registered : Text → Option (Bool × Result × Log) → Outcome
  registered account none = throws
  registered account (some (done, result, h)) = accepted (admit account h)

  -- LoginDlg::OnBnClickedMfcbuttonRegister
  unfoldable pub on_clicked_register : ClientApp → Log → Outcome
  on_clicked_register parent h =
      let account = window_text h edit_account in
      let h1 = get_window_text edit_account ∷ h in
      let password = window_text h1 edit_password in
      let h2 = set_window_text login_window register_text ∷ get_window_text edit_password ∷ h1 in
      let query =
        register_query parent.own_port parent.client.m_socket (narrow account) (narrow password) in
      registered account (rquery db query [] false h2)
