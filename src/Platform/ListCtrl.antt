-- ===== src/Platform/ListCtrl.antt =====
-- The list of clients is an MFC CListCtrl in report view. The interface gives the calls that
-- winSockServer/PCServer/ServerDlg.cpp makes on it, the rows that it shows, and the documented
-- effect of each call on the rows.
use open_chat.Base.{
  ℕ, ◌≡◌, Bool, false, List, [], some, length, get_elem?, modify, insert_at, erase_at, min,
  if◌then◌else◌, ◌==◌,
}
use open_chat.Text.{Text}

pub record Row : Type 0 where
  pub port_text : Text
  pub ip_text : Text
  pub socket_text : Text
  pub checked : Bool

abbrev pub blank_row : Row
blank_row = record { port_text = []; ip_text = []; socket_text = []; checked = false }

-- The text of a column.
abbrev pub cell : Row → ℕ → Text
cell r j = if j == 0 then r.port_text else if j == 1 then r.ip_text else r.socket_text

abbrev pub set_cell : ℕ → Text → Row → Row
set_cell j t r =
    if j == 0
    then record r { port_text = t }
    else if j == 1
    then record r { ip_text = t }
    else record r { socket_text = t }

abbrev pub put_check : Bool → Row → Row
put_check b r = record r { checked = b }

pub record ListCtrl : Type 1 where
  pub Ctrl : Type 0
  pub rows : Ctrl → List Row
  pub get_item_count : Ctrl → ℕ
  pub get_item_text : Ctrl → ℕ → ℕ → Text
  pub get_check : Ctrl → ℕ → Bool
  pub insert_item : Ctrl → ℕ → Ctrl
  pub inserted_at : Ctrl → ℕ → ℕ
  pub set_item_text : Ctrl → ℕ → ℕ → Text → Ctrl
  pub delete_item : Ctrl → ℕ → Ctrl
  pub set_check : Ctrl → ℕ → Bool → Ctrl
  pub get_item_count_lem : (c : Ctrl) → get_item_count c ≡ length (rows c)
  pub get_item_text_lem :
      (c : Ctrl) (i j : ℕ) (r : Row)
      → get_elem? (rows c) i ≡ some r
      → get_item_text c i j ≡ cell r j
  pub get_check_lem :
      (c : Ctrl) (i : ℕ) (r : Row) → get_elem? (rows c) i ≡ some r → get_check c i ≡ r.checked
  pub insert_item_lem : (c : Ctrl) (i : ℕ) → rows (insert_item c i) ≡ insert_at (rows c) i blank_row
  pub inserted_at_lem : (c : Ctrl) (i : ℕ) → inserted_at c i ≡ min i (length (rows c))
  pub set_item_text_lem :
      (c : Ctrl) (i j : ℕ) (t : Text)
      → rows (set_item_text c i j t) ≡ modify (rows c) i (set_cell j t)
  pub delete_item_lem : (c : Ctrl) (i : ℕ) → rows (delete_item c i) ≡ erase_at (rows c) i
  pub set_check_lem :
      (c : Ctrl) (i : ℕ) (b : Bool) → rows (set_check c i b) ≡ modify (rows c) i (put_check b)
