-- ===== src/Platform/Sample.antt =====
-- A concrete list control and a concrete network, at which the theorems are applied.
use open_chat.Base.{
  ℕ, zero, suc, ◌≡◌, refl, true, false, Bool, List, [], ◌∷◌, some, length, get_elem?, modify,
  insert_at, erase_at, min, ◌%◌, ◌+◌, ◌-◌, ◌^◌, pos, ltb, if◌then◌else◌,
}
use open_chat.Text.{Text, codes}
use open_chat.Platform.{Winsock}
use open_chat.Platform.ListCtrl.{ListCtrl, Row, cell, set_cell, put_check, blank_row}

abbrev pub text_at : List Row → ℕ → ℕ → Text
text_at [] i j = []
text_at (r ∷ rs) zero j = cell r j
text_at (r ∷ rs) (suc i) j = text_at rs i j

abbrev pub check_at : List Row → ℕ → Bool
check_at [] i = false
check_at (r ∷ rs) zero = r.checked
check_at (r ∷ rs) (suc i) = check_at rs i

pub text_at_lem :
    (rs : List Row) (i j : ℕ) (r : Row) → get_elem? rs i ≡ some r → text_at rs i j ≡ cell r j
text_at_lem [] i j r e = absurd (cc)
text_at_lem (x ∷ rs) zero j r e = ap-cell (cc)
  where
    ap-cell : x ≡ r → cell x j ≡ cell r j
    ap-cell p = cc
text_at_lem (x ∷ rs) (suc i) j r e = text_at_lem rs i j r e

pub check_at_lem :
    (rs : List Row) (i : ℕ) (r : Row) → get_elem? rs i ≡ some r → check_at rs i ≡ r.checked
check_at_lem [] i r e = absurd (cc)
check_at_lem (x ∷ rs) zero r e = cc
check_at_lem (x ∷ rs) (suc i) r e = check_at_lem rs i r e

-- The list of rows itself.
abbrev pub plain_list : ListCtrl
plain_list = record {
  Ctrl = List Row;
  rows = λ c. c;
  get_item_count = length;
  get_item_text = text_at;
  get_check = check_at;
  insert_item = λ c i. insert_at c i blank_row;
  inserted_at = λ c i. min i (length c);
  set_item_text = λ c i j t. modify c i (set_cell j t);
  delete_item = erase_at;
  set_check = λ c i b. modify c i (put_check b);
  get_item_count_lem = λ c. refl;
  get_item_text_lem = text_at_lem;
  get_check_lem = check_at_lem;
  insert_item_lem = λ c i. refl;
  inserted_at_lem = λ c i. refl;
  set_item_text_lem = λ c i j t. refl;
  delete_item_lem = λ c i. refl;
  set_check_lem = λ c i b. refl;
}

-- Every call succeeds, a client is always waiting, and after 111 calls the clients hang up. A socket
-- and a port are numbered by the calls made before.
abbrev pub friendly : Winsock
friendly = record {
  invalid_socket = 2 ^ 64 - 1;
  somaxconn = 2 ^ 31 - 1;
  inaddr_any = 0;
  htons = λ n. n % 65536;
  ntohs = λ n. n % 65536;
  htonl = λ n. n;
  inet_ntoa = λ a. codes "127.0.0.1";
  inet_ntop = λ a. codes "127.0.0.1";
  inet_addr = λ t. 0;
  widen = λ t. t;
  narrow = λ t. t;
  socket_ret = length;
  bind_ret = λ h s a. pos 0;
  listen_ret = λ h s. pos 0;
  select_ret = λ h m s. record { ret = pos 1; is_set = true };
  accept_ret = λ h s. record {
    sock = length h;
    addr = record { sin_addr = 0; sin_port = 50000 + length h };
  };
  recv_ret = λ h s n.
      if ltb (length h) 111
      then record { count = pos 2; bytes = codes "hi" }
      else record { count = pos 0; bytes = [] };
  send_ret = λ h s t. pos (length t);
  connect_ret = λ h s a. pos 0;
  getsockname_ret = λ h s. record { ret = pos 0; addr = record { sin_addr = 0; sin_port = 50001 } };
  window_text = λ h w. codes "hello";
  client_rect = λ h. record { left = pos 0; top = pos 0; right = pos 1184; bottom = pos 761 };
  window_style = λ h w. 0x50010000;
  extended_style = λ h w. 0;
}
