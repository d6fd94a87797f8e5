-- ===== src/ClientItem.antt =====
-- winSockServer/include/ClientItem.h: what the server keeps of a connected client.
use open_chat.Base.{ℕ, Bool, true, ◌&&◌, ◌==◌, ◌≡◌, ◌↔◌, arith}
use open_chat.Text.{Text, text_eq}
use open_chat.Text.Decimal.{text_eq_iff}

pub record ClientItem : Type 0 where
  pub c_addr : Text
  pub c_port : ℕ
  pub c_socket : ℕ

-- `operator==`
unfoldable pub equal : ClientItem → ClientItem → Bool
equal l r = text_eq l.c_addr r.c_addr && l.c_port == r.c_port && l.c_socket == r.c_socket

-- `operator=`
unfoldable pub assign : ClientItem → ClientItem → ClientItem
assign this rhs = record this { c_addr = rhs.c_addr; c_port = rhs.c_port; c_socket = rhs.c_socket }

-- Two items are equal for `operator==` exactly when they are the same value.
equal_iff : (l r : ClientItem) → (equal l r ≡ true) ↔ (l ≡ r)
unfolding equal
equal_iff l r = ground (arith, text_eq_iff l.c_addr r.c_addr)
