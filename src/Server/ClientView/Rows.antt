-- ===== src/Server/ClientView/Rows.antt =====
-- What InsertClient and RemoveClient of winSockServer/PCServer/ServerDlg.cpp do to the rows shown.
use open_chat.Base.{
  ℕ, zero, suc, ◌+◌, ◌≡◌, refl, sym, ap, ◌∙◌, Bool, false, List, [], ◌∷◌, ◌++◌, length,
  length-append, get_elem?-middle, modify, insert_at, erase_at-middle, erase_first, append_assoc,
  min, ◌==◌, Bool-cases, inl, inr, arith,
}
use open_chat.Text.{format_d, format_ld, ttoi, int_to_size}
use open_chat.ClientItem.{ClientItem}
use open_chat.Platform.{Winsock, SockAddr}
use open_chat.Platform.ListCtrl.{ListCtrl, Row}
use open_chat.Server.State.{App}
use open_chat.Server.Tcp.{client_num}
use open_chat.Server.ClientView.{insert_client, remove_client, remove_row}

-- The row that a new connection gets.
abbrev pub row_of : Winsock → SockAddr → ℕ → Row
row_of os addr sock = record {
  port_text = format_d (os.ntohs addr.sin_port);
  ip_text = os.widen (os.inet_ntop addr.sin_addr);
  socket_text = format_ld sock;
  checked = false;
}

-- The test of RemoveClient's loop.
abbrev pub has_port : ℕ → Row → Bool
has_port port r = int_to_size (ttoi r.port_text) == port

modify-insert_at :
    (xs : List Row) (i : ℕ) (a : Row) (f : Row → Row)
    → modify (insert_at xs i a) (min i (length xs)) f ≡ insert_at xs i (f a)
modify-insert_at [] i a f = let e : min i 0 ≡ 0 = omega arith in rw e
modify-insert_at (x ∷ xs) zero a f = let e : min 0 (length (x ∷ xs)) ≡ 0 = omega arith in rw e
modify-insert_at (x ∷ xs) (suc i) a f =
    let e : min (suc i) (length (x ∷ xs)) ≡ suc (min i (length xs)) = omega arith in
    rw e (ap (◌∷◌ x) (modify-insert_at xs i a f))

module _ (os : Winsock) (lc : ListCtrl) where
  open lc use {
    Ctrl, rows, get_item_count, insert_item_lem, inserted_at_lem, set_item_text_lem,
    delete_item_lem, get_item_text_lem, get_item_count_lem,
  }

  -- InsertClient puts in one row, unchecked, with the client's port, address and socket, at index
  -- ClientNum (at the end, where the list is shorter), and leaves the other rows as they are.
  pub rows-insert_client :
      (addr : SockAddr) (sock : ℕ) (a : App lc)
      → rows (insert_client os lc addr sock a).client_list
        ≡ insert_at (rows a.client_list) (client_num a.server) (row_of os addr sock)
  unfolding insert_client
  rows-insert_client addr sock a = rw (
    set_item_text_lem, set_item_text_lem, set_item_text_lem, insert_item_lem, inserted_at_lem,
    modify-insert_at, modify-insert_at, modify-insert_at,
  )

  remove_row-rows :
      (port n i : ℕ) (c : Ctrl) (pre suf : List Row)
      → rows c ≡ pre ++ suf
      → length pre ≡ i
      → length suf ≡ n
      → rows (remove_row os lc port n i c) ≡ pre ++ erase_first (has_port port) suf
  unfolding remove_row
  remove_row-rows port zero i c pre [] e p s = e
  remove_row-rows port zero i c pre (r ∷ suf) e p s = absurd (omega arith)
  remove_row-rows port (suc n) i c pre [] e p s = absurd (omega arith)
  remove_row-rows port (suc n) i c pre (r ∷ suf) e p s = elim (Bool-cases (has_port port r)) [
    | inl hit ↦ rw (text, hit, delete_item_lem, e, ← p) (erase_at-middle pre r suf)
    | inr miss ↦
        rw (text, miss)
          (remove_row-rows port n (i + 1) c (pre ++ r ∷ []) suf
              (e ∙ sym (append_assoc pre (r ∷ []) suf)) (omega (arith, length-append pre (r ∷ [])))
              (omega arith)
            ∙ append_assoc pre (r ∷ []) (erase_first (has_port port) suf))
  ]
    where
      text : lc.get_item_text c i 0 ≡ r.port_text
      text = get_item_text_lem c i 0 r (rw (e, ← p) (get_elem?-middle pre r suf))

  -- RemoveClient takes away the first row whose text reads as the client's port, if there is one, and
  -- no other.
  pub rows-remove_client :
      (item : ClientItem) (a : App lc)
      → rows (remove_client os lc item a).client_list
        ≡ erase_first (has_port item.c_port) (rows a.client_list)
  unfolding remove_client
  rows-remove_client item a =
      remove_row-rows item.c_port (get_item_count a.client_list) 0 a.client_list []
        (rows a.client_list) refl refl (sym (get_item_count_lem a.client_list))
