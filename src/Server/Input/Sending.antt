-- ===== src/Server/Input/Sending.antt =====
-- To whom the Return key sends, and the blocks that SendClientMsg and OnBtn_File send
-- (winSockServer/PCServer/ServerDlg.cpp).
use open_chat.Base.{
  ℕ, zero, suc, ◌+◌, ◌≡◌, refl, sym, ◌∙◌, Bool, List, [], ◌∷◌, ◌++◌, map, length, length-append,
  get_elem?, get_elem?-middle, some, reverse, reverse-cons, append_assoc, Bool-cases, inl, inr,
  arith, if◌then◌else◌,
}
use open_chat.Text.{Text, tcstoul}
use open_chat.Platform.{Winsock, Log, send, edit_send, get_window_text, set_window_text}
use open_chat.Platform.ListCtrl.{ListCtrl, Row}
use open_chat.Server.State.{App}
use open_chat.Server.Input.{send_checked, press_return}

-- The elements at the places that are ticked.
abbrev pub picked {ℓ} : {A : Type ℓ} → List Bool → List A → List A
picked [] xs = []
picked (b ∷ bs) [] = []
picked (b ∷ bs) (x ∷ xs) = let rest = picked bs xs in if b then x ∷ rest else rest

abbrev pub ticks_of : List Row → List Bool
ticks_of = map (λ r. r.checked)

-- The handles that the rows show.
abbrev pub handles : List Row → List ℕ
handles = map (λ r. tcstoul r.socket_text)

-- A send of the text to each socket, the last one newest.
abbrev pub sends : Text → List ℕ → Log
sends str socks = reverse (map (λ s. send s str) socks)

sends-cons :
    (str : Text) (s : ℕ) (socks : List ℕ) (h : Log)
    → sends str (s ∷ socks) ++ h ≡ sends str socks ++ send s str ∷ h
sends-cons str s socks h =
    rw (reverse-cons (send s str) (map (λ t. send t str) socks))
      (append_assoc (sends str socks) (send s str ∷ []) h)

module _ (lc : ListCtrl) where
  open lc use {Ctrl, rows, get_check_lem, get_item_text_lem, get_item_count_lem, get_item_count}

  send_checked-rows :
      (str : Text) (n i : ℕ) (c : Ctrl) (pre suf : List Row) (h : Log)
      → rows c ≡ pre ++ suf
      → length pre ≡ i
      → length suf ≡ n
      → send_checked lc str c n i h ≡ sends str (picked (ticks_of suf) (handles suf)) ++ h
  unfolding send_checked
  send_checked-rows str zero i c pre [] h e p s = refl
  send_checked-rows str zero i c pre (r ∷ suf) h e p s = absurd (omega arith)
  send_checked-rows str (suc n) i c pre [] h e p s = absurd (omega arith)
  send_checked-rows str (suc n) i c pre (r ∷ suf) h e p s =
      let here : get_elem? (rows c) i ≡ some r = rw (e, ← p) (get_elem?-middle pre r suf) in
      let tick : lc.get_check c i ≡ r.checked = get_check_lem c i r here in
      let text : lc.get_item_text c i 2 ≡ r.socket_text = get_item_text_lem c i 2 r here in
      let rest = λ (g : Log).
        send_checked-rows str n (i + 1) c (pre ++ r ∷ []) suf g
          (e ∙ sym (append_assoc pre (r ∷ []) suf)) (omega (arith, length-append pre (r ∷ [])))
          (omega arith) in
      elim (Bool-cases r.checked) [
        | inl ticked ↦
            rw (tick, ticked, text)
              (rest (send (tcstoul r.socket_text) str ∷ h)
                ∙ sym (
                    sends-cons str (tcstoul r.socket_text) (picked (ticks_of suf) (handles suf)) h))
        | inr unticked ↦ rw (tick, unticked) (rest h)
      ]

-- The Return key reads the text, sends it once to the socket of each row that is checked, in the order
-- of the rows, and to nobody else, and then empties the edit box.
pub press_return-rows :
    (os : Winsock) {lc : ListCtrl} (a : App lc)
    → let str = os.narrow (os.window_text a.log edit_send) in
      let rs = lc.rows a.client_list in
      press_return os a ≡ record a {
        log =
            set_window_text edit_send []
            ∷ (sends str (picked (ticks_of rs) (handles rs)) ++ get_window_text edit_send ∷ a.log);
      }
unfolding press_return
press_return-rows os {lc} a =
    rw
      (send_checked-rows lc (os.narrow (os.window_text a.log edit_send))
        (lc.get_item_count a.client_list) 0 a.client_list [] (lc.rows a.client_list)
        (get_window_text edit_send ∷ a.log) refl refl (sym (lc.get_item_count_lem a.client_list)))
      refl
