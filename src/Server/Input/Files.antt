-- ===== src/Server/Input/Files.antt =====
-- What OnBtn_File sends (winSockServer/PCServer/ServerDlg.cpp).
use open_chat.Base.{
  ℕ, zero, suc, ◌+◌, ◌≡◌, ◌≤◌, refl, sym, ◌∙◌, List, [], ◌∷◌, ◌++◌, map, length, length-append,
  get_elem?, get_elem?-middle, some, append_assoc, Bool-cases, inl, inr, All, arith, if◌then◌else◌,
}
use open_chat.Text.{Text}
use open_chat.Platform.{Log, send, file_dialog, file_open, file_read_string}
use open_chat.Platform.ListCtrl.{ListCtrl, Row}
use open_chat.Server.State.{App, with_log}
use open_chat.Server.Input.{FileInput, chosen_path, line_block, send_line, send_lines, on_btn_file}
use open_chat.Server.Input.Sending.{picked, ticks_of, handles}
use open_chat.Server.Input.Blocks.{line_block_lem}

-- A block of 512 bytes that starts with the bytes `t` and ends with a line feed.
abbrev pub Carries : List ℕ → List ℕ → Type 0
Carries t block = (rest : List ℕ) × (block ≡ t ++ (rest ++ 10 ∷ [])) × (length block ≡ 512)

-- From one history to a later one: the sends in between are one to each socket of the list, in its
-- order, of a block that carries the line beside it; apart from them lines are read.
pub data Delivers (f : FileInput) : List (ℕ × Text) → Log → Log → Type 0 where
  finished : {h : Log} → Delivers f [] h h
  line_read :
      {ps : List (ℕ × Text)} {h k : Log}
      → Delivers f ps (file_read_string ∷ h) k
      → Delivers f ps h k
  line_sent :
      {s : ℕ} {line : Text} {ps : List (ℕ × Text)} {h k : Log} (block : List ℕ)
      → Carries (f.convert line) block
      → Delivers f ps (send s block ∷ h) k
      → Delivers f ((s, line) ∷ ps) h k

-- Each line for each of the sockets.
abbrev pub addressed : List ℕ → List Text → List (ℕ × Text)
addressed socks [] = []
addressed socks (line ∷ lines) = map (λ s. (s, line)) socks ++ addressed socks lines

module _ {f : FileInput} where
  Delivers-append :
      {ps qs : List (ℕ × Text)} {h k l : Log}
      → Delivers f ps h k
      → Delivers f qs k l
      → Delivers f (ps ++ qs) h l
  Delivers-append finished e = e
  Delivers-append (line_read d) e = line_read (Delivers-append d e)
  Delivers-append (line_sent block c d) e = line_sent block c (Delivers-append d e)

module _ (f : FileInput) (lc : ListCtrl) (full : (h : Log) → length (f.stack h) ≡ 512) where
  open lc use {Ctrl, rows, get_check_lem, get_item_text_lem, get_item_count_lem, get_item_count}

  send_line-rows :
      (line : Text) (n i : ℕ) (c : Ctrl) (pre suf : List Row) (h : Log)
      → length (f.convert line) ≤ 511
      → rows c ≡ pre ++ suf
      → length pre ≡ i
      → length suf ≡ n
      → Delivers f
          (map (λ s. (s, line)) (picked (ticks_of suf) (handles suf)))
          h
          (send_line lc f line c n i h)
  unfolding send_line
  send_line-rows line zero i c pre [] h fits e p s = finished
  send_line-rows line zero i c pre (r ∷ suf) h fits e p s = absurd (omega arith)
  send_line-rows line (suc n) i c pre [] h fits e p s = absurd (omega arith)
  send_line-rows line (suc n) i c pre (r ∷ suf) h fits e p s =
      let here : get_elem? (rows c) i ≡ some r = rw (e, ← p) (get_elem?-middle pre r suf) in
      let tick : lc.get_check c i ≡ r.checked = get_check_lem c i r here in
      let text : lc.get_item_text c i 2 ≡ r.socket_text = get_item_text_lem c i 2 r here in
      let rest = λ (g : Log).
        send_line-rows line n (i + 1) c (pre ++ r ∷ []) suf g fits
          (e ∙ sym (append_assoc pre (r ∷ []) suf)) (omega (arith, length-append pre (r ∷ [])))
          (omega arith) in
      let block = line_block_lem (f.convert line) (f.stack h) (full h) fits in
      elim (Bool-cases r.checked) [
        | inl ticked ↦
            rw (tick, ticked, text)
              (line_sent (line_block (f.convert line) (f.stack h)) (_, block.0, block.1) (rest _))
        | inr unticked ↦ rw (tick, unticked) (rest h)
      ]

  send_lines-rows :
      (c : Ctrl) (lines : List Text) (h : Log)
      → All (λ line. length (f.convert line) ≤ 511) lines
      → Delivers f
          (addressed (picked (ticks_of (rows c)) (handles (rows c))) lines)
          h
          (send_lines lc f c lines h)
  unfolding send_lines
  send_lines-rows c [] h fits = line_read finished
  send_lines-rows c (line ∷ lines) h fits = line_read (
      Delivers-append
        (send_line-rows line (get_item_count c) 0 c [] (rows c) (file_read_string ∷ h) fits.0 refl
          refl (sym (get_item_count_lem c)))
        (send_lines-rows c lines _ fits.1))

-- Where every line of the file converts to at most 511 bytes, its terminator counted, OnBtn_File
-- changes nothing but the history: it asks for a file and opens it, and if that succeeds it sends each
-- line of the file, in order, once to each socket whose row is checked, in the order of the rows, and
-- nothing else. Each block has 512 bytes, starts with the converted line and ends with a line feed.
pub on_btn_file_lem :
    (f : FileInput) {lc : ListCtrl} (a : App lc)
    → ((h : Log) → length (f.stack h) ≡ 512)
    → All (λ line. length (f.convert line) ≤ 511) f.lines
    → let path = chosen_path f.chosen in
      let rs = lc.rows a.client_list in
      let after = on_btn_file f a in
      (after ≡ with_log a after.log)
      × Delivers f
          (if f.opens path then addressed (picked (ticks_of rs) (handles rs)) f.lines else [])
          (file_open path ∷ file_dialog ∷ a.log)
          after.log
unfolding on_btn_file
on_btn_file_lem f {lc} a full fits = elim (Bool-cases (f.opens (chosen_path f.chosen))) [
  | inl opened ↦ rw opened (refl, send_lines-rows f lc full a.client_list f.lines _ fits)
  | inr failed ↦ rw failed (refl, finished)
]
