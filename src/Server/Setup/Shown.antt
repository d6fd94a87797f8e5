-- ===== src/Server/Setup/Shown.antt =====
-- The dialog that the set-up shows (winSockServer/PCServer/ServerDlg.cpp).
use open_chat.Base.{ℕ, ◌≡◌, refl, Bool, false, List, [], ◌∷◌, Option, none, some}
use open_chat.Text.{Text, codes}
use open_chat.Platform.{
  Winsock, Log, Call, load_image, insert_column, set_timer, bind_control, Widget, info_box,
  edit_send, client_list,
}
use open_chat.Server.Buttons.{is_enabled, id_button_1, timer_count, timer_client}
use open_chat.Server.Buttons.Outcome.{ButtonsAre}
use open_chat.Server.Resource.{
  idb_png_open, idb_png_close, idb_png_file, idb_png_pic, idb_png_video, idc_list_client_show,
  idc_richedit21_show, idc_richedit22_send,
}
use open_chat.Server.Setup.{show_dialog}

-- What the calls of one kind pass on, the newest first.
pub seen {ℓ} : {A : Type ℓ} → (Call → Option A) → Log → List A
seen f [] = []
seen f (c ∷ h) = let rest = seen f h in elim (f c) [ none ↦ rest | some a ↦ a ∷ rest ]

abbrev pub image_of : Call → Option ℕ
image_of (load_image id) = some id
image_of c = none

abbrev pub column_of : Call → Option (ℕ × Text)
column_of (insert_column i t f w) = some (i, t)
column_of c = none

abbrev pub timer_of : Call → Option (ℕ × ℕ)
timer_of (set_timer id period) = some (id, period)
timer_of c = none

abbrev pub bound_of : Call → Option (ℕ × Widget)
bound_of (bind_control id w) = some (id, w)
bound_of c = none

-- Whatever calls came before, a dialog that is created and initialised has its buttons 2 to 5 disabled
-- and the first as it was; it has loaded the five pictures in the order of the buttons, made the three
-- columns of the list, started both timers with a period of a second, and bound the three controls.
show_dialog_lem :
    (os : Winsock) (visible : Bool) (h : Log)
    → let g = show_dialog os visible h in
      ButtonsAre (is_enabled id_button_1 h) false g
      × (seen image_of g
          ≡ idb_png_video
            ∷ idb_png_pic
            ∷ idb_png_file
            ∷ idb_png_close
            ∷ idb_png_open
            ∷ seen image_of h)
      × (seen column_of g
          ≡ (2, codes "套接字") ∷ (1, codes "ip地址") ∷ (0, codes "端口") ∷ seen column_of h)
      × (seen timer_of g ≡ (timer_client, 1000) ∷ (timer_count, 1000) ∷ seen timer_of h)
      × (seen bound_of g
          ≡ (idc_richedit22_send, edit_send)
            ∷ (idc_list_client_show, client_list)
            ∷ (idc_richedit21_show, info_box)
            ∷ seen bound_of h)
unfolding show_dialog is_enabled seen
show_dialog_lem os visible h = (((refl, refl, refl, refl, refl)), refl, refl, refl, refl)
