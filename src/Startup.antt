-- ===== src/Startup.antt =====
-- What the two applications share when they start: InitInstance is the same text in
-- winSockServer/PCServer/Server.cpp and winSockClient/PCClient/Client.cpp but for the dialog.
use open_chat.Base.{ℕ, ◌+◌, Bool, true, false, [], ◌∷◌, if◌then◌else◌}
use open_chat.Text.{codes}
use open_chat.Platform.{
  Log, Call, icc_win95_classes, init_common_controls, init_rich_edit, base_init_instance,
  socket_init, enable_control_container, new_shell_manager, delete_shell_manager, set_registry_key,
}

-- Up to AfxSocketInit.
unfoldable pub begin_instance : Log → Log
begin_instance h =
    socket_init ∷ base_init_instance ∷ init_rich_edit ∷ init_common_controls icc_win95_classes ∷ h

-- From AfxEnableControlContainer to SetRegistryKey.
unfoldable pub prepare_dialog : Log → Log
prepare_dialog h =
    set_registry_key (codes "应用程序向导生成的本地应用程序") ∷ new_shell_manager ∷ enable_control_container ∷ h

-- How many calls in a history pass a test.
unfoldable pub count_calls : (Call → Bool) → Log → ℕ
count_calls p [] = 0
count_calls p (c ∷ h) = (if p c then 1 else 0) + count_calls p h

abbrev pub is_new : Call → Bool
is_new new_shell_manager = true
is_new c = false

abbrev pub is_delete : Call → Bool
is_delete delete_shell_manager = true
is_delete c = false
