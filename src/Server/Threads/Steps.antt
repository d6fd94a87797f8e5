-- ===== src/Server/Threads/Steps.antt =====
-- A turn of SelectFunc cut into the calls that it makes (winSockServer/src/TcpServer.cpp), so that
-- other threads can run between any two of them.
pub mod Whole
pub mod Races
mod Tests
use open_chat.Base.{
  ℕ, zero, suc, ◌+◌, ◌-◌, ◌%◌, ◌^◌, List, [], ◌∷◌, Option, none, some, get_elem?, modify, ◌==◌,
  if◌then◌else◌, and_then,
}
use open_chat.Platform.{Winsock, Log, SockAddr, read, accept}
use open_chat.Platform.ListCtrl.{ListCtrl}
use open_chat.Server.State.{App, with_log, with_server}
use open_chat.Server.Tcp.{select_socket, add_client, client_num, get_client}
use open_chat.Server.ClientView.{insert_client, notify_ui}
use open_chat.Server.Threads.{Turn, goes_on, ends, fault, spawn_thread, login_message}

-- The call that a thread of SelectFunc makes next: IsRun, Select, accept, InsertClient, NotifyUi,
-- AddClient, ClientNum, GetClient with the start of the thread; or none, since it has returned.
pub data Place : Type 0 where
  at_head selecting accepting : Place
  inserting notifying adding : SockAddr → (sock : ℕ) → Place
  counting : Place
  getting : (index : ℕ) → Place
  returned : Place

module _ (os : Winsock) {lc : ListCtrl} where
  open os use {invalid_socket, accept_ret}

  after_spawn : Turn (App lc) → Option (Place × App lc)
  after_spawn (goes_on a) = some (at_head, a)
  after_spawn (ends a) = some (returned, a)
  after_spawn fault = none

  -- One call of SelectFunc; `none` is an exception.
  unfoldable pub advance : Place → App lc → Option (Place × App lc)
  unfolding after_spawn
  advance at_head a = some (if a.server.run then selecting else returned, a)
  advance selecting a =
      let (ready, h) = select_socket os a.server.lis_sock 100 read a.log in
      some (if ready then accepting else at_head, with_log a h)
  advance accepting a =
      let r = accept_ret a.log a.server.lis_sock in
      let next = if r.sock == invalid_socket then at_head else inserting r.addr r.sock in
      some (next, with_log a (accept a.server.lis_sock ∷ a.log))
  advance (inserting addr sock) a = some (notifying addr sock, insert_client os lc addr sock a)
  advance (notifying addr sock) a =
      some (adding addr sock, notify_ui os lc (login_message os addr) a)
  advance (adding addr sock) a = some (counting, with_server a (add_client os addr sock a.server))
  advance counting a = some (getting ((client_num a.server + 2 ^ 32 - 1) % 2 ^ 32), a)
  advance (getting i) a = after_spawn (spawn_thread os a (get_client a.server i))
  advance returned a = some (returned, a)

  -- So many calls of one thread with nothing in between.
  unfoldable pub advances : ℕ → Place × App lc → Option (Place × App lc)
  advances zero s = some s
  advances (suc n) s = and_then (advance s.0 s.1) (advances n)

  put_place : List Place → ℕ → Place × App lc → List Place × App lc
  put_place ps i s = (modify ps i (λ _. s.0), s.1)

  -- A call of the thread at index `i` of those in SelectFunc.
  thread_step : ℕ → Option Place → List Place × App lc → Option (List Place × App lc)
  thread_step i none s = some s
  thread_step i (some p) s =
      and_then (advance p s.1) (λ (t : Place × App lc). some (put_place s.0 i t))

  -- Calls of several threads in SelectFunc, in the order of the schedule.
  unfoldable pub interleave : List ℕ → List Place × App lc → Option (List Place × App lc)
  unfolding thread_step put_place
  interleave [] s = some s
  interleave (i ∷ is) s = and_then (thread_step i (get_elem? s.0 i) s) (interleave is)
