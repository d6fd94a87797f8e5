-- ===== src/Client/Calls/Unused.antt =====
-- Histories without a call on a socket (winSockServer/src/TcpClient.cpp).
use open_chat.Base.{
  ℕ, ◌+◌, ◌≡◌, ◌≢◌, refl, sym, ap, ◌∙◌, Bool, false, not, [], ◌∷◌, ◌++◌, append_assoc, ◌==◌, if_ind,
  arith, if◌then◌else◌, is_positive, ltb,
}
use open_chat.Platform.{
  Winsock, Log, Call, Mode, select, accept, bind, listen, recv, send, closesocket, shutdown_both,
  connect, getsockname, getpeername,
}
use open_chat.Startup.{count_calls}
use open_chat.Client.Tcp.{ClientApp, select_socket}

-- The call is one on this socket.
abbrev pub uses : ℕ → Call → Bool
uses x (bind sock addr) = sock == x
uses x (listen sock backlog) = sock == x
uses x (select mode sock timeout) = sock == x
uses x (accept sock) = sock == x
uses x (recv sock size) = sock == x
uses x (send sock bytes) = sock == x
uses x (closesocket sock) = sock == x
uses x (shutdown_both sock) = sock == x
uses x (connect sock addr) = sock == x
uses x (getsockname sock) = sock == x
uses x (getpeername sock) = sock == x
uses x c = false

pub count_calls-append :
    (p : Call → Bool) (g h : Log) → count_calls p (g ++ h) ≡ count_calls p g + count_calls p h
unfolding count_calls
count_calls-append p [] h = omega arith
count_calls-append p (c ∷ g) h = omega (arith, count_calls-append p g h)

pub select_socket-log :
    (os : Winsock) (sock timeout : ℕ) (mode : Mode) (h : Log)
    → (select_socket os sock timeout mode h).1
      ≡ select mode sock (if ltb 1000 timeout then 1000 else timeout) ∷ h
unfolding select_socket
select_socket-log os sock timeout mode h =
    let answer = os.select_ret h mode sock in
    if_ind
      (λ (r : Bool × Log). r.1 ≡ select mode sock (if ltb 1000 timeout then 1000 else timeout) ∷ h)
      (not (is_positive answer.ret)) (λ _. refl)
      (λ _.
        if_ind
          (λ (r : Bool × Log).
            r.1 ≡ select mode sock (if ltb 1000 timeout then 1000 else timeout) ∷ h)
          answer.is_set (λ _. refl) (λ _. refl))

-- Since a history, no call has used the socket, and the client holds another one.
pub record Abandoned (x : ℕ) (l : Log) (a : ClientApp) : Type 0 where
  pub since : Log
  pub whole : a.log ≡ since ++ l
  pub unused : count_calls (uses x) since ≡ 0
  pub other : a.client.m_socket ≢ x

module _ {x : ℕ} {l : Log} where
  -- After more calls, none of them on the socket.
  pub Abandoned-frame :
      {a b : ClientApp} (new : Log)
      → b.log ≡ new ++ a.log
      → count_calls (uses x) new ≡ 0
      → b.client.m_socket ≡ a.client.m_socket
      → Abandoned x l a
      → Abandoned x l b
  Abandoned-frame {a} {b} new more none_new same k = record {
    since = new ++ k.since;
    whole = more ∙ ap (λ (t : Log). new ++ t) k.whole ∙ sym (append_assoc new k.since l);
    unused = omega (arith, none_new, k.unused, count_calls-append (uses x) new k.since);
    other = λ e. k.other (sym same ∙ e);
  }
