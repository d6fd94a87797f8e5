-- ===== src/Server/Threads/Buffer.antt =====
-- The zeroed arrays that ClientFunc hands to `recv` (winSockServer/src/TcpServer.cpp and
-- winSockServer/src/TcpClient.cpp).
use open_chat.Base.{
  ℕ, ◌-◌, ◌<◌, ◌≡◌, List, ◌++◌, length, replicate, drop-replicate, true, arith, pos, ltb,
}
use open_chat.Platform.{Received}
use open_chat.Server.Threads.{received_in}

-- What `recv` reports of a message that has arrived.
abbrev pub message : List ℕ → Received
message t = record { count = pos (length t); bytes = t }

pub received_in-message :
    (size : ℕ) (t : List ℕ)
    → 0 < length t
    → received_in size (message t) ≡ t ++ replicate (size - length t) 0
received_in-message size t h =
    let e : ltb 0 (length t) ≡ true = ground arith in
    rw (e, drop-replicate {A = ℕ} (length t) size 0)
