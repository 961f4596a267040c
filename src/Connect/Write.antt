-- ===== src/Connect/Write.antt =====
-- The two write loops: writePump of connect/server.go and writeDataToTcp of connect/server_tcp.go. A
-- loop wakes up for a message, for the closed buffer or for its ticker; each write succeeds.
use yoyichat.Base.{ℕ, ◌≡◌, refl, ◌<◌, some, List, [], ◌∷◌, ◌++◌, map, length, ap, append-nil, inl}
use yoyichat.Base.Bytes.{Bytes, codes}
use yoyichat.Messages.{Msg}
use yoyichat.StickPackage.{pack, new_package, frames}
use yoyichat.StickPackage.Stream.{AllFit, stream, frames-stream}

pub data Wake : Type 0 where
  message : Msg → Wake
  closed : Wake
  tick : Wake

-- a frame of a websocket
pub data Frame : Type 0 where
  text_message : Bytes → Frame
  close_message : Frame
  ping_message : Frame

-- what `writePump` sends until the closed buffer ends it
unfoldable pub write_pump : List Wake → List Frame
write_pump [] = []
write_pump (message m ∷ ws) = text_message m.body ∷ write_pump ws
write_pump (closed ∷ ws) = close_message ∷ []
write_pump (tick ∷ ws) = ping_message ∷ write_pump ws

-- the bytes that `writeDataToTcp` puts on the connection
unfoldable pub write_data_to_tcp : List Wake → Bytes
write_data_to_tcp [] = []
write_data_to_tcp (message m ∷ ws) = pack (new_package m.body) ++ write_data_to_tcp ws
write_data_to_tcp (closed ∷ ws) = []
write_data_to_tcp (tick ∷ ws) = pack (new_package (codes "ping msg")) ++ write_data_to_tcp ws

-- the messages that a client is to get: the bodies, and one fixed text at each tick
abbrev pub sent_bodies : List Wake → List Bytes
sent_bodies [] = []
sent_bodies (message m ∷ ws) = m.body ∷ sent_bodies ws
sent_bodies (closed ∷ ws) = []
sent_bodies (tick ∷ ws) = codes "ping msg" ∷ sent_bodies ws

write_data_to_tcp-stream : (ws : List Wake) → write_data_to_tcp ws ≡ stream (sent_bodies ws)
unfolding write_data_to_tcp
write_data_to_tcp-stream [] = refl
write_data_to_tcp-stream (message m ∷ ws) =
    ap (λ s. pack (new_package m.body) ++ s) (write_data_to_tcp-stream ws)
write_data_to_tcp-stream (closed ∷ ws) = refl
write_data_to_tcp-stream (tick ∷ ws) =
    ap (λ s. pack (new_package (codes "ping msg")) ++ s) (write_data_to_tcp-stream ws)

-- The scanner's split function cuts what the write loop has sent into one frame for each message and
-- each tick before the close, in their order, and leaves nothing over: if every body fits a frame and
-- none is empty, from fuel above their number on.
pub frames-write_data_to_tcp :
    (ws : List Wake) (fuel : ℕ)
    → AllFit (sent_bodies ws)
    → length (sent_bodies ws) < fuel
    → frames fuel (write_data_to_tcp ws)
      ≡ some (map (λ m. pack (new_package m)) (sent_bodies ws), [])
frames-write_data_to_tcp ws fuel fit enough =
    rw (write_data_to_tcp-stream ws, ← append-nil (stream (sent_bodies ws)))
      (frames-stream (sent_bodies ws) [] fuel fit (inl refl) enough)
