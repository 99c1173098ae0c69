-- ===== src/RtmpServer/Handling/Returns.antt =====
-- Every message is handled: `rtmp_message_parse` of src/modules/rtmp_server/rtmp_server.c returns.
use mathlib.Core.Option
use strero.Prelude.{
  ℕ, ◌<◌, ◌≡◌, refl, ap, Bool, true, false, ◌&&◌, Option, none, some, leb, ◌==◌, if◌then◌else◌,
  length, Bytes, codes, str_eq, ℤ, arith,
}
use strero.RtmpServer.{ChunkHeader, Message, Connection, Wire}
use strero.RtmpServer.Socket.{Outcome, done}
use strero.RtmpServer.Socket.Streams.{Streams}
use strero.RtmpServer.Chunks.Writing.{rtmp_chunk_write}
use strero.RtmpServer.Chunks.Writing.Reference.{rtmp_chunk_write_lem}
use strero.RtmpServer.Amf.{amf_encode_string}
use strero.RtmpServer.Commands.{Command}
use strero.RtmpServer.Sending.{
  Sent, connect_payload, create_stream_payload, status_payload, rtmp_send_connect_result,
  rtmp_send_create_stream_result, rtmp_send_publish_status, rtmp_send_play_status,
}
use strero.RtmpServer.Handling.{
  enter_app, Handled, reply, handle_publish, handle_play, rtmp_command_handle, handle_parsed,
  rtmp_message_parse,
}

module _ {W : Type 0} {wire : Wire W} {fd : ℤ} (s : Streams wire fd) where
  -- A send that returns, and takes nothing from the stream.
  abbrev Sends : W → Sent W → Type 0
  Sends w sent = (w' : W) × (sent ≡ some (done tt, w')) × (s.pending w' ≡ s.pending w)

  -- The socket and the chunk size that the replies go by.
  abbrev pub IsOpen : Connection → Type 0
  IsOpen conn = (conn.socket_fd ≡ fd) × (0 < conn.chunk_size_out)

  abbrev Answers : W → Handled W → Type 0
  Answers w handled =
      (conn' : Connection) × (o : Outcome (Unit {0}) × W) × (handled ≡ some (conn', o))
      × IsOpen conn'
      × (s.pending o.1 ≡ s.pending w)

  Sends-write :
      (conn : Connection) (h : ChunkHeader) (payload : Bytes) (w : W)
      → IsOpen conn
      → 0 < h.message_length
      → length payload ≡ h.message_length
      → Sends w (rtmp_chunk_write wire conn h (some payload) w)
  Sends-write conn h payload w is_open len whole =
      let (w', ran, kept, _) =
        rtmp_chunk_write_lem s conn h payload w is_open.0 is_open.1 len whole in
      (w', ran, kept)

  Sends-connect :
      (conn : Connection) (id : ℕ) (w : W)
      → IsOpen conn
      → Sends w (rtmp_send_connect_result wire conn id true w)
  unfolding rtmp_send_connect_result connect_payload amf_encode_string
  Sends-connect conn id w is_open = Sends-write conn _ _ w is_open (omega arith) refl

  Sends-create :
      (conn : Connection) (id stream : ℕ) (w : W)
      → IsOpen conn
      → Sends w (rtmp_send_create_stream_result wire conn id stream w)
  unfolding rtmp_send_create_stream_result create_stream_payload amf_encode_string
  Sends-create conn id stream w is_open = Sends-write conn _ _ w is_open (omega arith) refl

  Sends-status :
      (conn : Connection) (code description : Bytes) (w : W)
      → IsOpen conn
      → Sends w (rtmp_send_publish_status wire conn code description w)
  unfolding rtmp_send_publish_status status_payload amf_encode_string
  Sends-status conn code description w is_open = Sends-write conn _ _ w is_open (omega arith) refl

  Answers-reply :
      (conn : Connection) (sent : Sent W) (w : W)
      → IsOpen conn
      → Sends w sent
      → Answers w (reply conn sent)
  unfolding reply
  Answers-reply conn sent w is_open (w', ran, kept) =
      (conn, (done tt, w'), ap (Option.map (λ o. (conn, o))) ran, is_open, kept)

  Answers-if :
      (w : W) (test : Bool) (x y : Handled W)
      → Answers w x
      → Answers w y
      → Answers w (if test then x else y)
  Answers-if w true x y yes_case no_case = yes_case
  Answers-if w false x y yes_case no_case = no_case

  Answers-publish :
      (conn : Connection) (key : Option Bytes) (w : W)
      → IsOpen conn
      → Answers w (handle_publish wire conn key w)
  unfolding handle_publish
  Answers-publish conn none w is_open =
      Answers-reply conn _ w is_open (Sends-status conn _ _ w is_open)
  Answers-publish conn (some key) w is_open =
      Answers-reply _ _ w is_open (Sends-status conn _ _ w is_open)

  Answers-play :
      (conn : Connection) (key : Option Bytes) (w : W)
      → IsOpen conn
      → Answers w (handle_play wire conn key w)
  unfolding handle_play rtmp_send_play_status
  Answers-play conn none w is_open =
      Answers-reply conn _ w is_open (Sends-status conn _ _ w is_open)
  Answers-play conn (some key) w is_open =
      Answers-reply _ _ w is_open (Sends-status conn _ _ w is_open)

  enter_app-IsOpen :
      (app : Option Bytes) (conn : Connection) → IsOpen conn → IsOpen (enter_app app conn)
  unfolding enter_app
  enter_app-IsOpen none conn is_open = is_open
  enter_app-IsOpen (some app) conn is_open = is_open

  Answers-command :
      (conn : Connection) (command : Command) (w : W)
      → IsOpen conn
      → Answers w (rtmp_command_handle wire conn command w)
  unfolding rtmp_command_handle
  Answers-command conn command w is_open =
      Answers-if w (str_eq command.command_name (codes "connect")) _ _
        (Answers-reply _ _ w (enter_app-IsOpen _ conn is_open) (Sends-connect conn _ w is_open))
        (Answers-if w (str_eq command.command_name (codes "createStream")) _ _
          (Answers-reply conn _ w is_open (Sends-create conn _ _ w is_open))
          (Answers-if w (str_eq command.command_name (codes "publish")) _ _
            (Answers-publish conn _ w is_open)
            (Answers-if w (str_eq command.command_name (codes "play")) _ _
              (Answers-play conn _ w is_open)
              (Answers-if w (str_eq command.command_name (codes "deleteStream")) _ _
                (_, _, refl, is_open, refl)
                (Answers-if w (str_eq command.command_name (codes "close")) _ _
                  (_, _, refl, is_open, refl) (conn, _, refl, is_open, refl))))))

  abbrev Handles : W → Option (Connection × W) → Type 0
  Handles w result =
      (conn' : Connection) × (w' : W) × (result ≡ some (conn', w'))
      × IsOpen conn'
      × (s.pending w' ≡ s.pending w)

  Handles-if :
      (w : W) (test : Bool) (x y : Option (Connection × W))
      → Handles w x
      → Handles w y
      → Handles w (if test then x else y)
  Handles-if w true x y yes_case no_case = yes_case
  Handles-if w false x y yes_case no_case = no_case

  Handles-parsed :
      (conn : Connection) (parsed : Option Command) (w : W)
      → IsOpen conn
      → Handles w (handle_parsed wire conn parsed w)
  unfolding handle_parsed
  Handles-parsed conn none w is_open = (conn, w, refl, is_open, refl)
  Handles-parsed conn (some command) w is_open =
      let (conn', o, ran, still, kept) = Answers-command conn command w is_open in
      (conn', o.1, ap (Option.map _) ran, still, kept)

  -- On an open socket and with a chunk size other than 0, `rtmp_message_parse` returns for every
  -- message, whatever its type and payload are; it takes nothing from the stream, and leaves the
  -- socket and a chunk size other than 0, so that the next message is handled too.
  pub rtmp_message_parse_returns :
      (conn : Connection) (m : Message) (w : W)
      → conn.socket_fd ≡ fd
      → 0 < conn.chunk_size_out
      → (conn' : Connection) × (w' : W) × (rtmp_message_parse wire conn m w ≡ some (conn', w'))
        × IsOpen conn'
        × (s.pending w' ≡ s.pending w)
  unfolding rtmp_message_parse
  rtmp_message_parse_returns conn m w fd_ok size =
      let is_open : IsOpen conn = (fd_ok, size) in
      Handles-if w (m.header.message_type_id == 1 && leb 4 m.header.message_length) _ _
        (_, w, refl, is_open, refl)
        (Handles-if w (m.header.message_type_id == 5 && leb 4 m.header.message_length) _ _
          (_, w, refl, is_open, refl)
          (Handles-if w (m.header.message_type_id == 20) _ _ (Handles-parsed conn _ w is_open)
            (conn, w, refl, is_open, refl)))
