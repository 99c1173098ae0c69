-- ===== src/RtmpServer/Handling.antt =====
-- What the server does with a message: `rtmp_command_handle`, `rtmp_message_parse` and the loop of
-- `rtmp_connection_handle` of src/modules/rtmp_server/rtmp_server.c.
pub mod Publishing
pub mod Returns
use mathlib.Core.Option
use strero.Prelude.{
  ℕ, zero, suc, ◌+◌, Bool, true, false, not, ◌&&◌, Option, none, some, List, [], ◌∷◌, leb, ◌==◌,
  if◌then◌else◌, length, take, Bytes, codes, c_string, str_eq,
}
use strero.RtmpServer.{
  ConnectionState, connected, ChunkHeader, Message, Connection, Wire, read_be32,
}
use strero.RtmpServer.Socket.{Outcome, done}
use strero.RtmpServer.Chunks.{ChunkRead, stopped, complete, partial, rtmp_chunk_read}
use strero.RtmpServer.Amf.{
  Value, number, boolean, text, null, undefined, object, Properties, end, property,
}
use strero.RtmpServer.Commands.{Command, text_of, rtmp_command_parse}
use strero.RtmpServer.Sending.{
  Sent, rtmp_send_connect_result, rtmp_send_create_stream_result, rtmp_send_publish_status,
  rtmp_send_play_status,
}

-- strncpy into an array of 256 bytes.
unfoldable pub copy_256 : Bytes → Bytes
copy_256 s = take 255 s

-- The first property "app" that is a string.
unfoldable pub app_property : Properties → Option Bytes
app_property end = none
app_property (property name value later) =
    let rest = app_property later in
    elim (str_eq (c_string name) (codes "app")) [
      | true ↦ elim (text_of value) [ none ↦ rest | some app ↦ some app ]
      | false ↦ rest
    ]

unfoldable pub app_of : Value → Option Bytes
app_of (object ps) = app_property ps
app_of (number n) = none
app_of (boolean b) = none
app_of (text s) = none
app_of null = none
app_of undefined = none

unfoldable pub first_text : List Value → Option Bytes
first_text [] = none
first_text (value ∷ _) = text_of value

unfoldable pub enter_app : Option Bytes → Connection → Connection
enter_app none conn = record conn { state = connected }
enter_app (some app) conn = record conn { state = connected; app_name = copy_256 app }

-- The double 1.0
abbrev one : ℕ
one = 4607182418800017408

abbrev pub Handled : Type 0 → Type 0
Handled W = Option (Connection × (Outcome (Unit {0}) × W))

unfoldable pub reply : {W : Type 0} → Connection → Sent W → Handled W
reply conn sent = Option.map (λ o. (conn, o)) sent

unfoldable pub handle_publish : {W : Type 0} → Wire W → Connection → Option Bytes → W → Handled W
handle_publish wire conn none w = reply conn (
    rtmp_send_publish_status wire conn (codes "NetStream.Publish.Failed")
      (codes "Invalid stream name") w)
handle_publish wire conn (some key) w =
    reply (record conn { stream_key = copy_256 key; publishing = true })
      (rtmp_send_publish_status wire conn (codes "NetStream.Publish.Start")
        (codes "Publishing stream") w)

unfoldable pub handle_play : {W : Type 0} → Wire W → Connection → Option Bytes → W → Handled W
handle_play wire conn none w = reply conn (
    rtmp_send_play_status wire conn (codes "NetStream.Play.Failed") (codes "Invalid stream name") w)
handle_play wire conn (some key) w =
    reply (record conn { stream_key = copy_256 key })
      (rtmp_send_play_status wire conn (codes "NetStream.Play.StreamNotFound")
        (codes "Stream not found") w)

unfoldable pub rtmp_command_handle : {W : Type 0} → Wire W → Connection → Command → W → Handled W
rtmp_command_handle wire conn command w =
    if str_eq command.command_name (codes "connect")
    then reply (enter_app (app_of command.command_object) conn)
        (rtmp_send_connect_result wire conn command.transaction_id true w)
    else if str_eq command.command_name (codes "createStream")
    then reply conn (rtmp_send_create_stream_result wire conn command.transaction_id one w)
    else if str_eq command.command_name (codes "publish")
    then handle_publish wire conn (first_text command.arguments) w
    else if str_eq command.command_name (codes "play")
    then handle_play wire conn (first_text command.arguments) w
    else if str_eq command.command_name (codes "deleteStream")
    then some (record conn { publishing = false; stream_key = [] }, (done tt, w))
    else if str_eq command.command_name (codes "close")
    then some (record conn { thread_running = false }, (done tt, w))
    else some (conn, (done tt, w))

unfoldable pub handle_parsed :
    {W : Type 0} → Wire W → Connection → Option Command → W → Option (Connection × W)
handle_parsed wire conn none w = some (conn, w)
handle_parsed wire conn (some command) w =
    Option.map (λ r. (r.0, r.1.1)) (rtmp_command_handle wire conn command w)

-- It returns 0 for every message; the result of a command is dropped.
unfoldable pub rtmp_message_parse :
    {W : Type 0} → Wire W → Connection → Message → W → Option (Connection × W)
rtmp_message_parse wire conn m w =
    if m.header.message_type_id == 1 && leb 4 m.header.message_length
    then some (record conn { chunk_size_in = read_be32 m.payload 0 }, w)
    else if m.header.message_type_id == 5 && leb 4 m.header.message_length
    then some (record conn { window_ack_size = read_be32 m.payload 0 }, w)
    else if m.header.message_type_id == 20
    then handle_parsed wire conn (rtmp_command_parse m.payload) w
    else some (conn, w)
