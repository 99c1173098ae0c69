-- ===== src/RtspServer/Describe.antt =====
-- The session description of src/modules/rtsp/rtsp_server.c: `generate_sdp`.
--
-- The width, the height and the frame rate of a stream are natural numbers, whose product fits an
-- `int`.
use Prim.Native.String.{String}
use strero.Prelude.{
  ℕ, ◌*◌, ◌/◌, Bool, true, false, Option, none, some, List, [], ◌∷◌, ◌++◌, ltb, if◌then◌else◌,
  Bytes, codes,
}
use strero.Auth.Basic.{crlf}
use strero.RtspServer.{VideoCodec, codec_h264, codec_h265, Stream, Server, payload_type}
use strero.RtspServer.Text.{decimal, show_int}
use strero.RtspServer.Messages.{find_stream}

-- The lines of a text, each with its end of line.
unfoldable pub lines : List Bytes → Bytes
lines [] = []
lines (line ∷ later) = line ++ (crlf ++ lines later)

-- The estimate of the band width, between 1000 and 10000.
unfoldable pub bandwidth : Stream → ℕ
bandwidth stream =
    let estimate = stream.width * stream.height * stream.fps / 1000 in
    if ltb estimate 1000 then 1000 else if ltb 10000 estimate then 10000 else estimate

unfoldable pub codec_lines : VideoCodec → List Bytes
codec_lines codec_h264 =
    codes "a=rtpmap:96 H264/90000"
    ∷ codes "a=fmtp:96 profile-level-id=42e01f;packetization-mode=1"
    ∷ []
codec_lines codec_h265 =
    codes "a=rtpmap:97 H265/90000"
    ∷ codes "a=fmtp:97 profile-space=0;profile-id=1;tier-flag=0;level-id=93"
    ∷ []

unfoldable pub description_lines : Bytes → List Bytes
description_lines [] = []
description_lines (c ∷ info) = (codes "a=x-desc:" ++ (c ∷ info)) ∷ []

-- One audio track: its media line, its band width, its codec, its name and its direction.
unfoldable pub audio_lines :
    Server → Bytes → String → String → String → String → String → List Bytes
audio_lines server stream_name media width rtpmap track direction =
    codes media
    ∷ codes "c=IN IP4 0.0.0.0"
    ∷ codes width
    ∷ codes rtpmap
    ∷ (codes "a=control:rtsp://"
        ++ (server.server_ip
            ++ (codes ":"
                ++ (show_int server.port ++ (codes "/" ++ (stream_name ++ codes track))))))
    ∷ codes direction
    ∷ []

unfoldable pub backchannel_lines : Server → Bytes → Bool → List Bytes
backchannel_lines server stream_name false = []
backchannel_lines server stream_name true =
    audio_lines server stream_name "m=audio 0 RTP/AVP 0" "b=AS:64" "a=rtpmap:0 PCMU/8000" "/audio"
      "a=recvonly"
    ++ (audio_lines server stream_name "m=audio 0 RTP/AVP 0" "b=AS:64" "a=rtpmap:0 PCMU/8000"
          "/G711_audiobackchannel" "a=sendonly"
        ++ audio_lines server stream_name "m=audio 98 RTP/AVP 98" "b=AS:32"
            "a=rtpmap:98 G726-16/8000" "/G726_audiobackchannel" "a=sendonly")

unfoldable pub sdp_of : Server → ℕ → Stream → Bool → Bytes
sdp_of server now stream supports_backchannel = lines (
    (codes "v=0"
      ∷ (codes "o=- "
          ++ (decimal now
              ++ (codes " " ++ (decimal now ++ (codes " IN IP4 " ++ server.server_ip)))))
      ∷ (codes "s=thingino " ++ stream.stream_name)
      ∷ (codes "i=" ++ stream.stream_name)
      ∷ codes "t=0 0"
      ∷ codes "a=tool:Thingino Streamer v1.0"
      ∷ codes "a=type:broadcast"
      ∷ codes "a=control:*"
      ∷ codes "a=range:npt=now-"
      ∷ (codes "a=x-qt-text-nam:thingino " ++ stream.stream_name)
      ∷ (codes "a=x-qt-text-inf:" ++ stream.stream_name)
      ∷ (codes "m=video 0 RTP/AVP " ++ decimal (payload_type stream.codec))
      ∷ codes "c=IN IP4 0.0.0.0"
      ∷ (codes "b=AS:" ++ decimal (bandwidth stream))
      ∷ [])
    ++ (codec_lines stream.codec
        ++ ((codes "a=control:track1" ∷ description_lines stream.stream_info)
            ++ (((codes "a=x-dimensions:"
                    ++ (decimal stream.width ++ (codes "," ++ decimal stream.height)))
                  ∷ (codes "a=framerate:" ++ decimal stream.fps)
                  ∷ [])
                ++ backchannel_lines server stream.stream_name supports_backchannel))))

-- The description of the named stream at a time; `none` is -1.
unfoldable pub generate_sdp : Server → ℕ → Bytes → Bool → Option Bytes
generate_sdp server now stream_name supports_backchannel =
    elim (find_stream stream_name server.streams) [
      | none ↦ none
      | some stream ↦ some (sdp_of server now stream supports_backchannel)
    ]
