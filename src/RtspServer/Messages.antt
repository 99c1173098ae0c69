-- ===== src/RtspServer/Messages.antt =====
-- The texts of src/modules/rtsp/rtsp_server.c: the request line and the headers that are read, the
-- response, and the stream that a URL names.
--
-- Every message fits its buffer (4096 bytes for a response, 2048 for a session description), so
-- `snprintf` cuts nothing off.
use strero.Prelude.{
  ℕ, zero, suc, Bool, true, false, ◌||◌, Option, none, some, List, [], ◌∷◌, ◌==◌, if◌then◌else◌,
  drop, Bytes, codes, str_eq, find_str, has_prefix, ℤ, pos,
}
use mathlib.Core.Option
use strero.RtspServer.{
  RtspMethod, method_unknown, method_options, method_describe, method_setup, method_play,
  method_pause, method_teardown, Stream,
}
use strero.RtspServer.Text.{skip_spaces, scan_word, scan_int, scan_text, scan_past}

pub record Request : Type 0 where
  pub method : RtspMethod
  pub url : Bytes
  pub cseq : ℤ

unfoldable pub method_of : Bytes → RtspMethod
method_of name =
    if str_eq name (codes "OPTIONS")
    then method_options
    else if str_eq name (codes "DESCRIBE")
    then method_describe
    else if str_eq name (codes "SETUP")
    then method_setup
    else if str_eq name (codes "PLAY")
    then method_play
    else if str_eq name (codes "PAUSE")
    then method_pause
    else if str_eq name (codes "TEARDOWN")
    then method_teardown
    else method_unknown

-- The number behind the first "CSeq:", or 0.
unfoldable pub cseq_of : Bytes → ℤ
cseq_of request = elim (find_str (codes "CSeq:") request) [
  | none ↦ pos 0
  | some (_, line) ↦ elim (scan_int (drop 5 line)) [ none ↦ pos 0 | some (n, _) ↦ n ]
]

-- `none` is -1.
unfoldable pub parse_rtsp_request : Bytes → Option Request
parse_rtsp_request request = elim (scan_word 31 request) [
  | none ↦ none
  | some (name, rest) ↦ elim (scan_word 255 rest) [
    | none ↦ none
    | some (url, _) ↦
        if has_prefix (codes "RTSP/") name
        then none
        else some (record { method = method_of name; url = url; cseq = cseq_of request })
  ]
]

-- sscanf(url, prefix "%s", stream_name), where the URL is at most 255 characters long.
unfoldable pub scan_name : Bytes → Option Bytes
scan_name rest = Option.map (λ r. r.0) (scan_word 255 rest)

unfoldable pub name_behind_host : Bytes → Bytes → Option Bytes
name_behind_host scheme url = elim (scan_text scheme url) [
  | none ↦ none
  | some rest ↦ elim (scan_past b'/' rest) [ none ↦ none | some path ↦ scan_name path ]
]

unfoldable pub name_without_host : Bytes → Option Bytes
name_without_host url = elim (scan_text (codes "/") url) [
  | none ↦ none
  | some path ↦ scan_name path
]

unfoldable pub first_stream_name : List Stream → Option Bytes
first_stream_name [] = none
first_stream_name (stream ∷ _) = some stream.stream_name

-- `none` is -1.
unfoldable pub extract_stream_name_from_url : List Stream → Bytes → Option Bytes
extract_stream_name_from_url streams url = elim (name_behind_host (codes "rtsp://") url) [
  | some name ↦ some name
  | none ↦ elim (name_behind_host (codes "rtsps://") url) [
    | some name ↦ some name
    | none ↦ elim (name_without_host url) [
      | some name ↦ some name
      | none ↦ first_stream_name streams
    ]
  ]
]

unfoldable pub find_stream : Bytes → List Stream → Option Stream
find_stream name [] = none
find_stream name (stream ∷ streams) =
    let rest = find_stream name streams in
    if str_eq name stream.stream_name then some stream else rest

-- The track that a suffix of the stream's name stands for, the name without it, and whether it is
-- a backchannel.
unfoldable pub split_track : Bytes → ℤ × Bytes × Bool
split_track name = elim (find_str (codes "/G711_audiobackchannel") name) [
  | some (stream, _) ↦ (pos 3, stream, true)
  | none ↦ elim (find_str (codes "/G726_audiobackchannel") name) [
    | some (stream, _) ↦ (pos 4, stream, true)
    | none ↦ elim (find_str (codes "/audio") name) [
      | some (stream, _) ↦ (pos 2, stream, false)
      | none ↦ numbered_track name
    ]
  ]
]
  where
    numbered_track : Bytes → ℤ × Bytes × Bool
    numbered_track name = elim (find_str (codes "/track1") name) [
      | some (stream, _) ↦ (pos 1, stream, false)
      | none ↦ elim (find_str (codes "/track2") name) [
        | some (stream, _) ↦ (pos 2, stream, false)
        | none ↦ elim (find_str (codes "/trackID=") name) [
          | some (stream, suffix) ↦
              (elim (scan_int (drop 9 suffix)) [ none ↦ pos 0 | some (n, _) ↦ n ], stream, false)
          | none ↦ (pos 0, name, false)
        ]
      ]
    ]

-- The characters up to the end of a line, at most `n` of them.
unfoldable pub line : ℕ → Bytes → Bytes
line zero s = []
line (suc n) [] = []
line (suc n) (c ∷ s) = let rest = line n s in if c == 13 || c == 10 then [] else c ∷ rest

-- The value of the first "Transport:", or the empty string.
unfoldable pub transport_of : Bytes → Bytes
transport_of request = elim (find_str (codes "Transport:") request) [
  | none ↦ []
  | some (_, found) ↦ line 255 (skip_spaces (drop 10 found))
]

-- sscanf(transport, "%*[^;];%*[^;];" name "%d-%d", ...), if both numbers are there.
unfoldable pub port_pair : Bytes → Bytes → Option (ℤ × ℤ)
port_pair name transport = Option.bind (scan_past b';' transport) (λ first.
    Option.bind (scan_past b';' first) (λ second. Option.bind (scan_text name second) (λ numbers.
      Option.bind (scan_int numbers) (λ low.
        Option.bind (scan_text (codes "-") low.1)
          (λ more. Option.map (λ high. (low.0, high.0)) (scan_int more))))))
