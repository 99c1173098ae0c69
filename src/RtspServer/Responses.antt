-- ===== src/RtspServer/Responses.antt =====
-- What src/modules/rtsp/rtsp_server.c writes: `send_rtsp_response` and `generate_sdp`.
use strero.Prelude.{
  ◌≡◌, refl, ap, ◌∙◌, Option, none, some, [], ◌∷◌, ◌++◌, length, Bytes, codes, find_str, has_prefix,
  ℤ, pos,
}
use strero.Auth.Basic.{crlf}
use strero.RtspServer.Text.{skip_spaces, scan_int, decimal, show_int}
use strero.RtspServer.Text.Decimal.{scan_int-show_int}
use strero.RtspServer.Messages.{cseq_of}

-- The status codes that the server answers with, and their texts.
pub data Status : Type 0 where
  status_ok : Status
  status_bad_request : Status
  status_unauthorized : Status
  status_not_found : Status
  status_method_not_allowed : Status
  status_internal_error : Status

unfoldable pub status_line : Status → Bytes
status_line status_ok = codes "200 OK"
status_line status_bad_request = codes "400 Bad Request"
status_line status_unauthorized = codes "401 Unauthorized"
status_line status_not_found = codes "404 Not Found"
status_line status_method_not_allowed = codes "405 Method Not Allowed"
status_line status_internal_error = codes "500 Internal Server Error"

pub record Response : Type 0 where
  pub status : Status
  pub cseq : ℤ
  pub session_id : Bytes
  pub headers : Bytes
  pub body : Option Bytes

unfoldable pub session_header : Bytes → Bytes
session_header [] = []
session_header (c ∷ id) = codes "Session: " ++ ((c ∷ id) ++ crlf)

unfoldable pub response_end : Option Bytes → Bytes
response_end none = crlf
response_end (some body) =
    codes "Content-Type: application/sdp"
    ++ (crlf ++ (codes "Content-Length: " ++ (decimal (length body) ++ (crlf ++ (crlf ++ body)))))

-- What `send_rtsp_response` hands to the connection.
unfoldable pub response_bytes : Response → Bytes
response_bytes response =
    (codes "RTSP/1.0 " ++ (status_line response.status ++ (crlf ++ codes "CSeq:")))
    ++ (32
        ∷ (show_int response.cseq
            ++ (crlf
                ++ (codes "Server: Thingino RTSP Server"
                    ++ (crlf
                        ++ (session_header response.session_id
                            ++ (response.headers ++ response_end response.body)))))))

number_or_zero : Option (ℤ × Bytes) → ℤ
number_or_zero none = pos 0
number_or_zero (some (n, _)) = n

-- The first "CSeq:" of a response is the header's.
cseq_of-header :
    (status : Status) (rest : Bytes)
    → cseq_of ((codes "RTSP/1.0 " ++ (status_line status ++ (crlf ++ codes "CSeq:"))) ++ rest)
      ≡ number_or_zero (scan_int rest)
unfolding cseq_of status_line find_str has_prefix number_or_zero
cseq_of-header status_ok rest = refl
cseq_of-header status_bad_request rest = refl
cseq_of-header status_unauthorized rest = refl
cseq_of-header status_not_found rest = refl
cseq_of-header status_method_not_allowed rest = refl
cseq_of-header status_internal_error rest = refl

scan_int-space : (s : Bytes) → scan_int (32 ∷ s) ≡ scan_int s
unfolding scan_int skip_spaces
scan_int-space s = refl

-- Every response carries the client's CSeq: what `parse_rtsp_request` reads behind the first
-- "CSeq:" of the text is the number that was printed, whatever the status, the session, the
-- headers and the body are.
pub cseq_of-response_bytes :
    (response : Response) → cseq_of (response_bytes response) ≡ response.cseq
unfolding response_bytes number_or_zero
cseq_of-response_bytes response =
    cseq_of-header response.status _
    ∙ ap number_or_zero (scan_int-space _ ∙ scan_int-show_int response.cseq _ refl)
