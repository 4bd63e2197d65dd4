-- ===== src/Ws/Http.antt =====
-- The HTTP side of the server: `get_header`, `get_request_path`, `read_http_request`,
-- `send_http_response` and the two documents.
use quick_js_debugger.Prelude.{
  ℕ, zero, suc, ◌+◌, ◌-◌, [], ◌∷◌, ◌++◌, Option, none, some, Bool, true, false, leb, ◌==◌, ◌&&◌,
  if◌then◌else◌, length, take, drop,
}
use quick_js_debugger.Prelude.Int.{ℤ}
use quick_js_debugger.Text.Bytes.{Bytes, codes, equal, to_lower}
use quick_js_debugger.Text.Search.{find?, find_from?, find_first?, substr}
use quick_js_debugger.Text.Decimal.{nat_to_string, to_string}
use quick_js_debugger.Ws.Frames.{Socket, byte_at}
pub mod Reading
pub mod Headers

abbrev pub crlf : Bytes
crlf = 13 ∷ 10 ∷ []

-- `while (pos < request.size() && request[pos] == ' ') pos++`.
unfoldable pub skip_blanks : Bytes → Bytes
skip_blanks [] = []
skip_blanks (c ∷ s) = let rest = skip_blanks s in if c == b' ' then rest else c ∷ s

-- Up to the end of the line.
unfoldable pub line_front : Bytes → Bytes
line_front s = elim (find? crlf s) [ none ↦ s | some end ↦ take end s ]

-- The value behind the first place where the name stands with a colon, in any case of letters.
unfoldable pub get_header : Bytes → Bytes → Bytes
unfolding skip_blanks line_front
get_header request name = elim (find? (to_lower name ++ (b':' ∷ [])) (to_lower request)) [
  | none ↦ []
  | some at ↦ line_front (skip_blanks (drop (at + length name + 1) request))
]

-- What stands between the first two blanks.
unfoldable pub get_request_path : Bytes → Bytes
get_request_path request = elim (find? (b' ' ∷ []) request) [
  | none ↦ codes "/"
  | some blank ↦ elim (find_from? (b' ' ∷ []) request (suc blank)) [
    | none ↦ codes "/"
    | some end ↦ substr request (suc blank) (end - suc blank)
  ]
]

-- The last four bytes of a request are an empty line.
unfoldable pub ends_head : Bytes → Bool
ends_head request =
    leb 4 (length request) && equal (drop (length request - 4) request) (crlf ++ crlf)

module _ {S : Type 0} (sock : Socket S) where
  -- The loop of `read_http_request`, with the bytes that it may still read, and those it has read.
  unfoldable pub read_request : ℕ → S → Bytes → Bytes × S
  unfolding ends_head
  read_request zero s request = ([], s)
  read_request (suc left) s request = elim (sock.recv s 1) [
    | none ↦ ([], s)
    | some (buf, s') ↦
        let longer = request ++ (byte_at 0 buf ∷ []) in
        elim (ends_head longer) [ true ↦ (longer, s') | false ↦ read_request left s' longer ]
  ]

  unfoldable pub read_http_request : S → Bytes × S
  unfolding read_request
  read_http_request s = read_request 8192 s []

-- `s.c_str()` as `%s` prints it: up to the first zero.
unfoldable pub c_str : Bytes → Bytes
c_str s = elim (find_first? (λ c. c == 0) s) [ none ↦ s | some end ↦ take end s ]

-- What `send_http_response` sends, its header cut to its buffer of 512 bytes.
unfoldable pub http_response : ℕ → Bytes → Bytes → Bytes → Bytes
unfolding c_str
http_response code status content_type body =
    let header =
      codes "HTTP/1.1 "
      ++ (nat_to_string code
          ++ (b' '
              ∷ (c_str status
                  ++ (crlf
                      ++ (codes "Content-Type: "
                          ++ (c_str content_type
                              ++ (codes "; charset=UTF-8"
                                  ++ (crlf
                                      ++ (codes "Content-Length: "
                                          ++ (nat_to_string (length body)
                                              ++ (crlf
                                                  ++ (codes "Connection: close"
                                                      ++ (crlf ++ crlf))))))))))))) in
    take 511 header ++ body

unfoldable pub version_document : Bytes
version_document = codes "{\"Browser\":\"QuickJS-Debug/1.0\",\"Protocol-Version\":\"1.3\"}"

-- The list of targets, cut to its buffer of 2048 bytes.
unfoldable pub targets_document : ℤ → Bytes → Bytes → Bytes
unfolding c_str
targets_document port target_name target_url =
    let written =
      codes
        "[{\"description\":\"QuickJS instance\",\"devtoolsFrontendUrl\":\"devtools://devtools/bundled/js_app.html?experiments=true&v8only=true&ws=127.0.0.1:"
      ++ (to_string port
          ++ (codes "/debug\",\"id\":\"main\",\"title\":\""
              ++ (c_str target_name
                  ++ (codes "\",\"type\":\"node\",\"url\":\""
                      ++ (c_str target_url
                          ++ (codes "\",\"webSocketDebuggerUrl\":\"ws://127.0.0.1:"
                              ++ (to_string port ++ codes "/debug\"}]"))))))) in
    take 2047 written
