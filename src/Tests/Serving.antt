-- ===== src/Tests/Serving.antt =====
-- Clients of the server, each a string of bytes, and what the socket takes.
use mathlib.Core.Path.{subst}
use quick_js_debugger.Prelude.{
  ℕ, ◌≤◌, ◌<◌, ◌≡◌, ◌≢◌, refl, sym, ap, replicate, Bool, true, false, List, [], ◌∷◌, ◌++◌, Option,
  none, some, length, take, arith,
}
use quick_js_debugger.Prelude.Int.{pos}
use quick_js_debugger.Prelude.Ranges.{passes_from}
use quick_js_debugger.Text.Bytes.{Bytes, codes, equal, to_lower}
use quick_js_debugger.Text.Search.{find?, find_from?, starts_with}
use quick_js_debugger.Ws.Frames.{Output, framed, send_ws_frame}
use quick_js_debugger.Ws.Base64.{base64_encode, digit64}
use quick_js_debugger.Ws.Sha1.{compute_ws_accept, sha1_hash, pad, hash_padded}
use quick_js_debugger.Ws.Sending.{Sender, IsSender, IsSent, send_frame, send_frame-IsSent}
use quick_js_debugger.Ws.Sending.Outputs.{
  transmit, AreFronts, transmit-AreFronts, IsUnfailing, all_output, transmit-whole,
}
use quick_js_debugger.Ws.Http.{crlf, ends_head, get_header, get_request_path, read_http_request}
use quick_js_debugger.Ws.Http.Headers.{get_header-field}
use quick_js_debugger.Ws.Http.Reading.{
  IsHead, no_early_end, no_early_end-IsHead, read_http_request-served,
}
use quick_js_debugger.Ws.Server.{
  upgraded, Target, switching_protocols, handshake, wants_websocket, serve_request, serve,
  wait_for_connection,
}
use quick_js_debugger.Ws.Server.Bounds.{serve-ne-none}
use quick_js_debugger.Ws.Server.Clients.{
  nobody, client, AreDismissed, all_responses, wait_for_connection-first,
}
use quick_js_debugger.Tests.Frames.{slow_socket, slow_socket-IsStream}

-- The example of RFC 6455.
compute_ws_accept-nonce :
    compute_ws_accept (codes "dGhlIHNhbXBsZSBub25jZQ==")
    ≡ some (codes "s3pPLMBiTxaQ9kYGzzhZRbK+xOo=")
unfolding compute_ws_accept sha1_hash pad hash_padded base64_encode digit64
compute_ws_accept-nonce = refl

abbrev pub upgrade_request : Bytes
upgrade_request =
    codes "GET /debug HTTP/1.1"
    ++ (crlf
        ++ (codes "upgrade:  WebSocket"
            ++ (crlf ++ (codes "Sec-WebSocket-Key: dGhlIHNhbXBsZSBub25jZQ==" ++ (crlf ++ crlf)))))

abbrev pub version_request : Bytes
version_request = codes "GET /json/version HTTP/1.1" ++ (crlf ++ crlf)

version_request-IsHead : IsHead version_request
unfolding ends_head equal no_early_end passes_from
version_request-IsHead = no_early_end-IsHead version_request refl refl

read_http_request-served_example :
    (s' : Bytes) × (read_http_request slow_socket (version_request ++ codes "x")
      ≡ (version_request, s'))
    × (s' ≡ codes "x")
read_http_request-served_example =
    read_http_request-served slow_socket (λ s. s) slow_socket-IsStream version_request (codes "x")
      (version_request ++ codes "x") refl version_request-IsHead (omega arith)

abbrev request_line : Bytes
request_line = codes "GET /upgrade HTTP/1.1" ++ crlf

name_first :
    find?
      (to_lower (codes "Upgrade") ++ (b':' ∷ []))
      (to_lower request_line ++ (to_lower (codes "Upgrade") ++ (b':' ∷ [])))
    ≡ some (length request_line)
unfolding find? starts_with to_lower
name_first = refl

one_line : find? crlf (codes "WebSocket" ++ crlf) ≡ some (length (codes "WebSocket"))
unfolding find? starts_with
one_line = refl

same_name : to_lower (codes "UPGRADE") ≡ to_lower (codes "Upgrade")
unfolding to_lower
same_name = refl

get_header-field_example :
    get_header
      (request_line
        ++ (codes "UPGRADE"
            ++ (b':' ∷ (replicate 2 b' ' ++ (codes "WebSocket" ++ (crlf ++ crlf))))))
      (codes "Upgrade")
    ≡ codes "WebSocket"
get_header-field_example =
    get_header-field request_line (codes "UPGRADE") (codes "WebSocket") crlf (codes "Upgrade") 2
      same_name name_first refl one_line

-- All bytes are taken.
abbrev pub takes : Bytes → Bytes → Bool
takes s response = true

abbrev pub target : Target
target = record { name = codes "a.js"; url = codes "file:///a.js"; port = pos 9229 }

serve-ne-none_example :
    (length (read_http_request slow_socket upgrade_request).0 ≤ 8192)
    × (serve slow_socket takes target upgrade_request ≢ none)
serve-ne-none_example = serve-ne-none slow_socket takes target upgrade_request

abbrev pub next_client : List Bytes → Option (Bytes × List Bytes)
next_client [] = none
next_client (s ∷ l) = some (s, l)

-- What the upgrade is answered with.
abbrev pub accepted : Bytes
accepted = switching_protocols (codes "s3pPLMBiTxaQ9kYGzzhZRbK+xOo=") []

pub upgrade_request-served :
    serve slow_socket takes target (upgrade_request ++ codes "x")
    ≡ some (upgraded accepted (codes "x"))
unfolding serve serve_request wants_websocket handshake get_header get_request_path
    read_http_request equal find? starts_with find_from? to_lower compute_ws_accept sha1_hash pad
    hash_padded base64_encode digit64
upgrade_request-served = refl

version_request-dismissed : AreDismissed slow_socket takes target (version_request ∷ [])
unfolding serve serve_request wants_websocket get_header get_request_path read_http_request equal
    find? starts_with find_from? to_lower
version_request-dismissed = (refl, tt)

-- A client asks for the version, and the next one connects.
abbrev arriving : List Bytes
arriving = version_request ∷ (upgrade_request ++ codes "x") ∷ []

wait_for_connection-first_example :
    wait_for_connection next_client slow_socket takes target 2 arriving
      (record { connected = false; has_client = false; client_sock = [] })
    ≡ some (record {
      success = true;
      connection = record { connected = true; has_client = true; client_sock = codes "x" };
      listener = [];
      sent = all_responses slow_socket takes target (version_request ∷ []) ++ (accepted ∷ []);
    })
wait_for_connection-first_example =
    wait_for_connection-first next_client slow_socket takes target (version_request ∷ []) arriving
      ((upgrade_request ++ codes "x") ∷ []) [] (upgrade_request ++ codes "x") (codes "x") accepted 2
      (record { connected = false; has_client = false; client_sock = [] }) (client refl nobody)
      version_request-dismissed refl upgrade_request-served (omega arith)

-- A socket that takes two bytes at a time.
abbrev two_at_once : Bytes → Bytes → Option (ℕ × Bytes)
two_at_once s [] = none
two_at_once s (a ∷ []) = some (1, s ++ (a ∷ []))
two_at_once s (a ∷ b ∷ d) = some (2, s ++ (a ∷ b ∷ []))

abbrev from_some : ℕ × Bytes → Option (ℕ × Bytes) → ℕ × Bytes
from_some r none = r
from_some r (some q) = q

abbrev IsTaken : Bytes → Bytes → ℕ × Bytes → Type 0
IsTaken s d (n, s') = (0 < n) × (n ≤ length d) × (s' ≡ s ++ take n d)

abbrev pub pairs : Sender Bytes
pairs = record { send = two_at_once }

pub pairs-IsSender : IsSender pairs (λ s. s)
pairs-IsSender = record { taken = taken }
  where
    taken :
        (s s' d : Bytes) (n : ℕ)
        → two_at_once s d ≡ some (n, s')
        → (0 < n) × (n ≤ length d) × (s' ≡ s ++ take n d)
    taken s s' [] n e = ground arith
    taken s s' (a ∷ []) n e =
        subst (IsTaken s (a ∷ [])) (ap (from_some (0, [])) e) (omega arith, omega arith, refl)
    taken s s' (a ∷ b ∷ d) n e =
        subst (IsTaken s (a ∷ b ∷ d)) (ap (from_some (0, [])) e) (omega arith, omega arith, refl)

send_frame-IsSent_example :
    IsSent []
      (send_ws_frame 1 (codes "{\"id\":1}"))
      (send_frame pairs [] 1 (codes "{\"id\":1}")).0
      (send_frame pairs [] 1 (codes "{\"id\":1}")).1
send_frame-IsSent_example =
    send_frame-IsSent pairs (λ s. s) pairs-IsSender [] 1 (codes "{\"id\":1}") (omega arith)

-- A pong and a reply on the socket that takes two bytes, which cannot take a header at once: parts of both are sent.
abbrev outputs : List Output
outputs = framed 0x0A (codes "p") ∷ framed 0x01 (codes "{}") ∷ []

transmit-AreFronts_example : (w : Bytes) × (transmit pairs [] outputs ≡ w) × AreFronts outputs w
transmit-AreFronts_example =
    transmit-AreFronts pairs (λ s. s) pairs-IsSender [] outputs (omega arith, (omega arith, tt))

-- A socket that takes everything.
abbrev append_all : Bytes → Bytes → Option (ℕ × Bytes)
append_all s [] = none
append_all s (a ∷ d) = some (length (a ∷ d), s ++ (a ∷ d))

abbrev open_handed : Sender Bytes
open_handed = record { send = append_all }

open_handed-IsSender : IsSender open_handed (λ s. s)
open_handed-IsSender = record { taken = taken }
  where
    whole : (d : Bytes) → take (length d) d ≡ d
    whole [] = refl
    whole (a ∷ d) = ap (◌∷◌ a) (whole d)

    taken :
        (s s' d : Bytes) (n : ℕ)
        → append_all s d ≡ some (n, s')
        → (0 < n) × (n ≤ length d) × (s' ≡ s ++ take n d)
    taken s s' [] n e = ground arith
    taken s s' (a ∷ d) n e =
        subst (IsTaken s (a ∷ d)) (ap (from_some (0, [])) e)
          (omega arith, omega arith, ap (λ r. s ++ r) (sym (whole (a ∷ d))))

open_handed-IsUnfailing : IsUnfailing open_handed
open_handed-IsUnfailing = record { takes_all = takes_all }
  where
    takes_all : (s d : Bytes) → d ≢ [] → (s' : Bytes) × (append_all s d ≡ some (length d, s'))
    takes_all s [] ne = absurd (ne refl)
    takes_all s (a ∷ d) ne = (s ++ (a ∷ d), refl)

transmit-whole_example : transmit open_handed [] outputs ≡ all_output outputs
transmit-whole_example =
    transmit-whole open_handed open_handed-IsUnfailing (λ s. s) open_handed-IsSender [] outputs
      (omega arith, (omega arith, tt))
