-- ===== src/Ws/Server/Bounds.antt =====
-- No request makes the server write outside of the buffers of `sha1_hash`.
use quick_js_debugger.Prelude.{
  ℕ, zero, suc, ◌+◌, ◌^◌, ◌≤◌, ◌<◌, ◌≢◌, Bool, [], ◌∷◌, ◌++◌, none, some, inl, inr, Bool-cases,
  Option-cases, length, length-append, length-take, length-drop, take, drop, arith,
}
use quick_js_debugger.Text.Bytes.{Bytes, codes, is_empty, to_lower}
use quick_js_debugger.Text.Search.{find?}
use quick_js_debugger.Ws.Frames.{Socket, byte_at}
use quick_js_debugger.Ws.Sha1.{sha1_hash, compute_ws_accept}
use quick_js_debugger.Ws.Sha1.Padding.{pad-IsPadded}
use quick_js_debugger.Ws.Http.{
  skip_blanks, line_front, get_header, ends_head, read_request, read_http_request,
}
use quick_js_debugger.Ws.Server.{Target, handshake, serve_request, serve}

skip_blanks-le : (s : Bytes) → length (skip_blanks s) ≤ length s
unfolding skip_blanks
skip_blanks-le [] = omega arith
skip_blanks-le (c ∷ s) = ground (arith, skip_blanks-le s)

line_front-le : (s : Bytes) → length (line_front s) ≤ length s
unfolding line_front
line_front-le s =
    elim (find? (13 ∷ 10 ∷ []) s)
      as (λ found.
        length (elim found as (λ _. Bytes) [ none ↦ s | some end ↦ take end s ]) ≤ length s) [
          | none ↦ omega arith
          | some end ↦ omega (arith, length-take end s)
        ]

get_header-le : (request name : Bytes) → length (get_header request name) ≤ length request
unfolding get_header
get_header-le request name =
    elim (find? (to_lower name ++ (b':' ∷ [])) (to_lower request))
      as (λ found.
        length (elim found as (λ _. Bytes) [
          | none ↦ []
          | some at ↦ line_front (skip_blanks (drop (at + length name + 1) request))
        ])
        ≤ length request) [
          | none ↦ omega arith
          | some at ↦
              let rest = drop (at + length name + 1) request in
              omega (
                arith,
                line_front-le (skip_blanks rest),
                skip_blanks-le rest,
                length-drop (at + length name + 1) request,
              )
        ]

module _ {S : Type 0} (sock : Socket S) where
  read_request-le :
      (left : ℕ) (s : S) (request : Bytes)
      → length (read_request sock left s request).0 ≤ left + length request
  unfolding read_request
  read_request-le zero s request = omega arith
  read_request-le (suc left) s request = elim (Option-cases (sock.recv s 1)) [
    | inl e ↦ ground arith
    | inr ((buf, s'), e) ↦
        let longer = request ++ (byte_at 0 buf ∷ []) in
        let size = length-append request (byte_at 0 buf ∷ []) in
        let later = read_request-le left s' longer in
        elim (Bool-cases (ends_head longer)) [
          | inl t ↦ ground (arith, size)
          | inr t ↦ ground (arith, size, later)
        ]
  ]

-- A message shorter than 2 ^ 61 bytes has a digest.
sha1_hash-ne-none : (message : Bytes) → length message < 2 ^ 61 → sha1_hash message ≢ none
unfolding sha1_hash
sha1_hash-ne-none message h =
    let (zeros, e, few, whole) = pad-IsPadded message h in λ q. ground arith

compute_ws_accept-ne-none : (key : Bytes) → length key ≤ 8192 → compute_ws_accept key ≢ none
unfolding compute_ws_accept
compute_ws_accept-ne-none key h =
    let text = key ++ codes "258EAFA5-E914-47DA-95CA-C5AB0DC85B11" in
    let d =
      sha1_hash-ne-none text
        (omega (arith, length-append key (codes "258EAFA5-E914-47DA-95CA-C5AB0DC85B11"))) in
    ground arith

handshake-ne-none :
    {S : Type 0} (send : S → Bytes → Bool) (request : Bytes) (s : S)
    → length request ≤ 8192
    → handshake send request s ≢ none
unfolding handshake
handshake-ne-none send request s h =
    let key = get_header request (codes "Sec-WebSocket-Key") in
    let short = get_header-le request (codes "Sec-WebSocket-Key") in
    let defined = compute_ws_accept-ne-none key (omega (arith, short)) in
    elim (Bool-cases (is_empty key)) [ inl k ↦ λ q. ground arith | inr k ↦ λ q. ground arith ]

serve_request-ne-none :
    {S : Type 0} (sock : Socket S) (send : S → Bytes → Bool) (target : Target) (request : Bytes)
    (s : S)
    → length request ≤ 8192
    → serve_request sock send target request s ≢ none
unfolding serve_request
serve_request-ne-none sock send target request s h =
    let defined = handshake-ne-none send request s h in λ q. ground arith

-- Whatever a client sends, and however `send` ends, its visit is over without a write outside of a
-- buffer, and what has been read of its request fits into 8192 bytes.
pub serve-ne-none :
    {S : Type 0} (sock : Socket S) (send : S → Bytes → Bool) (target : Target) (s : S)
    → (length (read_http_request sock s).0 ≤ 8192) × (serve sock send target s ≢ none)
unfolding serve read_http_request
serve-ne-none sock send target s =
    let bound = read_request-le sock 8192 s [] in
    let (request, s') = read_request sock 8192 s [] in
    (omega (arith, bound), serve_request-ne-none sock send target request s' (omega (arith, bound)))
