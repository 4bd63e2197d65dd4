-- ===== src/Tests/Frames.antt =====
-- Base64, and frames on a socket that delivers one byte at a time.
use quick_js_debugger.Json.Result.{ok}
use quick_js_debugger.Prelude.{
  true, ◌<◌, ◌^◌, ℕ, suc, ◌≤◌, ◌≡◌, ◌≢◌, refl, [], ◌∷◌, ◌++◌, Option, none, some, length, arith,
}
use quick_js_debugger.Text.Bytes.{Bytes, codes}
use quick_js_debugger.Ws.Base64.{digit64, base64_encode, base64_decode, base64_decode-base64_encode}
use quick_js_debugger.Ws.Frames.{Socket, IsStream, read_ws_frame}
use quick_js_debugger.Ws.Receive.{ClientFrame}
use quick_js_debugger.Ws.RoundTrip.{client_frame, read_ws_frame-client_frame}

abbrev next_byte : Bytes → ℕ → Option (Bytes × Bytes)
next_byte [] n = none
next_byte (b ∷ s) n = some (b ∷ [], s)

abbrev pub slow_socket : Socket Bytes
slow_socket = record { recv = next_byte; resizes = λ n. true }

pub slow_socket-IsStream : IsStream slow_socket (λ s. s)
slow_socket-IsStream = record { served = served; memory = λ n small. refl }
  where
    served :
        (s : Bytes) (n : ℕ)
        → s ≢ []
        → suc n < 2 ^ 31
        → (c : Bytes) × (s' : Bytes) × (next_byte s (suc n) ≡ some (c, s'))
          × (s ≡ c ++ s')
          × (c ≢ [])
          × (length c ≤ suc n)
    served [] n h small = absurd (h refl)
    served (b ∷ s) n h small = (b ∷ [], s, refl, refl, (λ e. cc), omega arith)

abbrev pub key : Bytes
key = 1 ∷ 200 ∷ 3 ∷ 255 ∷ []

read_ws_frame-client_frame_example :
    (s' : Bytes) × (read_ws_frame slow_socket (client_frame key 1 (codes "{}") ++ codes "next")
      ≡ ok (some ((codes "{}", 1), s')))
    × (s' ≡ codes "next")
read_ws_frame-client_frame_example =
    read_ws_frame-client_frame slow_socket (λ s. s) slow_socket-IsStream
      (client_frame key 1 (codes "{}") ++ codes "next") 1 key (codes "{}") (codes "next")
      (omega arith) refl (omega arith, (omega arith, (omega arith, (omega arith, tt))))
      (omega arith, (omega arith, tt)) (omega arith) refl

base64_decode-base64_encode_example : base64_decode (base64_encode (codes "ab")) ≡ codes "ab"
base64_decode-base64_encode_example =
    base64_decode-base64_encode (codes "ab") (omega arith, (omega arith, tt))

-- A vector of RFC 4648.
base64_encode-fooba : base64_encode (codes "fooba") ≡ codes "Zm9vYmE="
unfolding base64_encode digit64
base64_encode-fooba = refl

abbrev ping : ClientFrame
ping = record { mask = key; opcode = 9; payload = codes "p" }

abbrev message : ClientFrame
message = record { mask = key; opcode = 1; payload = codes "{}" }
