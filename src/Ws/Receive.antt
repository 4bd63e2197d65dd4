-- ===== src/Ws/Receive.antt =====
-- `receive`: control frames are answered or skipped on the way to the next message. The calls of
-- `receive` by itself run on fuel.
use quick_js_debugger.Prelude.{
  ℕ, zero, suc, ◌^◌, ◌<◌, ◌≡◌, ◌⊎◌, inl, inr, refl, ◌∙◌, Bool, true, false, not, ◌||◌, List, [],
  ◌∷◌, ◌++◌, none, some, ◌==◌, if◌then◌else◌, length, append_assoc, All, arith,
}
use quick_js_debugger.Text.Bytes.{Bytes}
use quick_js_debugger.Ws.Frames.{Socket, IsStream, Output, framed, read_ws_frame}
use quick_js_debugger.Json.Result.{Result, ok, throws, out_of_fuel}
use quick_js_debugger.Ws.Masks.{AreBytes}
use quick_js_debugger.Ws.RoundTrip.{client_frame, read_ws_frame-client_frame}

-- `connected_`, whether `client_sock_` is a socket, and the socket.
pub record Connection (S : Type 0) : Type 0 where
  pub connected : Bool
  pub has_client : Bool
  pub client_sock : S

-- The message, the connection, and the calls of `send_ws_frame`.
abbrev pub Received : Type 0 → Type 0
Received S = Bytes × Connection S × List Output

-- A call in front of the later ones.
abbrev pub and_sent : {S : Type 0} → Output → Result (Received S) → Result (Received S)
and_sent frame throws = throws
and_sent frame out_of_fuel = out_of_fuel
and_sent frame (ok (message, c, sent)) = ok (message, c, frame ∷ sent)

module _ {S : Type 0} (sock : Socket S) where
  -- What is done with a frame; `more` is the call of `receive` for the next one.
  unfoldable pub handle_frame : Connection S → Bytes → ℕ → Result (Received S) → Result (Received S)
  handle_frame c payload opcode more =
      if opcode == 0x08
      then ok ([], record c { connected = false }, framed 0x08 [] ∷ [])
      else if opcode == 0x09
      then and_sent (framed 0x0A payload) more
      else if opcode == 0x0A
      then more
      else ok (payload, c, [])

  unfoldable pub receive : ℕ → Connection S → Result (Received S)
  receive zero c = out_of_fuel
  receive (suc fuel) c =
      if not c.connected || not c.has_client
      then ok ([], c, [])
      else elim (read_ws_frame sock c.client_sock) [
        | throws ↦ throws
        | out_of_fuel ↦ out_of_fuel
        | ok none ↦ ok ([], record c { connected = false }, [])
        | ok (some ((payload, opcode), s)) ↦
            let c' = record c { client_sock = s } in
            handle_frame c' payload opcode (receive fuel c')
      ]

-- A frame of the client.
pub record ClientFrame : Type 0 where
  pub mask : Bytes
  pub opcode : ℕ
  pub payload : Bytes

pub record IsClientFrame (f : ClientFrame) : Type 0 where
  pub is_code : f.opcode < 16
  pub is_key : length f.mask ≡ 4
  pub key_bytes : AreBytes f.mask
  pub payload_bytes : AreBytes f.payload
  pub fits : length f.payload < 2 ^ 31

abbrev pub bytes_of : ClientFrame → Bytes
bytes_of f = client_frame f.mask f.opcode f.payload

-- Frames, one behind the other.
abbrev pub all_bytes : List ClientFrame → Bytes
all_bytes [] = []
all_bytes (f ∷ fs) = bytes_of f ++ all_bytes fs

abbrev pub IsControl : ClientFrame → Type 0
IsControl f = IsClientFrame f × ((f.opcode ≡ 0x09) ⊎ (f.opcode ≡ 0x0A))

-- A frame that is no control frame.
abbrev pub IsMessage : ClientFrame → Type 0
IsMessage f = IsClientFrame f × (f.opcode < 0x08)

-- A pong for every ping.
abbrev pub pongs : List ClientFrame → List Output
pongs [] = []
pongs (f ∷ fs) =
    let rest = pongs fs in if f.opcode == 0x09 then framed 0x0A f.payload ∷ rest else rest

-- A connection that is open.
abbrev pub open_at : {S : Type 0} → S → Connection S
open_at s = record { connected = true; has_client = true; client_sock = s }

module _ {S : Type 0} (sock : Socket S) (pending : S → Bytes) (stream : IsStream sock pending) where
  pub receive-message :
      (fs : List ClientFrame) (f : ClientFrame) (fuel : ℕ) (s : S) (rest : Bytes)
      → All IsControl fs
      → IsMessage f
      → length fs < fuel
      → pending s ≡ all_bytes fs ++ (bytes_of f ++ rest)
      → (s' : S) × (receive sock fuel (open_at s) ≡ ok (f.payload, open_at s', pongs fs))
        × (pending s' ≡ rest)
  unfolding receive handle_frame
  receive-message fs f zero s rest hs hf more p = absurd (omega arith)
  receive-message [] f (suc fuel) s rest hs (v, low) more p =
      let (s', e, q) =
        read_ws_frame-client_frame sock pending stream s f.opcode f.mask f.payload rest v.is_code
          v.is_key v.key_bytes v.payload_bytes v.fits p in
      let no_close : (f.opcode == 0x08) ≡ false = ground arith in
      let no_ping : (f.opcode == 0x09) ≡ false = ground arith in
      let no_pong : (f.opcode == 0x0A) ≡ false = ground arith in
      (s', rw e (rw no_close (rw no_ping (rw no_pong refl))), q)
  receive-message (g ∷ fs) f (suc fuel) s rest ((v, inl ping), hs) hf more p =
      let (s₁, e, q) =
        read_ws_frame-client_frame sock pending stream s g.opcode g.mask g.payload _ v.is_code
          v.is_key v.key_bytes v.payload_bytes v.fits
          (p ∙ append_assoc (bytes_of g) (all_bytes fs) (bytes_of f ++ rest)) in
      let (s', e', q') = receive-message fs f fuel s₁ rest hs hf (omega arith) q in
      let no_close : (g.opcode == 0x08) ≡ false = ground arith in
      let is_ping : (g.opcode == 0x09) ≡ true = ground arith in
      (s', rw e (rw no_close (rw is_ping (rw e' refl))), q')
  receive-message (g ∷ fs) f (suc fuel) s rest ((v, inr pong), hs) hf more p =
      let (s₁, e, q) =
        read_ws_frame-client_frame sock pending stream s g.opcode g.mask g.payload _ v.is_code
          v.is_key v.key_bytes v.payload_bytes v.fits
          (p ∙ append_assoc (bytes_of g) (all_bytes fs) (bytes_of f ++ rest)) in
      let (s', e', q') = receive-message fs f fuel s₁ rest hs hf (omega arith) q in
      let no_close : (g.opcode == 0x08) ≡ false = ground arith in
      let no_ping : (g.opcode == 0x09) ≡ false = ground arith in
      let is_pong : (g.opcode == 0x0A) ≡ true = ground arith in
      (s', rw e (rw no_close (rw no_ping (rw is_pong e'))), q')
