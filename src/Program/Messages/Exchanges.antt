-- ===== src/Program/Messages/Exchanges.antt =====
-- A client's messages with the frames that are to be sent for each, apart from sockets, frames and the loop.
use quick_js_debugger.Prelude.{
  ℕ, zero, suc, ◌+◌, ◌<◌, ◌≡◌, ◌≢◌, refl, ap, ◌∙◌, true, false, List, [], ◌∷◌, ◌++◌, map, length,
  ◌==◌, append_assoc, All, arith,
}
use quick_js_debugger.Text.Bytes.{Bytes, is_empty}
use quick_js_debugger.Json.Floats.{Floats}
use quick_js_debugger.Json.Result.{Result, ok, throws, out_of_fuel, ◌>>=◌}
use quick_js_debugger.Session.Engine.{Engine}
use quick_js_debugger.Session.Paths.{Platform}
use quick_js_debugger.Session.Control.{on_disconnect}
use quick_js_debugger.Cdp.{Handler}
use quick_js_debugger.Cdp.Dispatch.{handle_message}
use quick_js_debugger.Ws.Frames.{IsStream, Output, framed}
use quick_js_debugger.Ws.RoundTrip.{read_ws_frame-client_frame}
use quick_js_debugger.Ws.Receive.{
  ClientFrame, IsClientFrame, IsControl, IsMessage, bytes_of, all_bytes, pongs, open_at, receive,
  handle_frame, receive-message,
}
use quick_js_debugger.Program.Messages.Passes.{
  pass-close, pass-message, pass-throws, pass-out_of_fuel,
}
use quick_js_debugger.Program.Messages.{World, Thread, send_messages, leave, message_loop}

-- A message, and the pings and pongs before it.
pub record Exchange : Type 0 where
  pub controls : List ClientFrame
  pub message : ClientFrame

abbrev pub exchange_bytes : List Exchange → Bytes → Bytes
exchange_bytes [] rest = rest
exchange_bytes (x ∷ xs) rest =
    all_bytes x.controls ++ (bytes_of x.message ++ exchange_bytes xs rest)

abbrev pub IsExchange : ℕ → Exchange → Type 0
IsExchange patience x =
    All IsControl x.controls
    × IsMessage x.message
    × (x.message.payload ≢ [])
    × (length x.controls < patience)

-- A close frame.
abbrev pub IsClose : ClientFrame → Type 0
IsClose f = IsClientFrame f × (f.opcode ≡ 0x08)

module _ {N V : Type 0} ⦃fl : Floats N⦄ (e : Engine N V) (pf : Platform) where
  -- The handler behind the messages, and all calls of `send_ws_frame`: for the pongs before a message,
  -- then for what it is answered.
  unfoldable pub converse : Handler N → List Exchange → Result (Handler N × List Output)
  converse h [] = ok (h, [])
  converse h (x ∷ xs) = do
    (h₁, messages) ← handle_message e pf h x.message.payload
    (h₂, later) ← converse h₁ xs
    ok (h₂, pongs x.controls ++ (map (framed 0x01) messages ++ later))

module _ {S L N : Type 0} where
  -- The thread at its end: the client is gone, and the session has been told.
  abbrev pub ended : Thread S L N → S → ℕ → Handler N × List Output → Result (Thread S L N)
  ended t s count (h, out) = ok (record t {
    connection = record (open_at s) { connected = false };
    handler = record h { session = on_disconnect h.session };
    msg_count = count;
    sent = t.sent ++ (out ++ framed 0x08 [] ∷ []);
  })

send_messages-open :
    {S : Type 0} (s : S) (ms : List Bytes) → send_messages (open_at s) ms ≡ map (framed 0x01) ms
unfolding send_messages
send_messages-open s [] = refl
send_messages-open s (m ∷ ms) = ap (◌∷◌ (framed 0x01 m)) (send_messages-open s ms)

module _ {S L : Type 0} (world : World S L) (pending : S → Bytes)
    (stream : IsStream world.sock pending) where
  -- A close frame ends the connection and is answered by one.
  receive-close :
      (f : ClientFrame) (fuel : ℕ) (s : S) (rest : Bytes)
      → IsClose f
      → 0 < fuel
      → pending s ≡ bytes_of f ++ rest
      → (s' : S) × (receive world.sock fuel (open_at s)
          ≡ ok ([], record (open_at s') { connected = false }, framed 0x08 [] ∷ []))
  unfolding receive handle_frame
  receive-close f zero s rest c pos p = absurd (omega arith)
  receive-close f (suc fuel) s rest (v, close) pos p =
      let (s', e, q) =
        read_ws_frame-client_frame world.sock pending stream s f.opcode f.mask f.payload rest
          v.is_code v.is_key v.key_bytes v.payload_bytes v.fits p in
      let is_close : (f.opcode == 0x08) ≡ true = ground arith in (s', rw e (rw is_close refl))

  module _ {N V : Type 0} ⦃fl : Floats N⦄ (e : Engine N V) (pf : Platform) where
    -- What was sent for a message stands before what is sent for the later ones.
    ended-later :
        (t : Thread S L N) (front middle : List Output) (h₁ : Handler N) (s₁ s' : S) (n count : ℕ)
        (r : Result (Handler N × List Output))
        → (r
            >>= ended
                (record t {
                  connection = open_at s₁;
                  handler = h₁;
                  msg_count = n;
                  sent = (t.sent ++ front) ++ middle;
                })
                s'
                count)
          ≡ ((do (h₂, later) ← r; ok (h₂, front ++ (middle ++ later))) >>= ended t s' count)
    ended-later t front middle h₁ s₁ s' n count throws = refl
    ended-later t front middle h₁ s₁ s' n count out_of_fuel = refl
    ended-later t front middle h₁ s₁ s' n count (ok (h₂, later)) =
        ap
          (λ sent. ok (record t {
            connection = record (open_at s') { connected = false };
            handler = record h₂ { session = on_disconnect h₂.session };
            msg_count = count;
            sent = sent;
          }))
          (simp append_assoc)

    -- The thread behind a message.
    abbrev advanced : Thread S L N → S → List Output → Handler N → List Bytes → Thread S L N
    advanced t s₁ frames h messages = record t {
      connection = open_at s₁;
      handler = h;
      msg_count = suc t.msg_count;
      sent = (t.sent ++ frames) ++ map (framed 0x01) messages;
    }

    one_message :
        (x : Exchange) (xs : List Exchange) (fuel pass count : ℕ) (t : Thread S L N) (s₁ : S)
        → world.ws_running pass ≡ true
        → receive world.sock world.patience t.connection
          ≡ ok (x.message.payload, open_at s₁, pongs x.controls)
        → is_empty x.message.payload ≡ false
        → ((h₁ : Handler N) (messages : List Bytes)
            → (s' : S) × (message_loop world e pf fuel
                  (suc pass)
                  (advanced t s₁ (pongs x.controls) h₁ messages)
                ≡ (converse e pf h₁ xs
                    >>= ended (advanced t s₁ (pongs x.controls) h₁ messages) s' count)))
        → (r : Result (Handler N × List Bytes))
        → handle_message e pf t.handler x.message.payload ≡ r
        → (s' : S) × (message_loop world e pf (suc fuel) pass t
            ≡ (converse e pf t.handler (x ∷ xs) >>= ended t s' count))
    unfolding converse
    one_message x xs fuel pass count t s₁ on r some_bytes later throws q =
        (s₁, pass-throws world e pf fuel pass t _ _ _ on r some_bytes q ∙ rw q refl)
    one_message x xs fuel pass count t s₁ on r some_bytes later out_of_fuel q =
        (s₁, pass-out_of_fuel world e pf fuel pass t _ _ _ on r some_bytes q ∙ rw q refl)
    one_message x xs fuel pass count t s₁ on r some_bytes later (ok (h₁, messages)) q =
        let (s', next) = later h₁ messages in
        let sends = send_messages-open s₁ messages in
        let front = t.sent ++ pongs x.controls in
        let sent_as_frames =
          ap
            (λ out. message_loop world e pf fuel (suc pass) (record t {
              connection = open_at s₁;
              handler = h₁;
              msg_count = suc t.msg_count;
              sent = front ++ out;
            }))
            sends in
        (
          s',
          rw q (
              pass-message world e pf fuel pass t _ _ _ on r some_bytes h₁ messages q
              ∙ sent_as_frames
              ∙ next
              ∙ ended-later t (pongs x.controls) (map (framed 0x01) messages) h₁ s₁ s'
                  (suc t.msg_count) count (converse e pf h₁ xs)),
        )

    -- The loop from any pass on.
    pub message_loop_from :
        (xs : List Exchange) (f : ClientFrame) (fuel pass count : ℕ) (t : Thread S L N) (s : S)
        (rest : Bytes)
        → ((n : ℕ) → world.ws_running n ≡ true)
        → All (IsExchange world.patience) xs
        → IsClose f
        → 0 < world.patience
        → length xs < fuel
        → count ≡ t.msg_count + length xs
        → 0 < count
        → t.connection ≡ open_at s
        → pending s ≡ exchange_bytes xs (bytes_of f ++ rest)
        → (s' : S) × (message_loop world e pf fuel pass t
            ≡ (converse e pf t.handler xs >>= ended t s' count))
    unfolding converse leave
    message_loop_from xs f zero pass count t s rest on vs close pos few counted some_messages opened
          p =
        absurd (omega arith)
    message_loop_from [] f (suc fuel) pass count t s rest on vs close pos few counted some_messages
          opened p =
        let (s', e₁) = receive-close f world.patience s rest close pos p in
        let r = ap (receive world.sock world.patience) opened ∙ e₁ in
        let same : t.msg_count ≡ count = omega (arith, counted) in
        (
          s',
          pass-close world e pf fuel pass t _ _ (on pass) r refl (ground arith)
              ∙ ap (λ n. ended t s' n (t.handler, [])) same,
        )
    message_loop_from (x ∷ xs) f (suc fuel) pass count t s rest on (v, vs) close pos few counted
          some_messages opened p =
        let (s₁, e₁, p₁) =
          receive-message world.sock pending stream x.controls x.message world.patience s
            (exchange_bytes xs (bytes_of f ++ rest)) v.0 v.1 v.3 p in
        let r = ap (receive world.sock world.patience) opened ∙ e₁ in
        one_message x xs fuel pass count t s₁ (on pass) r (filled x.message.payload v.2)
          (λ h₁ messages.
            message_loop_from xs f fuel (suc pass) count
              (advanced t s₁ (pongs x.controls) h₁ messages) s₁ rest on vs close pos (omega arith)
              (omega (arith, counted)) some_messages refl p₁)
          (handle_message e pf t.handler x.message.payload) refl
      where
        filled : (m : Bytes) → m ≢ [] → is_empty m ≡ false
        filled [] ne = absurd (ne refl)
        filled (c ∷ m) ne = refl
