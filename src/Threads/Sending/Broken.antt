-- ===== src/Threads/Sending/Broken.antt =====
-- What follows a frame that was cut short: `send` returns false, which its callers do not look at,
-- and the connection stays open.
use mathlib.Core.Path.{subst}
use quick_js_debugger.Prelude.{
  ℕ, ◌<◌, ◌≡◌, refl, sym, ap, ◌∙◌, true, [], ◌∷◌, ◌++◌, length, append_assoc, append-nil, arith,
}
use quick_js_debugger.Text.Bytes.{Bytes}
use quick_js_debugger.Ws.Frames.{frame_header, send_ws_frame}
use quick_js_debugger.Threads.Sending.{
  idle, at_header, at_payload, unlocking, Writer, Line, Side, socket_thread, Moves, stop, and_then,
  begin, lock, accept, send_header, send_part, fail_part, finish, unlock, Senders, of_script,
  of_client, SendReach, then_sends,
}
use quick_js_debugger.Threads.Sending.Frames.{take_whole}

-- A frame from its header on, where no `::send` fails.
sends_frame :
    (who : Side) (l : Line) (opcode : ℕ) (payload : Bytes)
    → Moves who l
        (at_header opcode payload)
        (record l { wire = l.wire ++ send_ws_frame opcode payload })
        unlocking
unfolding send_ws_frame
sends_frame who l opcode [] =
    subst (λ x. Moves who l (at_header opcode []) (record l { wire = x }) unlocking)
      (ap (◌++◌ l.wire) (sym (append-nil (frame_header opcode 0))))
      (and_then send_header (and_then (finish (omega arith)) stop))
sends_frame who l opcode (c ∷ d) =
    let payload = c ∷ d in
    let header = frame_header opcode (length payload) in
    subst (λ x. Moves who l (at_header opcode payload) (record l { wire = x }) unlocking)
      (append_assoc l.wire header _
        ∙ ap (λ x. l.wire ++ (header ++ x)) (take_whole (length payload) payload (omega arith)))
      (and_then send_header (
        and_then (send_part (length payload) (omega arith) (omega arith))
          (and_then (finish (omega arith)) stop)))

-- The steps of the WebSocket thread while the script's thread stands still.
by_client :
    {l k : Line} {w v : Writer} (script : Writer)
    → SendReach (record { line = l; script = script; client = w })
    → Moves socket_thread l w k v
    → SendReach (record { line = k; script = script; client = v })
by_client script r stop = r
by_client script r (and_then mv ms) = by_client script (then_sends r (of_client mv)) ms

-- From every reachable state in which the script's thread has sent a part of a frame, while the
-- WebSocket thread does not send and the connection is open, a state can be reached in which any
-- message has been sent directly behind that part, and the connection is still open.
pub frame_behind_part :
    {l : Line} {opcode sent : ℕ} {payload : Bytes}
    → SendReach (record { line = l; script = at_payload opcode payload sent; client = idle })
    → sent < length payload
    → l.connected ≡ true
    → (message : Bytes)
    → (t : Senders) × SendReach t
      × (t.line.wire ≡ l.wire ++ send_ws_frame 0x01 message)
      × (t.line.connected ≡ true)
frame_behind_part {l} r short open_ message =
    let failed = then_sends (then_sends r (of_script (fail_part short))) (of_script unlock) in
    let begun =
      by_client idle failed
        (and_then (begin message) (and_then (lock refl) (and_then (accept open_) stop))) in
    (_, by_client idle begun (sends_frame socket_thread _ 0x01 message), refl, open_)
