-- ===== src/Tests/Sending.antt =====
-- An event that is being sent while a reply waits for the mutex, with and without a failure.
use quick_js_debugger.Prelude.{
  ◌+◌, ◌≡◌, ◌⊎◌, refl, true, false, ◌&&◌, [], ◌++◌, arith, take, drop, if◌then◌else◌,
}
use quick_js_debugger.Text.Bytes.{Bytes, codes}
use quick_js_debugger.Ws.Frames.{frame_header, send_ws_frame}
use quick_js_debugger.Ws.Sending.{send_frame}
use quick_js_debugger.Threads.Sending.{
  idle, locking, at_header, at_payload, unlocking, Line, script_thread, begin, lock, accept,
  send_header, send_part, Moves, Senders, of_script, of_client, connected_line, SendReach, opened,
  then_sends,
}
use quick_js_debugger.Threads.Sending.Frames.{inside, part, IsFramed, frames_do_not_mix}
use quick_js_debugger.Threads.Sending.Broken.{frame_behind_part}
use quick_js_debugger.Threads.Sending.Runs.{send_frame-Moves}
use quick_js_debugger.Tests.Serving.{pairs, pairs-IsSender}

abbrev event : Bytes
event = codes "abc"

-- The header and one byte have been sent.
abbrev half_line : Line
half_line = record connected_line {
  locked = true;
  wire = ([] ++ frame_header 1 3) ++ take 1 (drop 0 event);
}

abbrev half_sent : Senders
half_sent = record { line = half_line; script = at_payload 1 event (0 + 1); client = idle }

half_sent-SendReach : SendReach half_sent
half_sent-SendReach =
    then_sends
      (then_sends
        (then_sends
          (then_sends (then_sends opened (of_script (begin event))) (of_script (lock refl)))
          (of_script (accept refl)))
        (of_script send_header))
      (of_script (send_part 1 (omega arith) (omega arith)))

-- The reply waits.
abbrev both : Senders
both = record half_sent { client = locking true 1 (codes "{}") }

frames_do_not_mix_example :
    (inside both.script && inside both.client ≡ false)
    × ((both.line.broken ≡ true) ⊎ IsFramed both.line.wire (part both.script ++ part both.client))
frames_do_not_mix_example =
    frames_do_not_mix (then_sends half_sent-SendReach (of_client (begin (codes "{}"))))

frame_behind_part_example :
    (t : Senders) × SendReach t
    × (t.line.wire ≡ half_line.wire ++ send_ws_frame 1 (codes "{}"))
    × (t.line.connected ≡ true)
frame_behind_part_example = frame_behind_part half_sent-SendReach (omega arith) refl (codes "{}")

send_frame-Moves_example :
    Moves script_thread
      (record connected_line { wire = [] })
      (at_header 1 event)
      (record connected_line {
        wire = (send_frame pairs [] 1 event).1;
        broken = if (send_frame pairs [] 1 event).0 then false else true;
      })
      unlocking
send_frame-Moves_example =
    send_frame-Moves pairs (λ s. s) pairs-IsSender script_thread connected_line 1 event []
