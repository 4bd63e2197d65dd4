-- ===== src/Program/Messages/Probes.antt =====
-- A client that leaves without a message, and the one that is accepted in its place.
use quick_js_debugger.Prelude.{map, List, [], ◌∷◌, ◌++◌}
use quick_js_debugger.Text.Bytes.{Bytes}
use quick_js_debugger.Json.Floats.{Floats}
use quick_js_debugger.Session.Engine.{Engine}
use quick_js_debugger.Session.Paths.{Platform}
use quick_js_debugger.Ws.Frames.{Output, plain}
use quick_js_debugger.Ws.Receive.{open_at}
use quick_js_debugger.Ws.Server.{Target}
use quick_js_debugger.Ws.Server.Clients.{all_responses}
use quick_js_debugger.Program.Messages.{World, Thread, first_target}

module _ {S L : Type 0} (world : World S L) {N V : Type 0} ⦃fl : Floats N⦄ (e : Engine N V)
    (pf : Platform) where
  -- The target that is announced, and the thread behind the acceptance of another client.
  abbrev pub target_of : Thread S L N → Target
  target_of t = first_target world.port t.handler.session.scripts

  abbrev pub replaced : Thread S L N → List Output → List S → S → L → Bytes → Thread S L N
  replaced t frames before s l response = record t {
    connection = open_at s;
    listener = l;
    sent =
        (t.sent ++ frames)
        ++ map plain (all_responses world.sock world.send (target_of t) before ++ (response ∷ []));
  }
