-- ===== src/Cdp/Replies.antt =====
-- What a request is answered with, for every method.
use quick_js_debugger.Prelude.{◌≡◌, refl, List, [], ◌∷◌, map, if◌then◌else◌}
use quick_js_debugger.Text.Bytes.{codes}
use quick_js_debugger.Json.Floats.{Floats, IsExact}
use quick_js_debugger.Json.Value.{Value, has, at}
use quick_js_debugger.Json.Print.{serialize}
use quick_js_debugger.Json.Result.{ok}
use quick_js_debugger.Json.RoundTrip.Printable.{IsPrintable}
use quick_js_debugger.Json.RoundTrip.Values.{parse-serialize}
use quick_js_debugger.Session.Engine.{Engine}
use quick_js_debugger.Session.Paths.{Platform}
use quick_js_debugger.Cdp.{Handler}
use quick_js_debugger.Cdp.Dispatch.{handle_request, handle_message}

module _ {N V : Type 0} ⦃fl : Floats N⦄ (e : Engine N V) (pf : Platform) (h : Handler N) where
  -- A request that is sent as JSON text is handled as the value that was written, if that value is
  -- printable and the doubles are exact on whole numbers up to 10^15.
  handle_message-serialize :
      (msg : Value N)
      → IsExact fl
      → IsPrintable msg
      → handle_message e pf h (serialize msg)
        ≡ (let (h', messages) = handle_request e pf h msg in ok (h', map serialize messages))
  unfolding handle_message
  handle_message-serialize msg exact p = rw (parse-serialize msg exact p) refl

-- The ids of the messages that are replies, in order: what a client matches its requests with.
unfoldable pub reply_ids : {N : Type 0} → List (Value N) → List (Value N)
reply_ids [] = []
reply_ids (m ∷ ms) =
    let rest = reply_ids ms in if has m (codes "id") then at m (codes "id") ∷ rest else rest
