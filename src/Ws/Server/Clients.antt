-- ===== src/Ws/Server/Clients.antt =====
-- The clients that `wait_for_connection` accepts, in their order.
use quick_js_debugger.Prelude.{
  ℕ, zero, suc, ◌<◌, ◌≡◌, refl, ap, sym, Bool, true, false, List, [], ◌∷◌, ◌++◌, Option, none, some,
  length, append_assoc, Option-cases, inl, inr, arith,
}
use quick_js_debugger.Text.Bytes.{Bytes}
use quick_js_debugger.Ws.Frames.{Socket}
use quick_js_debugger.Ws.Receive.{Connection}
use quick_js_debugger.Ws.Server.{
  Visit, upgraded, closed, refused, Target, serve, Waited, sent_before, wait_for_connection,
}

module _ {S L : Type 0} (accept : L → Option (S × L)) where
  -- Calls of `accept` give these clients, one after the other.
  pub data Accepts : L → List S → L → Type 0 where
    nobody : {l : L} → Accepts l [] l
    client :
        {l l₁ l₂ : L} {s : S} {ss : List S}
        → accept l ≡ some (s, l₁)
        → Accepts l₁ ss l₂
        → Accepts l (s ∷ ss) l₂

-- A visit that ends with the socket closed, and what the client was sent in it.
abbrev pub is_dismissed : {S : Type 0} → Option (Visit S) → Bool
is_dismissed none = false
is_dismissed (some (upgraded r s)) = false
is_dismissed (some (closed rs)) = true
is_dismissed (some (refused rs)) = true

abbrev pub responses : {S : Type 0} → Option (Visit S) → List Bytes
responses none = []
responses (some (upgraded r s)) = r ∷ []
responses (some (closed rs)) = rs
responses (some (refused rs)) = rs

module _ {S : Type 0} (sock : Socket S) (send : S → Bytes → Bool) (target : Target) where
  -- Each of the clients is dismissed.
  abbrev pub AreDismissed : List S → Type 0
  AreDismissed [] = Unit
  AreDismissed (s ∷ ss) = (is_dismissed (serve sock send target s) ≡ true) × AreDismissed ss

  -- What all of them were sent.
  abbrev pub all_responses : List S → List Bytes
  all_responses [] = []
  all_responses (s ∷ ss) = responses (serve sock send target s) ++ all_responses ss

sent_before-append :
    {S L : Type 0} (front back : List Bytes) (w : Option (Waited S L))
    → sent_before front (sent_before back w) ≡ sent_before (front ++ back) w
sent_before-append front back none = refl
sent_before-append front back (some w) =
    ap (λ sent. some (record w { sent = sent })) (sym (append_assoc front back w.sent))

module _ {S L : Type 0} (accept : L → Option (S × L)) (sock : Socket S) (send : S → Bytes → Bool)
    (target : Target) where
  pass-closed :
      (l l' : L) (b : S) (rs : List Bytes) (fuel : ℕ) (c : Connection S)
      → accept l ≡ some (b, l')
      → serve sock send target b ≡ some (closed rs)
      → wait_for_connection accept sock send target (suc fuel) l c
        ≡ sent_before rs (wait_for_connection accept sock send target fuel l' c)
  unfolding wait_for_connection
  pass-closed l l' b rs fuel c a e = ground arith

  pass-refused :
      (l l' : L) (b : S) (rs : List Bytes) (fuel : ℕ) (c : Connection S)
      → accept l ≡ some (b, l')
      → serve sock send target b ≡ some (refused rs)
      → wait_for_connection accept sock send target (suc fuel) l c
        ≡ sent_before rs
            (wait_for_connection accept sock send target fuel l' (record c { has_client = false }))
  unfolding wait_for_connection
  pass-refused l l' b rs fuel c a e = ground arith

  -- The first client whose handshake succeeds is the connection, with more fuel than there are
  -- clients before it: those were each answered by themselves, in their order, and nobody behind it
  -- has been accepted.
  pub wait_for_connection-first :
      (before : List S) (l l₁ l₂ : L) (s s' : S) (response : Bytes) (fuel : ℕ) (c : Connection S)
      → Accepts accept l before l₁
      → AreDismissed sock send target before
      → accept l₁ ≡ some (s, l₂)
      → serve sock send target s ≡ some (upgraded response s')
      → length before < fuel
      → wait_for_connection accept sock send target fuel l c
        ≡ some (record {
          success = true;
          connection = record { connected = true; has_client = true; client_sock = s' };
          listener = l₂;
          sent = all_responses sock send target before ++ (response ∷ []);
        })
  unfolding wait_for_connection
  wait_for_connection-first before l l₁ l₂ s s' response zero c acc d a e h = absurd (omega arith)
  wait_for_connection-first [] l l₁ l₂ s s' response (suc fuel) c nobody d a e h = ground arith
  wait_for_connection-first (b ∷ bs) l l₁ l₂ s s' response (suc fuel) c (client {l₁ = next} a₀ acc)
        (d₀, d) a e h =
      let later = λ (c' : Connection S).
        wait_for_connection-first bs next l₁ l₂ s s' response fuel c' acc d a e (omega arith) in
      elim (Option-cases (serve sock send target b)) [
        | inl n ↦ ground arith
        | inr (upgraded r b', n) ↦ ground arith
        | inr (closed rs, n) ↦
            rw
              (
                pass-closed _ _ b rs fuel c a₀ n,
                later c,
                n,
                append_assoc rs (all_responses sock send target bs) (response ∷ []),
              )
              refl
        | inr (refused rs, n) ↦
            rw
              (
                pass-refused _ _ b rs fuel c a₀ n,
                later (record c { has_client = false }),
                n,
                append_assoc rs (all_responses sock send target bs) (response ∷ []),
              )
              refl
      ]
