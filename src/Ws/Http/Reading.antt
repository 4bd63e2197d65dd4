-- ===== src/Ws/Http/Reading.antt =====
-- `read_http_request` on a stream socket.
use mathlib.Core.Path.{subst}
use quick_js_debugger.Prelude.{
  ℕ, zero, suc, ◌≤◌, ◌≡◌, ◌≢◌, refl, ap, ◌∙◌, sym, Bool, true, false, [], ◌∷◌, ◌++◌, some, length,
  append_assoc, length-append, take, take-append, not, arith,
}
use quick_js_debugger.Prelude.Ranges.{passes_from, passes_from-passes}
use quick_js_debugger.Text.Bytes.{Bytes}
use quick_js_debugger.Ws.Frames.{Socket, IsStream}
use quick_js_debugger.Ws.Http.{ends_head, read_request, read_http_request}

-- A head ends with an empty line, and none of what stands before its last byte does.
pub record IsHead (head : Bytes) : Type 0 where
  pub ends : ends_head head ≡ true
  pub first : (front back : Bytes) → head ≡ front ++ back → back ≢ [] → ends_head front ≡ false

-- A way to check a head: none of its fronts ends with an empty line.
unfoldable pub no_early_end : Bytes → Bool
unfolding passes_from
no_early_end head = passes_from (λ i. not (ends_head (take i head))) 0 (length head)

pub no_early_end-IsHead :
    (head : Bytes) → ends_head head ≡ true → no_early_end head ≡ true → IsHead head
unfolding no_early_end
no_early_end-IsHead head e none_early = record { ends = e; first = first }
  where
    first : (front back : Bytes) → head ≡ front ++ back → back ≢ [] → ends_head front ≡ false
    first front [] q ne = absurd (ne refl)
    first front (c ∷ back) q ne =
        let size = ap length q ∙ length-append front (c ∷ back) in
        let here =
          passes_from-passes (λ i. not (ends_head (take i head))) (length head) 0 (length front)
            (omega arith) (omega (arith, size)) none_early in
        let cut = ap (take (length front)) q ∙ take-append front (c ∷ back) in ground arith

module _ {S : Type 0} (sock : Socket S) (pending : S → Bytes) (stream : IsStream sock pending) where
  -- A call for one byte, where there is one.
  recv-one :
      (s : S) (c : ℕ) (rest : Bytes)
      → pending s ≡ c ∷ rest
      → (s' : S) × (sock.recv s 1 ≡ some (c ∷ [], s')) × (pending s' ≡ rest)
  recv-one s c rest h =
      let (buf, s', e, parts, some_bytes, few) =
        stream.served s 0 (λ n. ground arith) (omega arith) in
      elim buf
          as (λ b.
            (sock.recv s 1 ≡ some (b, s'))
            → (pending s ≡ b ++ pending s')
            → (b ≢ [])
            → (length b ≤ 1)
            → (s' : S) × (sock.recv s 1 ≡ some (c ∷ [], s')) × (pending s' ≡ rest)) [
              | [] ↦ λ e p ne few. absurd (ne refl)
              | b ∷ [] ↦ λ e p ne few. (s', ground arith, ground arith)
              | b ∷ b₁ ∷ bs ↦ λ e p ne few. absurd (omega arith)
            ]
        e parts some_bytes few

  -- A pass of the loop.
  read_request-last :
      (left : ℕ) (s s' : S) (request : Bytes) (c : ℕ)
      → sock.recv s 1 ≡ some (c ∷ [], s')
      → ends_head (request ++ (c ∷ [])) ≡ true
      → read_request sock (suc left) s request ≡ (request ++ (c ∷ []), s')
  unfolding read_request
  read_request-last left s s' request c e t = ground arith

  read_request-next :
      (left : ℕ) (s s' : S) (request : Bytes) (c : ℕ)
      → sock.recv s 1 ≡ some (c ∷ [], s')
      → ends_head (request ++ (c ∷ [])) ≡ false
      → read_request sock (suc left) s request ≡ read_request sock left s' (request ++ (c ∷ []))
  unfolding read_request
  read_request-next left s s' request c e t = ground arith

  read_request-served :
      (h request rest : Bytes) (left : ℕ) (s : S)
      → pending s ≡ h ++ rest
      → h ≢ []
      → IsHead (request ++ h)
      → length h ≤ left
      → (s' : S) × (read_request sock left s request ≡ (request ++ h, s')) × (pending s' ≡ rest)
  read_request-served [] request rest left s p ne head few = absurd (ne refl)
  read_request-served (c ∷ h) request rest zero s p ne head few = absurd (omega arith)
  read_request-served (c ∷ []) request rest (suc left) s p ne head few =
      let (s', e, p') = recv-one s c rest p in
      (s', read_request-last left s s' request c e head.ends, p')
  read_request-served (c ∷ d ∷ h) request rest (suc left) s p ne head few =
      let (s', e, p') = recv-one s c ((d ∷ h) ++ rest) p in
      let split = append_assoc request (c ∷ []) (d ∷ h) in
      let more = head.first (request ++ (c ∷ [])) (d ∷ h) (sym split) (λ q. cc) in
      let (s'', e'', p'') =
        read_request-served (d ∷ h) (request ++ (c ∷ [])) rest left s' p' (λ q. cc)
          (subst IsHead (sym split) head) (omega arith) in
      (s'', read_request-next left s s' request c e more ∙ e'' ∙ ap (λ r. (r, s'')) split, p'')

  -- From a stream that begins with a head of at most 8192 bytes exactly this head is read, and what
  -- stands behind it is left.
  pub read_http_request-served :
      (head rest : Bytes) (s : S)
      → pending s ≡ head ++ rest
      → IsHead head
      → length head ≤ 8192
      → (s' : S) × (read_http_request sock s ≡ (head, s')) × (pending s' ≡ rest)
  unfolding read_http_request ends_head
  read_http_request-served head rest s p h few =
      read_request-served head [] rest 8192 s p nonempty h few
    where
      nonempty : head ≢ []
      nonempty e = let end = subst (λ z. ends_head z ≡ true) e h.ends in cc
