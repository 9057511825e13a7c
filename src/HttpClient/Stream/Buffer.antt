-- ===== src/HttpClient/Stream/Buffer.antt =====
-- The receive buffer stays in its bounds and holds what arrived, in order.
use mybot.HttpClient.Stream.{
  broken, closed, would_block, Received, bytes, ReadRound, buf_size, buf_max, next_size,
  read_answer, read_loop, read_all,
}
use mybot.HttpClient.Complete.{response_complete}
use mybot.Common.{
  ◌/◌, ◌⊎◌, ◌∙◌, inr, refl, ◌&&◌, take, arith, subst, ◌≤◌, not, suc, ◌-◌, ◌++◌, if-keep, sym, ◌<◌,
  ◌≡◌, ltb, Option, some, ◌∷◌, false, length, [], true, none, List, Text, Bool, ℕ, append_assoc,
  append-nil, length-append,
}

-- The bytes that the rounds bring.
unfoldable pub received : Received → Text
received (bytes new) = new
received would_block = []
received closed = []
received broken = []

unfoldable pub arrived : List ReadRound → Text
arrived [] = []
arrived (r ∷ rs) = received r.answer ++ arrived rs

-- A buffer of `size` bytes with room for the final zero; only at the largest size can it be full.
InBounds : ℕ → Text → Type 0
InBounds size buf =
    (length buf < size) × (size ≤ buf_max) × ((size ≡ buf_max) ⊎ (buf_size / 2 ≤ size - length buf))

-- The result is the buffer and what some first rounds bring, and fits the largest buffer.
Holds : List ReadRound → Text → Option (Text × Bool) → Type 0
Holds rounds buf none = Unit
Holds rounds buf (some out) =
    ((n : ℕ) × (out.0 ≡ buf ++ arrived (take n rounds))) × (length out.0 < buf_max)

next_size-InBounds :
    (size : ℕ) (buf new : Text)
    → InBounds size buf
    → ltb (size - length buf - 1) (length new) ≡ false
    → InBounds (next_size size (length (buf ++ new))).0 (buf ++ new)
unfolding InBounds next_size
next_size-InBounds size buf new h e = ground (arith, length-append buf new)

stop_here :
    (rounds : List ReadRound) (size : ℕ) (buf : Text) (shut : Bool)
    → InBounds size buf
    → Holds rounds buf (some (buf, shut))
unfolding Holds InBounds arrived
stop_here rounds size buf c h = ((0, sym (append-nil buf)), omega (arith, h.0, h.1))

-- The rounds after the first.
later :
    (r : ReadRound) (rs : List ReadRound) (buf : Text) (out : Option (Text × Bool))
    → Holds rs (buf ++ received r.answer) out
    → Holds (r ∷ rs) buf out
unfolding Holds arrived
later r rs buf none h = tt
later r rs buf (some out) ((n, e), fits) =
    ((suc n, e ∙ append_assoc buf (received r.answer) (arrived (take n rs))), fits)

no_result : (rounds : List ReadRound) (buf : Text) → Holds rounds buf none
unfolding Holds
no_result rounds buf = tt

module _ (r : ReadRound) (rs : List ReadRound) (next : ℕ → Text → Option (Text × Bool))
    (h : (size : ℕ) (buf : Text) → InBounds size buf → Holds rs buf (next size buf)) where
  after_bytes :
      (tls : Bool) (size : ℕ) (buf new : Text)
      → r.answer ≡ bytes new
      → InBounds size buf
      → Holds (r ∷ rs) buf (read_answer tls r.grown next size buf (bytes new))
  unfolding read_answer received
  after_bytes tls size buf new e v =
      if-keep (Holds (r ∷ rs) buf) (ltb (size - length buf - 1) (length new)) (λ t. nothing)
        (λ t.
          let v' = next_size-InBounds size buf new v t in
          let grow = moved (next size' (buf ++ new)) (h size' (buf ++ new) v') in
          if-keep (Holds (r ∷ rs) buf) (response_complete (buf ++ new))
            (λ k. moved (some (buf ++ new, false)) (stop_here rs size' (buf ++ new) false v'))
            (λ k.
              if-keep (Holds (r ∷ rs) buf) ((next_size size (length (buf ++ new))).1 && not r.grown)
                (λ k. nothing) (λ k. grow)))
    where
      size' : ℕ
      size' = (next_size size (length (buf ++ new))).0

      nothing : Holds (r ∷ rs) buf none
      nothing = no_result (r ∷ rs) buf

      moved : (out : Option (Text × Bool)) → Holds rs (buf ++ new) out → Holds (r ∷ rs) buf out
      moved out k = later r rs buf out (subst (λ a. Holds rs (buf ++ received a) out) (sym e) k)

  after_answer :
      (tls : Bool) (size : ℕ) (buf : Text) (a : Received)
      → r.answer ≡ a
      → InBounds size buf
      → Holds (r ∷ rs) buf (read_answer tls r.grown next size buf a)
  unfolding read_answer received
  after_answer tls size buf closed e v = stop_here (r ∷ rs) size buf true v
  after_answer tls size buf broken e v = no_result (r ∷ rs) buf
  after_answer tls size buf (bytes new) e v = after_bytes tls size buf new e v
  after_answer tls size buf would_block e v =
      if-keep (Holds (r ∷ rs) buf) tls (λ t. no_result (r ∷ rs) buf)
        (λ t. later r rs buf (next size buf) (
          subst (λ a. Holds rs (buf ++ received a) (next size buf)) (sym e)
            (subst (λ b. Holds rs b (next size buf)) (sym (append-nil buf)) (h size buf v))))

read_loop-Holds :
    (tls : Bool) (rounds : List ReadRound) (size : ℕ) (buf : Text)
    → InBounds size buf
    → Holds rounds buf (read_loop tls rounds size buf)
unfolding read_loop
read_loop-Holds tls [] size buf v = stop_here [] size buf false v
read_loop-Holds tls (r ∷ rs) size buf v =
    if-keep (Holds (r ∷ rs) buf) (not r.in_time) (λ t. stop_here (r ∷ rs) size buf false v)
      (λ t.
        after_answer r rs (read_loop tls rs) (read_loop-Holds tls rs) tls size buf r.answer refl v)

-- A response that is read is what the first rounds brought, in order, and is shorter than the largest
-- buffer, so that its final zero fits.
pub read_all_lem :
    (tls : Bool) (rounds : List ReadRound) {out : Text} {shut : Bool}
    → read_all true tls rounds ≡ some (out, shut)
    → ((n : ℕ) × (out ≡ arrived (take n rounds))) × (length out < buf_max)
unfolding read_all Holds InBounds
read_all_lem tls rounds {out} {shut} e =
    subst (Holds rounds []) e (read_loop-Holds tls rounds buf_size [] start)
  where
    start : InBounds buf_size []
    start = (omega arith, omega arith, inr (omega arith))
