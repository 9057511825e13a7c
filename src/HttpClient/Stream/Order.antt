-- ===== src/HttpClient/Stream/Order.antt =====
-- `send_all` sends a request in order.
use mybot.HttpClient.Stream.{
  broken, would_block, interrupted, send_answer, Sent, count, SendRound, SendResult, sent_all,
  failed, underflow, send_all,
}
use mybot.Common.{
  length, ltb, ap, ◌∙◌, sym, take, drop, not, ℕ, if-keep, refl, ◌++◌, ◌∷◌, [], List, ◌≡◌, ◌≢◌, Text,
  Bool, take-append-drop, append_assoc,
}

Taken : Text → SendResult × Text → Type 0
Taken sent out = ((rest : Text) × (sent ≡ out.1 ++ rest)) × (out.0 ≡ sent_all → out.1 ≡ sent)

cut_short : (text : Text) (result : SendResult) → result ≢ sent_all → Taken text (result, [])
unfolding Taken
cut_short text result h = ((text, refl), λ e. absurd (h e))

-- What follows an answer keeps the property, if the rest of the loop has it.
answer_lem :
    (tls : Bool) (text : Text) (next : Text → SendResult × Text) (a : Sent)
    → ((t : Text) → Taken t (next t))
    → Taken text (send_answer tls text next a)
unfolding send_answer Taken
answer_lem tls text next interrupted h =
    if-keep (Taken text) tls (λ e. cut_short text failed (λ f. absurd (cc))) (λ e. h text)
answer_lem tls text next would_block h =
    if-keep (Taken text) tls (λ e. cut_short text failed (λ f. absurd (cc))) (λ e. h text)
answer_lem tls text next broken h = cut_short text failed (λ f. absurd (cc))
answer_lem tls text next (count n) h =
    if-keep (Taken text) (ltb (length text) n) (λ e. cut_short text underflow (λ f. absurd (cc)))
      (λ e. taken n text (next (drop n text)) (h (drop n text)))
  where
    taken :
        (n : ℕ) (text : Text) (out : SendResult × Text)
        → Taken (drop n text) out
        → Taken text (out.0, take n text ++ out.1)
    taken n text out ((rest, e), all) = (
      (
        rest,
        sym (take-append-drop n text)
            ∙ ap (λ t. take n text ++ t) e
            ∙ sym (append_assoc (take n text) out.1 rest),
      ),
      λ k. ap (λ t. take n text ++ t) (all k) ∙ take-append-drop n text,
    )

-- The bytes that the peer takes are a prefix of the request, in order and none twice, and all of it
-- where the loop succeeds.
pub send_all_lem :
    (tls : Bool) (rounds : List SendRound) (text : Text)
    → ((rest : Text) × (text ≡ (send_all tls rounds text).1 ++ rest))
      × ((send_all tls rounds text).0 ≡ sent_all → (send_all tls rounds text).1 ≡ text)
unfolding send_all Taken
send_all_lem tls rounds [] = (([], refl), λ e. refl)
send_all_lem tls [] (c ∷ cs) = cut_short (c ∷ cs) failed (λ f. absurd (cc))
send_all_lem tls (r ∷ rs) (c ∷ cs) =
    if-keep (Taken (c ∷ cs)) (not r.in_time) (λ e. cut_short (c ∷ cs) failed (λ f. absurd (cc)))
      (λ e. answer_lem tls (c ∷ cs) (send_all tls rs) r.answer (send_all_lem tls rs))
