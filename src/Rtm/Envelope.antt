-- ===== src/Rtm/Envelope.antt =====
-- What the loop over the members of a message finds: each known name's only value.
use mybot.DeviceCommand.{
  Json, null, boolean, number, string, array, object, Members, end, member, Slot, field_at,
  get_string, is_string,
}
use mybot.DeviceCommand.Fields.{
  Collected, Collected-end, Collected-trans, Distinct, absent-Collected, distinct_lem, empty_slots,
  field_at_lem, found_values, names_kept, single, slot_names, values,
}
use mybot.DeviceCommand.Accept.{guarded, is_string_lem, some_injective}
use mybot.Rtm.Messages.{
  place_known, read_envelope, envelope_slots, envelope_content, rtm_json_contains_nul,
}
use mybot.Common.{
  Text, List, Option, none, some, [], ◌∷◌, ◌≡◌, refl, sym, ap, ◌∙◌, subst, All, codes, text_eq,
  eq_of_text_eq, append-nil, >>=_some, ◌>>=◌, Bool-cases, inl, inr, arith, true, false, is_empty,
  ◌||◌, not,
}

taken :
    (key : Text) (value : Json) (n : Text) (f : Option Json) (ss ts : List Slot)
    → text_eq key n ≡ true
    → place_known key value ((n, f) ∷ ss) ≡ some ts
    → (f ≡ none) × ((n, some value) ∷ ss ≡ ts)
unfolding place_known
taken key value n none ss ts t e = (refl, ground (arith, t, e))
taken key value n (some old) ss ts t e = absurd (ground (arith, t, e))

passed :
    (key : Text) (value : Json) (n : Text) (f : Option Json) (ss ts : List Slot)
    → text_eq key n ≡ false
    → place_known key value ((n, f) ∷ ss) ≡ some ts
    → (rest : List Slot) × (place_known key value ss ≡ some rest) × ((n, f) ∷ rest ≡ ts)
unfolding place_known
passed key value n f ss ts t e =
    let (rest, p, q) =
      >>=_some (place_known key value ss) {f = λ rest. some ((n, f) ∷ rest)} (by_test e) in
    (rest, p, ground (arith, q))
  where
    by_test :
        place_known key value ((n, f) ∷ ss) ≡ some ts
        → (place_known key value ss >>= λ rest. some ((n, f) ∷ rest)) ≡ some ts
    by_test e = ground (arith, t, e)

place_known_lem :
    (key : Text) (value : Json) (ss ts : List Slot)
    → Distinct (slot_names ss)
    → place_known key value ss ≡ some ts
    → Collected (single key value) ss ts
unfolding place_known values
place_known_lem key value [] ts d e = subst (Collected (single key value) []) (some_injective e) tt
place_known_lem key value ((n, f) ∷ ss) ts d e = elim (Bool-cases (text_eq key n)) [
  | inl t ↦
      let (free, same) = taken key value n f ss ts t e in
      let eq = eq_of_text_eq key n t in
      subst (Collected (single key value) ((n, f) ∷ ss)) same (
        refl,
        rw (free, t) refl,
        absent-Collected key value ss
            (subst (λ k. All (λ m. text_eq k m ≡ false) (slot_names ss)) (sym eq) d.0),
      )
  | inr t ↦
      let (rest, p, same) = passed key value n f ss ts t e in
      subst (Collected (single key value) ((n, f) ∷ ss)) same
        (refl, rw t (sym (append-nil (found_values f))), place_known_lem key value ss rest d.1 p)
]

nameless-Collected :
    (value : Json) (rest : Members) (ss ts : List Slot)
    → Collected rest ss ts
    → Collected (member none value rest) ss ts
unfolding values
nameless-Collected value rest [] [] c = tt
nameless-Collected value rest [] (t ∷ ts) c = absurd c
nameless-Collected value rest (s ∷ ss) [] c = absurd c
nameless-Collected value rest ((n, f) ∷ ss) ((m, g) ∷ ts) (a, b, c) =
    (a, b, nameless-Collected value rest ss ts c)

read_envelope_lem :
    (members : Members) (ss ts : List Slot)
    → Distinct (slot_names ss)
    → read_envelope members ss ≡ some ts
    → Collected members ss ts
unfolding read_envelope
read_envelope_lem end ss ts d e = subst (Collected end ss) (some_injective e) (Collected-end ss)
read_envelope_lem (member none value rest) ss ts d e =
    nameless-Collected value rest ss ts (read_envelope_lem rest ss ts d e)
read_envelope_lem (member (some key) value rest) ss ts d e =
    let (next, p, r) = >>=_some (place_known key value ss) e in
    let c = place_known_lem key value ss next d p in
    Collected-trans key value rest ss next ts c (
      read_envelope_lem rest next ts
        (subst Distinct (sym (names_kept (single key value) ss next c)) d) r)

-- `members` has each of the three names once, with these texts; other names are allowed.
pub record Envelope (members : Members) (content : Text) : Type 0 where
  pub kind : values (codes "object") members ≡ string (codes "message.user") ∷ []
  pub data_type : values (codes "data_type") members ≡ string (codes "message") ∷ []
  pub has_content : values (codes "content") members ≡ string content ∷ []

abbrev envelope_names : List Text
envelope_names = codes "object" ∷ codes "data_type" ∷ codes "content" ∷ []

envelope_names-Distinct : Distinct envelope_names
unfolding text_eq
envelope_names-Distinct = distinct_lem envelope_names refl

text_lem : (o : Option Json) (t : Text) → get_string o ≡ some t → found_values o ≡ string t ∷ []
text_lem none t e = absurd (ground (arith, e))
text_lem (some (string s)) t e = ap (λ u. string u ∷ []) (some_injective e)
text_lem (some null) t e = absurd (ground (arith, e))
text_lem (some (boolean b)) t e = absurd (ground (arith, e))
text_lem (some (number n)) t e = absurd (ground (arith, e))
text_lem (some (array ms)) t e = absurd (ground (arith, e))
text_lem (some (object ms)) t e = absurd (ground (arith, e))

pub envelope_lem :
    (members : Members) (slots : List Slot) (content : Text)
    → read_envelope members envelope_slots ≡ some slots
    → envelope_content slots ≡ some content
    → Envelope members content × ((is_empty content || rtm_json_contains_nul content) ≡ false)
unfolding envelope_content
envelope_lem members slots content s h =
    let found =
      read_envelope_lem members (empty_slots envelope_names) slots envelope_names-Distinct s in
    let (heads, rest) =
      guarded
        (not (is_string (field_at 0 slots) (codes "message.user"))
          || not (is_string (field_at 1 slots) (codes "message")))
        h in
    let (text, t, q) = >>=_some (get_string (field_at 2 slots)) rest in
    let (plain, same) = guarded (is_empty text || rtm_json_contains_nul text) q in
    let eq = some_injective same in
    (
      record {
        kind =
            sym (field_at_lem members envelope_names slots 0 (codes "object") found refl)
            ∙ is_string_lem (field_at 0 slots) (codes "message.user") (ground (arith, heads));
        data_type =
            sym (field_at_lem members envelope_names slots 1 (codes "data_type") found refl)
            ∙ is_string_lem (field_at 1 slots) (codes "message") (ground (arith, heads));
        has_content =
            sym (field_at_lem members envelope_names slots 2 (codes "content") found refl)
            ∙ text_lem (field_at 2 slots) content (t ∙ ap some eq);
      },
      subst (λ u. (is_empty u || rtm_json_contains_nul u) ≡ false) eq plain,
    )
