-- ===== src/DeviceCommand/Fields.antt =====
-- What `read_fields` finds: each name's only value.

use mybot.DeviceCommand.{
  null, array, string, number, boolean, all_seen, read_fields, object, field_at, Json, Slot, place,
  Members, read_members, end, member,
}
use mybot.Common.{
  not, zero, suc, map, ℕ, Bool-cases, inr, eq_of_text_eq, inl, ◌>>=◌, ◌||◌, ◌&&◌, subst,
  append_assoc, refl, >>=_some, ap, ap₂, append-nil, ◌∙◌, text_eq, ◌++◌, if◌then◌else◌, arith, [],
  All, ◌≡◌, sym, Bool, ◌∷◌, Text, List, Option, none, some, true, false,
}

-- The values of the members with a name, in order.
unfoldable pub values : Text → Members → List Json
values name end = []
values name (member none value rest) = values name rest
values name (member (some key) value rest) =
    if text_eq key name then value ∷ values name rest else values name rest

abbrev pub found_values : Option Json → List Json
found_values none = []
found_values (some value) = value ∷ []

abbrev pub is_known : Text → List Text → Bool
is_known key [] = false
is_known key (n ∷ ns) = text_eq key n || is_known key ns

-- Every member has one of the names.
unfoldable pub only_known : List Text → Members → Bool
only_known names end = true
only_known names (member none value rest) = false
only_known names (member (some key) value rest) = is_known key names && only_known names rest

abbrev pub Distinct : List Text → Type 0
Distinct [] = Unit
Distinct (n ∷ ns) = All (λ m. text_eq n m ≡ false) ns × Distinct ns

abbrev pub distinct : List Text → Bool
distinct [] = true
distinct (n ∷ ns) = not (is_known n ns) && distinct ns

unknown :
    (key : Text) (ns : List Text) → is_known key ns ≡ false → All (λ m. text_eq key m ≡ false) ns
unknown key [] h = tt
unknown key (n ∷ ns) h = (ground (arith, h), unknown key ns (ground (arith, h)))

pub distinct_lem : (ns : List Text) → distinct ns ≡ true → Distinct ns
distinct_lem [] h = tt
distinct_lem (n ∷ ns) h = (unknown n ns (ground (arith, h)), distinct_lem ns (ground (arith, h)))

abbrev pub slot_names : List Slot → List Text
slot_names [] = []
slot_names ((name, found) ∷ slots) = name ∷ slot_names slots

-- The second has the values of the members beside those of the first.
abbrev pub Collected : Members → List Slot → List Slot → Type 0
Collected members [] [] = Unit
Collected members [] (t ∷ ts) = ⊥
Collected members (s ∷ ss) [] = ⊥
Collected members ((n, f) ∷ ss) ((m, g) ∷ ts) =
    (m ≡ n) × (found_values g ≡ found_values f ++ values n members) × Collected members ss ts

pub Collected-end : (ss : List Slot) → Collected end ss ss
unfolding values
Collected-end [] = tt
Collected-end ((n, f) ∷ ss) = (refl, sym (append-nil (found_values f)), Collected-end ss)

abbrev pub single : Text → Json → Members
single key value = member (some key) value end

pub absent-Collected :
    (key : Text) (value : Json) (ss : List Slot)
    → All (λ n. text_eq key n ≡ false) (slot_names ss)
    → Collected (single key value) ss ss
unfolding values
absent-Collected key value [] h = tt
absent-Collected key value ((n, f) ∷ ss) h =
    (refl, rw h.0 (sym (append-nil (found_values f))), absent-Collected key value ss h.1)

taken :
    (key : Text) (value : Json) (n : Text) (f : Option Json) (ss ts : List Slot)
    → text_eq key n ≡ true
    → place key value ((n, f) ∷ ss) ≡ some ts
    → (f ≡ none) × ((n, some value) ∷ ss ≡ ts)
unfolding place
taken key value n none ss ts t e = (refl, ground (arith, t, e))
taken key value n (some old) ss ts t e = absurd (ground (arith, t, e))

passed :
    (key : Text) (value : Json) (n : Text) (f : Option Json) (ss ts : List Slot)
    → text_eq key n ≡ false
    → place key value ((n, f) ∷ ss) ≡ some ts
    → (rest : List Slot) × (place key value ss ≡ some rest) × ((n, f) ∷ rest ≡ ts)
unfolding place
passed key value n f ss ts t e =
    let (rest, p, q) =
      >>=_some (place key value ss) {f = λ rest. some ((n, f) ∷ rest)} (by_test e) in
    (rest, p, ground (arith, q))
  where
    by_test :
        place key value ((n, f) ∷ ss) ≡ some ts
        → (place key value ss >>= λ rest. some ((n, f) ∷ rest)) ≡ some ts
    by_test e = ground (arith, t, e)

place_lem :
    (key : Text) (value : Json) (ss ts : List Slot)
    → Distinct (slot_names ss)
    → place key value ss ≡ some ts
    → Collected (single key value) ss ts
unfolding place values
place_lem key value [] ts d e = absurd (ground (arith, e))
place_lem key value ((n, f) ∷ ss) ts d e = elim (Bool-cases (text_eq key n)) [
  | inl t ↦
      let (free, same) = taken key value n f ss ts t e in
      let eq = eq_of_text_eq key n t in
      subst (Collected (single key value) ((n, f) ∷ ss)) same (
        refl,
        rw (free, t) refl,
        absent-Collected key value ss
            (subst (λ k. All (λ m. text_eq k m ≡ false) (slot_names ss)) (sym eq) d.0),
      )
  | inr t ↦
      let (rest, p, same) = passed key value n f ss ts t e in
      subst (Collected (single key value) ((n, f) ∷ ss)) same
        (refl, rw t (sym (append-nil (found_values f))), place_lem key value ss rest d.1 p)
]

values_split :
    (name key : Text) (value : Json) (rest : Members)
    → values name (member (some key) value rest)
      ≡ values name (single key value) ++ values name rest
unfolding values
values_split name key value rest = ground arith

pub Collected-trans :
    (key : Text) (value : Json) (rest : Members) (ss ts us : List Slot)
    → Collected (single key value) ss ts
    → Collected rest ts us
    → Collected (member (some key) value rest) ss us
Collected-trans key value rest [] [] [] h k = tt
Collected-trans key value rest [] [] (u ∷ us) h k = k
Collected-trans key value rest [] (t ∷ ts) us h k = absurd h
Collected-trans key value rest (s ∷ ss) [] us h k = absurd h
Collected-trans key value rest (s ∷ ss) (t ∷ ts) [] h k = absurd k
Collected-trans key value rest ((n, f) ∷ ss) ((m, g) ∷ ts) ((l, o) ∷ us) (a, b, c) (x, y, z) = (
  x ∙ a,
  y
      ∙ ap (λ t. t ++ values m rest) b
      ∙ append_assoc (found_values f) (values n (single key value)) (values m rest)
      ∙ ap (λ t. found_values f ++ (values n (single key value) ++ values t rest)) a
      ∙ ap (λ t. found_values f ++ t) (sym (values_split n key value rest)),
  Collected-trans key value rest ss ts us c z,
)

pub names_kept :
    (members : Members) (ss ts : List Slot)
    → Collected members ss ts
    → slot_names ts ≡ slot_names ss
names_kept members [] [] h = refl
names_kept members [] (t ∷ ts) h = absurd h
names_kept members (s ∷ ss) [] h = absurd h
names_kept members ((n, f) ∷ ss) ((m, g) ∷ ts) (a, b, c) = ap₂ ◌∷◌ a (names_kept members ss ts c)

pub read_members_lem :
    (members : Members) (ss ts : List Slot)
    → Distinct (slot_names ss)
    → read_members members ss ≡ some ts
    → Collected members ss ts
unfolding read_members
read_members_lem end ss ts d e = subst (Collected end ss) (ground (arith, e)) (Collected-end ss)
read_members_lem (member none value rest) ss ts d e = absurd (ground (arith, e))
read_members_lem (member (some key) value rest) ss ts d e =
    let (next, p, r) = >>=_some (place key value ss) e in
    let c = place_lem key value ss next d p in
    Collected-trans key value rest ss next ts c (
      read_members_lem rest next ts
        (subst Distinct (sym (names_kept (single key value) ss next c)) d) r)

is_known-place :
    (key : Text) (value : Json) (ss ts : List Slot)
    → place key value ss ≡ some ts
    → is_known key (slot_names ss) ≡ true
unfolding place
is_known-place key value [] ts e = absurd (ground (arith, e))
is_known-place key value ((n, f) ∷ ss) ts e = elim (Bool-cases (text_eq key n)) [
  | inl t ↦ ground (arith, t)
  | inr t ↦
      let (rest, p, same) = passed key value n f ss ts t e in
      ground (arith, t, is_known-place key value ss rest p)
]

only_known-read :
    (members : Members) (ss ts : List Slot)
    → Distinct (slot_names ss)
    → read_members members ss ≡ some ts
    → only_known (slot_names ss) members ≡ true
unfolding read_members only_known
only_known-read end ss ts d e = refl
only_known-read (member none value rest) ss ts d e = absurd (ground (arith, e))
only_known-read (member (some key) value rest) ss ts d e =
    let (next, p, r) = >>=_some (place key value ss) e in
    let same = names_kept (single key value) ss next (place_lem key value ss next d p) in
    let later = only_known-read rest next ts (subst Distinct (sym same) d) r in
    ground (
      arith,
      is_known-place key value ss next p,
      subst (λ names. only_known names rest ≡ true) same later,
    )

abbrev pub name_at : ℕ → List Text → Option Text
name_at i [] = none
name_at zero (n ∷ ns) = some n
name_at (suc i) (n ∷ ns) = name_at i ns

abbrev pub empty_slots : List Text → List Slot
empty_slots names = map (λ name. (name, none)) names

slot_names-empty_slots : (names : List Text) → slot_names (empty_slots names) ≡ names
slot_names-empty_slots [] = refl
slot_names-empty_slots (n ∷ ns) = ap (λ t. n ∷ t) (slot_names-empty_slots ns)

pub field_at_lem :
    (members : Members) (names : List Text) (slots : List Slot) (i : ℕ) (name : Text)
    → Collected members (empty_slots names) slots
    → name_at i names ≡ some name
    → found_values (field_at i slots) ≡ values name members
unfolding field_at
field_at_lem members [] slots i name c e = absurd (ground (arith, e))
field_at_lem members (n ∷ ns) [] i name c e = absurd c
field_at_lem members (n ∷ ns) ((m, g) ∷ slots) zero name (a, b, c) e =
    b ∙ ap (λ t. values t members) (ground (arith, e))
field_at_lem members (n ∷ ns) ((m, g) ∷ slots) (suc i) name (a, b, c) e =
    field_at_lem members ns slots i name c e

-- A node with exactly the fields that `slots` has.
pub record Holds (names : List Text) (o : Option Json) (slots : List Slot) : Type 0 where
  pub members : Members
  pub node : o ≡ some (object members)
  pub known : only_known names members ≡ true
  pub at :
      (i : ℕ) (name : Text)
      → name_at i names ≡ some name
      → found_values (field_at i slots) ≡ values name members

object_Holds :
    (names : List Text) (required : ℕ) (ms : Members) (slots : List Slot)
    → Distinct names
    → read_fields names required (some (object ms)) ≡ some slots
    → Holds names (some (object ms)) slots
unfolding read_fields
object_Holds names required ms slots d e =
    let (ts, p, q) =
      >>=_some (read_members ms (empty_slots names))
        {f = λ slots. if all_seen required slots then some slots else none} e in
    let same : ts ≡ slots = ground (arith, q) in
    let r = p ∙ ap some same in
    let d' = subst Distinct (sym (slot_names-empty_slots names)) d in
    record {
      members = ms;
      node = refl;
      known =
          subst (λ ns. only_known ns ms ≡ true) (slot_names-empty_slots names)
            (only_known-read ms (empty_slots names) slots d' r);
      at = λ i name h.
          field_at_lem ms names slots i name (read_members_lem ms (empty_slots names) slots d' r) h;
    }

pub read_fields-Holds :
    (names : List Text) (required : ℕ) (o : Option Json) (slots : List Slot)
    → Distinct names
    → read_fields names required o ≡ some slots
    → Holds names o slots
unfolding read_fields
read_fields-Holds names required (some (object ms)) slots d e =
    object_Holds names required ms slots d e
read_fields-Holds names required none slots d e = absurd (ground (arith, e))
read_fields-Holds names required (some null) slots d e = absurd (ground (arith, e))
read_fields-Holds names required (some (boolean b)) slots d e = absurd (ground (arith, e))
read_fields-Holds names required (some (number n)) slots d e = absurd (ground (arith, e))
read_fields-Holds names required (some (string t)) slots d e = absurd (ground (arith, e))
read_fields-Holds names required (some (array ms)) slots d e = absurd (ground (arith, e))
