-- ===== src/Rtm/Entries.antt =====
-- The array of command identifiers as a queue of the last 16.
use mybot.DeviceCommand.{DeviceCommand}
use mybot.Rtm.{history_size, set_entry, in_history}
use mybot.Common.{
  length-take, take-append_at, length-drop, ◌==◌, take_all, append_assoc, sym, Bool-cases, ap₂, ◌≤◌,
  append-nil, ◌%◌, zero, take-append-drop, refl, ◌∙◌, ◌||◌, length-append, ◌+◌, arith, [], take, ap,
  suc, ◌++◌, ◌<◌, length, ◌≡◌, ◌∷◌, drop, Text, List, ℕ, false, inl, inr,
}

-- The history, oldest entry first.
abbrev pub rotated : ℕ → List Text → List Text
rotated n h = drop n h ++ take n h

abbrev pub newest_first : List Text → List Text
newest_first [] = []
newest_first (t ∷ ts) = newest_first ts ++ (t ∷ [])

abbrev pub ids : List DeviceCommand → List Text
ids [] = []
ids (c ∷ cs) = c.command_id ∷ ids cs

snoc_lem : (ts : List Text) (t : Text) → newest_first (ts ++ (t ∷ [])) ≡ t ∷ newest_first ts
snoc_lem [] t = refl
snoc_lem (s ∷ ts) t = ap (λ u. u ++ (s ∷ [])) (snoc_lem ts t)

length-newest_first : (ts : List Text) → length (newest_first ts) ≡ length ts
length-newest_first [] = refl
length-newest_first (t ∷ ts) =
    length-append (newest_first ts) (t ∷ []) ∙ omega (arith, length-newest_first ts)

pub in_history-append :
    (id : Text) (a b : List Text) → in_history id (a ++ b) ≡ (in_history id a || in_history id b)
unfolding in_history
in_history-append id [] b = refl
in_history-append id (t ∷ a) b = ground (arith, in_history-append id a b)

pub in_history-newest_first :
    (id : Text) (ts : List Text) → in_history id (newest_first ts) ≡ in_history id ts
unfolding in_history
in_history-newest_first id [] = refl
in_history-newest_first id (t ∷ ts) =
    ground (arith, in_history-append id (newest_first ts) (t ∷ []), in_history-newest_first id ts)

pub in_history-rotated :
    (id : Text) (n : ℕ) (h : List Text) → in_history id (rotated n h) ≡ in_history id h
in_history-rotated id n h =
    let whole = ap (in_history id) (take-append-drop n h) in
    ground (
      arith,
      whole,
      in_history-append id (drop n h) (take n h),
      in_history-append id (take n h) (drop n h),
    )

take_set :
    (n : ℕ) (t : Text) (h : List Text)
    → n < length h
    → take (suc n) (set_entry n t h) ≡ take n h ++ (t ∷ [])
unfolding set_entry
take_set n t [] k = absurd (omega arith)
take_set zero t (x ∷ h) k = refl
take_set (suc n) t (x ∷ h) k = ap (λ u. x ∷ u) (take_set n t h (omega arith))

drop_set : (n : ℕ) (t : Text) (h : List Text) → drop (suc n) (set_entry n t h) ≡ drop (suc n) h
unfolding set_entry
drop_set n t [] = refl
drop_set zero t (x ∷ h) = refl
drop_set (suc n) t (x ∷ h) = drop_set n t h

pub length-set_entry : (n : ℕ) (t : Text) (h : List Text) → length (set_entry n t h) ≡ length h
unfolding set_entry
length-set_entry n t [] = refl
length-set_entry zero t (x ∷ h) = refl
length-set_entry (suc n) t (x ∷ h) = ap suc (length-set_entry n t h)

-- What is left when the oldest entry goes.
abbrev younger : ℕ → List Text → List Text
younger n h = drop (suc n) h ++ take n h

next_entry : (n : ℕ) (h : List Text) → n < length h → (t : Text) × (drop n h ≡ t ∷ drop (suc n) h)
next_entry n [] k = absurd (omega arith)
next_entry zero (x ∷ h) k = (x, refl)
next_entry (suc n) (x ∷ h) k = next_entry n h (omega arith)

oldest : (n : ℕ) (h : List Text) → n < length h → (t : Text) × (rotated n h ≡ t ∷ younger n h)
oldest n h k = let (t, e) = next_entry n h k in (t, ap (λ u. u ++ take n h) e)

none_left : (n : ℕ) (h : List Text) → length h ≤ n → drop n h ≡ []
none_left zero [] k = refl
none_left (suc n) [] k = refl
none_left zero (x ∷ h) k = absurd (omega arith)
none_left (suc n) (x ∷ h) k = none_left n h (omega arith)

inner :
    (n : ℕ) (t : Text) (h : List Text)
    → n < length h
    → rotated (suc n) (set_entry n t h) ≡ younger n h ++ (t ∷ [])
inner n t h k =
    ap₂ ◌++◌ (drop_set n t h) (take_set n t h k)
    ∙ sym (append_assoc (drop (suc n) h) (take n h) (t ∷ []))

-- At the end of the array the next entry is the first one.
wrapped :
    (n : ℕ) (t : Text) (h : List Text)
    → suc n ≡ length h
    → rotated 0 (set_entry n t h) ≡ younger n h ++ (t ∷ [])
wrapped n t h e =
    let k : n < length h = omega (arith, e) in
    append-nil (set_entry n t h)
    ∙ sym (take_all (set_entry n t h) (suc n) (omega (arith, e, length-set_entry n t h)))
    ∙ take_set n t h k
    ∙ ap (λ u. (u ++ take n h) ++ (t ∷ [])) (sym (none_left (suc n) h (omega (arith, e))))

rotated-set_entry :
    (n : ℕ) (t : Text) (h : List Text)
    → length h ≡ history_size
    → n < history_size
    → rotated ((n + 1) % history_size) (set_entry n t h) ≡ younger n h ++ (t ∷ [])
rotated-set_entry n t h e k = elim (Bool-cases (n == 15)) [
  | inl last ↦
      let at : n ≡ 15 = ground (arith, last) in
      let back : (n + 1) % history_size ≡ 0 = omega (arith, at) in
      rw back (wrapped n t h (omega (arith, at, e)))
  | inr inside ↦
      let at : n < 15 = ground (arith, inside, k) in
      let same : (n + 1) % history_size ≡ suc n = omega (arith, at) in
      rw same (inner n t h (omega (arith, e, k)))
]

take_prefix : (k : ℕ) (b : List Text) → take k (take (suc k) b) ≡ take k b
take_prefix zero b = refl
take_prefix (suc k) [] = refl
take_prefix (suc k) (x ∷ b) = ap (λ u. x ∷ u) (take_prefix k b)

take_init :
    (k : ℕ) (a b : List Text) (x : Text)
    → length a ≡ k
    → a ++ (x ∷ []) ≡ take (suc k) b
    → a ≡ take k b
take_init k a b x e h = sym (take-append_at a (x ∷ []) e) ∙ ap (take k) h ∙ take_prefix k b

length-younger : (n : ℕ) (h : List Text) → n < length h → suc (length (younger n h)) ≡ length h
length-younger n h k =
    omega (arith, length-append (drop (suc n) h) (take n h), length-drop (suc n) h, length-take n h)

-- The history after a new command.
pub remembered_ids :
    (n : ℕ) (id : Text) (h earlier : List Text)
    → length h ≡ history_size
    → n < history_size
    → newest_first (rotated n h) ≡ take history_size earlier
    → newest_first (rotated ((n + 1) % history_size) (set_entry n id h))
      ≡ take history_size (id ∷ earlier)
remembered_ids n id h earlier e k v =
    let (t, old) = oldest n h (omega (arith, e, k)) in
    let size : length (newest_first (younger n h)) ≡ 15 =
      omega
        (arith, length-newest_first (younger n h), length-younger n h (omega (arith, e, k)), e) in
    let kept =
      take_init 15 (newest_first (younger n h)) earlier t size (sym (ap newest_first old) ∙ v) in
    ap newest_first (rotated-set_entry n id h e k)
    ∙ snoc_lem (younger n h) id
    ∙ ap (λ u. id ∷ u) kept

pub fresh_prefix :
    (id : Text) (k : ℕ) (a b : List Text)
    → in_history id (take k (a ++ b)) ≡ false
    → in_history id (take k a) ≡ false
unfolding in_history
fresh_prefix id zero a b h = refl
fresh_prefix id (suc k) [] b h = refl
fresh_prefix id (suc k) (x ∷ a) b h = ground (arith, h, fresh_prefix id k a b)
