-- ===== src/Prelude/Text.antt =====
-- The functions of strings and strconv that the program calls, over the code points of a text.
use mathlib.Core.List.{reverse, reverse-append, reverse-reverse}
use yyb_go.Prelude.Map.{Eq}
use yyb_go.Prelude.{
  ◌/◌, ◌%◌, ◌↔◌, ==_iff, and_split, and_join, ℕ, ◌+◌, ◌-◌, ◌*◌, ◌^◌, ◌≡◌, refl, Bool, true, false,
  ◌&&◌, ◌||◌, List, [], ◌∷◌, ◌++◌, Option, none, some, arith, length, All, All-append, append-nil,
  append_assoc, Bool-cases, inl, inr, ap, sym, ◌∙◌, ◌<◌, Bytes, ltb, leb, ◌==◌, if◌then◌else◌,
}

-- A text is the list of its code points.
abbrev pub Text : Type 0
Text = Bytes

-- unicode.IsSpace
unfoldable pub is_space : ℕ → Bool
is_space c =
    leb 9 c && leb c 13
    || (c == 0x20 || c == 0x85 || c == 0xa0 || c == 0x1680 || leb 0x2000 c && leb c 0x200a)
    || (c == 0x2028 || c == 0x2029 || c == 0x202f || c == 0x205f || c == 0x3000)

abbrev pub flush : Text → List Text
flush [] = []
flush (c ∷ cur) = (c ∷ cur) ∷ []

-- strings.Fields: the runs of code points that are no space.
unfoldable pub fields_from : Text → Text → List Text
fields_from [] cur = flush cur
fields_from (c ∷ s) cur = elim (is_space c) [
  | true ↦ flush cur ++ fields_from s []
  | false ↦ fields_from s (cur ++ c ∷ [])
]

unfoldable pub fields : Text → List Text
unfolding fields_from is_space
fields s = fields_from s []

-- strings.Join
unfoldable pub join : List Text → Text → Text
join [] sep = []
join (p ∷ []) sep = p
join (p ∷ q ∷ ps) sep = p ++ (sep ++ join (q ∷ ps) sep)

-- strings.Split at one code point.
split_from : Text → ℕ → Text → List Text
split_from [] sep cur = cur ∷ []
split_from (c ∷ s) sep cur = elim (c == sep) [
  | true ↦ cur ∷ split_from s sep []
  | false ↦ split_from s sep (cur ++ c ∷ [])
]

unfoldable pub split : Text → ℕ → List Text
unfolding split_from
split s sep = split_from s sep []

-- The parts before and behind the first occurrence: strings.IndexByte, or strings.SplitN with 2.
unfoldable pub cut : Text → ℕ → Option (Text × Text)
cut [] sep = none
cut (c ∷ s) sep =
    if c == sep
    then some ([], s)
    else (elim (cut s sep) [ none ↦ none | some (front, back) ↦ some (c ∷ front, back) ])

unfoldable pub text_eq : Text → Text → Bool
text_eq [] [] = true
text_eq [] (d ∷ t) = false
text_eq (c ∷ s) [] = false
text_eq (c ∷ s) (d ∷ t) = c == d && text_eq s t

-- An int; `negsuc n` is -(n + 1).
pub data ℤ : Type 0 where
  pos : ℕ → ℤ
  negsuc : ℕ → ℤ

unfoldable pub digits_value : Text → ℕ → Option ℕ
digits_value [] n = some n
digits_value (c ∷ s) n =
    let rest = digits_value s (n * 10 + (c - b'0')) in
    if leb b'0' c && leb c b'9' then rest else none

unsigned : Text → Option ℕ
unfolding digits_value
unsigned [] = none
unsigned (c ∷ s) = digits_value (c ∷ s) 0

in_range : Bool → Option ℕ → Option ℤ
in_range negative none = none
in_range false (some n) = if ltb n (2 ^ 63) then some (pos n) else none
in_range true (some n) =
    if leb n (2 ^ 63) then (if n == 0 then some (pos 0) else some (negsuc (n - 1))) else none

-- strconv.Atoi: an optional sign and decimal digits, in the range of a 64-bit int.
unfoldable pub atoi : Text → Option ℤ
unfolding unsigned in_range
atoi [] = none
atoi (c ∷ s) =
    if c == b'-'
    then in_range true (unsigned s)
    else if c == b'+'
    then in_range false (unsigned s)
    else in_range false (unsigned (c ∷ s))

pub split-ne-nil : (s : Text) (sep : ℕ) → 0 < length (split s sep)
unfolding split
split-ne-nil s sep = go s []
  where
    go : (s cur : Text) → 0 < length (split_from s sep cur)
    go [] cur = omega arith
    go (c ∷ s) cur = ground (arith, go s (cur ++ c ∷ []))

-- A text that `strings.Fields` would return.
abbrev pub IsWord : Text → Type 0
IsWord w = (0 < length w) × All (λ (c : ℕ). is_space c ≡ false) w

flush-IsWord : (cur : Text) → All (λ (c : ℕ). is_space c ≡ false) cur → All IsWord (flush cur)
flush-IsWord [] h = tt
flush-IsWord (c ∷ cur) h = ((omega arith, h), tt)

fields_from-IsWord :
    (s cur : Text) → All (λ (c : ℕ). is_space c ≡ false) cur → All IsWord (fields_from s cur)
unfolding fields_from
fields_from-IsWord [] cur h = flush-IsWord cur h
fields_from-IsWord (c ∷ s) cur h = elim (Bool-cases (is_space c)) [
  | inl space ↦
      rw (space, fields_from)
        (All-append IsWord (flush cur) (fields_from s []) (flush-IsWord cur h)
          (fields_from-IsWord s [] tt))
  | inr other ↦
      rw (other, fields_from)
        (fields_from-IsWord s (cur ++ c ∷ []) (All-append _ cur (c ∷ []) h (other, tt)))
]

pub fields-IsWord : (s : Text) → All IsWord (fields s)
unfolding fields
fields-IsWord s = fields_from-IsWord s [] tt

fields_from-word :
    (w rest cur : Text)
    → All (λ (c : ℕ). is_space c ≡ false) w
    → fields_from (w ++ rest) cur ≡ fields_from rest (cur ++ w)
unfolding fields_from
fields_from-word [] rest cur h = rw append-nil
fields_from-word (c ∷ w) rest cur (hc, h) =
    rw (hc, fields_from)
      (fields_from-word w rest (cur ++ c ∷ []) h
        ∙ ap (fields_from rest) (append_assoc cur (c ∷ []) w))

flush_word : (w : Text) → 0 < length w → flush w ≡ w ∷ []
flush_word [] h = absurd (omega arith)
flush_word (c ∷ w) h = refl

at_space : (rest cur : Text) → fields_from (b' ' ∷ rest) cur ≡ flush cur ++ fields_from rest []
unfolding fields_from is_space
at_space rest cur = refl

fields_from-join : (ps : List Text) → All IsWord ps → fields_from (join ps (b' ' ∷ [])) [] ≡ ps
unfolding join
fields_from-join [] h = unfold fields_from in refl
fields_from-join (p ∷ []) ((pos_len, hp), _) =
    ap (λ (x : Text). fields_from x []) (sym (append-nil p))
    ∙ fields_from-word p [] [] hp
    ∙ (unfold fields_from in flush_word p pos_len)
fields_from-join (p ∷ q ∷ ps) ((pos_len, hp), h) =
    fields_from-word p (b' ' ∷ join (q ∷ ps) (b' ' ∷ [])) [] hp
    ∙ at_space (join (q ∷ ps) (b' ' ∷ [])) p
    ∙ rw (flush_word p pos_len, fields_from-join (q ∷ ps) h)

-- Words with one space between them are found again.
pub fields-join : (ps : List Text) → All IsWord ps → fields (join ps (b' ' ∷ [])) ≡ ps
unfolding fields
fields-join ps h = fields_from-join ps h

pub text_eq_iff : (s t : Text) → (text_eq s t ≡ true) ↔ (s ≡ t)
unfolding text_eq
text_eq_iff [] [] = (λ _. refl, λ _. refl)
text_eq_iff [] (d ∷ t) = (λ h. absurd (cc), λ h. absurd (cc))
text_eq_iff (c ∷ s) [] = (λ h. absurd (cc), λ h. absurd (cc))
text_eq_iff (c ∷ s) (d ∷ t) = (
  λ h. ground (arith, ==_iff c d, text_eq_iff s t),
  λ h. ground (arith, ==_iff c d, text_eq_iff s t),
)

instance abbrev pub text_eq_instance : Eq Text
text_eq_instance = record { beq = text_eq; beq_iff = text_eq_iff }

-- strings.HasPrefix
unfoldable pub has_prefix : Text → Text → Bool
has_prefix s [] = true
has_prefix [] (d ∷ p) = false
has_prefix (c ∷ s) (d ∷ p) = c == d && has_prefix s p

pub has_prefix_iff : (s p : Text) → (has_prefix s p ≡ true) ↔ ((rest : Text) × (s ≡ p ++ rest))
unfolding has_prefix
has_prefix_iff s [] = (λ _. (s, refl), λ _. refl)
has_prefix_iff [] (d ∷ p) = (λ h. absurd (cc), λ (rest, h). absurd (cc))
has_prefix_iff (c ∷ s) (d ∷ p) = (
  λ h.
      let (same, tail_prefix) = and_split (c == d) (has_prefix s p) h in
      let (rest, e) = (has_prefix_iff s p).0 tail_prefix in (rest, ground (arith, ==_iff c d)),
  λ (rest, h).
      and_join (c == d) (has_prefix s p) ((==_iff c d).1 (cc)) ((has_prefix_iff s p).1 (rest, cc)),
)

trim_left : Text → Text
unfolding is_space
trim_left [] = []
trim_left (c ∷ s) = let rest = trim_left s in if is_space c then rest else c ∷ s

-- strings.TrimSpace
unfoldable pub trim_space : Text → Text
unfolding trim_left
trim_space s = reverse (trim_left (reverse (trim_left s)))

hex_digit : ℕ → ℕ
hex_digit n = if ltb n 10 then b'0' + n else b'A' + (n - 10)

is_unreserved : ℕ → Bool
is_unreserved c =
    leb b'a' c && leb c b'z'
    || (leb b'A' c && leb c b'Z' || leb b'0' c && leb c b'9')
    || (c == b'-' || (c == b'_' || (c == b'.' || c == b'~')))

-- url.QueryEscape, over bytes.
unfoldable pub query_escape : Text → Text
unfolding hex_digit is_unreserved
query_escape [] = []
query_escape (c ∷ s) =
    let rest = query_escape s in
    if is_unreserved c
    then c ∷ rest
    else if c == b' '
    then b'+' ∷ rest
    else b'%' ∷ hex_digit (c / 16) ∷ hex_digit (c % 16) ∷ rest

-- A text with no space at either end.
pub trim_space-kept :
    (c d : ℕ) (m : Text)
    → is_space c ≡ false
    → is_space d ≡ false
    → trim_space (c ∷ (m ++ d ∷ [])) ≡ c ∷ (m ++ d ∷ [])
unfolding trim_space
trim_space-kept c d m hc hd =
    ap (λ t. reverse (trim_left (reverse t))) (trim_left-kept c (m ++ d ∷ []) hc)
    ∙ ap (λ t. reverse (trim_left t)) (reverse-append (c ∷ m) (d ∷ []))
    ∙ ap reverse (trim_left-kept d (reverse (c ∷ m)) hd)
    ∙ ap reverse (sym (reverse-append (c ∷ m) (d ∷ [])))
    ∙ reverse-reverse (c ∷ (m ++ d ∷ []))
  where
    trim_left-kept : (c : ℕ) (s : Text) → is_space c ≡ false → trim_left (c ∷ s) ≡ c ∷ s
    trim_left-kept c s h = rw h refl
