-- ===== src/Base/Text.antt =====
-- Text as the bytes of its UTF-8 encoding, and the operations of Rust's `str` that the program calls.
use Prim.Native.Nat.{ℕ, suc}
use mathlib.Core.Option.{Option, none, some}
use mathlib.Core.Path.{◌≡◌, refl}
use mathlib.Core.Bool.{Bool, true, false, ◌&&◌, ◌||◌}
use mathlib.Core.List.{List, [], ◌∷◌, ◌++◌}
use native.Mathlib.Omega.{arith}
use mirror_mergiraf.Base.Tests.{leb, ◌==◌, if◌then◌else◌}

abbrev pub Text : Type 0
Text = List ℕ

abbrev pub lf : ℕ
lf = 10

abbrev pub cr : ℕ
cr = 13

-- `is_empty`, `==`, `contains` and `ends_with` with a character of one byte
abbrev pub is_empty : Text → Bool
is_empty [] = true
is_empty (_ ∷ _) = false

abbrev pub text_eq : Text → Text → Bool
text_eq [] [] = true
text_eq (a ∷ s) (b ∷ t) = a == b && text_eq s t
text_eq _ _ = false

abbrev pub contains : ℕ → Text → Bool
contains c [] = false
contains c (x ∷ t) = x == c || contains c t

abbrev pub ends_with : ℕ → Text → Bool
ends_with c [] = false
ends_with c (x ∷ []) = x == c
ends_with c (x ∷ y ∷ t) = ends_with c (y ∷ t)

-- White space of one, two and three bytes: the code points for which `char::is_whitespace` holds.
abbrev pub is_space_1 : ℕ → Bool
is_space_1 a = leb 9 a && leb a 13 || a == 32

abbrev pub is_space_2 : ℕ → ℕ → Bool
is_space_2 a b = a == 0xc2 && (b == 0x85 || b == 0xa0)

abbrev pub is_space_3 : ℕ → ℕ → ℕ → Bool
is_space_3 a b c =
    a == 0xe1 && b == 0x9a && c == 0x80
    || a == 0xe2
      && (b == 0x80 && (leb 0x80 c && leb c 0x8a || c == 0xa8 || c == 0xa9 || c == 0xaf)
          || b == 0x81 && c == 0x9f)
    || a == 0xe3 && b == 0x80 && c == 0x80

-- `text.trim().is_empty()`: nothing but white space
unfoldable pub is_blank : Text → Bool
is_blank [] = true
is_blank (a ∷ []) = is_space_1 a
is_blank (a ∷ b ∷ []) = is_space_1 a && is_space_1 b || is_space_2 a b
is_blank (a ∷ b ∷ c ∷ t) = elim (is_space_1 a) [
  | true ↦ is_blank (b ∷ c ∷ t)
  | false ↦ elim (is_space_2 a b) [
    | true ↦ is_blank (c ∷ t)
    | false ↦ is_space_3 a b c && is_blank t
  ]
]

pub text_eq_refl : (s : Text) → text_eq s s ≡ true
text_eq_refl [] = refl
text_eq_refl (a ∷ s) = ground (arith, text_eq_refl s)

pub eq_of_text_eq : (s t : Text) → text_eq s t ≡ true → s ≡ t
eq_of_text_eq [] [] h = refl
eq_of_text_eq [] (b ∷ t) h = ground arith
eq_of_text_eq (a ∷ s) [] h = ground arith
eq_of_text_eq (a ∷ s) (b ∷ t) h = ground (arith, eq_of_text_eq s t)

-- `text.split(c)` for a character of one byte: the first part and the others.
unfoldable pub split_parts : ℕ → Text → Text × List Text
split_parts c [] = ([], [])
split_parts c (x ∷ t) =
    let (first, rest) = split_parts c t in if x == c then ([], first ∷ rest) else (x ∷ first, rest)

unfoldable pub split : ℕ → Text → List Text
unfolding split_parts
split c t = (split_parts c t).0 ∷ (split_parts c t).1

-- `text.split("\r\n")`
unfoldable pub split_crlf_parts : Text → Text × List Text
split_crlf_parts [] = ([], [])
split_crlf_parts (x ∷ []) = (x ∷ [], [])
split_crlf_parts (x ∷ y ∷ t) = elim (x == cr && y == lf) [
  | true ↦ ([], (split_crlf_parts t).0 ∷ (split_crlf_parts t).1)
  | false ↦ (x ∷ (split_crlf_parts (y ∷ t)).0, (split_crlf_parts (y ∷ t)).1)
]

unfoldable pub split_crlf : Text → List Text
unfolding split_crlf_parts
split_crlf t = (split_crlf_parts t).0 ∷ (split_crlf_parts t).1

-- `text.replace("\r\n", "\n")`, and `text.replace(c, by)`
unfoldable pub replace_crlf : Text → Text
replace_crlf [] = []
replace_crlf (x ∷ []) = x ∷ []
replace_crlf (x ∷ y ∷ t) = elim (x == cr && y == lf) [
  | true ↦ lf ∷ replace_crlf t
  | false ↦ x ∷ replace_crlf (y ∷ t)
]

unfoldable pub replace : ℕ → Text → Text → Text
replace c by [] = []
replace c by (x ∷ t) = (if x == c then by else x ∷ []) ++ replace c by t

-- `text.rfind(c)` and `text.split_once(c)`
unfoldable pub rfind : ℕ → Text → Option ℕ
rfind c [] = none
rfind c (x ∷ t) = elim (rfind c t) [
  | some i ↦ some (suc i)
  | none ↦ if x == c then some 0 else none
]

abbrev cons_first : ℕ → Option (Text × Text) → Option (Text × Text)
cons_first x none = none
cons_first x (some (s, t)) = some (x ∷ s, t)

unfoldable pub split_once : ℕ → Text → Option (Text × Text)
split_once c [] = none
split_once c (x ∷ t) = if x == c then some ([], t) else cons_first x (split_once c t)

-- `text.trim_start()`, `text.trim_end()` and `text.trim()`
unfoldable pub trim_start : Text → Text
trim_start [] = []
trim_start (a ∷ []) = if is_space_1 a then [] else a ∷ []
trim_start (a ∷ b ∷ []) = elim (is_space_1 a) [
  | true ↦ trim_start (b ∷ [])
  | false ↦ if is_space_2 a b then [] else a ∷ b ∷ []
]
trim_start (a ∷ b ∷ c ∷ t) = elim (is_space_1 a) [
  | true ↦ trim_start (b ∷ c ∷ t)
  | false ↦ elim (is_space_2 a b) [
    | true ↦ trim_start (c ∷ t)
    | false ↦ elim (is_space_3 a b c) [ true ↦ trim_start t | false ↦ a ∷ b ∷ c ∷ t ]
  ]
]

unfoldable pub trim_end : Text → Text
unfolding is_blank
trim_end [] = []
trim_end (a ∷ t) = if is_blank (a ∷ t) then [] else a ∷ trim_end t

unfoldable pub trim : Text → Text
unfolding trim_start trim_end
trim t = trim_end (trim_start t)
