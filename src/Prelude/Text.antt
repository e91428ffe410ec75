-- ===== src/Prelude/Text.antt =====
-- The string operations of Rust's standard library that the program calls. A text is the list of
-- its characters; a prefix of one character at a time is the same as one of bytes, in UTF-8.
use Prim.Native.Nat.{ℕ}
use Prim.Native.Char.{Char, code}
use Prim.Native.String.{String, [], ◌∷◌, ◌++◌}
use mathlib.Core.Path.{◌≡◌, sym, ap₂, ◌∙◌}
use mathlib.Core.Logic.{◌↔◌, inl, inr}
use mathlib.Core.Bool.{Bool, true, false, ◌||◌, ◌&&◌}
use mathlib.Core.Option
use mathlib.Core.Option.{Option, none, some}
use mathlib.Core.List.{List, [], ◌∷◌}
use native.Mathlib.Omega.{arith}
use text.Mathlib.TextEquality.{Char-path, eq_iff}
use text.Mathlib.Text.{◌==◌}
use text.Mathlib.TextLemmas.{nil-append, cons-append}
use indexer_gateway_auth.Prelude.Basics.{nat_eq, leb, if◌then◌else◌, Bool-cases}

-- The bytes of an ASCII text.
abbrev pub codes : String → List ℕ
codes [] = []
codes (c ∷ s) = code c ∷ codes s

-- `s.strip_prefix(p)`
unfoldable pub strip_prefix : String → String → Option String
strip_prefix s [] = some s
strip_prefix [] (d ∷ p) = none
strip_prefix (c ∷ s) (d ∷ p) = if nat_eq (code c) (code d) then strip_prefix s p else none

-- `s.strip_suffix(c)` for one character.
unfoldable pub strip_suffix : String → ℕ → Option String
strip_suffix [] k = none
strip_suffix (c ∷ []) k = if nat_eq (code c) k then some [] else none
strip_suffix (c ∷ d ∷ s) k = Option.map (λ t. c ∷ t) (strip_suffix (d ∷ s) k)

-- Unicode's White_Space, by code point.
unfoldable pub is_whitespace : ℕ → Bool
is_whitespace c =
    (leb 0x9 c && leb c 0xd)
    || nat_eq c 0x20
    || nat_eq c 0x85
    || nat_eq c 0xa0
    || nat_eq c 0x1680
    || (leb 0x2000 c && leb c 0x200a)
    || (leb 0x2028 c && leb c 0x2029)
    || nat_eq c 0x202f
    || nat_eq c 0x205f
    || nat_eq c 0x3000

unfoldable pub trim_start : String → String
unfolding is_whitespace
trim_start [] = []
trim_start (c ∷ s) = let rest = trim_start s in if is_whitespace (code c) then rest else c ∷ s

-- A character that ends the text goes if it is white space.
push_front : Char → String → String
unfolding is_whitespace
push_front c [] = if is_whitespace (code c) then [] else c ∷ []
push_front c (d ∷ s) = c ∷ d ∷ s

unfoldable pub trim_end : String → String
unfolding push_front
trim_end [] = []
trim_end (c ∷ s) = push_front c (trim_end s)

unfoldable pub trim : String → String
unfolding trim_start trim_end
trim s = trim_end (trim_start s)

-- The word that is being read goes in front of the words after it, unless it is empty.
close_word : String → List String → List String
close_word [] words = words
close_word (c ∷ w) words = (c ∷ w) ∷ words

split_from : String → String → List String
unfolding close_word is_whitespace
split_from word [] = close_word word []
split_from word (c ∷ s) =
    let closed = close_word word (split_from [] s) in
    let longer = split_from (word ++ (c ∷ [])) s in
    if is_whitespace (code c) then closed else longer

-- `s.split_whitespace()`
unfoldable pub split_whitespace : String → List String
unfolding split_from
split_whitespace s = split_from [] s

-- `words.join(sep)`
unfoldable pub join : String → List String → String
join sep [] = []
join sep (w ∷ []) = w
join sep (w ∷ v ∷ ws) = w ++ (sep ++ join sep (v ∷ ws))

strip_prefix_sound : (s p r : String) → strip_prefix s p ≡ some r → s ≡ p ++ r
unfolding strip_prefix
strip_prefix_sound s [] r h = ground (arith, nil-append r)
strip_prefix_sound [] (d ∷ p) r h = cc
strip_prefix_sound (c ∷ s) (d ∷ p) r h = elim (Bool-cases (nat_eq (code c) (code d))) [
  | inl e ↦
      ap₂ {C = String} (λ a t. a ∷ t) (Char-path c d (ground arith))
        (strip_prefix_sound s p r (ground arith))
      ∙ sym (cons-append d p r)
  | inr e ↦ absurd (ground arith)
]

strip_prefix-append : (p r : String) → strip_prefix (p ++ r) p ≡ some r
unfolding strip_prefix
strip_prefix-append [] r = rw nil-append
strip_prefix-append (d ∷ p) r = rw cons-append (ground (arith, strip_prefix-append p r))

-- A prefix is stripped exactly from the texts that begin with it, and what is left is the rest.
pub strip_prefix-eq-some : (s p r : String) → (strip_prefix s p ≡ some r) ↔ (s ≡ p ++ r)
strip_prefix-eq-some s p r = (strip_prefix_sound s p r, λ e. rw e (strip_prefix-append p r))

-- `option.as_deref() == Some(text)`
abbrev pub is_some_of : Option String → String → Bool
is_some_of none text = false
is_some_of (some s) text = s == text

pub is_some_of_iff : (o : Option String) (s : String) → (is_some_of o s ≡ true) ↔ (o ≡ some s)
is_some_of_iff none s = (λ h. cc, λ h. cc)
is_some_of_iff (some t) s = ground (arith, eq_iff t s)
