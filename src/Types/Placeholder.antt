-- ===== src/Types/Placeholder.antt =====
-- server/internal/types/constants.go: the patterns of the placeholders in a message, on ASCII text.
use breckr.Base.{
  Text, codes, ℕ, zero, suc, ◌+◌, ◌-◌, Bool, ◌&&◌, ◌||◌, not, if◌then◌else◌, Option, none, some,
  List, [], ◌∷◌, ◌++◌, nat_eq, leb, is_empty, is_digit, all, length,
}

-- `\s` of regexp, which leaves out the vertical tab, and `\w`.
abbrev pub is_blank : ℕ → Bool
is_blank c = nat_eq c 32 || nat_eq c 9 || nat_eq c 10 || nat_eq c 12 || nat_eq c 13

abbrev pub is_word : ℕ → Bool
is_word c = is_digit c || (leb 65 c && leb c 90) || (leb 97 c && leb c 122) || nat_eq c 95

-- The longest beginning that passes a test, and what follows it.
unfoldable pub span : (ℕ → Bool) → Text → Text × Text
span p [] = ([], [])
span p (c ∷ s) = let (taken, left) = span p s in if p c then (c ∷ taken, left) else ([], c ∷ s)

-- A match: its length, and the name in it.
unfoldable pub close : Text → ℕ → Text → Option (ℕ × Text)
close name before (a ∷ b ∷ s) =
    if not (is_empty name) && nat_eq a 125 && nat_eq b 125 then some (before + 2, name) else none
close name before _ = none

unfoldable pub match_inside : Text → Option (ℕ × Text)
unfolding span close
match_inside s =
    let (blanks, after_blanks) = span is_blank s in
    let (name, after_name) = span is_word after_blanks in
    let (more, left) = span is_blank after_name in
    close name (2 + length blanks + length name + length more) left

-- `MessagePlaceholderPattern` at the front of a text.
unfoldable pub match_here : Text → Option (ℕ × Text)
unfolding match_inside
match_here (a ∷ b ∷ s) = if nat_eq a 123 && nat_eq b 123 then match_inside s else none
match_here _ = none

unfoldable pub first_bytes : ℕ → Text → Text
first_bytes zero s = []
first_bytes (suc n) [] = []
first_bytes (suc n) (c ∷ s) = c ∷ first_bytes n s

-- A text as the matches in it, each with its name, and the bytes between them.
pub data Segment : Type 0 where
  letter : ℕ → Segment
  placeholder : Text → Text → Segment

-- The matches from left to right, none over another: the rest of a match is skipped.
unfoldable pub segments : ℕ → Text → List Segment
unfolding match_here first_bytes
segments skip [] = []
segments (suc skip) (c ∷ s) = segments skip s
segments zero (c ∷ s) = elim (match_here (c ∷ s)) [
  | none ↦ letter c ∷ segments zero s
  | some (n, name) ↦ placeholder (first_bytes n (c ∷ s)) name ∷ segments (n - 1) s
]

-- `FindAllStringSubmatch`: the names.
unfoldable pub names_of : List Segment → List Text
names_of [] = []
names_of (letter c ∷ gs) = names_of gs
names_of (placeholder whole name ∷ gs) = name ∷ names_of gs

unfoldable pub find_all : Text → List Text
unfolding names_of segments
find_all s = names_of (segments zero s)

-- `ReplaceAllStringFunc`, with a function of the match and its name.
unfoldable pub replace_in : (Text → Text → Text) → List Segment → Text
replace_in f [] = []
replace_in f (letter c ∷ gs) = c ∷ replace_in f gs
replace_in f (placeholder whole name ∷ gs) = f whole name ++ replace_in f gs

unfoldable pub replace_all : (Text → Text → Text) → Text → Text
unfolding replace_in segments
replace_all f s = replace_in f (segments zero s)

-- The digits of `IndexedPlaceholderPattern`: no leading zero.
unfoldable pub index_digits : Text → Option Text
index_digits [] = none
index_digits (c ∷ s) = if leb 49 c && leb c 57 && all is_digit s then some (c ∷ s) else none

-- What follows a prefix.
unfoldable pub after : Text → Text → Option Text
after [] s = some s
after (c ∷ p) [] = none
after (c ∷ p) (d ∷ s) = let rest = after p s in if nat_eq c d then rest else none

-- `IndexedPlaceholderPattern`: the digits after "value" or "raw".
unfoldable pub indexed : Text → Option Text
unfolding index_digits after
indexed name = elim (after (codes "value") name) [
  | some s ↦ index_digits s
  | none ↦ elim (after (codes "raw") name) [ some s ↦ index_digits s | none ↦ none ]
]

abbrev pub message_placeholders : List Text
message_placeholders = codes "value" ∷ codes "raw" ∷ codes "url" ∷ codes "name" ∷ []
