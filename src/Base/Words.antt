-- ===== src/Base/Words.antt =====
-- `strings.Fields`, `strings.Split` at one byte and `strings.TrimSpace`, on ASCII text.
use Prim.Native.Nat.{ℕ}
use mathlib.Core.Path.{◌≡◌, refl, ap, sym, ◌∙◌}
use mathlib.Core.Logic.{◌≢◌, inl, inr}
use mathlib.Core.Bool.{false, ◌&&◌}
use mathlib.Core.List.{List, [], ◌∷◌, ◌++◌, append-nil, append_assoc}
use native.Mathlib.Omega.{arith}
use breckr.Base.Tests.{nat_eq, if◌then◌else◌, Bool-cases}
use breckr.Base.Lists.{All}
use breckr.Base.Texts.{Text, is_empty, is_space, trim_left, trim_right, trim_space, join}

-- The words of a text, after one that has been begun.
unfoldable pub fields_from : Text → Text → List Text
fields_from w [] = if is_empty w then [] else w ∷ []
fields_from w (c ∷ s) =
    let next = fields_from [] s in
    let longer = fields_from (w ++ c ∷ []) s in
    if is_space c then if is_empty w then next else w ∷ next else longer

unfoldable pub fields : Text → List Text
unfolding fields_from
fields s = fields_from [] s

unfoldable pub add_to_first : ℕ → List Text → List Text
add_to_first c [] = (c ∷ []) ∷ []
add_to_first c (w ∷ ws) = (c ∷ w) ∷ ws

unfoldable pub split : ℕ → Text → List Text
unfolding add_to_first
split sep [] = [] ∷ []
split sep (c ∷ s) =
    let rest = split sep s in if nat_eq c sep then [] ∷ rest else add_to_first c rest

abbrev pub NoSpace : Text → Type 0
NoSpace w = All (λ c. is_space c ≡ false) w

-- A word at the front of a text.
fields_from-word :
    (v w s : Text)
    → NoSpace w
    → is_empty (v ++ w) ≡ false
    → fields_from v (w ++ 32 ∷ s) ≡ (v ++ w) ∷ fields_from [] s
unfolding fields_from
fields_from-word v [] s h e = rw (append-nil v) (rw (ap is_empty (sym (append-nil v)) ∙ e) refl)
fields_from-word v (c ∷ w) s (h, hs) e = rw h (
    fields_from-word (v ++ c ∷ []) w s hs (ap is_empty (append_assoc v (c ∷ []) w) ∙ e)
    ∙ ap (λ u. u ∷ fields_from [] s) (append_assoc v (c ∷ []) w))

fields_from-last :
    (v w : Text) → NoSpace w → is_empty (v ++ w) ≡ false → fields_from v w ≡ (v ++ w) ∷ []
unfolding fields_from
fields_from-last v [] h e = ground (arith, append-nil v, e)
fields_from-last v (c ∷ w) (h, hs) e = rw h (
    fields_from-last (v ++ c ∷ []) w hs (ap is_empty (append_assoc v (c ∷ []) w) ∙ e)
    ∙ ap (λ u. u ∷ []) (append_assoc v (c ∷ []) w))

-- A word: not empty, and with no space.
pub record IsWord (w : Text) : Type 0 where
  pub some_letter : is_empty w ≡ false
  pub no_space : NoSpace w

pub fields-word : (w s : Text) → IsWord w → fields (w ++ 32 ∷ s) ≡ w ∷ fields s
unfolding fields
fields-word w s h = fields_from-word [] w s h.no_space h.some_letter

pub fields-last : (w : Text) → IsWord w → fields w ≡ w ∷ []
unfolding fields
fields-last w h = fields_from-last [] w h.no_space h.some_letter

-- Space round a text has no words.
fields_from-trim_left : (s : Text) → fields_from [] (trim_left s) ≡ fields_from [] s
unfolding fields_from trim_left
fields_from-trim_left [] = refl
fields_from-trim_left (c ∷ s) = ground (arith, fields_from-trim_left s)

fields_from-trim_right : (w s : Text) → fields_from w (trim_right s) ≡ fields_from w s
unfolding fields_from trim_right
fields_from-trim_right w [] = refl
fields_from-trim_right w (c ∷ s) =
    go (trim_right s) (fields_from-trim_right [] s) (fields_from-trim_right (w ++ c ∷ []) s)
  where
    go :
        (r : Text)
        → fields_from [] r ≡ fields_from [] s
        → fields_from (w ++ c ∷ []) r ≡ fields_from (w ++ c ∷ []) s
        → fields_from w (if is_empty r && is_space c then [] else c ∷ r) ≡ fields_from w (c ∷ s)
    go [] p q = elim (Bool-cases (is_space c)) [
      | inl e ↦ rw e (ground (arith, p))
      | inr e ↦ rw e (ground (arith, q))
    ]
    go (d ∷ r) p q = rw (p, q) refl

pub fields-trim_space : (s : Text) → fields (trim_space s) ≡ fields s
unfolding fields trim_space
fields-trim_space s = fields_from-trim_right [] (trim_left s) ∙ fields_from-trim_left s

-- What was joined is split again.
abbrev pub NoByte : ℕ → Text → Type 0
NoByte b s = All (λ c. c ≢ b) s

split-last : (b : ℕ) (s : Text) → NoByte b s → split b s ≡ s ∷ []
unfolding split
split-last b [] h = refl
split-last b (c ∷ s) (h, hs) = ground (arith, h, split-last b s hs)

split-append : (b : ℕ) (s t : Text) → NoByte b s → split b (s ++ b ∷ t) ≡ s ∷ split b t
unfolding split
split-append b [] t h = ground arith
split-append b (c ∷ s) t (h, hs) = ground (arith, h, split-append b s t hs)

pub split-join :
    (b : ℕ) (w : Text) (ws : List Text)
    → All (NoByte b) (w ∷ ws)
    → split b (join (w ∷ ws) (b ∷ [])) ≡ w ∷ ws
split-join b w [] (h, hs) = split-last b w h
split-join b w (v ∷ ws) (h, hs) =
    split-append b w (join (v ∷ ws) (b ∷ [])) h ∙ ap (λ us. w ∷ us) (split-join b v ws hs)
