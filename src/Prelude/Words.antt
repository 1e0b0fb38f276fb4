-- ===== src/Prelude/Words.antt =====
-- `str::split_whitespace`, on the characters of a text.
use Prim.Native.Nat.{ℕ}
use mathlib.Core.Path.{◌≡◌, refl}
use mathlib.Core.List.{List, [], ◌∷◌, ◌++◌}
use mathlib.Core.Bool.{Bool, true, false, not}
use native.Mathlib.Omega.{arith}
use codex_autoapprover.Prelude.Lists.{all}
use codex_autoapprover.Prelude.Tests.{if◌then◌else◌}
use codex_autoapprover.Prelude.Utf8.{is_whitespace}

-- A character in front of a word, or a word of its own.
onto_word : ℕ → List (List ℕ) → List (List ℕ)
onto_word c [] = (c ∷ []) ∷ []
onto_word c (word ∷ rest) = (c ∷ word) ∷ rest

attach : ℕ → List ℕ → List (List ℕ) → List (List ℕ)
unfolding onto_word
attach c [] rest = (c ∷ []) ∷ rest
attach c (d ∷ s) rest = if is_whitespace d then (c ∷ []) ∷ rest else onto_word c rest

unfoldable pub split_whitespace : List ℕ → List (List ℕ)
unfolding attach
split_whitespace [] = []
split_whitespace (c ∷ s) =
    let rest = split_whitespace s in if is_whitespace c then rest else attach c s rest

two_words : split_whitespace (32 ∷ 97 ∷ 98 ∷ 9 ∷ 99 ∷ 10 ∷ []) ≡ (97 ∷ 98 ∷ []) ∷ (99 ∷ []) ∷ []
unfolding split_whitespace is_whitespace
two_words = refl

-- The text is at its end or goes on with white space.
unfoldable pub is_break : List ℕ → Bool
is_break [] = true
is_break (c ∷ s) = is_whitespace c

split-break :
    (c : ℕ) (t : List ℕ)
    → is_whitespace c ≡ false
    → is_break t ≡ true
    → split_whitespace (c ∷ t) ≡ (c ∷ []) ∷ split_whitespace t
unfolding split_whitespace is_break
split-break c [] h b = rw h refl
split-break c (d ∷ t) h b = rw (h, b) refl

split-join :
    (c d : ℕ) (s w : List ℕ) (ws : List (List ℕ))
    → is_whitespace c ≡ false
    → is_whitespace d ≡ false
    → split_whitespace (d ∷ s) ≡ w ∷ ws
    → split_whitespace (c ∷ d ∷ s) ≡ (c ∷ w) ∷ ws
unfolding split_whitespace
split-join c d s w ws h k e = ground arith

-- A word in front of a break.
pub split_whitespace-word :
    (c : ℕ) (w t : List ℕ)
    → all (λ d. not (is_whitespace d)) (c ∷ w) ≡ true
    → is_break t ≡ true
    → split_whitespace ((c ∷ w) ++ t) ≡ (c ∷ w) ∷ split_whitespace t
split_whitespace-word c [] t h b = split-break c t (ground arith) b
split_whitespace-word c (d ∷ w) t h b =
    split-join c d (w ++ t) (d ∷ w) (split_whitespace t) (ground arith) (ground arith)
      (split_whitespace-word d w t (ground arith) b)

pub split_whitespace-space : (t : List ℕ) → split_whitespace (32 ∷ t) ≡ split_whitespace t
unfolding split_whitespace is_whitespace
split_whitespace-space t = refl
