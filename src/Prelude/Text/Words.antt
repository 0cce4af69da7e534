-- ===== src/Prelude/Text/Words.antt =====
-- The words of a text, one after another.
use Prim.Native.Nat.{ℕ}
use mathlib.Core.Path.{◌≡◌, refl, ap, ◌∙◌}
use mathlib.Core.List.{[], ◌∷◌, ◌++◌, reverse, reverse_aux, reverse-reverse}
use rep_cxl.Prelude.Text.{Text}
use rep_cxl.Prelude.Text.Trim.{Visible, visible}
use rep_cxl.Prelude.Text.Search.{words_from, words}

words_from-word :
    (r : ℕ) (read word rest : Text)
    → Visible word
    → words_from (r ∷ read) (word ++ 32 ∷ rest) ≡ reverse (reverse_aux word (r ∷ read)) ∷ words rest
unfolding words_from words
words_from-word r read [] rest h = refl
words_from-word r read (c ∷ word) rest h =
    rw (words_from, visible c h.0) (words_from-word c (r ∷ read) word rest h.1)

-- A visible word is the first of the text that it begins.
pub words-word :
    (c : ℕ) (word rest : Text)
    → Visible (c ∷ word)
    → words ((c ∷ word) ++ 32 ∷ rest) ≡ (c ∷ word) ∷ words rest
unfolding words
words-word c word rest h =
    rw (words_from, visible c h.0)
      (words_from-word c [] word rest h.1 ∙ ap (λ w. w ∷ words rest) (reverse-reverse (c ∷ word)))
