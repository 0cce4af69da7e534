-- ===== src/Prelude/Text/Fields.antt =====
-- The fields of a text that was joined with a separator.
use Prim.Native.Nat.{ℕ}
use mathlib.Core.Path.{◌≡◌, refl}
use mathlib.Core.Bool.{false}
use mathlib.Core.List.{[], ◌∷◌, ◌++◌}
use mathlib.Core.Option.{some}
use rep_cxl.Prelude.Tests.{◌==◌, ==_iff}
use rep_cxl.Prelude.Lists.{All}
use rep_cxl.Prelude.Text.{Text, split_once, splitn}

abbrev pub Lacks : ℕ → Text → Type 0
Lacks sep = All (λ c. (c == sep) ≡ false)

pub split_once-field :
    (sep : ℕ) (field rest : Text)
    → Lacks sep field
    → split_once sep (field ++ sep ∷ rest) ≡ (field, some rest)
unfolding split_once
split_once-field sep [] rest h = rw ((==_iff sep sep).1 refl) refl
split_once-field sep (c ∷ field) rest h = rw (h.0, split_once-field sep field rest h.1) refl

-- Three fields, of which the first two lack the separator, are the parts that `splitn` finds.
pub splitn-fields :
    (sep : ℕ) (a b c : Text)
    → Lacks sep a
    → Lacks sep b
    → splitn 3 sep (a ++ sep ∷ (b ++ sep ∷ c)) ≡ a ∷ b ∷ c ∷ []
unfolding splitn
splitn-fields sep a b c h k =
    rw (split_once-field sep a (b ++ sep ∷ c) h, split_once-field sep b c k) refl
