-- ===== src/Ycsb/Malformed.antt =====
-- Which trace files make the parser of src/utils/ycsb.rs panic.
use Prim.Native.Nat.{ℕ, suc, ◌+◌, ◌≤◌, ◌<◌}
use rep_cxl.Prelude.{
  le→leb, lt→leb, ◌≡◌, refl, ◌⊎◌, inl, inr, ◌↔◌, if◌then◌else◌, Bool-cases, Option, List, [], ◌∷◌,
  length, arith,
}
use rep_cxl.Prelude.Run.{panic}
use rep_cxl.Prelude.Text.{Text, lines}
use rep_cxl.Ycsb.{
  is_delimiter, drop, before_delimiter, parse_properties, parse_operations, parse_ycsb_trace,
}

-- How many lines contain a delimiter.
abbrev pub delimiters : List Text → ℕ
delimiters [] = 0
delimiters (l ∷ ls) = if is_delimiter l then suc (delimiters ls) else delimiters ls

-- The lines before the first delimiter, and what follows it.
abbrev Opened : List Text → Type 0
Opened ls =
    ((delimiters ls ≡ 0) × (length (before_delimiter ls) ≡ length ls))
    ⊎ ((suc (delimiters (drop (length (before_delimiter ls) + 1) ls)) ≡ delimiters ls)
        × (length (before_delimiter ls) + 1 + length (drop (length (before_delimiter ls) + 1) ls)
            ≡ length ls))

opened : (ls : List Text) → Opened ls
unfolding before_delimiter
opened [] = inl (refl, refl)
opened (l ∷ ls) = elim (Bool-cases (is_delimiter l)) [
  | inl marks ↦ rw marks (inr (refl, omega arith))
  | inr plain ↦ elim (opened ls) [
    | inl (nothing, all_lines) ↦ rw plain (inl (nothing, omega (arith, all_lines)))
    | inr (one_less, parts) ↦
        let far : suc (length (before_delimiter ls)) + 1 ≡ suc (length (before_delimiter ls) + 1) =
          omega arith in
        rw plain (inr (rw far (one_less, omega (arith, parts))))
  ]
]

module _ {F : Type 0} (zero_float : F) (read_float : Text → Option F) where
  start-le :
      (ls : List Text)
      → ((delimiters ls < 2) × (length ls < (parse_properties zero_float read_float ls).1))
        ⊎ ((2 ≤ delimiters ls) × ((parse_properties zero_float read_float ls).1 ≤ length ls))
  unfolding parse_properties
  start-le ls =
      let opening = length (before_delimiter ls) + 1 in
      elim (opened ls) [
        | inl (nothing, all_lines) ↦ inl (omega (arith, nothing), omega (arith, all_lines))
        | inr (one_less, parts) ↦ elim (opened (drop opening ls)) [
          | inl (nothing, rest) ↦ inl (omega (arith, nothing, one_less), omega (arith, rest, parts))
          | inr (two_less, rest) ↦
              inr (omega (arith, two_less, one_less), omega (arith, rest, parts))
        ]
      ]

  -- Reading a trace panics exactly if fewer than two of its lines contain the delimiter.
  pub parse_ycsb_trace-panics :
      (content : Text)
      → (parse_ycsb_trace zero_float read_float content ≡ panic) ↔ (delimiters (lines content) < 2)
  unfolding parse_ycsb_trace parse_operations
  parse_ycsb_trace-panics content = elim (start-le (lines content)) [
    | inl (few, behind) ↦ (λ e. few, λ e. rw (lt→leb _ _ behind) refl)
    | inr (enough, within) ↦ (
      λ e. absurd (let ran = rw (le→leb _ _ within) at e in cc),
      λ e. absurd (omega (arith, enough, e)),
    )
  ]
