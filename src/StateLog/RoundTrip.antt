-- ===== src/StateLog/RoundTrip.antt =====
-- A log that was written is read back.
use Prim.Native.Nat.{ℕ, ◌^◌, ◌<◌}
use rep_cxl.Prelude.{◌≡◌, refl, sym, ap, ◌∙◌, some, List, [], ◌∷◌, ◌++◌, map, All, arith}
use mathlib.Core.List.{append_assoc, append-nil}
use rep_cxl.Prelude.Text.{Text, lines, print}
use rep_cxl.Prelude.Text.Decimal.{parse-print, StartsWithDigit, print-StartsWithDigit}
use rep_cxl.Prelude.Text.Trim.{Visible, Visible-append, Visible-Printable, trim-Visible}
use rep_cxl.Prelude.Text.Lines.{lines-line}
use rep_cxl.Prelude.Text.Fields.{splitn-fields}
use rep_cxl.Prelude.Text.Word.{Word, Word-Visible, Word-Lacks, print-Word}
use rep_cxl.Monster.{
  MonsterState, try, retry, check, replicate, wait, post_conflict_check, LogEntry,
}
use rep_cxl.StateLog.{
  MonsterStateLogEntry, display, log_line, log_monster, of_parts, of_trimmed, read_line, read_lines,
  read_monster_log,
}

display-Word : (s : MonsterState) → Word (display s)
display-Word try = omega arith
display-Word retry = omega arith
display-Word check = omega arith
display-Word replicate = omega arith
display-Word wait = omega arith
display-Word post_conflict_check = omega arith

abbrev pub entry_of : LogEntry → MonsterStateLogEntry
entry_of e = record { round_num = e.round_num; state = display e.state; object_id = e.object_id }

-- The numbers of an entry fit in 64 bits.
abbrev pub Fits : LogEntry → Type 0
Fits e = (e.round_num < 2 ^ 64) × (e.object_id < 2 ^ 64)

log_line-Visible : (r : ℕ) (s : MonsterState) (o : ℕ) → Visible (log_line r s o)
unfolding log_line
log_line-Visible r s o = Visible-append (print r) _ (Word-Visible _ (print-Word r)) (
  omega arith,
  Visible-append (display s) _ (Word-Visible _ (display-Word s))
      (omega arith, Word-Visible _ (print-Word o)),
)

log_line-parts :
    (r : ℕ) (s : MonsterState) (o : ℕ)
    → of_trimmed (log_line r s o) ≡ of_parts (print r ∷ display s ∷ print o ∷ [])
unfolding log_line of_parts of_trimmed
log_line-parts r s o =
    let starts : StartsWithDigit (print r) = print-StartsWithDigit r in
    let fields =
      splitn-fields b',' (print r) (display s) (print o)
        (Word-Lacks b',' _ (omega arith) (print-Word r))
        (Word-Lacks b',' _ (omega arith) (display-Word s)) in
    rw starts.parts (ap of_parts (rw starts.parts at fields))

read_line-log_line :
    (e : LogEntry)
    → Fits e
    → read_line (log_line e.round_num e.state e.object_id) ≡ some (entry_of e)
unfolding read_line
read_line-log_line e fits =
    rw
      (
        trim-Visible _ (log_line-Visible e.round_num e.state e.object_id),
        log_line-parts e.round_num e.state e.object_id,
        parse-print (2 ^ 64) e.round_num fits.0,
        parse-print (2 ^ 64) e.object_id fits.1,
      )
      refl

-- The file after the entries were logged, one after another.
unfoldable pub log_all : Text → List LogEntry → Text
unfolding log_monster
log_all log [] = log
log_all log (e ∷ es) = log_all (log_monster log e.round_num e.state e.object_id) es

texts : List LogEntry → Text
texts [] = []
texts (e ∷ es) = log_line e.round_num e.state e.object_id ++ 10 ∷ texts es

log_all-texts : (log : Text) (es : List LogEntry) → log_all log es ≡ log ++ texts es
unfolding log_all texts
log_all-texts log [] = sym (append-nil log)
log_all-texts log (e ∷ es) =
    let line = log_line e.round_num e.state e.object_id in
    log_all-texts (log ++ (line ++ 10 ∷ [])) es
    ∙ append_assoc log (line ++ 10 ∷ []) (texts es)
    ∙ ap (λ t. log ++ t) (append_assoc line (10 ∷ []) (texts es))

read_lines-texts :
    (es : List LogEntry) → All Fits es → read_lines (lines (texts es)) ≡ map entry_of es
unfolding read_lines texts lines
read_lines-texts [] h = refl
read_lines-texts (e ∷ es) h =
    rw
      (
        lines-line _ (texts es)
            (Visible-Printable _ (log_line-Visible e.round_num e.state e.object_id)),
        read_line-log_line e h.0,
        read_lines-texts es h.1,
      )
      refl

-- What was logged is read back: from an empty log to which entries with rounds and object numbers
-- below 2 ^ 64 were written one after another, `read_monster_log` reads exactly these entries, in
-- order, with the printed names of their states.
pub read_monster_log-log_all :
    (es : List LogEntry) → All Fits es → read_monster_log (log_all [] es) ≡ map entry_of es
unfolding read_monster_log
read_monster_log-log_all es h = rw (log_all-texts [] es) (read_lines-texts es h)
