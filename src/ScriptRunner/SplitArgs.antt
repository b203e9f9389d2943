-- ===== src/ScriptRunner/SplitArgs.antt =====
-- internal/scriptrunner/runner.go: `SplitArgs`, which cuts an argument string as a shell would.
pub mod Quote
mod Tests
use yyb_go.Prelude.{
  ℕ, ◌+◌, ◌≡◌, refl, ap, sym, ◌∙◌, ◌⊎◌, inl, inr, Bool, true, false, not, ◌&&◌, ◌||◌, List, [], ◌∷◌,
  ◌++◌, arith, ltb, leb, ◌==◌, if◌then◌else◌, All, append-nil, append_assoc, Bool-cases, codes,
}
use yyb_go.Prelude.Text.{Text, trim_space, join}

-- The variables of the loop.
pub record Splitter : Type 0 where
  pub args : List Text
  pub current : Text
  pub in_single : Bool
  pub in_double : Bool
  pub escaped : Bool

unfoldable pub flush : Splitter → Splitter
flush s = elim s.current [
  | [] ↦ s
  | c ∷ current ↦ record s { args = s.args ++ (c ∷ current) ∷ []; current = [] }
]

unfoldable pub write_rune : ℕ → Splitter → Splitter
write_rune ch s = record s { current = s.current ++ ch ∷ [] }

is_blank : ℕ → Bool
is_blank ch = ch == b' ' || (ch == b'\t' || (ch == b'\n' || ch == b'\r'))

-- The cases of the switch, in their order.
unfoldable pub split_step : ℕ → Splitter → Splitter
unfolding is_blank flush write_rune
split_step ch s =
    if s.escaped
    then record (write_rune ch s) { escaped = false }
    else if ch == b'\\' && not s.in_single
    then record s { escaped = true }
    else if ch == b'\'' && not s.in_double
    then record s { in_single = not s.in_single }
    else if ch == b'"' && not s.in_single
    then record s { in_double = not s.in_double }
    else if is_blank ch && (not s.in_single && not s.in_double)
    then flush s
    else write_rune ch s

unfoldable pub split_loop : Text → Splitter → Splitter
unfolding split_step
split_loop [] s = s
split_loop (ch ∷ raw) s = split_loop raw (split_step ch s)

abbrev pub fresh : Splitter
fresh = record { args = []; current = []; in_single = false; in_double = false; escaped = false }

-- A backslash at the end stands for itself.
unfoldable pub finish : Splitter → List Text
unfolding flush write_rune
finish s = (flush (if s.escaped then write_rune b'\\' s else s)).args

unfoldable pub split_args : Text → List Text
unfolding split_loop finish
split_args raw = elim (trim_space raw) [
  | [] ↦ []
  | c ∷ trimmed ↦ finish (split_loop (c ∷ trimmed) fresh)
]
