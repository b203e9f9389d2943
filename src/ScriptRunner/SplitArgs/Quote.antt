-- ===== src/ScriptRunner/SplitArgs/Quote.antt =====
-- internal/scriptrunner/runner.go: `SplitArgs` on arguments in single quotes.
use yyb_go.Prelude.{
  ℕ, ◌<◌, ◌≡◌, refl, subst, append-nil, ap, sym, ◌∙◌, inl, inr, Bool, true, false, List, [], ◌∷◌,
  ◌++◌, arith, ◌==◌, if◌then◌else◌, All, append_assoc, Bool-cases, codes, map, length, ==_iff,
}
use yyb_go.Prelude.Text.{Text, trim_space, trim_space-kept, is_space, join}
use yyb_go.ScriptRunner.SplitArgs.{Splitter, split_step, split_loop, fresh, finish, split_args}

-- As a shell wants it: a quote inside closes the quotes, stands escaped, and opens them again.
abbrev pub quote_rune : ℕ → Text
quote_rune c = if c == b'\'' then codes "'\\''" else c ∷ []

abbrev pub quote_body : Text → Text
quote_body [] = []
quote_body (c ∷ a) = quote_rune c ++ quote_body a

abbrev pub quote : Text → Text
quote a = b'\'' ∷ (quote_body a ++ b'\'' ∷ [])

-- The state between two runes, inside or outside single quotes.
abbrev at : List Text → Text → Bool → Splitter
at args current single = record {
  args = args;
  current = current;
  in_single = single;
  in_double = false;
  escaped = false;
}

split_loop-append :
    (x y : Text) (s : Splitter) → split_loop (x ++ y) s ≡ split_loop y (split_loop x s)
unfolding split_loop
split_loop-append [] y s = refl
split_loop-append (c ∷ x) y s = split_loop-append x y (split_step c s)

plain_step :
    (c : ℕ) (args : List Text) (current : Text)
    → (c == b'\'') ≡ false
    → split_step c (at args current true) ≡ at args (current ++ c ∷ []) true
unfolding split_step
plain_step c args current plain = ground arith

inside_step :
    (c : ℕ) (args : List Text) (current : Text)
    → split_loop (quote_rune c) (at args current true) ≡ at args (current ++ c ∷ []) true
unfolding split_loop split_step
inside_step c args current = elim (Bool-cases (c == b'\'')) [
  | inl quoted ↦
      subst
        (λ (x : ℕ).
          split_loop (quote_rune x) (at args current true) ≡ at args (current ++ x ∷ []) true)
        (sym ((==_iff c b'\'').0 quoted)) refl
  | inr plain ↦ rw plain (plain_step c args current plain)
]

inside :
    (a : Text) (args : List Text) (current : Text)
    → split_loop (quote_body a) (at args current true) ≡ at args (current ++ a) true
unfolding split_loop
inside [] args current = ap (λ (t : Text). at args t true) (sym (append-nil current))
inside (c ∷ a) args current =
    split_loop-append (quote_rune c) (quote_body a) (at args current true)
    ∙ ap (split_loop (quote_body a)) (inside_step c args current)
    ∙ inside a args (current ++ c ∷ [])
    ∙ ap (λ (t : Text). at args t true) (append_assoc current (c ∷ []) a)

quoted_lem :
    (a : Text) (args : List Text) → split_loop (quote a) (at args [] false) ≡ at args a false
unfolding split_loop split_step
quoted_lem a args =
    split_loop-append (quote_body a) (b'\'' ∷ []) (at args [] true)
    ∙ ap (split_loop (b'\'' ∷ [])) (inside a args [])

-- The arguments, each in quotes, with a space between two of them.
abbrev pub command_line : List Text → Text
command_line args = join (map quote args) (b' ' ∷ [])

abbrev pub IsFilled : Text → Type 0
IsFilled a = 0 < length a

finish-loop :
    (a : Text) (args done : List Text)
    → All IsFilled (a ∷ args)
    → finish (split_loop (command_line (a ∷ args)) (at done [] false)) ≡ done ++ a ∷ args
unfolding split_loop finish split_step join
finish-loop [] args done (h, _) = absurd (omega arith)
finish-loop (c ∷ a) [] done (_, _) = ap finish (quoted_lem (c ∷ a) done)
finish-loop (c ∷ a) (b ∷ args) done (_, filled) =
    ap finish (
      split_loop-append (quote (c ∷ a)) (b' ' ∷ command_line (b ∷ args)) (at done [] false)
      ∙ ap (split_loop (b' ' ∷ command_line (b ∷ args))) (quoted_lem (c ∷ a) done))
    ∙ finish-loop b args (done ++ (c ∷ a) ∷ []) filled
    ∙ append_assoc done ((c ∷ a) ∷ []) (b ∷ args)

command_line_shape :
    (a : Text) (args : List Text)
    → (m : Text) × (command_line (a ∷ args) ≡ b'\'' ∷ (m ++ b'\'' ∷ []))
unfolding join
command_line_shape a [] = (quote_body a, refl)
command_line_shape a (b ∷ args) =
    let (m, e) = command_line_shape b args in
    (
      (quote_body a ++ b'\'' ∷ []) ++ b' ' ∷ b'\'' ∷ m,
      ap (λ (t : Text). b'\'' ∷ ((quote_body a ++ b'\'' ∷ []) ++ b' ' ∷ t)) e
          ∙ ap (λ (t : Text). b'\'' ∷ t)
              (sym (append_assoc (quote_body a ++ b'\'' ∷ []) (b' ' ∷ b'\'' ∷ m) (b'\'' ∷ []))),
    )

split_args_lem :
    (raw : Text) (c : ℕ) (rest : Text)
    → trim_space raw ≡ c ∷ rest
    → split_args raw ≡ finish (split_loop (c ∷ rest) fresh)
unfolding split_args
split_args_lem raw c rest h = rw (split_args, h) refl

quote_no_space : is_space b'\'' ≡ false
unfolding is_space
quote_no_space = refl

-- Arguments that are not empty, whatever they contain, are what `SplitArgs` returns for them, each in
-- single quotes with its own single quotes escaped, and with a space between two.
pub split_args-command_line :
    (a : Text) (args : List Text)
    → All IsFilled (a ∷ args)
    → split_args (command_line (a ∷ args)) ≡ a ∷ args
split_args-command_line a args filled =
    let (m, e) = command_line_shape a args in
    split_args_lem (command_line (a ∷ args)) b'\'' (m ++ b'\'' ∷ [])
      (ap trim_space e ∙ trim_space-kept b'\'' b'\'' m quote_no_space quote_no_space)
    ∙ ap (λ (t : Text). finish (split_loop t fresh)) (sym e)
    ∙ finish-loop a args [] filled
