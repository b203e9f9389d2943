-- ===== src/ScriptRunner/SplitArgs/Tests.antt =====
-- Runs of the splitting of arguments, and the theorem at a concrete input.
use yyb_go.Prelude.{◌≡◌, refl, [], ◌∷◌, codes, arith}
use yyb_go.Prelude.Text.{trim_space}
use yyb_go.ScriptRunner.SplitArgs.{split_args}
use yyb_go.ScriptRunner.SplitArgs.Quote.{command_line, split_args-command_line}

flags_run :
    split_args (codes "--json '{\"a\":1}'  --flag \"a b\" ")
    ≡ codes "--json" ∷ codes "{\"a\":1}" ∷ codes "--flag" ∷ codes "a b" ∷ []
unfolding split_args trim_space
flags_run = refl

-- An empty argument in quotes is lost.
empty_argument : split_args (codes "a '' b") ≡ codes "a" ∷ codes "b" ∷ []
unfolding split_args trim_space
empty_argument = refl

-- An escaped space at the end is cut off before the backslash is read.
escaped_end : split_args (codes "a\\ ") ≡ codes "a\\" ∷ []
unfolding split_args trim_space
escaped_end = refl

split_args-command_line_example :
    split_args (command_line (codes "it's" ∷ codes "a \"b\"" ∷ []))
    ≡ codes "it's" ∷ codes "a \"b\"" ∷ []
split_args-command_line_example =
    split_args-command_line (codes "it's") (codes "a \"b\"" ∷ []) (omega arith, (omega arith, tt))
