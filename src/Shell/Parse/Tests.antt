-- ===== src/Shell/Parse/Tests.antt =====
-- Command lines, and the theorems at them.
use csapp_code.Prelude.{◌≡◌, refl, arith, true, false, [], ◌∷◌, ◌++◌, codes, split_at}
use csapp_code.Shell.Parse.{
  parsed, replace_last, skip_spaces, next_argument, build_argv, is_background, finish, parseline,
}
use csapp_code.Shell.Parse.Laws.{Word, bare, quoted, command_line, parseline_lem}

blank_line : parseline 9 (codes "  " ++ 10 ∷ []) ≡ parsed [] true
unfolding parseline skip_spaces replace_last build_argv next_argument finish split_at
blank_line = refl

abbrev echo : Word
echo = bare b'e' (codes "cho")

line_is : command_line echo (quoted (codes "a b") ∷ []) ≡ codes "echo 'a b'" ++ 10 ∷ []
line_is = refl

parseline_lem_example :
    parseline 9 (command_line echo (quoted (codes "a b") ∷ []))
    ≡ parsed (codes "echo" ∷ codes "a b" ∷ []) false
unfolding is_background
parseline_lem_example =
    parseline_lem 9 echo (quoted (codes "a b") ∷ []) (ground arith) (omega arith) (omega arith)
      (omega arith)
