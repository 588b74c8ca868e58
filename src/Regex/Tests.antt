-- ===== src/Regex/Tests.antt =====
-- Runs of the regex engine, and its theorems at an input.
use lovax.Regex.Repeat.{apply_repeat}
use lovax.Regex.Classes.{
  read_bounds, read_class, unexpected_paren, repetition_out_of_range, missing_paren,
  invalid_class_range, missing_bracket, misplaced,
}
use lovax.Base.{ℕ, ◌≡◌, refl, some, List, [], ◌∷◌, arith}
use lovax.Base.Text.{codes}
use lovax.Regex.Program.{Prog, char, split, jmp, save, match}
use lovax.Regex.Matcher.{run, match_at, new_state}
use lovax.Regex.Compiler.{compile, program, done, failed}
use lovax.Regex.Decides.{Decided, match_at-Decided, compile-IsCompiled, IsCompiled}
use lovax.Regex.Parsed.{OnDone}
use lovax.Regex.Finds.{FirstMatch, search-FirstMatch, find_all-Finds, Finds}
use lovax.Regex.Replaces.{replace-Replaces, Replaces}
use lovax.Regex.Restores.{whole_match, replace_whole}
use lovax.Regex.Splits.{split-Splits, Splits}
use lovax.Regex.Turns.{OnReturned}
use lovax.Regex.Cache.{Cache, rx_compile, rx_compile-compile, IsCache}
use lovax.Regex.Functions.{
  first_match, search, group_texts, groups, find_all_from, find_all, expand, replace_from, replace,
  split_from, split_text, returned,
}

abbrev three_ways : List ℕ
three_ways = codes "a|b|c"

three_ways-compile :
    compile three_ways
    ≡ done (record {
      rest = [];
      code =
          save 0
          ∷ split 2 7
          ∷ split 3 5
          ∷ char 97
          ∷ jmp 6
          ∷ char 98
          ∷ jmp 8
          ∷ char 99
          ∷ save 1
          ∷ match
          ∷ [];
      classes = [];
      group_count = 1;
    })
unfolding compile apply_repeat read_bounds read_class
three_ways-compile = refl

-- `a*`
abbrev many : Prog
many = record {
  code = save 0 ∷ split 2 4 ∷ char 97 ∷ jmp 1 ∷ save 1 ∷ match ∷ [];
  classes = [];
  group_count = 1;
}

many-find_all : find_all many (codes "aab") ≡ returned (codes "aa" ∷ [] ∷ [] ∷ [])
unfolding find_all_from match_at run
many-find_all = refl

many-replace : replace many (codes "aab") (codes "<$0>") ≡ returned (codes "<aa><>b<>")
unfolding replace_from match_at
many-replace = refl

many-split : split_text many (codes "baab") ≡ returned (codes "b" ∷ codes "b" ∷ [])
unfolding split_from match_at
many-split = refl

abbrev many_pattern : List ℕ
many_pattern = codes "a*"

-- The program is what its pattern compiles to.
many-IsCompiled : IsCompiled many
unfolding compile apply_repeat read_bounds read_class
many-IsCompiled = compile-IsCompiled many_pattern

abbrev bounded_pattern : List ℕ
bounded_pattern = codes "(?:ab){1,2}?c"

bounded-compile :
    compile bounded_pattern
    ≡ done (record {
      rest = [];
      code =
          save 0
          ∷ char 97
          ∷ char 98
          ∷ split 6 4
          ∷ char 97
          ∷ char 98
          ∷ char 99
          ∷ save 1
          ∷ match
          ∷ [];
      classes = [];
      group_count = 1;
    })
unfolding compile apply_repeat read_bounds read_class
bounded-compile = refl

abbrev dates : List ℕ
dates = codes "([0-9]+)-(\\d\\d)"

-- The groups of a match, and a replacement that names them.
dates-compile :
    OnDone
      (λ s. search (program s) (codes "on 24-12") ≡ returned (some (codes "24-12")))
      (compile dates)
unfolding compile apply_repeat read_bounds read_class first_match match_at
dates-compile = refl

dates-groups :
    OnDone
      (λ s.
        groups (program s) (codes "24-12")
        ≡ returned (some (some (codes "24-12") ∷ some (codes "24") ∷ some (codes "12") ∷ [])))
      (compile dates)
unfolding compile apply_repeat read_bounds read_class first_match group_texts match_at
dates-groups = refl

dates-replace :
    OnDone
      (λ s. replace (program s) (codes "24-12") (codes "$2/$1$$$7$x") ≡ returned (codes "12/24$$x"))
      (compile dates)
unfolding compile apply_repeat read_bounds read_class replace_from expand match_at
dates-replace = refl

errors :
    (compile (codes "a(b") ≡ failed missing_paren)
    × (compile (codes "a)") ≡ failed unexpected_paren)
    × (compile (codes "*") ≡ failed (misplaced 42))
    × (compile (codes "[b-a]") ≡ failed invalid_class_range)
    × (compile (codes "a{3,2}") ≡ failed repetition_out_of_range)
    × (compile (codes "[a") ≡ failed missing_bracket)
unfolding compile apply_repeat read_bounds read_class
errors = (refl, refl, refl, refl, refl, refl)

abbrev text : List ℕ
text = codes "aab"

compile-IsCompiled_example : OnDone (λ s. IsCompiled (program s)) (compile three_ways)
compile-IsCompiled_example = compile-IsCompiled three_ways

match_at-Decided_example : Decided many text 1 new_state (match_at many text 1 new_state)
match_at-Decided_example = match_at-Decided many text 1 new_state many-IsCompiled (omega arith)

search-FirstMatch_example : OnReturned (FirstMatch many text 0) (search many text)
search-FirstMatch_example = search-FirstMatch many text many-IsCompiled

find_all-Finds_example : OnReturned (Finds many text 0) (find_all many text)
find_all-Finds_example = find_all-Finds many text many-IsCompiled

replace-Replaces_example :
    OnReturned (Replaces many text (codes "<$0>") 0) (replace many text (codes "<$0>"))
replace-Replaces_example = replace-Replaces many text many-IsCompiled (codes "<$0>")

replace_whole_example : OnReturned (λ (out : List ℕ). out ≡ text) (replace many text whole_match)
replace_whole_example = replace_whole many text many-IsCompiled

split-Splits_example : OnReturned (Splits many text 0) (split_text many text)
split-Splits_example = split-Splits many text many-IsCompiled

abbrev one_pattern : Cache
one_pattern = (three_ways, compile three_ways) ∷ []

rx_compile-compile_example :
    ((rx_compile one_pattern many_pattern).1 ≡ compile many_pattern)
    × IsCache ((rx_compile one_pattern many_pattern).0)
rx_compile-compile_example =
    rx_compile-compile one_pattern many_pattern (record { holds = (refl, tt); bound = omega arith })
