-- ===== src/Regex/Functions.antt =====
-- The functions of the module `regex` of src/modules/regex.hpp on a compiled pattern: `match`,
-- `search`, `groups`, `find_all`, `replace` and `split`. The tests of the arguments' types are
-- not modelled.
use lovax.Base.{
  ℕ, zero, suc, ◌+◌, ◌-◌, ◌*◌, Bool, true, false, Option, none, some, List, [], ◌∷◌, ◌++◌, ltb,
  ◌==◌, if◌then◌else◌, length, get_elem?, take, drop,
}
use lovax.Regex.Program.{Prog}
use lovax.Regex.Classes.{is_digit}
use lovax.Regex.Matcher.{Answer, match_at, new_state, State}

-- `broken` stands for a run that ran out of fuel, for a read out of range (`substr` throws then)
-- and for a match whose first two slots are not both set.
pub data Result {ℓ} (A : Type ℓ) : Type ℓ where
  returned : A → Result A
  step_limit : Result A
  broken : Result A

abbrev pub and_then {ℓ κ} : {A : Type ℓ} {B : Type κ} → Result A → (A → Result B) → Result B
and_then (returned a) f = f a
and_then step_limit f = step_limit
and_then broken f = broken

abbrev pub or_broken {ℓ} : {A : Type ℓ} → Option A → Result A
or_broken none = broken
or_broken (some a) = returned a

-- `substr(a, b - a)`, where `b` may be `npos` or before `a`, and the rest of the text is meant.
abbrev pub clipped : List ℕ → ℕ → Option ℕ → List ℕ
clipped text a none = drop a text
clipped text a (some b) = if ltb b a then drop a text else take (b - a) (drop a text)

abbrev pub substr : List ℕ → ℕ → Option ℕ → Option (List ℕ)
substr text a b = if ltb (length text) a then none else some (clipped text a b)

abbrev pub between {ℓ} : {A : Type ℓ} → Option ℕ → Option ℕ → (ℕ → ℕ → Result A) → Result A
between none b f = broken
between (some a) none f = broken
between (some a) (some b) f = f a b

abbrev pub spanned {ℓ} : {A : Type ℓ} → State → (ℕ → ℕ → Result A) → Result A
spanned st f = between (st.caps 0) (st.caps 1) f

-- `while (from <= t.size())`
abbrev pub while_inside {ℓ} : {A : Type ℓ} → Bool → Result A → (Unit {0} → Result A) → Result A
while_inside true end turn = end
while_inside false end turn = turn tt

-- What follows a try: the step limit is an error.
abbrev pub tried {ℓ} : {A : Type ℓ} → Answer → (State → Result A) → (State → Result A) → Result A
tried none matched unmatched = broken
tried (some (true, st)) matched unmatched = matched st
tried (some (false, st)) matched unmatched = if st.budget_hit then step_limit else unmatched st

-- The text of the match.
abbrev pub whole_text : List ℕ → State → Result (List ℕ)
whole_text text st = spanned st (λ a b. or_broken (substr text a (some b)))

module _ (prog : Prog) (text : List ℕ) where
  unfoldable pub match_text : Result (Option (List ℕ))
  match_text =
      tried (match_at prog text 0 new_state)
        (λ st. and_then (whole_text text st) (λ t. returned (some t))) (λ st. returned none)

  -- `for (size_t from = 0; from <= t->size(); ++from)`, with the turns that are left.
  unfoldable pub first_match {ℓ} :
      {A : Type ℓ} → (State → Result A) → ℕ → ℕ → State → Result (Option A)
  first_match found zero from st = returned none
  first_match found (suc turns) from st =
      tried (match_at prog text from st) (λ s. and_then (found s) (λ a. returned (some a)))
        (first_match found turns (from + 1))

  abbrev pub search : Result (Option (List ℕ))
  search = first_match (whole_text text) (length text + 1) 0 new_state

  -- The text of a group, where both of its slots are set.
  abbrev pub group_between : Option ℕ → Option ℕ → Result (Option (List ℕ))
  group_between none b = returned none
  group_between (some a) none = returned none
  group_between (some a) (some b) =
      and_then (or_broken (substr text a (some b))) (λ t. returned (some t))

  -- `for (int g = 0; g < prog->groupCount; ++g)`, with the groups that are left.
  unfoldable pub group_texts : ℕ → ℕ → State → Result (List (Option (List ℕ)))
  group_texts zero g st = returned []
  group_texts (suc left) g st =
      and_then (group_between (st.caps (g * 2)) (st.caps (g * 2 + 1)))
        (λ t. and_then (group_texts left (g + 1) st) (λ ts. returned (t ∷ ts)))

  abbrev pub groups : Result (Option (List (Option (List ℕ))))
  groups = first_match (group_texts prog.group_count 0) (length text + 1) 0 new_state

  -- The loop of `find_all`, with `out` as what it returns.
  unfoldable pub find_all_from : ℕ → ℕ → State → Result (List (List ℕ))
  find_all_from zero from st = broken
  find_all_from (suc fuel) from st = while_inside (ltb (length text) from) (returned []) (λ u.
      tried (match_at prog text from st)
        (λ s. spanned s (λ a b. and_then (or_broken (substr text a (some b))) (λ t.
          and_then (find_all_from fuel (if ltb a b then b else b + 1) s)
            (λ ts. returned (t ∷ ts)))))
        (find_all_from fuel (from + 1)))

  abbrev pub find_all : Result (List (List ℕ))
  find_all = find_all_from (length text + 2) 0 new_state

  -- A group that is not set is empty.
  abbrev pub slot_text : Option ℕ → Option ℕ → Result (List ℕ)
  slot_text none b = returned []
  slot_text (some a) b = or_broken (substr text a b)

  -- The group that a replacement names.
  abbrev pub inserted : State → ℕ → Result (List ℕ)
  inserted st g =
      if ltb g prog.group_count
      then slot_text (st.caps (g * 2)) (st.caps (g * 2 + 1))
      else returned []

  -- `$0` to `$9` and `$$` in a replacement.
  unfoldable pub expand : State → List ℕ → Result (List ℕ)
  expand st [] = returned []
  expand st (c ∷ []) = returned (c ∷ [])
  expand st (c ∷ n ∷ rest) =
      let plain = and_then (expand st (n ∷ rest)) (λ t. returned (c ∷ t)) in
      let after = expand st rest in
      if c == b'$'
      then if n == b'$'
        then and_then after (λ t. returned (n ∷ t))
        else if is_digit n
        then and_then (inserted st (n - b'0')) (λ g. and_then after (λ t. returned (g ++ t)))
        else plain
      else plain

  -- `out += t[i]` if there is one.
  abbrev pub char_at : ℕ → List ℕ
  char_at i = elim (get_elem? text i) [ none ↦ [] | some c ↦ c ∷ [] ]

  -- The loop of `replace`.
  unfoldable pub replace_from : List ℕ → ℕ → ℕ → State → Result (List ℕ)
  unfolding expand
  replace_from rep zero from st = broken
  replace_from rep (suc fuel) from st = while_inside (ltb (length text) from) (returned []) (λ u.
      tried (match_at prog text from st)
        (λ s. spanned s (λ a b. and_then (expand s rep) (λ t.
          and_then (replace_from rep fuel (if ltb a b then b else b + 1) s)
            (λ out. returned (t ++ (if ltb a b then out else char_at b ++ out))))))
        (λ s.
          and_then (replace_from rep fuel (from + 1) s) (λ out. returned (char_at from ++ out))))

  abbrev pub replace : List ℕ → Result (List ℕ)
  replace rep = replace_from rep (length text + 2) 0 new_state

  -- The loop of `split`, and the piece after it.
  unfoldable pub split_from : ℕ → ℕ → ℕ → State → Result (List (List ℕ))
  split_from zero piece_start from st = broken
  split_from (suc fuel) piece_start from st =
      while_inside (ltb (length text) from)
        (and_then (or_broken (substr text piece_start none)) (λ t. returned (t ∷ [])))
        (λ u.
          tried (match_at prog text from st)
            (λ s. spanned s (λ a b. elim (ltb a b) [
              | true ↦
                  and_then (or_broken (substr text piece_start (some a)))
                    (λ t. and_then (split_from fuel b b s) (λ ts. returned (t ∷ ts)))
              | false ↦ split_from fuel piece_start (from + 1) s
            ]))
            (split_from fuel piece_start (from + 1)))

  abbrev pub split_text : Result (List (List ℕ))
  split_text = split_from (length text + 2) 0 0 new_state
