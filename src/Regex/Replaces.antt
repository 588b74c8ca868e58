-- ===== src/Regex/Replaces.antt =====
-- `replace` of src/modules/regex.hpp.
use lovax.Base.{
  ℕ, zero, suc, ◌+◌, ◌-◌, ◌*◌, ◌≤◌, ◌<◌, ◌≡◌, refl, sym, ◌∙◌, ◌≢◌, ◌⊎◌, inl, inr, Bool, true, false,
  Option, none, some, List, [], ◌∷◌, ◌++◌, arith, ltb, ◌==◌, if◌then◌else◌, ltb→lt, Bool-cases,
  some_injective, length, take, drop,
}
use lovax.Regex.Program.{Prog}
use lovax.Regex.Classes.{is_digit}
use lovax.Regex.Matcher.{match_at, new_state, State}
use lovax.Regex.Search.{Fails}
use lovax.Regex.Decides.{no_caps, match_at-Decided, IsMatch, IsCompiled}
use lovax.Regex.Within.{Bounded}
use lovax.Regex.Functions.{
  and_then, slot_text, inserted, expand, char_at, replace_from, replace, returned,
}
use lovax.Regex.Turns.{
  OnReturned, OnReturned-then, substr-OnReturned, after_match, after_match_lt, tried-OnReturned,
  while_inside-OnReturned, spanned-OnReturned,
}
use mathlib.Core.Path.{subst}

-- What the group `g` of a match inserts: nothing if the pattern has no such group or it is not set,
-- its text, or all behind its start if its end is not set or stands before.
pub data Inserts (prog : Prog) (text : List ℕ) (f : ℕ → Option ℕ) (g : ℕ) : List ℕ → Type 0 where
  unset : (prog.group_count ≤ g) ⊎ (f (g * 2) ≡ none) → Inserts prog text f g []
  span :
      {a b : ℕ}
      → g < prog.group_count
      → f (g * 2) ≡ some a
      → f (g * 2 + 1) ≡ some b
      → a ≤ b
      → b ≤ length text
      → Inserts prog text f g (take (b - a) (drop a text))
  endless :
      {a : ℕ}
      → g < prog.group_count
      → f (g * 2) ≡ some a
      → a ≤ length text
      → ((b : ℕ) → f (g * 2 + 1) ≡ some b → b < a)
      → Inserts prog text f g (drop a text)

-- A character that is no `$` before a digit or another `$`.
abbrev pub IsPlain : ℕ → List ℕ → Type 0
IsPlain c [] = Unit
IsPlain c (n ∷ rest) = (c ≢ b'$') ⊎ ((n ≢ b'$') × ((n < b'0') ⊎ (b'9' < n)))

-- A replacement with the groups of a match in it.
pub data Expands (prog : Prog) (text : List ℕ) (f : ℕ → Option ℕ) : List ℕ → List ℕ → Type 0 where
  nothing : Expands prog text f [] []
  dollar :
      {rest out : List ℕ}
      → Expands prog text f rest out
      → Expands prog text f (b'$' ∷ b'$' ∷ rest) (b'$' ∷ out)
  group :
      {d : ℕ} {t rest out : List ℕ}
      → d ≤ 9
      → Inserts prog text f d t
      → Expands prog text f rest out
      → Expands prog text f (b'$' ∷ (b'0' + d) ∷ rest) (t ++ out)
  plain :
      {c : ℕ} {rest out : List ℕ}
      → IsPlain c rest
      → Expands prog text f rest out
      → Expands prog text f (c ∷ rest) (c ∷ out)

-- What a replacement makes of a text from a position on: each match becomes the expansion, a
-- character behind an empty match stays, as do those at which no match begins.
pub data Replaces (prog : Prog) (text rep : List ℕ) : ℕ → List ℕ → Type 0 where
  past : {from : ℕ} → length text < from → Replaces prog text rep from []
  replaced :
      {from : ℕ} {t out : List ℕ} (s : State) (m : IsMatch prog text from s.caps)
      → Expands prog text s.caps rep t
      → Replaces prog text rep (after_match from m.end) out
      → Replaces prog text rep from
          (t ++ (if ltb from m.end then out else char_at prog text m.end ++ out))
  kept :
      {from : ℕ} {out : List ℕ}
      → from ≤ length text
      → Fails prog text 0 from no_caps
      → Replaces prog text rep (from + 1) out
      → Replaces prog text rep from (char_at prog text from ++ out)

module _ (prog : Prog) (text : List ℕ) where
  inserted-OnReturned :
      (s : State) (g : ℕ)
      → Bounded prog text s.caps
      → OnReturned (Inserts prog text s.caps g) (inserted prog text s g)
  inserted-OnReturned s g bounded = elim (Bool-cases (ltb g prog.group_count)) [
    | inr n ↦ rw n (unset (inl (ground (arith, n))))
    | inl y ↦ rw y (slot (ltb→lt _ _ y) (s.caps (g * 2)) (s.caps (g * 2 + 1)) refl refl)
  ]
    where
      clip :
          (a b : ℕ)
          → g < prog.group_count
          → s.caps (g * 2) ≡ some a
          → s.caps (g * 2 + 1) ≡ some b
          → (before : Bool) → ltb b a ≡ before
          → Inserts prog text s.caps g (if before then drop a text else take (b - a) (drop a text))
      clip a b lt e1 e2 true h =
          endless lt e1 (bounded (g * 2) a e1)
            (λ x e. omega (arith, ltb→lt b a h, some_injective (sym e2 ∙ e)))
      clip a b lt e1 e2 false h = span lt e1 e2 (ground (arith, h)) (bounded (g * 2 + 1) b e2)

      slot :
          g < prog.group_count
          → (o end : Option ℕ) → s.caps (g * 2) ≡ o
          → s.caps (g * 2 + 1) ≡ end
          → OnReturned (Inserts prog text s.caps g) (slot_text prog text o end)
      slot lt none end e1 e2 = unset (inr e1)
      slot lt (some a) none e1 e2 =
          substr-OnReturned _ text a none (bounded (g * 2) a e1)
            (endless lt e1 (bounded (g * 2) a e1) (λ b e. absurd (cc)))
      slot lt (some a) (some b) e1 e2 =
          substr-OnReturned _ text a (some b) (bounded (g * 2) a e1)
            (clip a b lt e1 e2 (ltb b a) refl)

  expand-OnReturned :
      (s : State) (rep : List ℕ)
      → Bounded prog text s.caps
      → OnReturned (Expands prog text s.caps rep) (expand prog text s rep)
  unfolding expand
  expand-OnReturned s [] b = nothing
  expand-OnReturned s (c ∷ []) b = plain tt nothing
  expand-OnReturned s (c ∷ n ∷ rest) b =
      which (c == b'$') (n == b'$') (is_digit n) refl refl refl
        (λ p.
          OnReturned-then (Expands prog text s.caps (n ∷ rest))
            (Expands prog text s.caps (c ∷ n ∷ rest)) _ (λ t. returned (c ∷ t))
            (expand-OnReturned s (n ∷ rest) b) (λ t h. plain p h))
        (expand-OnReturned s rest b)
    where
      which :
          (first second digit : Bool)
          → (c == b'$') ≡ first
          → (n == b'$') ≡ second
          → is_digit n ≡ digit
          → (IsPlain c (n ∷ rest)
              → OnReturned
                  (Expands prog text s.caps (c ∷ n ∷ rest))
                  (and_then (expand prog text s (n ∷ rest)) (λ t. returned (c ∷ t))))
          → OnReturned (Expands prog text s.caps rest) (expand prog text s rest)
          → OnReturned (Expands prog text s.caps (c ∷ n ∷ rest)) (
              if first
              then if second
                then and_then (expand prog text s rest) (λ t. returned (n ∷ t))
                else if digit
                then and_then
                    (inserted prog text s (n - b'0'))
                    (λ g. and_then (expand prog text s rest) (λ t. returned (g ++ t)))
                else and_then (expand prog text s (n ∷ rest)) (λ t. returned (c ∷ t))
              else and_then (expand prog text s (n ∷ rest)) (λ t. returned (c ∷ t)))
      which false second digit e1 e2 e3 literal after = literal (inl (ground (arith, e1)))
      which true true digit e1 e2 e3 literal after =
          let c1 : c ≡ b'$' = ground (arith, e1) in
          let n1 : n ≡ b'$' = ground (arith, e2) in
          OnReturned-then (Expands prog text s.caps rest) (Expands prog text s.caps (c ∷ n ∷ rest))
            _ _ after (λ t h. rw (c1, n1) (dollar h))
      which true false true e1 e2 e3 literal after =
          let c1 : c ≡ b'$' = ground (arith, e1) in
          let n1 : n ≡ b'0' + (n - b'0') = ground (arith, e3) in
          let low : n - b'0' ≤ 9 = ground (arith, e3) in
          OnReturned-then (Inserts prog text s.caps (n - b'0'))
            (Expands prog text s.caps (c ∷ n ∷ rest)) _ _ (inserted-OnReturned s (n - b'0') b)
            (λ g i.
              OnReturned-then (Expands prog text s.caps rest)
                (Expands prog text s.caps (c ∷ n ∷ rest)) _ _ after
                (λ t h.
                  subst (λ (x : ℕ). Expands prog text s.caps (x ∷ n ∷ rest) (g ++ t)) (sym c1)
                    (subst (λ (x : ℕ). Expands prog text s.caps (b'$' ∷ x ∷ rest) (g ++ t)) (sym n1)
                      (group low i h))))
      which true false false e1 e2 e3 literal after =
          literal (inr (ground (arith, e2), ground (arith, e3)))

  module _ (c : IsCompiled prog) (rep : List ℕ) where
    replace_from-Replaces :
        (fuel from : ℕ) (st : State)
        → from ≤ length text + 1
        → length text + 2 ≤ fuel + from
        → OnReturned (Replaces prog text rep from) (replace_from prog text rep fuel from st)
    unfolding replace_from
    replace_from-Replaces zero from st high enough = absurd (omega (arith, high, enough))
    replace_from-Replaces (suc fuel) from st high enough =
        while_inside-OnReturned prog text (Replaces prog text rep from) from _ _ past (λ h.
          tried-OnReturned prog text (Replaces prog text rep from) from st
            (match_at prog text from st) _ _ (match_at-Decided prog text from st c h)
            (λ s m.
              let (on, inside) = after_match_lt from m.end (length text) m.forwards m.inside in
              spanned-OnReturned prog text (Replaces prog text rep from) from s _ m (
                OnReturned-then (Expands prog text s.caps rep) (Replaces prog text rep from) _ _
                  (expand-OnReturned s rep m.bounded)
                  (λ t e.
                    OnReturned-then (Replaces prog text rep (after_match from m.end))
                      (Replaces prog text rep from) _ _
                      (replace_from-Replaces fuel (after_match from m.end) s inside
                        (omega (arith, enough, on)))
                      (λ out w. replaced s m e w))))
            (λ s fails.
              OnReturned-then (Replaces prog text rep (from + 1)) (Replaces prog text rep from) _ _
                (replace_from-Replaces fuel (from + 1) s (omega (arith, h)) (omega (arith, enough)))
                (λ out w. kept h fails w)))

    -- For the program of a pattern and any replacement, replace ends with the step limit's
    -- error or returns the text in which every match, in the order of find_all, is its
    -- replacement expanded with the match's groups, and all other characters are as they
    -- were.
    pub replace-Replaces : OnReturned (Replaces prog text rep 0) (replace prog text rep)
    replace-Replaces =
        replace_from-Replaces (length text + 2) 0 new_state (omega arith) (omega arith)
