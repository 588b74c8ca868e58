-- ===== src/Regex/Restores.antt =====
-- `replace` of src/modules/regex.hpp with the replacement `$0`.
use lovax.Base.{
  ℕ, zero, suc, ◌+◌, ◌-◌, ◌*◌, ◌≤◌, ◌≡◌, refl, sym, ap, ◌∙◌, ◌≢◌, inl, inr, Bool, true, false,
  Option, none, List, [], ◌∷◌, ◌++◌, arith, ltb, if◌then◌else◌, some_injective, length, take, drop,
}
use lovax.Regex.Program.{Prog}
use lovax.Regex.Decides.{IsMatch, IsCompiled}
use lovax.Regex.Functions.{char_at, replace}
use lovax.Regex.Turns.{OnReturned, OnReturned-map, after_match}
use lovax.Regex.Splits.{drop_nil, take-drop}
use lovax.Regex.Replaces.{
  IsPlain, replace-Replaces, Inserts, unset, span, endless, Expands, nothing, dollar, group, plain,
  Replaces, past, replaced, kept,
}
use mathlib.Core.Path.{subst}

abbrev pub whole_match : List ℕ
whole_match = b'$' ∷ b'0' ∷ []

append_nil : (xs : List ℕ) → xs ++ [] ≡ xs
append_nil [] = refl
append_nil (x ∷ xs) = ap (λ (r : List ℕ). x ∷ r) (append_nil xs)

drop_all : (i : ℕ) (xs : List ℕ) → length xs ≤ i → drop i xs ≡ []
drop_all zero [] h = refl
drop_all zero (x ∷ xs) h = absurd (omega (arith, h))
drop_all (suc i) [] h = refl
drop_all (suc i) (x ∷ xs) h = drop_all i xs (omega (arith, h))

head_of : {x y : ℕ} {xs ys : List ℕ} → x ∷ xs ≡ y ∷ ys → x ≡ y
head_of = cc

tail_of : {x y : ℕ} {xs ys : List ℕ} → x ∷ xs ≡ y ∷ ys → xs ≡ ys
tail_of = cc

second : {x x' y y' : ℕ} {xs ys : List ℕ} → x ∷ y ∷ xs ≡ x' ∷ y' ∷ ys → y ≡ y'
second e = head_of (tail_of e)

behind_second : {x x' y y' : ℕ} {xs ys : List ℕ} → x ∷ y ∷ xs ≡ x' ∷ y' ∷ ys → xs ≡ ys
behind_second e = tail_of (tail_of e)

module _ (prog : Prog) where
  char_at-drop : (xs : List ℕ) (i : ℕ) → char_at prog xs i ++ drop (i + 1) xs ≡ drop i xs
  char_at-drop [] zero = refl
  char_at-drop [] (suc i) = drop_nil (suc i + 1)
  char_at-drop (x ∷ xs) zero = refl
  char_at-drop (x ∷ xs) (suc i) =
      let e : suc i + 1 ≡ suc (i + 1) = omega arith in
      ap (λ (k : ℕ). char_at prog xs i ++ drop k (x ∷ xs)) e ∙ char_at-drop xs i

  module _ (text : List ℕ) (groups : 1 ≤ prog.group_count) where
    -- The whole match is group 0.
    Inserts-whole :
        (from d : ℕ) (f : ℕ → Option ℕ) (t : List ℕ) (m : IsMatch prog text from f)
        → d ≡ 0
        → Inserts prog text f d t
        → t ≡ take (m.end - from) (drop from text)
    Inserts-whole from d f _ m z (unset (inl h)) = absurd (omega (arith, h, groups, z))
    Inserts-whole from d f _ m z (unset (inr h)) =
        absurd (is_set (ap (λ (k : ℕ). f (k * 2)) (sym z) ∙ h))
      where
        is_set : f 0 ≢ none
        is_set e = let first = m.begins_at in cc
    Inserts-whole from d f _ m z (span {a} {b} lt e1 e2 le inside) =
        let first : from ≡ a =
          some_injective (sym m.begins_at ∙ ap (λ (k : ℕ). f (k * 2)) (sym z) ∙ e1) in
        let last : m.end ≡ b =
          some_injective (sym m.ends_at ∙ ap (λ (k : ℕ). f (k * 2 + 1)) (sym z) ∙ e2) in
        rw (first, last) refl
    Inserts-whole from d f _ m z (endless {a} lt e1 inside before) =
        let first : from ≡ a =
          some_injective (sym m.begins_at ∙ ap (λ (k : ℕ). f (k * 2)) (sym z) ∙ e1) in
        let last = before m.end (ap (λ (k : ℕ). f (k * 2 + 1)) z ∙ m.ends_at) in
        absurd (omega (arith, first, last, m.forwards))

    Expands-nil :
        (f : ℕ → Option ℕ) (rep t : List ℕ) → rep ≡ [] → Expands prog text f rep t → t ≡ []
    Expands-nil f _ _ e nothing = refl
    Expands-nil f _ _ e (dollar x) = absurd (cc)
    Expands-nil f _ _ e (group d i x) = absurd (cc)
    Expands-nil f _ _ e (plain p x) = absurd (cc)

    Expands-whole :
        (from : ℕ) (f : ℕ → Option ℕ) (rep t : List ℕ) (m : IsMatch prog text from f)
        → rep ≡ whole_match
        → Expands prog text f rep t
        → t ≡ take (m.end - from) (drop from text)
    Expands-whole from f _ _ m e nothing = absurd (cc)
    Expands-whole from f _ _ m e (dollar x) = absurd (omega (arith, second e))
    Expands-whole from f _ _ m e (group {d} {t} {rest} {out} le i x) =
        let zero_group : d ≡ 0 = omega (arith, second e) in
        ap (λ (r : List ℕ). t ++ r) (Expands-nil f rest out (behind_second e) x)
        ∙ append_nil t
        ∙ Inserts-whole from d f t m zero_group i
    Expands-whole from f _ _ m e (plain {c} {rest} p x) =
        absurd (not_plain (subst (λ (r : List ℕ). IsPlain c r) (tail_of e) p))
      where
        not_plain : IsPlain c (b'0' ∷ []) → ⊥
        not_plain (inl n) = n (head_of e)
        not_plain (inr (n, inl h)) = omega (arith, h)
        not_plain (inr (n, inr h)) = omega (arith, h)

    -- What stands behind a match.
    behind :
        (end : ℕ) (out : List ℕ) (longer : Bool)
        → out ≡ drop (if longer then end else end + 1) text
        → (if longer then out else char_at prog text end ++ out) ≡ drop end text
    behind end out true e = e
    behind end out false e =
        ap (λ (x : List ℕ). char_at prog text end ++ x) e ∙ char_at-drop text end

    -- The text from a position on is what the replacement by the match itself makes of it.
    Replaces-same :
        (from : ℕ) (out : List ℕ) → Replaces prog text whole_match from out → out ≡ drop from text
    Replaces-same from _ (past h) = sym (drop_all from text (omega (arith, h)))
    Replaces-same from _ (replaced {t} {out} s m e w) =
        let same : t ≡ take (m.end - from) (drop from text) =
          Expands-whole from s.caps whole_match t m refl e in
        ap (λ (x : List ℕ). x ++ (if ltb from m.end then out else char_at prog text m.end ++ out))
          same
        ∙ ap (λ (x : List ℕ). take (m.end - from) (drop from text) ++ x)
            (behind m.end out (ltb from m.end) (Replaces-same (after_match from m.end) out w))
        ∙ take-drop text from m.end m.forwards
    Replaces-same from _ (kept {out} h fails w) =
        ap (λ (x : List ℕ). char_at prog text from ++ x) (Replaces-same (from + 1) out w)
        ∙ char_at-drop text from

  -- For the program of a pattern, replace with the replacement $0 ends with the step limit's
  -- error or returns the text itself.
  pub replace_whole :
      (text : List ℕ)
      → IsCompiled prog
      → OnReturned (λ (out : List ℕ). out ≡ text) (replace prog text whole_match)
  replace_whole text c =
      OnReturned-map (Replaces prog text whole_match 0) (λ (out : List ℕ). out ≡ text) _
        (replace-Replaces prog text c whole_match) (λ out w. Replaces-same text c.groups.0 0 out w)
