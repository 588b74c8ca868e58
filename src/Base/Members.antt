-- ===== src/Base/Members.antt =====
-- Members of a list of numbers, as a Boolean test.
use lovax.Base.{
  ℕ, ◌≡◌, refl, sym, ◌∙◌, ◌⊎◌, inl, inr, Bool, true, false, ◌||◌, List, [], ◌∷◌, ◌++◌, ◌==◌,
  Bool-cases,
}

abbrev pub contains : ℕ → List ℕ → Bool
contains p [] = false
contains p (o ∷ os) = p == o || contains p os

contains-append :
    (p : ℕ) (xs ys : List ℕ) → contains p (xs ++ ys) ≡ (contains p xs || contains p ys)
contains-append p [] ys = refl
contains-append p (x ∷ xs) ys = elim (Bool-cases (p == x)) [
  | inl y ↦ rw y refl
  | inr n ↦ rw n (contains-append p xs ys)
]

pub or_cases : (a b : Bool) → (a || b) ≡ true → (a ≡ true) ⊎ (b ≡ true)
or_cases true b h = inl refl
or_cases false b h = inr h

pub or_left : (a b : Bool) → a ≡ true → (a || b) ≡ true
or_left true b h = refl
or_left false b h = absurd (cc)

pub or_right : (a b : Bool) → b ≡ true → (a || b) ≡ true
or_right true b h = refl
or_right false b h = h

pub in_left : (p : ℕ) (xs ys : List ℕ) → contains p xs ≡ true → contains p (xs ++ ys) ≡ true
in_left p xs ys h = contains-append p xs ys ∙ or_left (contains p xs) (contains p ys) h

pub in_right : (p : ℕ) (xs ys : List ℕ) → contains p ys ≡ true → contains p (xs ++ ys) ≡ true
in_right p xs ys h = contains-append p xs ys ∙ or_right (contains p xs) (contains p ys) h

pub in_either :
    (p : ℕ) (xs ys : List ℕ)
    → contains p (xs ++ ys) ≡ true
    → (contains p xs ≡ true) ⊎ (contains p ys ≡ true)
in_either p xs ys h = or_cases (contains p xs) (contains p ys) (sym (contains-append p xs ys) ∙ h)
