-- ===== src/Regex/Fragment.antt =====
-- Code from a position on, as the compiler of src/modules/regex.hpp keeps it: which instructions
-- may stand there.
use lovax.Base.{
  ℕ, zero, suc, ◌+◌, ◌-◌, ◌*◌, ◌≤◌, ◌<◌, ◌≡◌, refl, sym, ap, ◌∙◌, ◌⊎◌, inl, inr, true, some, List,
  [], ◌∷◌, ◌++◌, arith, some_injective, length, get_elem?, take, drop, length-append,
}
use lovax.Base.Members.{contains}
use lovax.Regex.Program.{max_groups, Inst, char, any, class, split, jmp, save, bol, eol, match}
use lovax.Regex.Ends.{is_split}
use lovax.Regex.Repeat.{shift, relocate}
use mathlib.Core.Path.{subst}

-- An instruction at `pc` of a fragment that begins at `start`: its targets lie in the code or at
-- its end, and a JMP goes forwards, or to a SPLIT of the fragment.
abbrev pub Stands : ℕ → ℕ → List Inst → ℕ → Inst → Type 0
Stands start classes code pc (class i) = i < classes
Stands start classes code pc (split x y) =
    (start ≤ x) × (x ≤ length code) × (start ≤ y) × (y ≤ length code)
Stands start classes code pc (jmp x) =
    (start ≤ x) × (x ≤ length code) × ((pc < x) ⊎ (is_split (get_elem? code x) ≡ true))
Stands start classes code pc (save x) = (1 < x) × (x < max_groups * 2)
Stands start classes code pc match = ⊥
Stands start classes code pc _ = Unit

-- Every instruction from `start` on stands, but for those that are still to be patched.
pub record IsFragment (open_at : List ℕ) (start classes : ℕ) (code : List Inst) : Type 0 where
  pub inside : start ≤ length code
  pub stands :
      (pc : ℕ) (i : Inst)
      → start ≤ pc
      → get_elem? code pc ≡ some i
      → (contains pc open_at ≡ true) ⊎ Stands start classes code pc i

-- `later` has the SPLITs of `code` in their places, and at least its length.
pub record Keeps (code later : List Inst) : Type 0 where
  pub longer : length code ≤ length later
  pub splits : (x : ℕ) → is_split (get_elem? code x) ≡ true → is_split (get_elem? later x) ≡ true

-- An instruction stands in longer code, and in a fragment that begins earlier.
pub Stands-later :
    (s s' c c' : ℕ) (code later : List Inst) (pc : ℕ) (i : Inst)
    → s' ≤ s
    → c ≤ c'
    → Keeps code later
    → Stands s c code pc i
    → Stands s' c' later pc i
Stands-later s s' c c' code later pc (class j) hs hc k h = omega (arith, h, hc)
Stands-later s s' c c' code later pc (split x y) hs hc k (lx, hx, ly, hy) = (
  omega (arith, lx, hs),
  omega (arith, hx, k.longer),
  omega (arith, ly, hs),
  omega (arith, hy, k.longer),
)
Stands-later s s' c c' code later pc (jmp x) hs hc k (low, high, inl on) =
    (omega (arith, low, hs), omega (arith, high, k.longer), inl on)
Stands-later s s' c c' code later pc (jmp x) hs hc k (low, high, inr back) =
    (omega (arith, low, hs), omega (arith, high, k.longer), inr (k.splits x back))
Stands-later s s' c c' code later pc (save x) hs hc k h = h
Stands-later s s' c c' code later pc match hs hc k h = h
Stands-later s s' c c' code later pc (char b) hs hc k h = tt
Stands-later s s' c c' code later pc any hs hc k h = tt
Stands-later s s' c c' code later pc bol hs hc k h = tt
Stands-later s s' c c' code later pc eol hs hc k h = tt

pub get_elem?-append_left {ℓ} :
    {A : Type ℓ} (xs ys : List A) (i : ℕ) → i < length xs → get_elem? (xs ++ ys) i ≡ get_elem? xs i
get_elem?-append_left [] ys i h = absurd (omega arith)
get_elem?-append_left (x ∷ xs) ys zero h = refl
get_elem?-append_left (x ∷ xs) ys (suc i) h = get_elem?-append_left xs ys i (omega arith)

pub get_elem?-append_right {ℓ} :
    {A : Type ℓ} (xs ys : List A) (j : ℕ) → get_elem? (xs ++ ys) (length xs + j) ≡ get_elem? ys j
get_elem?-append_right [] ys j = let e : 0 + j ≡ j = omega arith in ap (get_elem? ys) e
get_elem?-append_right (x ∷ xs) ys j =
    let e : length (x ∷ xs) + j ≡ suc (length xs + j) = omega arith in
    ap (get_elem? (x ∷ (xs ++ ys))) e ∙ get_elem?-append_right xs ys j

pub get_elem?-drop {ℓ} :
    {A : Type ℓ} (n : ℕ) (xs : List A) (j : ℕ) → get_elem? (drop n xs) j ≡ get_elem? xs (n + j)
get_elem?-drop zero xs j = let e : j ≡ 0 + j = omega arith in ap (get_elem? xs) e
get_elem?-drop (suc n) [] j = refl
get_elem?-drop (suc n) (x ∷ xs) j =
    let e : suc (n + j) ≡ suc n + j = omega arith in
    get_elem?-drop n xs j ∙ ap (get_elem? (x ∷ xs)) e

pub get_elem?-take {ℓ} :
    {A : Type ℓ} (n : ℕ) (xs : List A) (i : ℕ) → i < n → get_elem? (take n xs) i ≡ get_elem? xs i
get_elem?-take zero xs i h = absurd (omega arith)
get_elem?-take (suc n) [] i h = refl
get_elem?-take (suc n) (x ∷ xs) zero h = refl
get_elem?-take (suc n) (x ∷ xs) (suc i) h = get_elem?-take n xs i (omega arith)

pub length-take {ℓ} : {A : Type ℓ} (n : ℕ) (xs : List A) → n ≤ length xs → length (take n xs) ≡ n
length-take zero xs h = refl
length-take (suc n) [] h = absurd (omega arith)
length-take (suc n) (x ∷ xs) h = ap suc (length-take n xs (omega arith))

pub length-drop {ℓ} : {A : Type ℓ} (n : ℕ) (xs : List A) → length (drop n xs) ≡ length xs - n
length-drop zero xs = omega arith
length-drop (suc n) [] = omega arith
length-drop (suc n) (x ∷ xs) = omega (arith, length-drop n xs)

pub length-relocate : (delta : ℕ) (is : List Inst) → length (relocate delta is) ≡ length is
length-relocate delta [] = refl
length-relocate delta (i ∷ is) = ap suc (length-relocate delta is)

pub get_elem?-relocate :
    (delta : ℕ) (is : List Inst) (j : ℕ) (i : Inst)
    → get_elem? (relocate delta is) j ≡ some i
    → (o : Inst) × (get_elem? is j ≡ some o) × (i ≡ shift delta o)
get_elem?-relocate delta [] j i e = absurd (cc)
get_elem?-relocate delta (o ∷ is) zero i e = (o, refl, sym (some_injective e))
get_elem?-relocate delta (o ∷ is) (suc j) i e = get_elem?-relocate delta is j i e

pub is_split-relocate :
    (delta : ℕ) (is : List Inst) (j : ℕ)
    → is_split (get_elem? (relocate delta is) j) ≡ is_split (get_elem? is j)
is_split-relocate delta [] j = refl
is_split-relocate delta (char c ∷ is) zero = refl
is_split-relocate delta (any ∷ is) zero = refl
is_split-relocate delta (class c ∷ is) zero = refl
is_split-relocate delta (split x y ∷ is) zero = refl
is_split-relocate delta (jmp x ∷ is) zero = refl
is_split-relocate delta (save x ∷ is) zero = refl
is_split-relocate delta (bol ∷ is) zero = refl
is_split-relocate delta (eol ∷ is) zero = refl
is_split-relocate delta (match ∷ is) zero = refl
is_split-relocate delta (o ∷ is) (suc j) = is_split-relocate delta is j

pub split_lt : (is : List Inst) (x : ℕ) → is_split (get_elem? is x) ≡ true → x < length is
split_lt [] x y = absurd (cc)
split_lt (i ∷ is) zero y = omega arith
split_lt (i ∷ is) (suc x) y = omega (arith, split_lt is x y)

-- Code that is appended leaves the code before it as it was.
pub Keeps-append : (code more : List Inst) → Keeps code (code ++ more)
Keeps-append code more = record {
  longer = omega (arith, length-append code more);
  splits = λ x y. ap is_split (get_elem?-append_left code more x (split_lt code x y)) ∙ y;
}

-- A position of appended code is one of the code, or one of what was appended.
pub append_cases {ℓ} :
    {A : Type ℓ} (xs ys : List A) (i : ℕ) (a : A)
    → get_elem? (xs ++ ys) i ≡ some a
    → ((i < length xs) × (get_elem? xs i ≡ some a))
      ⊎ ((j : ℕ) × (i ≡ length xs + j) × (get_elem? ys j ≡ some a))
append_cases [] ys i a e = inr (i, omega arith, e)
append_cases (x ∷ xs) ys zero a e = inl (omega arith, e)
append_cases (x ∷ xs) ys (suc i) a e = elim (append_cases xs ys i a e) [
  | inl (h, q) ↦ inl (omega (arith, h), q)
  | inr (j, h, q) ↦ inr (j, omega (arith, h), q)
]

-- More code, whose instructions stand in it, may be appended to a fragment.
pub append-IsFragment :
    (open_at : List ℕ) (start classes : ℕ) (code more : List Inst)
    → IsFragment open_at start classes code
    → ((j : ℕ) (i : Inst)
        → get_elem? more j ≡ some i
        → (contains (length code + j) open_at ≡ true)
          ⊎ Stands start classes (code ++ more) (length code + j) i)
    → IsFragment open_at start classes (code ++ more)
append-IsFragment open_at start classes code more f new = record {
  inside = omega (arith, f.inside, length-append code more);
  stands = λ pc i low e. elim (append_cases code more pc i e) [
    | inl (h, q) ↦ elim (f.stands pc i low q) [
      | inl o ↦ inl o
      | inr s ↦ inr (
          Stands-later start start classes classes code (code ++ more) pc i (omega arith)
            (omega arith) (Keeps-append code more) s)
    ]
    | inr (j, h, q) ↦
        subst (λ (p : ℕ). (contains p open_at ≡ true) ⊎ Stands start classes (code ++ more) p i)
          (sym h) (new j i q)
  ];
}

pub widen-IsFragment :
    (open_at wider : List ℕ) (start classes : ℕ) (code : List Inst)
    → ((p : ℕ) → contains p open_at ≡ true → contains p wider ≡ true)
    → IsFragment open_at start classes code
    → IsFragment wider start classes code
widen-IsFragment open_at wider start classes code w f = record {
  inside = f.inside;
  stands = λ pc i low e. elim (f.stands pc i low e) [ inl o ↦ inl (w pc o) | inr s ↦ inr s ];
}
