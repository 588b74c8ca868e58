-- ===== src/Regex/Repeated.antt =====
-- `applyRepeat` of src/modules/regex.hpp on a fragment.
use lovax.Base.{
  ℕ, zero, suc, ◌+◌, ◌-◌, ◌≤◌, ◌<◌, ◌≡◌, refl, sym, ◌∙◌, inl, inr, Bool, true, false, Option, none,
  some, List, [], ◌∷◌, ◌++◌, arith, ltb, Bool-cases, ◌>>=◌, some_injective, length, get_elem?, set,
  take, length-append, length-set, get_elem?-lt,
}
use lovax.Base.Members.{}
use lovax.Regex.Program.{max_prog, Inst, jmp}
use lovax.Regex.Ends.{is_split}
use lovax.Regex.Repeat.{
  checked, copies, optional_copies, branch, patch_splits, star, repeat_more, apply_repeat,
}
use lovax.Regex.Fragment.{
  Stands, get_elem?-take, length-take, split_lt, Keeps-append, append-IsFragment, IsFragment, Keeps,
}
use lovax.Regex.Opened.{opened-Grows}
use lovax.Regex.Patches.{
  Below-append, Below-set, Keeps-set, patch-IsFragment, body, append_body-Grows, Grows,
}
use mathlib.Core.Path.{subst}

-- A result, if there is one, has a property.
abbrev pub OnSome {ℓ κ} : {A : Type ℓ} → (A → Type κ) → Option A → Type κ
OnSome P none = Unit
OnSome P (some a) = P a

pub OnSome-bind {ℓ κ μ ν} :
    {A : Type ℓ} {B : Type κ} (P : A → Type μ) (Q : B → Type ν) (o : Option A) (f : A → Option B)
    → OnSome P o
    → ((a : A) → P a → OnSome Q (f a))
    → OnSome Q (o >>= f)
OnSome-bind P Q none f p h = tt
OnSome-bind P Q (some a) f p h = h a p

checked-OnSome {ℓ} : (P : List Inst → Type ℓ) (code : List Inst) → P code → OnSome P (checked code)
checked-OnSome P code p = elim (Bool-cases (ltb max_prog (length code))) [
  | inl y ↦ rw y tt
  | inr n ↦ rw n p
]

branch_split : (lazy : Bool) (here end : ℕ) → is_split (some (branch lazy here end)) ≡ true
branch_split true here end = refl
branch_split false here end = refl

branch-Stands :
    (lazy : Bool) (start classes here end pc : ℕ) (code : List Inst)
    → start ≤ here
    → here ≤ length code
    → start ≤ end
    → end ≤ length code
    → Stands start classes code pc (branch lazy here end)
branch-Stands true start classes here end pc code lh hh le he = (le, he, lh, hh)
branch-Stands false start classes here end pc code lh hh le he = (lh, hh, le, he)

module _ (start classes : ℕ) (origin : List Inst) (whole : IsFragment [] start classes origin) where
  abbrev pub Made : List Inst → Type 0
  Made code = Grows [] start classes origin code

  copies-Made :
      (k : ℕ) (code : List Inst)
      → Made code
      → OnSome Made (copies k start (body start classes origin whole) code)
  unfolding copies
  copies-Made zero code g = g
  copies-Made (suc k) code g =
      OnSome-bind Made Made _ _
        (checked-OnSome Made _ (append_body-Grows start classes origin whole [] code g).0)
        (λ c m. copies-Made k c m)

  -- SPLITs of the code that are still to be patched.
  abbrev AreSplits : List ℕ → List Inst → Type 0
  AreSplits [] code = Unit
  AreSplits (s ∷ splits) code =
      (start ≤ s) × (is_split (get_elem? code s) ≡ true) × AreSplits splits code

  AreSplits-Keeps :
      (splits : List ℕ) (code later : List Inst)
      → Keeps code later
      → AreSplits splits code
      → AreSplits splits later
  AreSplits-Keeps [] code later k h = tt
  AreSplits-Keeps (s ∷ splits) code later k (low, y, h) =
      (low, k.splits s y, AreSplits-Keeps splits code later k h)

  patch_splits-Made :
      (lazy : Bool) (end : ℕ) (splits : List ℕ) (code : List Inst)
      → start ≤ end
      → end ≤ length code
      → AreSplits splits code
      → Grows splits start classes origin code
      → Made (patch_splits lazy end splits code)
  unfolding patch_splits
  patch_splits-Made lazy end [] code le he h g = g
  patch_splits-Made lazy end (s ∷ splits) code le he (low, y, h) g =
      let i = branch lazy (s + 1) end in
      let inside = split_lt code s y in
      let same : is_split (some i) ≡ is_split (get_elem? code s) =
        branch_split lazy (s + 1) end ∙ sym y in
      let len = length-set code s i in
      patch_splits-Made lazy end splits (set code s i) le (omega (arith, he, len))
        (AreSplits-Keeps splits code (set code s i) (Keeps-set code s i inside same) h)
        (record {
          fragment = patch-IsFragment splits s start classes code i g.fragment inside same (
              branch-Stands lazy start classes (s + 1) end s (set code s i) (omega (arith, low))
                (omega (arith, inside, len)) le (omega (arith, he, len)));
          below = λ pc lt. Below-set start s code i low pc lt ∙ g.below pc lt;
        })

  -- A loop that is closed by a JMP back to its SPLIT, which gets its targets.
  closed-Made :
      (lazy : Bool) (split_at : ℕ) (code : List Inst)
      → start ≤ split_at
      → is_split (get_elem? code split_at) ≡ true
      → Grows (split_at ∷ []) start classes origin code
      → Made (
          set
            (code ++ jmp split_at ∷ [])
            split_at
            (branch lazy (split_at + 1) (length (code ++ jmp split_at ∷ []))))
  unfolding patch_splits
  closed-Made lazy split_at code low y g =
      let more = code ++ jmp split_at ∷ [] in
      let keeps = Keeps-append code (jmp split_at ∷ []) in
      let here = keeps.splits split_at y in
      let inside = split_lt code split_at y in
      let len = length-append code (jmp split_at ∷ []) in
      let fragment =
        append-IsFragment (split_at ∷ []) start classes code (jmp split_at ∷ []) g.fragment
          (λ j i e. inr (back here inside len j i e)) in
      patch_splits-Made lazy (length more) (split_at ∷ []) more (omega (arith, low, inside, len))
        (omega arith) (low, here, tt)
        (record {
          fragment = fragment;
          below = λ pc lt.
              Below-append start code (jmp split_at ∷ []) g.fragment.inside pc lt ∙ g.below pc lt;
        })
    where
      back :
          is_split (get_elem? (code ++ jmp split_at ∷ []) split_at) ≡ true
          → split_at < length code
          → length (code ++ jmp split_at ∷ []) ≡ length code + length (jmp split_at ∷ [])
          → (j : ℕ) (i : Inst) → get_elem? (jmp split_at ∷ []) j ≡ some i
          → Stands start classes (code ++ jmp split_at ∷ []) (length code + j) i
      back here inside len zero i e =
          subst (λ (k : Inst). Stands start classes (code ++ jmp split_at ∷ []) (length code + 0) k)
            (some_injective e) (low, omega (arith, inside, len), inr here)
      back here inside len (suc j) i e = absurd (cc)

  star-Made :
      (lazy : Bool) (code : List Inst)
      → Made code
      → OnSome Made (star lazy start (body start classes origin whole) code)
  unfolding star
  star-Made lazy code g =
      let w = opened-Grows start classes origin whole [] code g in
      OnSome-bind
        (λ c.
          Grows (length code ∷ []) start classes origin c
          × (is_split (get_elem? c (length code)) ≡ true))
        Made _ _
        (checked-OnSome
          (λ c.
            Grows (length code ∷ []) start classes origin c
            × (is_split (get_elem? c (length code)) ≡ true))
          _ (w.0, w.2))
        (λ c (grown, y). closed-Made lazy (length code) c g.fragment.inside y grown)

  -- The optional copies.
  abbrev Optional : List ℕ × List Inst → Type 0
  Optional (splits, code) = Grows splits start classes origin code × AreSplits splits code

  optional_copies-Optional :
      (k : ℕ) (splits : List ℕ) (code : List Inst)
      → Optional (splits, code)
      → OnSome Optional (optional_copies k start (body start classes origin whole) splits code)
  unfolding optional_copies
  optional_copies-Optional zero splits code o = o
  optional_copies-Optional (suc k) splits code (g, h) =
      let w = opened-Grows start classes origin whole splits code g in
      OnSome-bind (λ c. Optional (length code ∷ splits, c)) Optional _ _
        (checked-OnSome (λ c. Optional (length code ∷ splits, c)) _
          ((w.0), (g.fragment.inside, w.2, AreSplits-Keeps splits code _ w.1 h)))
        (λ c o. optional_copies-Optional k (length code ∷ splits) c o)

  more-Made :
      (lazy : Bool) (lo : ℕ) (hi : Option ℕ) (code : List Inst)
      → Made code
      → OnSome Made (repeat_more lazy start lo hi (body start classes origin whole) code)
  unfolding repeat_more
  more-Made lazy lo none code g = star-Made lazy code g
  more-Made lazy lo (some hi) code g =
      OnSome-bind Optional Made _ _ (optional_copies-Optional (hi - lo) [] code (g, tt))
        (λ (splits, c) (grown, h).
          patch_splits-Made lazy (length c) splits c grown.fragment.inside (omega arith) h grown)

  -- What stands before the fragment is a fragment without instructions.
  pub before-Made : Made (take start origin)
  before-Made =
      let len = length-take start origin whole.inside in
      record {
        fragment = record {
          inside = omega (arith, len);
          stands = λ pc i low e.
              absurd (omega (arith, low, len, get_elem?-lt (take start origin) pc i e));
        };
        below = λ pc lt. get_elem?-take start origin pc lt;
      }

  pub apply_repeat-Made :
      (lo : ℕ) (hi : Option ℕ) (lazy : Bool) → OnSome Made (apply_repeat start lo hi lazy origin)
  unfolding apply_repeat
  apply_repeat-Made lo hi lazy =
      OnSome-bind Made Made _ _ (copies-Made lo (take start origin) before-Made)
        (λ c m. more-Made lazy lo hi c m)
