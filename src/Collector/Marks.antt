-- ===== src/Collector/Marks.antt =====
-- What `gcMarkObject` of src/object/object.hpp does to a heap, one object or a list of them.
use lovax.Base.{
  ℕ, ◌+◌, ◌*◌, ◌≤◌, ◌<◌, ◌≡◌, refl, sym, ap, ◌∙◌, ◌≢◌, ◌⊎◌, inl, inr, Bool, true, false, List, [],
  ◌∷◌, ◌++◌, arith, ◌==◌, if◌then◌else◌, ==_iff, Bool-cases, length,
}
use lovax.Base.Members.{contains, or_left, or_right, in_left, in_right, in_either}
use lovax.Collector.Heap.{
  recolor, queue_white, mark_object, mark_each, Heap, Color, white, gray, black,
}

abbrev pub is_marked : Color → Bool
is_marked white = false
is_marked gray = true
is_marked black = true

-- The white objects of a list.
abbrev pub count_white : List ℕ → (ℕ → Color) → ℕ
count_white [] color = 0
count_white (o ∷ os) color = (if is_marked (color o) then 0 else 1) + count_white os color

-- What marking makes smaller.
abbrev pub work : Heap → ℕ
work h = 2 * count_white h.first h.color + length h.worklist

-- `m` is `h` with the objects of `os` marked.
pub record Marks (os : List ℕ) (h m : Heap) : Type 0 where
  pub fields : m.fields ≡ h.fields
  pub first : m.first ≡ h.first
  pub grows : (p : ℕ) → is_marked (h.color p) ≡ true → is_marked (m.color p) ≡ true
  pub all : (p : ℕ) → contains p os ≡ true → is_marked (m.color p) ≡ true
  pub only :
      (p : ℕ)
      → is_marked (m.color p) ≡ true
      → (is_marked (h.color p) ≡ true) ⊎ (contains p os ≡ true)
  pub blacks : (p : ℕ) → m.color p ≡ black → h.color p ≡ black
  pub queued :
      ((p : ℕ) → h.color p ≡ gray → contains p h.worklist ≡ true)
      → (p : ℕ) → m.color p ≡ gray
      → contains p m.worklist ≡ true
  pub working :
      ((p : ℕ) → contains p h.worklist ≡ true → is_marked (h.color p) ≡ true)
      → (p : ℕ) → contains p m.worklist ≡ true
      → is_marked (m.color p) ≡ true
  pub lighter : ((p : ℕ) → contains p os ≡ true → contains p h.first ≡ true) → work m ≤ work h

pub count_white-recolor_le :
    (os : List ℕ) (color : ℕ → Color) (o : ℕ) (c : Color)
    → is_marked c ≡ true
    → count_white os (recolor color o c) ≤ count_white os color
count_white-recolor_le [] color o c h = omega arith
count_white-recolor_le (p ∷ os) color o c h = elim (Bool-cases (p == o)) [
  | inl y ↦ rw (y, h) (omega (arith, count_white-recolor_le os color o c h))
  | inr n ↦ rw n (omega (arith, count_white-recolor_le os color o c h))
]

-- A white object of the list is counted.
count_white-recolor :
    (os : List ℕ) (color : ℕ → Color) (o : ℕ)
    → color o ≡ white
    → contains o os ≡ true
    → count_white os (recolor color o gray) < count_white os color
count_white-recolor [] color o w h = absurd (cc)
count_white-recolor (p ∷ os) color o w h = elim (Bool-cases (p == o)) [
  | inl y ↦
      let same : color p ≡ white = ap color (omega (arith, (==_iff p o).0 y)) ∙ w in
      rw (y, same) (omega (arith, count_white-recolor_le os color o gray refl))
  | inr n ↦ rw n (omega (arith, count_white-recolor os color o w (ground (arith, n, h))))
]

pub mark_none : (h : Heap) → Marks [] h h
mark_none h = record {
  fields = refl;
  first = refl;
  grows = λ p y. y;
  all = λ p y. absurd (cc);
  only = λ p y. inl y;
  blacks = λ p y. y;
  queued = λ f p y. f p y;
  working = λ f p y. f p y;
  lighter = λ f. omega arith;
}

pub Marks-then :
    (xs ys : List ℕ) (h m n : Heap) → Marks xs h m → Marks ys m n → Marks (xs ++ ys) h n
Marks-then xs ys h m n a b = record {
  fields = b.fields ∙ a.fields;
  first = b.first ∙ a.first;
  grows = λ p y. b.grows p (a.grows p y);
  all = λ p y. elim (in_either p xs ys y) [ inl x ↦ b.grows p (a.all p x) | inr x ↦ b.all p x ];
  only = λ p y. elim (b.only p y) [
    | inl x ↦ elim (a.only p x) [ inl z ↦ inl z | inr z ↦ inr (in_left p xs ys z) ]
    | inr x ↦ inr (in_right p xs ys x)
  ];
  blacks = λ p y. a.blacks p (b.blacks p y);
  queued = λ f. b.queued (a.queued f);
  working = λ f. b.working (a.working f);
  lighter = λ f. omega (
    arith,
    a.lighter (λ p y. f p (in_left p xs ys y)),
    b.lighter (λ p y. ap (contains p) a.first ∙ f p (in_right p xs ys y)),
  );
}

-- An object that is marked already is left alone.
mark_again : (h : Heap) (o : ℕ) → is_marked (h.color o) ≡ true → Marks (o ∷ []) h h
mark_again h o e = record {
  fields = refl;
  first = refl;
  grows = λ p y. y;
  all = λ p y. ap (λ (q : ℕ). is_marked (h.color q)) (only_one p y) ∙ e;
  only = λ p y. inl y;
  blacks = λ p y. y;
  queued = λ f p y. f p y;
  working = λ f p y. f p y;
  lighter = λ f. omega arith;
}
  where
    only_one : (p : ℕ) → contains p (o ∷ []) ≡ true → p ≡ o
    only_one p y = ground (arith, y)

pub recolor_same :
    (color : ℕ → Color) (o : ℕ) (c : Color) (p : ℕ) → (p == o) ≡ true → recolor color o c p ≡ c
recolor_same color o c p q = rw q refl

pub recolor_other :
    (color : ℕ → Color) (o : ℕ) (c : Color) (p : ℕ)
    → (p == o) ≡ false
    → recolor color o c p ≡ color p
recolor_other color o c p q = rw q refl

gray_not_black : gray ≢ black
gray_not_black = cc

mark_white : (h : Heap) (o : ℕ) → h.color o ≡ white → Marks (o ∷ []) h (queue_white h o white)
mark_white h o e = record {
  fields = refl;
  first = refl;
  grows = λ p y. elim (Bool-cases (p == o)) [ inl q ↦ rw q refl | inr q ↦ rw q y ];
  all = λ p y. elim (Bool-cases (p == o)) [
    | inl q ↦ rw q refl
    | inr q ↦ absurd (ground (arith, q, y))
  ];
  only = λ p y. elim (Bool-cases (p == o)) [
    | inl q ↦ inr (or_left (p == o) false q)
    | inr q ↦ inl (ap is_marked (sym (recolor_other h.color o gray p q)) ∙ y)
  ];
  blacks = λ p y. elim (Bool-cases (p == o)) [
    | inl q ↦ absurd (gray_not_black (sym (recolor_same h.color o gray p q) ∙ y))
    | inr q ↦ sym (recolor_other h.color o gray p q) ∙ y
  ];
  queued = λ f p y. elim (Bool-cases (p == o)) [
    | inl q ↦ or_left (p == o) _ q
    | inr q ↦ or_right (p == o) _ (f p (sym (recolor_other h.color o gray p q) ∙ y))
  ];
  working = λ f p y. elim (Bool-cases (p == o)) [
    | inl q ↦ rw q refl
    | inr q ↦ rw q (f p (ground (arith, q, y)))
  ];
  lighter = λ f. omega (arith, count_white-recolor h.first h.color o e (f o (ground arith)));
}

mark_object-Marks :
    (h : Heap) (o : ℕ) (c : Color) → h.color o ≡ c → Marks (o ∷ []) h (queue_white h o c)
mark_object-Marks h o white e = mark_white h o e
mark_object-Marks h o gray e = mark_again h o (ap is_marked e)
mark_object-Marks h o black e = mark_again h o (ap is_marked e)

pub mark_each-Marks : (os : List ℕ) (h : Heap) → Marks os h (mark_each os h)
unfolding mark_each
mark_each-Marks [] h = mark_none h
mark_each-Marks (o ∷ os) h =
    Marks-then (o ∷ []) os h (mark_object h o) (mark_each os (mark_object h o))
      (mark_object-Marks h o (h.color o) refl) (mark_each-Marks os (mark_object h o))
