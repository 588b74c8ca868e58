-- ===== src/Collector/Tricolor.antt =====
-- The tri-colour invariant of the marking of src/object/object.hpp, and `markStep`.
use lovax.Base.{
  ℕ, ◌≤◌, ◌<◌, ◌≡◌, refl, sym, ap, ◌∙◌, ◌≢◌, inl, inr, Bool, true, false, ◌||◌, List, ◌∷◌, arith,
  ◌==◌, ==_iff, Bool-cases, length,
}
use lovax.Collector.Heap.{recolor, scan_object, Heap, gray, black}
use lovax.Base.Members.{contains, or_left, or_right}
use lovax.Collector.Marks.{
  is_marked, work, count_white-recolor_le, recolor_same, recolor_other, mark_each-Marks, Marks,
}
use mathlib.Core.Path.{subst}

-- The objects that a path of references leads to from the roots.
pub data Reach (roots : List ℕ) (fields : ℕ → List ℕ) : ℕ → Type 0 where
  root : (o : ℕ) → contains o roots ≡ true → Reach roots fields o
  field : (o p : ℕ) → Reach roots fields o → contains p (fields o) ≡ true → Reach roots fields p

-- Every root, and every reference of an object of the list, is an object of the list.
pub record IsClosed (roots : List ℕ) (h : Heap) : Type 0 where
  pub roots_in : (o : ℕ) → contains o roots ≡ true → contains o h.first ≡ true
  pub fields_in :
      (o p : ℕ)
      → contains o h.first ≡ true
      → contains p (h.fields o) ≡ true
      → contains p h.first ≡ true

-- `h` is the heap `base` in the course of marking: marked objects are reachable, the gray ones
-- are those of the worklist, and what a black object refers to is marked.
pub record Tricolor (roots : List ℕ) (base h : Heap) : Type 0 where
  pub same_fields : h.fields ≡ base.fields
  pub same_first : h.first ≡ base.first
  pub sound : (o : ℕ) → is_marked (h.color o) ≡ true → Reach roots base.fields o
  pub queued : (o : ℕ) → h.color o ≡ gray → contains o h.worklist ≡ true
  pub working : (o : ℕ) → contains o h.worklist ≡ true → is_marked (h.color o) ≡ true
  pub scanned :
      (o p : ℕ)
      → h.color o ≡ black
      → contains p (base.fields o) ≡ true
      → is_marked (h.color p) ≡ true

black_not_gray : black ≢ gray
black_not_gray = cc

second : (a b : Bool) → a ≡ false → (a || b) ≡ true → b ≡ true
second true b n h = absurd (cc)
second false b n h = h

module _ (roots : List ℕ) (base : Heap) (closed : IsClosed roots base) where
  pub Reach-in : {o : ℕ} → Reach roots base.fields o → contains o base.first ≡ true
  Reach-in (root o h) = closed.roots_in o h
  Reach-in (field o p r h) = closed.fields_in o p (Reach-in r) h

  -- Marking reachable objects keeps the invariant.
  pub Marks-Tricolor :
      (os : List ℕ) (h m : Heap)
      → Tricolor roots base h
      → ((p : ℕ) → contains p os ≡ true → Reach roots base.fields p)
      → Marks os h m
      → Tricolor roots base m × (work m ≤ work h)
  Marks-Tricolor os h m t reach k = (
    record {
      same_fields = k.fields ∙ t.same_fields;
      same_first = k.first ∙ t.same_first;
      sound = λ o y. elim (k.only o y) [ inl x ↦ t.sound o x | inr x ↦ reach o x ];
      queued = k.queued t.queued;
      working = k.working t.working;
      scanned = λ o p y c. k.grows p (t.scanned o p (k.blacks o y) c);
    },
    k.lighter (λ p y. ap (contains p) t.same_first ∙ Reach-in (reach p y)),
  )

  module _ (h : Heap) (o : ℕ) (w : List ℕ) (t : Tricolor roots base h)
      (e : h.worklist ≡ o ∷ w) where
    popped : Heap
    popped = record h { worklist = w; color = recolor h.color o black }

    working_on : is_marked (h.color o) ≡ true
    working_on = t.working o (ap (contains o) e ∙ or_left (o == o) (contains o w) (ground arith))

    marked_still :
        (p : ℕ) → is_marked (h.color p) ≡ true → is_marked (recolor h.color o black p) ≡ true
    marked_still p y = elim (Bool-cases (p == o)) [ inl q ↦ rw q refl | inr q ↦ rw q y ]

    in_fields : (p : ℕ) → contains p (h.fields o) ≡ true → contains p (base.fields o) ≡ true
    in_fields p y = ap (λ (f : ℕ → List ℕ). contains p (f o)) (sym t.same_fields) ∙ y

    -- The object that is scanned becomes black, and what it refers to is marked.
    pub scan_object-Tricolor :
        Tricolor roots base (scan_object h o w) × (work (scan_object h o w) < work h)
    unfolding scan_object popped
    scan_object-Tricolor =
        let k = mark_each-Marks (h.fields o) popped in
        (
          record {
            same_fields = k.fields ∙ t.same_fields;
            same_first = k.first ∙ t.same_first;
            sound = λ p y. elim (k.only p y) [
              | inl x ↦ elim (Bool-cases (p == o)) [
                | inl q ↦
                    subst (λ (x : ℕ). Reach roots base.fields x) (sym ((==_iff p o).0 q))
                      (t.sound o working_on)
                | inr q ↦ t.sound p (ap is_marked (sym (recolor_other h.color o black p q)) ∙ x)
              ]
              | inr x ↦ field o p (t.sound o working_on) (in_fields p x)
            ];
            queued = k.queued (λ p y. elim (Bool-cases (p == o)) [
              | inl q ↦ absurd (black_not_gray (sym (recolor_same h.color o black p q) ∙ y))
              | inr q ↦ second (p == o) (contains p w) q (
                  ap (contains p) (sym e)
                  ∙ t.queued p (sym (recolor_other h.color o black p q) ∙ y))
            ]);
            working = k.working (λ p y.
                marked_still p
                  (t.working p (ap (contains p) e ∙ or_right (p == o) (contains p w) y)));
            scanned = λ q p y c. elim (Bool-cases (q == o)) [
              | inl s ↦ k.all p (
                  ap (λ (f : ℕ → List ℕ). contains p (f o)) t.same_fields
                  ∙ ap (λ (x : ℕ). contains p (base.fields x)) (sym ((==_iff q o).0 s))
                  ∙ c)
              | inr s ↦ k.grows p (
                  marked_still p
                    (t.scanned q p (sym (recolor_other h.color o black q s) ∙ k.blacks q y) c))
            ];
          },
          omega (
            arith,
            k.lighter (λ p y.
                ap (contains p) t.same_first
                ∙ Reach-in (field o p (t.sound o working_on) (in_fields p y))),
            count_white-recolor_le h.first h.color o black refl,
            ap length e,
          ),
        )

    pub scan_object-grows :
        (p : ℕ) → is_marked (h.color p) ≡ true → is_marked ((scan_object h o w).color p) ≡ true
    unfolding scan_object popped
    scan_object-grows p y = (mark_each-Marks (h.fields o) popped).grows p (marked_still p y)
