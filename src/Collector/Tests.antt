-- ===== src/Collector/Tests.antt =====
-- A cycle on a heap of four objects: two that refer to each other, one of them a root, and two
-- that nothing leads to.
use lovax.Base.{ℕ, ◌≡◌, refl, Option, none, some, List, [], ◌∷◌, arith, ◌==◌, if◌then◌else◌}
use lovax.Collector.Heap.{gc_collect, Roots, Heap, white}
use lovax.Base.Members.{}
use lovax.Collector.Marks.{}
use lovax.Collector.Tricolor.{IsClosed}
use lovax.Collector.Cycle.{root_list, gc_collect-Collects, Collects}

abbrev links : ℕ → List ℕ
links o = if o == 0 then 1 ∷ [] else if o == 1 then 0 ∷ [] else if o == 2 then 3 ∷ [] else []

abbrev four : Heap
four = record { first = 3 ∷ 2 ∷ 1 ∷ 0 ∷ []; color = λ o. white; fields = links; worklist = [] }

abbrev one_root : Roots
one_root = record { permanent = []; runtime = []; temporary = 0 ∷ []; host = [] }

abbrev first_of : Option Heap → List ℕ
first_of none = []
first_of (some h) = h.first

two_kept : first_of (gc_collect 9 one_root four) ≡ 1 ∷ 0 ∷ []
unfolding gc_collect
two_kept = refl

four-IsClosed : IsClosed (root_list one_root) four
four-IsClosed = record {
  roots_in = λ o h. ground (arith, h);
  fields_in = λ o p h k. ground (arith, h, k);
}

gc_collect-Collects_example : Collects one_root four (gc_collect 9 one_root four)
gc_collect-Collects_example =
    gc_collect-Collects 9 one_root four (record { whites = λ o. refl; idle = refl }) four-IsClosed
      (omega arith)
