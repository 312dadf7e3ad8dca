-- ===== src/Runners/Agreement.antt =====
-- src/runners: that the flat merge of FlatMergeRunner.cpp and the tree of HierarchicalMergeRunner.cpp
-- agree.
use backtester_lab.Base.{
  ℕ, ◌<◌, ◌≤◌, ◌≡◌, refl, sym, ◌∙◌, ap, false, true, ◌&&◌, ◌==◌, nat_eq, List, [], ◌∷◌, map, some,
  arith, inl, inr, All, sum_map, Bool-cases, length, if◌then◌else◌,
}
use backtester_lab.Domain.{MarketDataEvent, event_comes_before}
use backtester_lab.Runners.Merge.{EventStream, merge_input_queues}
use backtester_lab.Runners.Merge.Order.{
  NoneBefore, IsChronological, EventKey, key_of, key_of_not_before, comes_before_irrefl,
}
use backtester_lab.Runners.Merge.Merged.{merge_input_queues-IsMerged}
use backtester_lab.Runners.Hierarchy.{build_merge_tree}
use backtester_lab.Runners.Hierarchy.Tree.{build_merge_tree-IsMerged}

-- 1 for the same key.
abbrev same_key : EventKey → EventKey → ℕ
same_key k j =
    if (k.timestamp == j.timestamp)
      && ((k.source_file_id == j.source_file_id) && (k.source_sequence == j.source_sequence))
    then 1
    else 0

-- A weight of keys, on events.
abbrev on_key : (EventKey → ℕ) → MarketDataEvent → ℕ
on_key w e = w (key_of e)

same_key_self : (k : EventKey) → same_key k k ≡ 1
same_key_self x = ground arith

-- An event before the head of a list in order has no event of its key there.
no_same_key :
    (x y : MarketDataEvent) (l : EventStream)
    → event_comes_before x y ≡ true
    → NoneBefore y l
    → sum_map (on_key (same_key (key_of x))) l ≡ 0
no_same_key x y [] before all = refl
no_same_key x y (z ∷ l) before all =
    let later : event_comes_before x z ≡ true = before_later x y z before all.0 in
    omega (arith, other x z later, no_same_key x y l before all.1)
  where
    before_later :
        (a b c : MarketDataEvent)
        → event_comes_before a b ≡ true
        → event_comes_before c b ≡ false
        → event_comes_before a c ≡ true
    before_later a b c h k = unfold event_comes_before in ground arith

    other :
        (a b : MarketDataEvent) → event_comes_before a b ≡ true → same_key (key_of a) (key_of b) ≡ 0
    other a b h = unfold event_comes_before in ground arith

head_not_before :
    (x y : MarketDataEvent) (l m : EventStream)
    → NoneBefore y m
    → ((w : EventKey → ℕ) → sum_map (on_key w) (x ∷ l) ≡ sum_map (on_key w) (y ∷ m))
    → event_comes_before x y ≡ false
head_not_before x y l m all weights = elim (Bool-cases (event_comes_before x y)) [
  | inr not_before ↦ not_before
  | inl before ↦ absurd (
      omega (
        arith,
        same_key_self (key_of x),
        no_same_key x y (y ∷ m) before (comes_before_irrefl y, all),
        weights (same_key (key_of x)),
      ))
]

-- Two lists in order with the same events have the same keys, in the same places.
chronological_unique :
    (l m : EventStream)
    → IsChronological l
    → IsChronological m
    → ((w : EventKey → ℕ) → sum_map (on_key w) l ≡ sum_map (on_key w) m)
    → map key_of l ≡ map key_of m
chronological_unique [] [] s t weights = refl
chronological_unique [] (y ∷ m) s t weights = absurd (omega (arith, weights (λ e. 1)))
chronological_unique (x ∷ l) [] s t weights = absurd (omega (arith, weights (λ e. 1)))
chronological_unique (x ∷ l) (y ∷ m) s t weights =
    let keys : key_of x ≡ key_of y =
      key_of_not_before x y (head_not_before x y l m t.0 weights)
        (head_not_before y x m l s.0 (λ w. sym (weights w))) in
    let rest : map key_of l ≡ map key_of m =
      chronological_unique l m s.1 t.1 (λ w. omega (arith, weights w, ap w keys)) in
    rw (keys, rest) refl

-- The flat merge and the tree of merges, of inputs that are each in order, both end with enough fuel,
-- and give the same keys in the same places: the same timestamps, files and places in the files.
pub merge_input_queues-eq-build_merge_tree :
    (levels fuel : ℕ) (inputs : List EventStream)
    → All IsChronological inputs
    → sum_map length inputs < fuel
    → length inputs ≤ levels
    → (flat : EventStream) × (tree : EventStream) × (merge_input_queues fuel inputs ≡ some flat)
      × (build_merge_tree levels fuel inputs ≡ some tree)
      × (map key_of flat ≡ map key_of tree)
merge_input_queues-eq-build_merge_tree levels fuel inputs all h deep =
    let (flat, merge, f) = merge_input_queues-IsMerged fuel inputs all h in
    let (tree, build, t) = build_merge_tree-IsMerged levels fuel inputs all h deep in
    (
      flat,
      tree,
      merge,
      build,
      chronological_unique flat tree f.chronological t.chronological
          (λ w. f.weights (on_key w) ∙ sym (t.weights (on_key w))),
    )
