-- ===== src/Examples/Graphs.antt =====
-- The theorems on cycles, at a graph of three nodes and at one of two.
use flagship_lab.Prelude.{List, inl, ◌≡◌, true, refl, ◌∷◌, []}
use flagship_lab.RiskGraph.{Arrow, Triple, cycles_of_three, has_arrow, rotated}
use flagship_lab.RiskGraph.Cycles.{
  In, IsCycle, cycles_of_three-IsCycle, IsCycle-cycles_of_three, cycles_of_three-two_nodes,
}

abbrev triangle : List Arrow
triangle = ("a", "b") ∷ ("b", "c") ∷ ("c", "a") ∷ []

abbrev around : Triple
around = record { a = "a"; b = "b"; c = "c" }

around_reported : In around (cycles_of_three triangle)
unfolding cycles_of_three
around_reported = inl refl

cycles_of_three-IsCycle_example : IsCycle triangle around
cycles_of_three-IsCycle_example = cycles_of_three-IsCycle triangle around around_reported

around-IsCycle : IsCycle triangle around
unfolding has_arrow rotated
around-IsCycle = record {
  a = "b";
  b = "c";
  c = "a";
  first = refl;
  second = refl;
  third = refl;
  leaves_a = refl;
  leaves_b = refl;
  smallest = refl;
}

IsCycle-cycles_of_three_example : In around (cycles_of_three triangle)
IsCycle-cycles_of_three_example = IsCycle-cycles_of_three triangle around around-IsCycle

abbrev loop : List Arrow
loop = ("a", "a") ∷ ("a", "b") ∷ ("b", "a") ∷ []

loop_there : has_arrow loop "a" "b" ≡ true
unfolding has_arrow
loop_there = refl

loop_back : has_arrow loop "b" "a" ≡ true
unfolding has_arrow
loop_back = refl

loop_self : has_arrow loop "a" "a" ≡ true
unfolding has_arrow
loop_self = refl

cycles_of_three-two_nodes_example : In (rotated "a" "b" "a") (cycles_of_three loop)
cycles_of_three-two_nodes_example =
    cycles_of_three-two_nodes loop "a" "b" refl loop_there loop_back loop_self
