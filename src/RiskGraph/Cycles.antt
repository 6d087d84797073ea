-- ===== src/RiskGraph/Cycles.antt =====
-- src/flagship_lab/riskgraph.py, `_cycles_of_three`: which triples are reported.
use mathlib.Core.Path.{subst}
use flagship_lab.Prelude.{
  List, ◌==◌, ◌&&◌, ◌++◌, String, ◌≡◌, ◌∷◌, true, inl, ◌⊎◌, inr, arith, false, [], eq_iff,
  Bool-cases, ◌∙◌, eq_refl, ap, refl, sym,
}
use flagship_lab.RiskGraph.{
  Arrow, Triple, has_arrow, rotated, closes, third_nodes, cycles_from, insert_triple, sort_triples,
  cycles_of_three, triple_leb,
}

-- A triple is in a list.
abbrev pub In : Triple → List Triple → Type 0
In x [] = ⊥
In x (y ∷ ys) = (x ≡ y) ⊎ In x ys

-- A closed walk a → b → c → a that leaves each node, of which `x` is the smallest rotation.
pub record IsCycle (arrows : List Arrow) (x : Triple) : Type 0 where
  pub a : String
  pub b : String
  pub c : String
  pub first : has_arrow arrows a b ≡ true
  pub second : has_arrow arrows b c ≡ true
  pub third : has_arrow arrows c a ≡ true
  pub leaves_a : (a == b) ≡ false
  pub leaves_b : (b == c) ≡ false
  pub smallest : x ≡ rotated a b c

In-append_left : (x : Triple) (xs ys : List Triple) → In x xs → In x (xs ++ ys)
In-append_left x [] ys h = absurd h
In-append_left x (z ∷ zs) ys (inl e) = inl e
In-append_left x (z ∷ zs) ys (inr h) = inr (In-append_left x zs ys h)

In-append_right : (x : Triple) (xs ys : List Triple) → In x ys → In x (xs ++ ys)
In-append_right x [] ys h = h
In-append_right x (z ∷ zs) ys h = inr (In-append_right x zs ys h)

In-append : (x : Triple) (xs ys : List Triple) → In x (xs ++ ys) → In x xs ⊎ In x ys
In-append x [] ys h = inr h
In-append x (z ∷ zs) ys (inl e) = inl (inl e)
In-append x (z ∷ zs) ys (inr h) = elim (In-append x zs ys h) [ inl l ↦ inl (inr l) | inr r ↦ inr r ]

same_triple : (x y : Triple) → (x.a == y.a && x.b == y.b && x.c == y.c) ≡ true → x ≡ y
same_triple x y h = ground (arith, eq_iff x.a y.a, eq_iff x.b y.b, eq_iff x.c y.c)

shift :
    (x y z : Triple) (zs ws : List Triple)
    → (In x ws → (x ≡ y) ⊎ In x zs)
    → In x (z ∷ ws)
    → (x ≡ y) ⊎ In x (z ∷ zs)
shift x y z zs ws f (inl e) = inr (inl e)
shift x y z zs ws f (inr h) = elim (f h) [ inl e ↦ inl e | inr r ↦ inr (inr r) ]

-- An insertion adds the triple and no other.
In-insert_triple : (x y : Triple) (ys : List Triple) → In x (insert_triple y ys) → (x ≡ y) ⊎ In x ys
unfolding insert_triple
In-insert_triple x y [] h = h
In-insert_triple x y (z ∷ zs) h = elim (Bool-cases (y.a == z.a && y.b == z.b && y.c == z.c)) [
  | inl same ↦ inr (rw same at h)
  | inr differ ↦ elim (Bool-cases (triple_leb y z)) [
    | inl before ↦ rw (differ, before) at h
    | inr after ↦
        shift x y z zs (insert_triple y zs) (λ r. In-insert_triple x y zs r)
          (rw (differ, after) at h)
  ]
]

keep :
    (x y z : Triple) (zs ws : List Triple)
    → ((x ≡ y) ⊎ In x zs → In x ws)
    → (x ≡ y) ⊎ In x (z ∷ zs)
    → In x (z ∷ ws)
keep x y z zs ws f (inl e) = inr (f (inl e))
keep x y z zs ws f (inr (inl e)) = inl e
keep x y z zs ws f (inr (inr h)) = inr (f (inr h))

absorb : (x y z : Triple) (zs : List Triple) → y ≡ z → (x ≡ y) ⊎ In x (z ∷ zs) → In x (z ∷ zs)
absorb x y z zs same (inl e) = inl (e ∙ same)
absorb x y z zs same (inr h) = h

-- An insertion loses nothing.
insert_triple-In : (x y : Triple) (ys : List Triple) → (x ≡ y) ⊎ In x ys → In x (insert_triple y ys)
unfolding insert_triple
insert_triple-In x y [] h = h
insert_triple-In x y (z ∷ zs) h = elim (Bool-cases (y.a == z.a && y.b == z.b && y.c == z.c)) [
  | inl same ↦ rw same (absorb x y z zs (same_triple y z same) h)
  | inr differ ↦ elim (Bool-cases (triple_leb y z)) [
    | inl before ↦ rw (differ, before) h
    | inr after ↦
        rw (differ, after) (keep x y z zs (insert_triple y zs) (λ r. insert_triple-In x y zs r) h)
  ]
]

In-sort_triples : (x : Triple) (xs : List Triple) → In x (sort_triples xs) → In x xs
unfolding sort_triples
In-sort_triples x [] h = h
In-sort_triples x (y ∷ ys) h = elim (In-insert_triple x y (sort_triples ys) h) [
  | inl e ↦ inl e
  | inr r ↦ inr (In-sort_triples x ys r)
]

sort_triples-In : (x : Triple) (xs : List Triple) → In x xs → In x (sort_triples xs)
unfolding sort_triples
sort_triples-In x [] h = h
sort_triples-In x (y ∷ ys) (inl e) = insert_triple-In x y (sort_triples ys) (inl e)
sort_triples-In x (y ∷ ys) (inr h) =
    insert_triple-In x y (sort_triples ys) (inr (sort_triples-In x ys h))

module _ (arrows : List Arrow) (a b : String) where
  -- A triple that the inner loop reports is closed by an arrow out of `b`.
  In-third_nodes :
      (rest : List Arrow) (x : Triple)
      → In x (third_nodes arrows rest a b)
      → (c : String) × (has_arrow rest b c ≡ true)
        × (closes arrows a b c ≡ true)
        × (x ≡ rotated a b c)
  unfolding third_nodes has_arrow
  In-third_nodes [] x h = absurd h
  In-third_nodes ((s, c) ∷ rest) x h = elim (Bool-cases (s == b && closes arrows a b c)) [
    | inl reported ↦ elim (rw reported at h) [
      | inl e ↦ (c, ground (arith, eq_refl c), ground (arith, reported), e)
      | inr r ↦
          let (d, arrow, closed, e) = In-third_nodes rest x r in
          (d, ground (arith, arrow), closed, e)
    ]
    | inr skipped ↦
        let (d, arrow, closed, e) = In-third_nodes rest x (rw skipped at h) in
        (d, ground (arith, arrow), closed, e)
  ]

  third_nodes-In :
      (rest : List Arrow) (c : String)
      → has_arrow rest b c ≡ true
      → closes arrows a b c ≡ true
      → In (rotated a b c) (third_nodes arrows rest a b)
  unfolding third_nodes has_arrow
  third_nodes-In [] c arrow closed = absurd (ground arith)
  third_nodes-In ((s, t) ∷ rest) c arrow closed = elim (Bool-cases (s == b && t == c)) [
    | inl here ↦
        let same : c ≡ t = ground (arith, eq_iff t c) in
        let reported : (s == b && closes arrows a b t) ≡ true =
          ground (arith, here, closed, ap (closes arrows a b) same) in
        rw reported (inl (ap (rotated a b) same))
    | inr elsewhere ↦
        let found = third_nodes-In rest c (ground (arith, elsewhere)) closed in
        elim (Bool-cases (s == b && closes arrows a b t)) [
          | inl reported ↦ rw reported (inr found)
          | inr skipped ↦ rw skipped found
        ]
  ]

In-cycles_from :
    (arrows rest : List Arrow) (x : Triple)
    → In x (cycles_from arrows rest)
    → (a b c : String) × (has_arrow rest a b ≡ true)
      × (has_arrow arrows b c ≡ true)
      × (closes arrows a b c ≡ true)
      × (x ≡ rotated a b c)
unfolding cycles_from has_arrow
In-cycles_from arrows [] x h = absurd h
In-cycles_from arrows ((a, b) ∷ rest) x h =
    elim (In-append x (third_nodes arrows arrows a b) (cycles_from arrows rest) h) [
      | inl l ↦
          let (c, arrow, closed, e) = In-third_nodes arrows a b arrows x l in
          (a, b, c, ground (arith, eq_refl a, eq_refl b), arrow, closed, e)
      | inr r ↦
          let (a', b', c, start, arrow, closed, e) = In-cycles_from arrows rest x r in
          (a', b', c, ground (arith, start), arrow, closed, e)
    ]

cycles_from-In :
    (arrows rest : List Arrow) (a b c : String)
    → has_arrow rest a b ≡ true
    → has_arrow arrows b c ≡ true
    → closes arrows a b c ≡ true
    → In (rotated a b c) (cycles_from arrows rest)
unfolding cycles_from has_arrow
cycles_from-In arrows [] a b c start arrow closed = absurd (ground arith)
cycles_from-In arrows ((s, t) ∷ rest) a b c start arrow closed =
    elim (Bool-cases (s == a && t == b)) [
      | inl here ↦
          let s_is_a : a ≡ s = ground (arith, eq_iff s a) in
          let t_is_b : b ≡ t = ground (arith, eq_iff t b) in
          In-append_left (rotated a b c) (third_nodes arrows arrows s t) (cycles_from arrows rest) (
            subst (λ z. In (rotated a b c) (third_nodes arrows arrows z t)) s_is_a
              (subst (λ z. In (rotated a b c) (third_nodes arrows arrows a z)) t_is_b
                (third_nodes-In arrows a b arrows c arrow closed)))
      | inr elsewhere ↦
          In-append_right (rotated a b c) (third_nodes arrows arrows s t) (cycles_from arrows rest)
            (cycles_from-In arrows rest a b c (ground (arith, elsewhere)) arrow closed)
    ]

-- Every triple that is reported is the smallest rotation of a closed walk of three arrows whose
-- first and second node are followed by another node.
pub cycles_of_three-IsCycle :
    (arrows : List Arrow) (x : Triple) → In x (cycles_of_three arrows) → IsCycle arrows x
unfolding cycles_of_three
cycles_of_three-IsCycle arrows x h =
    let (a, b, c, start, arrow, closed, e) =
      In-cycles_from arrows arrows x (In-sort_triples x (cycles_from arrows arrows) h) in
    record {
      a = a;
      b = b;
      c = c;
      first = start;
      second = arrow;
      third = ground (arith, closed);
      leaves_a = ground (arith, closed);
      leaves_b = ground (arith, closed);
      smallest = e;
    }

-- Every such closed walk is reported, by its smallest rotation.
pub IsCycle-cycles_of_three :
    (arrows : List Arrow) (x : Triple) → IsCycle arrows x → In x (cycles_of_three arrows)
unfolding cycles_of_three
IsCycle-cycles_of_three arrows x h =
    subst (λ y. In y (cycles_of_three arrows)) (sym h.smallest)
      (sort_triples-In (rotated h.a h.b h.c) (cycles_from arrows arrows) (
        cycles_from-In arrows arrows h.a h.b h.c h.first h.second
          (ground (arith, h.leaves_a, h.leaves_b, h.third))))

-- Two nodes that point at each other, one of which points at itself too, are reported as a cycle of
-- three, though the triple names one of them twice.
pub cycles_of_three-two_nodes :
    (arrows : List Arrow) (a b : String)
    → (a == b) ≡ false
    → has_arrow arrows a b ≡ true
    → has_arrow arrows b a ≡ true
    → has_arrow arrows a a ≡ true
    → In (rotated a b a) (cycles_of_three arrows)
cycles_of_three-two_nodes arrows a b apart there back loop =
    IsCycle-cycles_of_three arrows (rotated a b a) (record {
      a = a;
      b = b;
      c = a;
      first = there;
      second = back;
      third = loop;
      leaves_a = apart;
      leaves_b = ground (arith, eq_iff a b, eq_iff b a);
      smallest = refl;
    })
