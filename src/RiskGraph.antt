-- ===== src/RiskGraph.antt =====
-- src/flagship_lab/riskgraph.py: entities, edges and the findings over the graph. A `dict` of sets
-- is a list of pairs, and a set of triples is a list without repetitions: the findings are sorted
-- at the end, so the order of a set is not seen.
pub mod Investigate
pub mod Cycles
use flagship_lab.Prelude.Int.{pos}
use flagship_lab.Result.{◌>=>◌}
use flagship_lab.Result.{Result, ok}
use flagship_lab.Decimal.{Decimal}
use flagship_lab.Json.{canonical_json, Json, Fields, obj, field, int, end}
use flagship_lab.Schema.{GraphEntity, GraphEdge, Table, add_row}
use flagship_lab.Tx.{Env, Tx, modify, gets, lift, ◌>>=◌, ◌>>◌}
use flagship_lab.Prelude.{
  Bool, List, ℕ, String, if◌then◌else◌, not, ◌||◌, ◌∷◌, any, ◌==◌, false, [], some, update, select,
  ◌++◌, ◌&&◌, length,
}
use flagship_lab.Prelude.Text.{str_leb}
use flagship_lab.Taxflow.{money}
use flagship_lab.Core.{connect, append_audit_event}

pub record Entity : Type 0 where
  pub entity_id : String
  pub entity_type : String
  pub attributes : Fields

pub record Edge : Type 0 where
  pub source_id : String
  pub target_id : String
  pub relation : String
  pub amount : Decimal
  pub occurred_at : String
  pub evidence : Fields

pub record RiskGraphService : Type 0 where
  pub tenant_id : String

abbrev pub entity_row : String → Entity → GraphEntity
entity_row tenant e = record {
  tenant_id = tenant;
  entity_id = e.entity_id;
  entity_type = e.entity_type;
  attributes_json = canonical_json (obj e.attributes);
}

abbrev is_entity : String → String → GraphEntity → Bool
is_entity tenant id r = r.tenant_id == tenant && r.entity_id == id

-- `on_conflict_do_update` for one row.
unfoldable pub upsert : GraphEntity → List GraphEntity → List GraphEntity
upsert e rows =
    if any (is_entity e.tenant_id e.entity_id) rows
    then update (is_entity e.tenant_id e.entity_id)
        (λ r. record r { entity_type = e.entity_type; attributes_json = e.attributes_json }) rows
    else rows ++ e ∷ []

unfoldable pub upsert_all : String → List Entity → List GraphEntity → List GraphEntity
unfolding upsert
upsert_all tenant [] rows = rows
upsert_all tenant (e ∷ es) rows = upsert_all tenant es (upsert (entity_row tenant e) rows)

abbrev batch_json : ℕ → Json
batch_json n = obj (field "count" (int (pos n)) end)

-- A batch that repeats an id is taken as SQLite takes it: the last row of the id stays.
unfoldable pub add_entities : Env → RiskGraphService → List Entity → Tx String
unfolding upsert_all
add_entities env service entities = connect env (some service.tenant_id) (do
  modify (λ s. record s { graph_entities = upsert_all service.tenant_id entities s.graph_entities })
  append_audit_event env "riskgraph" "ENTITIES_UPSERTED" "batch" (batch_json (length entities))
      service.tenant_id)

abbrev edge_row : String → Edge → Decimal → ℕ → GraphEdge
edge_row tenant e amount id = record {
  id = id;
  tenant_id = tenant;
  source_id = e.source_id;
  target_id = e.target_id;
  relation = e.relation;
  amount = amount;
  occurred_at = e.occurred_at;
  evidence_json = canonical_json (obj e.evidence);
}

unfoldable pub insert_edges : String → List Edge → Table GraphEdge → Result (Table GraphEdge)
unfolding money
insert_edges tenant [] t = ok t
insert_edges tenant (e ∷ es) t =
    money e.amount >=> λ amount. insert_edges tenant es (add_row (edge_row tenant e amount) t)

unfoldable pub add_edges : Env → RiskGraphService → List Edge → Tx String
unfolding insert_edges
add_edges env service edges = connect env (some service.tenant_id) (do
  inserted ← gets (λ s. insert_edges service.tenant_id edges s.graph_edges)
  table ← lift inserted
  modify (λ s. record s { graph_edges = table })
  append_audit_event env "riskgraph" "EDGES_ADDED" "batch" (batch_json (length edges))
      service.tenant_id)

-- An arrow of the graph: an edge between two entities of the tenant.
abbrev pub Arrow : Type 0
Arrow = String × String

-- The edges that the loop does not skip.
unfoldable pub linked : List GraphEntity → List GraphEdge → List GraphEdge
linked entities edges =
    select
      (λ e.
        any (λ x. x.entity_id == e.source_id) entities
        && any (λ x. x.entity_id == e.target_id) entities)
      edges

unfoldable pub adjacency : List GraphEdge → List Arrow
adjacency [] = []
adjacency (e ∷ es) = (e.source_id, e.target_id) ∷ adjacency es

-- `b in adjacency[a]`
unfoldable pub has_arrow : List Arrow → String → String → Bool
has_arrow [] a b = false
has_arrow ((s, t) ∷ arrows) a b = (s == a && t == b) || has_arrow arrows a b

pub record Triple : Type 0 where
  pub a : String
  pub b : String
  pub c : String

abbrev pub str_ltb : String → String → Bool
str_ltb s t = not (str_leb t s)

-- The order of tuples.
abbrev pub triple_leb : Triple → Triple → Bool
triple_leb x y =
    str_ltb x.a y.a || (x.a == y.a && (str_ltb x.b y.b || (x.b == y.b && str_leb x.c y.c)))

abbrev pub min_triple : Triple → Triple → Triple
min_triple x y = if triple_leb x y then x else y

-- `min((a, b, c), (b, c, a), (c, a, b))`
unfoldable pub rotated : String → String → String → Triple
unfolding str_leb
rotated a b c =
    min_triple (min_triple (record { a = a; b = b; c = c }) (record { a = b; b = c; c = a }))
      (record { a = c; b = a; c = b })

-- The test of the innermost loop.
abbrev pub closes : List Arrow → String → String → String → Bool
closes arrows a b c = not (a == b) && not (b == c) && has_arrow arrows c a

-- The loop over `c`, the neighbours of `b`.
unfoldable pub third_nodes : List Arrow → List Arrow → String → String → List Triple
unfolding rotated has_arrow
third_nodes arrows [] a b = []
third_nodes arrows ((s, c) ∷ rest) a b =
    let others = third_nodes arrows rest a b in
    if s == b && closes arrows a b c then rotated a b c ∷ others else others

-- The loops over `a` and its neighbours `b`.
unfoldable pub cycles_from : List Arrow → List Arrow → List Triple
unfolding third_nodes
cycles_from arrows [] = []
cycles_from arrows ((a, b) ∷ rest) = third_nodes arrows arrows a b ++ cycles_from arrows rest

-- A sorted list of the distinct triples: `sorted(canonical)` of the set.
unfoldable pub insert_triple : Triple → List Triple → List Triple
unfolding str_leb
insert_triple x [] = x ∷ []
insert_triple x (y ∷ ys) =
    let rest = insert_triple x ys in
    if x.a == y.a && x.b == y.b && x.c == y.c
    then y ∷ ys
    else (if triple_leb x y then x ∷ y ∷ ys else y ∷ rest)

unfoldable pub sort_triples : List Triple → List Triple
unfolding insert_triple
sort_triples [] = []
sort_triples (x ∷ xs) = insert_triple x (sort_triples xs)

unfoldable pub cycles_of_three : List Arrow → List Triple
unfolding cycles_from sort_triples
cycles_of_three arrows = sort_triples (cycles_from arrows arrows)
