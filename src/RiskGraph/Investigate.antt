-- ===== src/RiskGraph/Investigate.antt =====
-- src/flagship_lab/riskgraph.py, `investigate`: accounts with several owners, and cycles.
use flagship_lab.Json.{Items, Json, obj, nil, cons, field, arr, text, end}
use flagship_lab.Schema.{GraphEdge, GraphEntity}
use flagship_lab.Tx.{Env, Tx, gets}
use flagship_lab.Prelude.Text.{str_nat, str_leb, ◌<>◌}
use flagship_lab.Prelude.{
  ℕ, List, Bool, String, ◌∷◌, if◌then◌else◌, [], ltb, ◌+◌, ◌==◌, select, true, some, ◌||◌, ◌*◌,
  ◌&&◌, ◌++◌, length, false, eqb, map,
}
use flagship_lab.RiskGraph.{RiskGraphService, cycles_of_three, linked, adjacency, Triple, str_ltb}
use flagship_lab.Core.{connect}

pub record RiskFinding : Type 0 where
  pub risk_code : String
  pub score : ℕ
  pub entities : List String
  pub explanation : String
  pub evidence : Json

-- `sorted(set(xs))`
unfoldable pub insert_text : String → List String → List String
unfolding str_leb
insert_text x [] = x ∷ []
insert_text x (y ∷ ys) =
    let rest = insert_text x ys in
    if x == y then y ∷ ys else (if str_leb x y then x ∷ y ∷ ys else y ∷ rest)

unfoldable pub sorted_set : List String → List String
unfolding insert_text
sorted_set [] = []
sorted_set (x ∷ xs) = insert_text x (sorted_set xs)

abbrev owns : GraphEdge → Bool
owns e = e.relation == "OWNS_ACCOUNT"

abbrev targets : List GraphEdge → List String
targets [] = []
targets (e ∷ es) = e.target_id ∷ targets es

abbrev sources : List GraphEdge → List String
sources [] = []
sources (e ∷ es) = e.source_id ∷ sources es

-- The distinct owners of an account.
unfoldable pub owners_of : String → List GraphEdge → List String
unfolding sorted_set
owners_of account edges =
    sorted_set (sources (select (λ e. owns e && e.target_id == account) edges))

abbrev text_items : List String → Items
text_items [] = nil
text_items (x ∷ xs) = cons (text x) (text_items xs)

abbrev join_arrow : List String → String
join_arrow [] = ""
join_arrow (x ∷ []) = x
join_arrow (x ∷ y ∷ xs) = x <> " → " <> join_arrow (y ∷ xs)

abbrev min_score : ℕ → ℕ
min_score n = if ltb 100 n then 100 else n

abbrev shared_account : String → List String → RiskFinding
shared_account account owners = record {
  risk_code = "SHARED_ACCOUNT";
  score = min_score (55 + 10 * length owners);
  entities = owners ++ account ∷ [];
  explanation = "账户 " <> account <> " 由 " <> str_nat (length owners) <> " 个不同实体共同关联";
  evidence = obj (field "owners" (arr (text_items owners)) end);
}

unfoldable pub shared_accounts : List String → List GraphEdge → List RiskFinding
unfolding owners_of str_nat
shared_accounts [] edges = []
shared_accounts (account ∷ accounts) edges =
    let rest = shared_accounts accounts edges in
    let owners = owners_of account edges in
    if ltb 1 (length owners) then shared_account account owners ∷ rest else rest

abbrev circular : Triple → RiskFinding
circular t = record {
  risk_code = "CIRCULAR_RELATION";
  score = 85;
  entities = t.a ∷ t.b ∷ t.c ∷ [];
  explanation = "检测到三节点闭环关系：" <> join_arrow (t.a ∷ t.b ∷ t.c ∷ t.a ∷ []);
  evidence = obj (field "cycle" (arr (text_items (t.a ∷ t.b ∷ t.c ∷ []))) end);
}

abbrev texts_leb : List String → List String → Bool
texts_leb [] ys = true
texts_leb (x ∷ xs) [] = false
texts_leb (x ∷ xs) (y ∷ ys) = str_ltb x y || (x == y && texts_leb xs ys)

-- The order of the key `(-score, risk_code, entities)`.
abbrev finding_leb : RiskFinding → RiskFinding → Bool
finding_leb f g =
    ltb g.score f.score
    || (eqb f.score g.score
        && (str_ltb f.risk_code g.risk_code
            || (f.risk_code == g.risk_code && texts_leb f.entities g.entities)))

unfoldable pub insert_finding : RiskFinding → List RiskFinding → List RiskFinding
unfolding str_leb
insert_finding f [] = f ∷ []
insert_finding f (g ∷ gs) =
    let rest = insert_finding f gs in if finding_leb f g then f ∷ g ∷ gs else g ∷ rest

unfoldable pub sort_findings : List RiskFinding → List RiskFinding
unfolding insert_finding
sort_findings [] = []
sort_findings (f ∷ fs) = insert_finding f (sort_findings fs)

-- The findings over the entities and edges of one tenant.
unfoldable pub risks : List GraphEntity → List GraphEdge → List RiskFinding
unfolding linked adjacency cycles_of_three shared_accounts sorted_set sort_findings
risks entities edges =
    let kept = linked entities edges in
    sort_findings (
      shared_accounts (sorted_set (targets (select owns kept))) kept
      ++ map circular (cycles_of_three (adjacency kept)))

unfoldable pub investigate : Env → RiskGraphService → Tx (List RiskFinding)
unfolding risks
investigate env service = connect env (some service.tenant_id) (
    gets (λ s.
      risks (select (λ e. e.tenant_id == service.tenant_id) s.graph_entities)
        (select (λ e. e.tenant_id == service.tenant_id) s.graph_edges.rows)))
