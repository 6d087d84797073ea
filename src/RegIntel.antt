-- ===== src/RegIntel.antt =====
-- src/flagship_lab/regintel.py: tokens, versions of documents, snippets, answers and the evaluation
-- of a ranking. The ranking itself (`hybrid_search`, floating point over a vectorizer of scikit-
-- learn) and `str.lower` are parameters.
use flagship_lab.TaxRules.{mem_text}
use flagship_lab.Schema.{RegulationDocument, Table, add_row}
use flagship_lab.Json.{obj, field, text, end}
use flagship_lab.Result.{Result, err, value_error, ok}
use flagship_lab.Prelude.Text.{clip, is_blank, ◌<>◌, count, starts_with}
use Prim.Native.Char.{Char, code}
use flagship_lab.Prelude.{
  Option, true, List, String, ℕ, suc, some, if◌then◌else◌, ◌∷◌, [], none, Bool, leb, ◌||◌, false,
  ◌==◌, ◌++◌, ◌-◌, zero, ltb, ◌&&◌, select, any, eqb, ◌+◌, length,
}
use flagship_lab.Tx.{Env, Tx, gets, ◌>>◌, modify, pure}
use flagship_lab.Core.{connect, append_audit_event, sha256_json}

-- What the scan of a text is inside of: nothing, a word, or a run of Chinese characters.
pub data Mode : Type 0 where
  outside : Mode
  word : String → Mode
  han : String → Mode

abbrev is_letter : ℕ → Bool
is_letter c = (leb 65 c && leb c 90) || (leb 97 c && leb c 122)

-- `[A-Za-z0-9_-]`
abbrev in_word : ℕ → Bool
in_word c = is_letter c || (leb 48 c && leb c 57) || eqb c 95 || eqb c 45

-- `[\u4e00-\u9fff]`
abbrev is_han : ℕ → Bool
is_han c = leb 19968 c && leb c 40959

abbrev one_char : Char → String
one_char c = String.◌∷◌ c ""

-- The pairs of neighbours of a run.
abbrev bigrams : String → List String
bigrams String.[] = []
bigrams (String.◌∷◌ a String.[]) = []
bigrams (String.◌∷◌ a (String.◌∷◌ b s)) = String.◌∷◌ a (one_char b) ∷ bigrams (String.◌∷◌ b s)

-- The tokens of a finished match.
abbrev flush : (String → String) → Mode → List String
flush lower outside = []
flush lower (word w) = lower w ∷ []
flush lower (han h) = if ltb 1 (count h) then bigrams h else h ∷ []

abbrev starts : Char → Mode
starts c =
    if is_letter (code c)
    then word (one_char c)
    else (if is_han (code c) then han (one_char c) else outside)

abbrev continues : Mode → Char → Option Mode
continues outside c = none
continues (word w) c = if in_word (code c) then some (word (w <> one_char c)) else none
continues (han h) c = if is_han (code c) then some (han (h <> one_char c)) else none

unfoldable pub scan : (String → String) → Mode → String → List String
scan lower m String.[] = flush lower m
scan lower m (String.◌∷◌ c s) = elim (continues m c) [
  | some longer ↦ scan lower longer s
  | none ↦ flush lower m ++ scan lower (starts c) s
]

unfoldable pub tokenize : (String → String) → String → List String
unfolding scan
tokenize lower s = scan lower outside s

pub record RegIntelService : Type 0 where
  pub tenant_id : String

abbrev same_version : String → String → String → RegulationDocument → Bool
same_version tenant key hash d =
    d.tenant_id == tenant && d.document_key == key && d.version_hash == hash

abbrev document_row :
    String → String → String → String → String → String → String → ℕ → RegulationDocument
document_row tenant key title url published hash content id = record {
  id = id;
  tenant_id = tenant;
  document_key = key;
  title = title;
  source_url = url;
  published_at = published;
  version_hash = hash;
  content = content;
}

-- `on_conflict_do_nothing`
unfoldable pub insert_version :
    String
    → String
    → String
    → (ℕ → RegulationDocument)
    → Table RegulationDocument
    → Table RegulationDocument
insert_version tenant key hash mk t =
    if any (same_version tenant key hash) t.rows then t else add_row mk t

unfoldable pub version_of : Env → String → String → String → String
unfolding sha256_json
version_of env title published content = sha256_json env (
    obj (
      field "title" (text title)
        (field "published_at" (text published) (field "content" (text content) end))))

unfoldable pub add_document :
    Env → RegIntelService → String → String → String → String → String → Tx String
unfolding version_of insert_version
add_document env service key title url published content = do
  let tenant = service.tenant_id
  let hash = version_of env title published content
  connect env (some tenant) (do
    modify (λ s. record s {
      regulation_documents =
          insert_version tenant key hash (document_row tenant key title url published hash content)
            s.regulation_documents;
    })
    append_audit_event env "regintel" "DOCUMENT_VERSIONED" key
        (obj (field "version_hash" (text hash) end)) tenant)
  pure hash

unfoldable pub documents : Env → RegIntelService → Tx (List RegulationDocument)
documents env service =
    connect env (some service.tenant_id)
      (gets (λ s. select (λ d. d.tenant_id == service.tenant_id) s.regulation_documents.rows))

-- `s.find(t)`; `none` is -1.
unfoldable pub find : String → String → Option ℕ
unfolding starts_with
find t String.[] = if t == "" then some 0 else none
find t (String.◌∷◌ c s) =
    let later = find t s in
    if starts_with t (String.◌∷◌ c s)
    then some 0
    else elim later [ none ↦ none | some n ↦ some (suc n) ]

abbrev smaller : Option ℕ → Option ℕ → Option ℕ
smaller none o = o
smaller (some m) none = some m
smaller (some m) (some n) = if leb m n then some m else some n

abbrev first_position : String → List String → Option ℕ
first_position s [] = none
first_position s (t ∷ ts) = smaller (find t s) (first_position s ts)

abbrev from : ℕ → String → String
from zero s = s
from (suc n) String.[] = String.[]
from (suc n) (String.◌∷◌ c s) = from n s

abbrev strip_left : String → String
strip_left String.[] = ""
strip_left (String.◌∷◌ c s) = if is_blank (one_char c) then strip_left s else String.◌∷◌ c s

abbrev strip_right : String → String
strip_right String.[] = ""
strip_right (String.◌∷◌ c s) =
    if is_blank (String.◌∷◌ c s) then "" else String.◌∷◌ c (strip_right s)

-- `max(0, position - 30)`: subtraction stops at 0.
abbrev window_start : Option ℕ → ℕ
window_start none = 0
window_start (some n) = n - 30

unfoldable pub best_snippet : (String → String) → String → List String → String
unfolding find clip is_blank
best_snippet lower content query_tokens =
    let start = window_start (first_position (lower content) query_tokens) in
    strip_right (strip_left (clip 140 (from start content)))

-- One hit of the ranking; `enough` says whether its score reaches the minimum of an answer.
pub record Hit : Type 0 where
  pub document_key : String
  pub title : String
  pub source_url : String
  pub published_at : String
  pub version_hash : String
  pub hybrid_score : String
  pub enough : Bool
  pub snippet : String

pub record Answer : Type 0 where
  pub answer : String
  pub refused : Bool
  pub citations : List Hit

abbrev joined : List Hit → String
joined [] = ""
joined (h ∷ []) = h.snippet
joined (h ∷ g ∷ hs) = h.snippet <> "；" <> joined (g ∷ hs)

abbrev refusal : Answer
refusal = record { answer = "现有证据不足，拒绝生成结论。"; refused = true; citations = [] }

-- `answer`, from the three best hits; a citation is the hit, of which five fields are passed on.
unfoldable pub answer_from : List Hit → Answer
answer_from [] = refusal
answer_from (h ∷ hs) =
    if h.enough
    then record {
      answer = "根据已收录材料，可核验的信息包括：" <> joined (h ∷ hs);
      refused = false;
      citations = h ∷ hs;
    }
    else refusal

unfoldable pub answer : (String → ℕ → List Hit) → String → Answer
unfolding answer_from
answer hybrid_search query = answer_from (hybrid_search query 3)

pub record Case : Type 0 where
  pub query : String
  pub relevant_keys : List String

-- `next((index + 1 for ... if key in relevant), None)`
unfoldable pub first_rank : List String → ℕ → List Hit → Option ℕ
first_rank relevant index [] = none
first_rank relevant index (h ∷ hs) =
    let rest = first_rank relevant (suc index) hs in
    if mem_text h.document_key relevant then some (index + 1) else rest

-- The hits and the ranks of the cases; recall and mean reciprocal rank are quotients of these.
pub record Evaluation : Type 0 where
  pub cases : ℕ
  pub hits : ℕ
  pub ranks : List (Option ℕ)

abbrev ranks_of : (String → ℕ → List Hit) → ℕ → List Case → List (Option ℕ)
ranks_of hybrid_search k [] = []
ranks_of hybrid_search k (c ∷ cs) =
    first_rank c.relevant_keys 0 (hybrid_search c.query k) ∷ ranks_of hybrid_search k cs

abbrev ranked : List (Option ℕ) → ℕ
ranked [] = 0
ranked (none ∷ rs) = ranked rs
ranked (some _ ∷ rs) = suc (ranked rs)

unfoldable pub evaluate_ranking : (String → ℕ → List Hit) → List Case → ℕ → Result Evaluation
unfolding first_rank
evaluate_ranking hybrid_search [] k = err (value_error "evaluation cases cannot be empty")
evaluate_ranking hybrid_search (c ∷ cs) k =
    let ranks = ranks_of hybrid_search k (c ∷ cs) in
    ok (record { cases = length (c ∷ cs); hits = ranked ranks; ranks = ranks })
