-- ===== src/Context/Output.antt =====
-- What `pk context` prints: `context_snippet`, `run_context` from the selection on,
-- `rendered_context` and `print_context_hook`.
use prometheus_knowledge_rs.Prelude.{
  ℕ, Option, none, some, List, [], ◌∷◌, ◌++◌, String, leb, if◌then◌else◌, bind, unwrap_or, length,
  take, is_empty, Chars, codes, is_whitespace, trim,
}
use prometheus_knowledge_rs.Texts.{split_words, byte_length, join}
use prometheus_knowledge_rs.Context.{
  ContextCandidate, ContextScope, label, TextRules, ContextItem, ContextOutput, ContextRequest,
  clamp, distinct_scopes, scopes_of, Gathered, gather,
}
use prometheus_knowledge_rs.Context.Select.{select}
use prometheus_knowledge_rs.Context.Utf8.{truncate_utf8}
use prometheus_knowledge_rs.Snapshot.{Codec, SnapshotDir}

abbrev pub filled : Option String → Option String
filled none = none
filled (some d) = if is_empty (trim (codes d)) then none else some d

-- The cut is on a boundary of a character, so it gives a text.
unfoldable pub context_snippet : Option String → String → Option Chars
unfolding truncate_utf8 split_words join is_whitespace trim
context_snippet description content =
    truncate_utf8
      (join (codes " ")
        (split_words is_whitespace (codes (unwrap_or content (filled description)))))
      360

abbrev pub item_of : {Y : Type 0} → ContextCandidate Y → Option ContextItem
item_of c = bind (context_snippet c.entry.description c.entry.content) (λ (snippet : Chars).
    some (record {
      scope = c.scope;
      id = c.entry.id;
      title = c.entry.title;
      snippet = snippet;
      score = c.score;
    }))

unfoldable pub items_of : {Y : Type 0} → List (ContextCandidate Y) → Option (List ContextItem)
unfolding context_snippet
items_of [] = some []
items_of (c ∷ cs) =
    bind (item_of c)
      (λ (i : ContextItem). bind (items_of cs) (λ (is : List ContextItem). some (i ∷ is)))

-- The line that says how many scopes failed.
abbrev pub status_of : TextRules → ContextOutput → Chars
status_of rules output =
    if is_empty output.failures
    then []
    else codes "[context-status] failed_scopes="
      ++ (rules.to_decimal (length output.failures)
          ++ (codes " candidates=" ++ (rules.to_decimal output.candidate_count ++ codes "\n")))

unfoldable pub rendered_items : List ContextItem → Chars
rendered_items [] = []
rendered_items (i ∷ is) =
    b'['
    ∷ (codes (label i.scope)
        ++ (b':'
            ∷ (codes i.id
                ++ (codes "] "
                    ++ (codes i.title ++ (b'\n' ∷ (i.snippet ++ (b'\n' ∷ rendered_items is))))))))

unfoldable pub rendered_context : TextRules → ContextOutput → Chars
unfolding rendered_items
rendered_context rules output =
    if is_empty output.results
    then []
    else codes "--- prometheus-knowledge context ---\n"
      ++ (rendered_items output.results
          ++ (status_of rules output ++ codes "--- end pk context ---\n"))

abbrev pub min : ℕ → ℕ → ℕ
min a b = if leb a b then a else b

abbrev pub max_bytes_of : ContextRequest → ℕ
max_bytes_of request = clamp 256 65536 request.max_bytes

abbrev pub nothing_gathered : {Y : Type 0} → Gathered Y
nothing_gathered = record { failures = []; candidates = []; scored_count = 0; generations = [] }

-- The candidates kept, then those shown.
abbrev pub kept_of :
    {Y : Type 0} → TextRules → ContextRequest → Gathered Y → List (ContextCandidate Y)
kept_of rules request g = take (clamp 1 512 request.max_candidates) (select rules g.candidates)

unfoldable pub output_of :
    {Y : Type 0} → TextRules → ContextRequest → Gathered Y → List ContextItem → ContextOutput
unfolding rendered_context byte_length
output_of rules request g items =
    let output : ContextOutput = record {
      query = request.query;
      snapshot_generations = g.generations;
      scored_count = g.scored_count;
      candidate_count = length (kept_of rules request g);
      byte_count = 0;
      failures = g.failures;
      results = items;
    } in
    record output {
      byte_count = min (byte_length (rendered_context rules output)) (max_bytes_of request);
    }

unfoldable pub run_context :
    {Y F : Type 0}
    → Codec Y F
    → TextRules
    → ContextRequest
    → (ContextScope → Option (SnapshotDir F))
    → Option ContextOutput
unfolding gather distinct_scopes items_of select output_of
run_context codec rules request roots =
    let g = gather codec rules request roots (scopes_of request.scopes) nothing_gathered in
    bind (items_of (take (clamp 1 32 request.limit) (kept_of rules request g)))
      (λ (items : List ContextItem). some (output_of rules request g items))

-- The text that the hook format prints.
unfoldable pub print_context_hook : TextRules → ContextOutput → ℕ → Option Chars
unfolding rendered_context truncate_utf8
print_context_hook rules output max_bytes = truncate_utf8 (rendered_context rules output) max_bytes
