-- ===== src/Context/Printed.antt =====
-- What `pk context` prints stays within the limits of the request.
use prometheus_knowledge_rs.Prelude.{
  ℕ, zero, suc, ◌≤◌, ◌≡◌, refl, ap, ◌∙◌, Option, some, List, [], ◌∷◌, arith, unwrap_or, length,
  take, codes, is_whitespace, length-take,
}
use prometheus_knowledge_rs.Texts.{split_words, byte_length, join}
use prometheus_knowledge_rs.Context.{
  ContextCandidate, ContextScope, TextRules, ContextItem, ContextOutput, ContextRequest, clamp,
  scopes_of, gather, Gathered,
}
use prometheus_knowledge_rs.Context.Select.{select}
use prometheus_knowledge_rs.Context.Output.{
  filled, context_snippet, items_of, rendered_context, min, max_bytes_of, nothing_gathered, kept_of,
  output_of, run_context, print_context_hook,
}
use prometheus_knowledge_rs.Context.Utf8.{fitting, truncate_utf8-fitting, fitting-fits, fitting_le}
use prometheus_knowledge_rs.Snapshot.{Codec, SnapshotDir}

items_of-some :
    {Y : Type 0} (cs : List (ContextCandidate Y))
    → (is : List ContextItem) × (items_of cs ≡ some is) × (length is ≡ length cs)
unfolding items_of context_snippet
items_of-some [] = ([], refl, refl)
items_of-some (c ∷ cs) =
    let (is, found, same) = items_of-some cs in
    let text = join (codes " ") (
      split_words is_whitespace (codes (unwrap_or c.entry.content (filled c.entry.description)))) in
    (
      record {
        scope = c.scope;
        id = c.entry.id;
        title = c.entry.title;
        snippet = fitting text 360;
        score = c.score;
      }
          ∷ is,
      rw (truncate_utf8-fitting text 360, found) refl,
      ap suc same,
    )

length-take_eq {ℓ} : {A : Type ℓ} (n : ℕ) (xs : List A) → length (take n xs) ≡ min n (length xs)
length-take_eq zero xs = ground arith
length-take_eq (suc n) [] = ground arith
length-take_eq (suc n) (x ∷ xs) = ground (arith, length-take_eq n xs)

-- What is shown and counted: one output for each request, and its sizes.
pub record IsWithin (request : ContextRequest) (output : ContextOutput) : Type 0 where
  pub shown : length output.results ≡ min (clamp 1 32 request.limit) output.candidate_count
  pub kept : output.candidate_count ≤ clamp 1 512 request.max_candidates
  pub bytes : output.byte_count ≤ max_bytes_of request

module _ {Y F : Type 0} (codec : Codec Y F) (rules : TextRules) (request : ContextRequest) where
  -- For any request and any state of the scopes there is an output. It shows as many of the kept
  -- candidates as the limit allows, 32 at most, keeps at most the candidates asked for, 512 at most,
  -- and counts at most the bytes asked for, 65536 at most.
  pub run_context-IsWithin :
      (roots : ContextScope → Option (SnapshotDir F))
      → (output : ContextOutput) × (run_context codec rules request roots ≡ some output)
        × IsWithin request output
  unfolding run_context output_of
  run_context-IsWithin roots =
      let g = gather codec rules request roots (scopes_of request.scopes) nothing_gathered in
      let kept = kept_of rules request g in
      let shown = take (clamp 1 32 request.limit) kept in
      let (items, found, same) = items_of-some shown in
      (
        output_of rules request g items,
        rw found refl,
        record {
          shown = same ∙ length-take_eq (clamp 1 32 request.limit) kept;
          kept = length-take (clamp 1 512 request.max_candidates) (select rules g.candidates);
          bytes = ground arith;
        },
      )

  run_context-output_of :
      (roots : ContextScope → Option (SnapshotDir F)) (items : List ContextItem)
      → let g = gather codec rules request roots (scopes_of request.scopes) nothing_gathered in
        items_of (take (clamp 1 32 request.limit) (kept_of rules request g)) ≡ some items
        → run_context codec rules request roots ≡ some (output_of rules request g items)
  unfolding run_context
  run_context-output_of roots items found = rw found refl

  byte_count_le :
      (g : Gathered Y) (items : List ContextItem)
      → (output_of rules request g items).byte_count ≤ clamp 256 65536 request.max_bytes
  unfolding output_of
  byte_count_le g items = ground arith

  printed_le :
      (g : Gathered Y) (items : List ContextItem)
      → let output = output_of rules request g items in
        byte_length (fitting (rendered_context rules output) (max_bytes_of request))
        ≤ output.byte_count
  unfolding output_of rendered_context
  printed_le g items =
      let output = output_of rules request g items in
      let text = rendered_context rules output in
      ground
        (arith, fitting-fits text (max_bytes_of request), fitting_le text (max_bytes_of request))

  -- For any request and any state of the scopes there is an output, and the hook's text for it can be
  -- printed: it is the longest prefix of whole characters of the rendering that has at most the bytes
  -- asked for, taken as 256 where fewer and as 65536 where more are asked for. It has at most the bytes
  -- that the output counts, and those are at most as many too.
  pub print_context_hook-run_context :
      (roots : ContextScope → Option (SnapshotDir F))
      → (output : ContextOutput) × (run_context codec rules request roots ≡ some output)
        × (print_context_hook rules output (clamp 256 65536 request.max_bytes)
            ≡ some (fitting (rendered_context rules output) (clamp 256 65536 request.max_bytes)))
        × (byte_length (fitting (rendered_context rules output) (clamp 256 65536 request.max_bytes))
            ≤ output.byte_count)
        × (output.byte_count ≤ clamp 256 65536 request.max_bytes)
  unfolding print_context_hook
  print_context_hook-run_context roots =
      let g = gather codec rules request roots (scopes_of request.scopes) nothing_gathered in
      let (items, found, same) =
        items_of-some (take (clamp 1 32 request.limit) (kept_of rules request g)) in
      let output = output_of rules request g items in
      (
        output,
        run_context-output_of roots items found,
        truncate_utf8-fitting (rendered_context rules output) (max_bytes_of request),
        printed_le g items,
        byte_count_le g items,
      )
