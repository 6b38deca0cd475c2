-- ===== src/Cache/Samples.antt =====
-- Witnesses for the theorems about libs/libcommon/src/libcommon/simple_cache.py, on a collection in
-- memory with two documents.
use datasets_server.Prelude.{
  ℕ, zero, suc, text_eq, option_eq, nat_eq, ◌==◌, Bool, true, false, ◌&&◌, String, Option, none,
  some, List, [], ◌∷◌, count, ltb, pos, ◌≡◌, refl, ap, sym, ◌∙◌, Bool-cases, inl, inr, eq_iff, ◌⊎◌,
  arith,
}
use datasets_server.Collection.Memory.{memory}
use datasets_server.Json.{text, object, end}
use datasets_server.Cache.{
  CachedResponse, Response, ok, has_key, created, upsert_response, get_response_with_details,
}
use datasets_server.Cache.Writes.{
  UniqueIndex, entry_written, get_response_with_details-upsert_response,
}
use datasets_server.Cache.Best.{BestResponse, is_success, progress_value, chosen, chosen_lem}
use datasets_server.Cache.Reports.{ObjectIds, CacheReport, report_of}
use datasets_server.Cache.Reports.Complete.{UniqueIds, read_pages, read_pages_complete}

abbrev a_response : (http_status : ℕ) → Response
a_response http_status = record {
  content = text "content";
  http_status = http_status;
  error_code = none;
  details = none;
  job_runner_version = some 1;
  dataset_git_revision = some "main";
  progress = some (pos 1);
  updated_at = none;
}

abbrev two_documents : List CachedResponse
unfolding created
two_documents =
    created 1 1 "size" "a" none none (a_response 200)
    ∷ created 2 2 "size" "b" none none (a_response 500)
    ∷ []

unique_index : UniqueIndex (memory CachedResponse) two_documents
unfolding created
unique_index kind dataset config split = elim (Bool-cases ("a" == dataset)) [
  | inl same ↦
      let name : dataset ≡ "a" = sym ((eq_iff "a" dataset).0 same) in
      let other : ("b" == dataset) ≡ false = rw name refl in ground arith
  | inr other ↦ ground arith
]

get_response_with_details-upsert_response_example :
    get_response_with_details (memory CachedResponse) "size" "a" none none (
      upsert_response
        (memory CachedResponse)
        "size"
        "a"
        none
        none
        3
        3
        (a_response 404)
        two_documents)
    ≡ ok (record {
      entry = record {
        without_content = record {
          http_status = 404;
          error_code = none;
          dataset_git_revision = some "main";
          progress = some (pos 1);
          job_runner_version = some 1;
        };
        content = text "content";
      };
      details = object end;
    })
get_response_with_details-upsert_response_example =
    get_response_with_details-upsert_response (memory CachedResponse) "size" "a" none none 3 3
      (a_response 404) two_documents (unique_index "size" "a" none none)

other_key : has_key "size" "b" none none (created 3 3 "size" "a" none none (a_response 404)) ≡ false
unfolding created
other_key = refl

abbrev a_candidate : (http_status : ℕ) → BestResponse
a_candidate http_status = record {
  kind = "size";
  response = entry_written 3 (a_response http_status);
}

chosen_lem_example :
    (best : BestResponse) × (chosen (a_candidate 404 ∷ a_candidate 200 ∷ []) ≡ some best)
    × (((count is_success (a_candidate 404 ∷ a_candidate 200 ∷ []) ≡ 0) × (best ≡ a_candidate 404))
        ⊎ ((is_success best ≡ true)
            × (count
                  (λ o.
                    is_success o
                    && ltb
                        (progress_value best.response.progress)
                        (progress_value o.response.progress))
                  (a_candidate 404 ∷ a_candidate 200 ∷ [])
                ≡ 0)))
chosen_lem_example = chosen_lem (a_candidate 404) (a_candidate 200 ∷ [])

-- Identifiers in unary: as many letters as the successor of the number.
abbrev show_unary : ℕ → String
show_unary zero = "x"
show_unary (suc n) = String.◌∷◌ "x" (show_unary n)

abbrev after_letter : String → Option ℕ → Option ℕ
after_letter String.[] _ = some 0
after_letter _ none = none
after_letter _ (some n) = some (suc n)

abbrev parse_unary : String → Option ℕ
parse_unary String.[] = none
parse_unary (String.◌∷◌ _ s) = after_letter s (parse_unary s)

after_letter_shown : (n m : ℕ) → after_letter (show_unary n) (some m) ≡ some (suc m)
after_letter_shown zero m = refl
after_letter_shown (suc n) m = refl

parse-show_unary : (n : ℕ) → parse_unary (show_unary n) ≡ some n
parse-show_unary zero = refl
parse-show_unary (suc n) =
    ap (after_letter (show_unary n)) (parse-show_unary n) ∙ after_letter_shown n n

cons-ne-empty : (s : String) → String.◌∷◌ "x" s ≡ "" → ⊥
cons-ne-empty s e = cc

show_unary_filled : (n : ℕ) → (show_unary n == "") ≡ false
show_unary_filled zero = refl
show_unary_filled (suc n) = elim (Bool-cases (show_unary (suc n) == "")) [
  | inl empty ↦
      let e = (eq_iff (show_unary (suc n)) "").0 empty in absurd (cons-ne-empty (show_unary n) e)
  | inr filled ↦ filled
]

abbrev unary_ids : ObjectIds
unary_ids = record {
  show = show_unary;
  parse = parse_unary;
  parse-show = parse-show_unary;
  show-ne-empty = show_unary_filled;
}

unique_ids : UniqueIds (memory CachedResponse) two_documents
unfolding created
unique_ids k = ground (arith, nat_eq.beq_iff 1 k, nat_eq.beq_iff 2 k)

read_pages_complete_example :
    (all : List CacheReport) × (read_pages
        (memory CachedResponse)
        unary_ids
        "size"
        0
        two_documents
        3
        none
      ≡ some all)
    × ((q : CacheReport → Bool)
        → count q all ≡ count (λ r. r.kind == "size" && q (report_of r)) two_documents)
unfolding two_documents
read_pages_complete_example =
    read_pages_complete (memory CachedResponse) unary_ids "size" 0 two_documents unique_ids 3
      (omega arith)
