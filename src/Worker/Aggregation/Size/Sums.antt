-- ===== src/Worker/Aggregation/Size/Sums.antt =====
-- The sums of services/worker/src/worker/job_runners/dataset/size.py over the configs.
use datasets_server.Prelude.{
  ℕ, ◌+◌, String, Option, none, some, List, [], ◌∷◌, map, ◌≡◌, sym, subst, ap, ◌∙◌, arith,
}
use datasets_server.Collection.{Collection}
use datasets_server.Json.{Json, natural, get_item}
use datasets_server.Cache.{CachedResponse}
use datasets_server.Worker.Failures.{Cause}
use datasets_server.Worker.Aggregation.{
  Answer, answer, raised, Fault, wrong_content, Progressing, Ratio, item,
}
use datasets_server.Worker.Aggregation.Partition.{each, answered, answer_injective, aggregated_lem}
use datasets_server.Worker.Aggregation.Size.{
  DatasetSizeResponse, sum_from, read, response_of, compute_sizes_response,
}

abbrev pub sum : List ℕ → ℕ
sum [] = 0
sum (n ∷ ns) = n + sum ns

abbrev natural_of : Option Json → Answer Fault ℕ
natural_of (some (natural n)) = answer n
natural_of _ = raised wrong_content

-- The natural number at a key.
abbrev pub natural_at : String → Json → Answer Fault ℕ
natural_at key value = natural_of (get_item key value)

natural_of-some :
    (found : Option Json) (n : ℕ) → natural_of found ≡ answer n → found ≡ some (natural n)
natural_of-some (some (natural m)) n h = ap (λ k. some (natural k)) (answer_injective m n h)
natural_of-some (some _) n h = ground (arith, h)
natural_of-some none n h = ground (arith, h)

natural_eq :
    (a b : ℕ) → a ≡ b → (let x : Answer Fault Json = answer (natural a) in x) ≡ answer (natural b)
natural_eq a b e = ap (λ n. answer (natural n)) e

module _ (other_sum : Json → Json → Json) (key : String) where
  sum_from-naturals :
      (values : List Json) (ns : List ℕ) (total : ℕ)
      → each (natural_at key) values ≡ answer ns
      → sum_from other_sum key (natural total) values ≡ answer (natural (total + sum ns))
  unfolding sum_from
  sum_from-naturals [] ns total h =
      let e = answer_injective [] ns h in
      natural_eq total (total + sum ns) (omega (arith, ap sum e))
  sum_from-naturals (value ∷ values) ns total h =
      let (n, e, h₁) = answered (natural_at key value) _ h in
      let (rest, es, h₂) = answered (each (natural_at key) values) _ h₁ in
      let g = natural_of-some (get_item key value) n e in
      let same = answer_injective (n ∷ rest) ns h₂ in
      rw (g, item, sum_from)
        (sum_from-naturals values rest (total + n) es
          ∙ natural_eq (total + n + sum rest) (total + sum ns) (omega (arith, ap sum same)))

  -- A sum from 0 that is answered is the sum of the naturals.
  sum_is :
      (values : List Json) (ns : List ℕ) (total : Json)
      → each (natural_at key) values ≡ answer ns
      → sum_from other_sum key (natural 0) values ≡ answer total
      → total ≡ natural (sum ns)
  sum_is values ns total h t =
      answer_injective total (natural (sum ns))
        (sym t ∙ sum_from-naturals values ns 0 h ∙ natural_eq (0 + sum ns) (sum ns) (omega arith))

module _ (C : Collection CachedResponse) (query_value : Json → Answer Fault (Option String))
    (cause_of : Fault → Cause) (other_sum : Json → Json → Json) (dataset : String) where
  -- The sums in the response, where the sizes of the configs hold naturals.
  response_of-sums :
      (s : Progressing (Json × List Json)) (r : DatasetSizeResponse)
      → response_of C query_value cause_of other_sum dataset s ≡ answer r
      → (original parquet memory rows : List ℕ)
      → each (natural_at "num_bytes_original_files") r.configs ≡ answer original
      → each (natural_at "num_bytes_parquet_files") r.configs ≡ answer parquet
      → each (natural_at "num_bytes_memory") r.configs ≡ answer memory
      → each (natural_at "num_rows") r.configs ≡ answer rows
      → r.size ≡ record {
        dataset = dataset;
        num_bytes_original_files = natural (sum original);
        num_bytes_parquet_files = natural (sum parquet);
        num_bytes_memory = natural (sum memory);
        num_rows = natural (sum rows);
      }
  unfolding response_of
  response_of-sums s r h original parquet memory rows ho hp hm hr =
      let configs : List Json = map (λ (x : Json × List Json). x.0) s.contents in
      let (o, eo, h₁) =
        answered (sum_from other_sum "num_bytes_original_files" (natural 0) configs) _ h in
      let (p, ep, h₂) =
        answered (sum_from other_sum "num_bytes_parquet_files" (natural 0) configs) _ h₁ in
      let (m, em, h₃) = answered (sum_from other_sum "num_bytes_memory" (natural 0) configs) _ h₂ in
      let (n, en, h₄) = answered (sum_from other_sum "num_rows" (natural 0) configs) _ h₃ in
      let e = answer_injective _ r h₄ in
      let of_configs = ap (λ (x : DatasetSizeResponse). x.configs) e in
      let at : (key : String) (total : Json) (ns : List ℕ)
          → each (natural_at key) r.configs ≡ answer ns
          → sum_from other_sum key (natural 0) configs ≡ answer total
          → total ≡ natural (sum ns) =
        λ key total ns hk t.
          sum_is other_sum key configs ns total
            (subst (λ cs. each (natural_at key) cs ≡ answer ns) (sym of_configs) hk) t in
      let oe = at "num_bytes_original_files" o original ho eo in
      let pe = at "num_bytes_parquet_files" p parquet hp ep in
      let me = at "num_bytes_memory" m memory hm em in
      let ne = at "num_rows" n rows hr en in
      sym (ap (λ (x : DatasetSizeResponse). x.size) e) ∙ λ i. record {
        dataset = dataset;
        num_bytes_original_files = oe i;
        num_bytes_parquet_files = pe i;
        num_bytes_memory = me i;
        num_rows = ne i;
      }

  -- Where dataset-size answers, and the sizes of the configs that it answers with hold naturals, the
  -- sizes of the dataset are their sums.
  pub compute_sizes_response-sum :
      (db : C.Db) (r : DatasetSizeResponse) (p : Ratio)
      → compute_sizes_response C query_value cause_of other_sum dataset db ≡ answer (r, p)
      → (original parquet memory rows : List ℕ)
      → each (natural_at "num_bytes_original_files") r.configs ≡ answer original
      → each (natural_at "num_bytes_parquet_files") r.configs ≡ answer parquet
      → each (natural_at "num_bytes_memory") r.configs ≡ answer memory
      → each (natural_at "num_rows") r.configs ≡ answer rows
      → r.size ≡ record {
        dataset = dataset;
        num_bytes_original_files = natural (sum original);
        num_bytes_parquet_files = natural (sum parquet);
        num_bytes_memory = natural (sum memory);
        num_rows = natural (sum rows);
      }
  unfolding compute_sizes_response
  compute_sizes_response-sum db r p h =
      let (_, _, s, _, _, _, f, _) =
        aggregated_lem C query_value cause_of "config-size" dataset
          (read C query_value cause_of other_sum) db
          (response_of C query_value cause_of other_sum dataset) r p h in
      response_of-sums s r f
