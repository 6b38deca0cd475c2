-- ===== src/Worker/Aggregation/OptInOut/Counts.antt =====
-- The loop of config/opt_in_out_urls_count.py and dataset/opt_in_out_urls_count.py of services/worker/
-- src/worker/job_runners.
use datasets_server.Prelude.{
  ◌+◌, Bool, true, false, String, Option, List, [], ◌∷◌, count, length, ◌≡◌, refl, sym, subst,
  arith,
}
use datasets_server.Collection.{Collection}
use datasets_server.Json.{Json}
use datasets_server.Cache.{CachedResponse}
use datasets_server.Worker.Failures.{Cause}
use datasets_server.Worker.Aggregation.{Answer, answer, Fault, ◌>>=◌, item, iterated}
use datasets_server.Worker.Aggregation.Partition.{each, answered, answer_injective, each-cons}
use datasets_server.Worker.Aggregation.Size.{add}
use datasets_server.Worker.Aggregation.OptInOut.{
  Counting, Turn, waits, skipped, counts, counted, count_items,
}

abbrev pub is_waiting : Answer Fault Turn → Bool
is_waiting (answer waits) = true
is_waiting _ = false

module _ (C : Collection CachedResponse) (query_value : Json → Answer Fault (Option String))
    (cause_of : Fault → Cause) (other_sum : Json → Json → Json)
    (other_sorted : List Json → Answer Fault (List Json)) (key : String)
    (turn : Option String → Answer Fault Turn) where
  -- What the loop adds for the names.
  pub record Counted (names : List (Option String)) (s s' : Counting) : Type 0 where
    pub total_is : s'.total ≡ s.total + length names
    pub pending_is : s'.pending ≡ s.pending + count (λ n. is_waiting (turn n)) names

  add_name :
      (name : Option String) (names : List (Option String)) (t : Turn) (s s₁ s' : Counting)
      → turn name ≡ answer t
      → counted C query_value cause_of other_sum other_sorted t s ≡ answer s₁
      → Counted names s₁ s'
      → Counted (name ∷ names) s s'
  unfolding counted
  add_name name names waits s s₁ s' f a p =
      let q = subst (λ x. Counted names x s') (sym (answer_injective _ _ a)) p in
      record {
        total_is = omega (arith, q.total_is);
        pending_is = rw f (omega (arith, q.pending_is));
      }
  add_name name names skipped s s₁ s' f a p =
      let q = subst (λ x. Counted names x s') (sym (answer_injective _ _ a)) p in
      record { total_is = omega (arith, q.total_is); pending_is = rw f q.pending_is }
  add_name name names (counts content) s s₁ s' f a p =
      let (_, _, h₁) = answered (item "urls_columns" content >>= iterated) _ a in
      let (_, _, h₂) =
        answered (item "num_opt_in_urls" content >>= add other_sum s.num_opt_in_urls) _ h₁ in
      let (_, _, h₃) =
        answered (item "num_opt_out_urls" content >>= add other_sum s.num_opt_out_urls) _ h₂ in
      let (_, _, h₄) = answered (item "num_urls" content >>= add other_sum s.num_urls) _ h₃ in
      let (_, _, h₅) =
        answered (item "num_scanned_rows" content >>= add other_sum s.num_scanned_rows) _ h₄ in
      let q = subst (λ x. Counted names x s') (sym (answer_injective _ _ h₅)) p in
      record { total_is = omega (arith, q.total_is); pending_is = rw f q.pending_is }

  abbrev name_of : Json → Answer Fault (Option String)
  name_of x = item key x >>= query_value

  -- Where the loop answers, `total` has grown by the number of the names, and `pending` by the number
  -- of those for which there is no response, or one that is in progress.
  pub count_items-Counted :
      (items : List Json) (s s' : Counting)
      → count_items C query_value cause_of other_sum other_sorted key turn items s ≡ answer s'
      → (names : List (Option String)) × (each name_of items ≡ answer names) × Counted names s s'
  unfolding count_items
  count_items-Counted [] s s' h = (
    [],
    refl,
    subst (λ x. Counted [] s x) (answer_injective _ _ h)
        (record { total_is = omega arith; pending_is = omega arith }),
  )
  count_items-Counted (x ∷ items) s s' h =
      let (name, e, h₁) = answered (name_of x) _ h in
      let (t, f, h₂) = answered (turn name) _ h₁ in
      let (s₁, a, h₃) = answered (counted C query_value cause_of other_sum other_sorted t s) _ h₂ in
      let (names, es, p) = count_items-Counted items s₁ s' h₃ in
      (name ∷ names, each-cons name_of x items name names e es, add_name name names t s s₁ s' f a p)
