-- ===== src/Backfill/Planning.antt =====
-- What `_create_plan` of libs/libcommon/src/libcommon/state.py plans.
use datasets_server.Prelude.{
  ℕ, suc, ◌+◌, ◌-◌, ◌≤◌, text_eq, ◌==◌, Bool, true, false, not, String, Option, none, some, List,
  [], ◌∷◌, ◌++◌, map, any, contains, occurrences, contains-eq-occurrences, count, count-append, ltb,
  if◌then◌else◌, ◌≡◌, refl, sym, ◌∙◌, ap, arith, eq_iff, Bool-cases, inl, inr,
}
use datasets_server.Utils.{Priority}
use datasets_server.Errors.{
  return, raise, key_error, ◌>>=◌, for_each, Dict, get, get_or_raise, keys,
}
use datasets_server.State.{ArtifactState}
use datasets_server.Backfill.{
  CacheStatus, Task, create_job, delete_job, remove, to_refresh, plan_creations, create_plan,
}

-- The tasks about one artifact.
abbrev pub creates : String → Task → Bool
creates id (create_job state _) = state.id == id
creates id (delete_job _) = false

abbrev pub deletes : String → Task → Bool
deletes id (create_job _ _) = false
deletes id (delete_job state) = state.id == id

abbrev pub ids_of : List ArtifactState → List String
ids_of states = map (λ (state : ArtifactState). state.id) states

occurrences-remove :
    (id x : String) (xs : List String)
    → contains x xs ≡ true
    → occurrences id (remove x xs) + (if x == id then 1 else 0) ≡ occurrences id xs
occurrences-remove id x [] h = ground arith
occurrences-remove id x (y ∷ ys) h =
    ground (arith, eq_iff y x, eq_iff x y, eq_iff x id, eq_iff y id, occurrences-remove id x ys)

ltb_zero : (n : ℕ) → ltb 0 n ≡ false → n ≡ 0
ltb_zero n h = ground arith

absent_occurrences :
    (id x : String) (xs : List String)
    → contains x xs ≡ false
    → (x == id) ≡ true
    → occurrences id xs ≡ 0
absent_occurrences id x xs new same =
    let empty : occurrences x xs ≡ 0 =
      ltb_zero (occurrences x xs) (sym (contains-eq-occurrences x xs) ∙ new) in
    let same_name : x ≡ id = (eq_iff x id).0 same in rw (sym same_name) empty

created_again :
    (c i r' r : ℕ)
    → (b : Bool) → c ≡ i - r'
    → r' + (if b then 1 else 0) ≡ r
    → c ≡ (if b then suc i else i) - r
created_again c0 i r' r0 true c gone = omega arith
created_again c0 i r' r0 false c gone = omega arith

remaining_again :
    (e i r' r : ℕ)
    → (b : Bool) → e ≡ r' - i
    → r' + (if b then 1 else 0) ≡ r
    → e ≡ r - (if b then suc i else i)
remaining_again e i r' r0 true c gone = omega arith
remaining_again e i r' r0 false c gone = omega arith

created_new :
    (c i r : ℕ)
    → (b : Bool) → (b ≡ true → r ≡ 0)
    → c ≡ i - r
    → (if b then suc c else c) ≡ (if b then suc i else i) - r
created_new c0 i r0 true none_left c = let z = none_left refl in omega arith
created_new c0 i r0 false none_left c = c

remaining_new :
    (e i r : ℕ) → (b : Bool) → (b ≡ true → r ≡ 0) → e ≡ r - i → e ≡ r - (if b then suc i else i)
remaining_new e i r0 true none_left c = let z = none_left refl in omega arith
remaining_new e i r0 false none_left c = c

-- The first loop, for one identifier: what it creates, and what remains to delete.
creations :
    (id : String) (priority : Priority) (states : List ArtifactState) (remaining : List String)
    → (count (creates id) (plan_creations priority states remaining).0
        ≡ occurrences id (ids_of states) - occurrences id remaining)
      × (count (deletes id) (plan_creations priority states remaining).0 ≡ 0)
      × (occurrences id (plan_creations priority states remaining).1
          ≡ occurrences id remaining - occurrences id (ids_of states))
unfolding plan_creations
creations id priority [] remaining = (omega arith, refl, omega arith)
creations id priority (state ∷ states) remaining = elim (Bool-cases (contains state.id remaining)) [
  | inl old ↦
      let (c, d, r) = creations id priority states (remove state.id remaining) in
      let gone = occurrences-remove id state.id remaining old in
      rw old (
        created_again _ _ _ _ (state.id == id) c gone,
        d,
        remaining_again _ _ _ _ (state.id == id) r gone,
      )
  | inr new ↦
      let (c, d, r) = creations id priority states remaining in
      let none_left = absent_occurrences id state.id remaining new in
      rw new (
        created_new _ _ _ (state.id == id) none_left c,
        d,
        remaining_new _ _ _ (state.id == id) none_left r,
      )
]

-- Every item of the dictionary is the state that its key names.
abbrev pub OwnIds : Dict ArtifactState → Type 0
OwnIds in_process =
    any (λ (item : String × ArtifactState). not (item.1.id == item.0)) in_process ≡ false

pub OwnIds-cons :
    (k : String) (state : ArtifactState) (rest : Dict ArtifactState)
    → OwnIds ((k, state) ∷ rest)
    → (state.id ≡ k) × OwnIds rest
OwnIds-cons k state rest own = elim (Bool-cases (state.id == k)) [
  | inl same ↦ ((eq_iff state.id k).0 same, rw same at own)
  | inr other ↦ absurd (ground (arith, rw other at own))
]

in_process_found :
    (id : String) (in_process : Dict ArtifactState)
    → OwnIds in_process
    → 1 ≤ occurrences id (keys in_process)
    → (state : ArtifactState) × (get id in_process ≡ some state) × (state.id ≡ id)
in_process_found id [] own h = absurd (omega arith)
in_process_found id ((k, state) ∷ rest) own h = elim (Bool-cases (k == id)) [
  | inl here ↦
      let (same, _) = OwnIds-cons k state rest own in
      rw here (state, refl, same ∙ (eq_iff k id).0 here)
  | inr there ↦
      let (_, own_rest) = OwnIds-cons k state rest own in
      rw there (in_process_found id rest own_rest (rw there at h))
]

at_least_one : {n : ℕ} (id : String) (ids : List String) → occurrences id (id ∷ ids) ≤ n → 1 ≤ n
at_least_one id ids h =
    let here : (id == id) ≡ true = (eq_iff id id).1 refl in let h' = rw here at h in omega arith

fewer :
    {n : ℕ} (i id : String) (ids : List String)
    → occurrences i (id ∷ ids) ≤ n
    → occurrences i ids ≤ n
fewer i id ids h = elim (Bool-cases (id == i)) [
  | inl here ↦ let h' = rw here at h in omega arith
  | inr there ↦ rw there at h
]

step_same : {m n : ℕ} (b : Bool) → m ≡ n → (if b then suc m else m) ≡ (if b then suc n else n)
step_same b h = rw h refl

for_each_found :
    (in_process : Dict ArtifactState) (state : ArtifactState) (deleted : List ArtifactState)
    (id : String) (ids : List String)
    → get id in_process ≡ some state
    → for_each (λ i. get_or_raise i in_process) ids ≡ return deleted
    → for_each (λ i. get_or_raise i in_process) (id ∷ ids) ≡ return (state ∷ deleted)
for_each_found in_process state deleted id ids found done =
    let raises_not : get_or_raise id in_process ≡ return state =
      ap (λ (o : Option ArtifactState). elim o [ none ↦ raise key_error | some v ↦ return v ])
        found in
    ap (λ o. o >>= λ y. for_each (λ i. get_or_raise i in_process) ids >>= λ ys. return (y ∷ ys))
      raises_not
    ∙ ap (λ o. o >>= λ ys. return (state ∷ ys)) done

-- The second loop: it finds every identifier that is a key.
deletions :
    (in_process : Dict ArtifactState) (remaining : List String)
    → OwnIds in_process
    → ((id : String) → occurrences id remaining ≤ occurrences id (keys in_process))
    → (deleted : List ArtifactState) × (for_each (λ id. get_or_raise id in_process) remaining
        ≡ return deleted)
      × ((id : String) → count (deletes id) (map delete_job deleted) ≡ occurrences id remaining)
      × ((id : String) → count (creates id) (map delete_job deleted) ≡ 0)
deletions in_process [] own h = ([], refl, (λ id. refl), (λ id. refl))
deletions in_process (id ∷ remaining) own h =
    let (state, found, same) =
      in_process_found id in_process own (at_least_one id remaining (h id)) in
    let (deleted, done, d, c) =
      deletions in_process remaining own (λ i. fewer i id remaining (h i)) in
    (
      state ∷ deleted,
      for_each_found in_process state deleted id remaining found done,
      (λ i. rw same (step_same (id == i) (d i))),
      c,
    )

at_most : (x m n : ℕ) → x ≡ m - n → x ≤ m
at_most x m n h = omega arith

no_more : {x y n : ℕ} → y ≡ 0 → x ≡ n → x + y ≡ n
no_more h k = omega arith

only_these : {x y n : ℕ} → x ≡ 0 → y ≡ n → x + y ≡ n
only_these h k = omega arith

-- Where every item of `in_process` is kept under its own identifier, creating the plan raises
-- nothing; and for each identifier, with c the number of artifact states to refresh that have it and p
-- the number of times it is a key of `in_process`, the plan creates c - p jobs and deletes p - c.
pub create_plan_exact :
    (priority : Priority) (status : CacheStatus) (in_process : Dict ArtifactState)
    → OwnIds in_process
    → (tasks : List Task) × (create_plan priority status in_process ≡ return tasks)
      × ((id : String)
          → (count (creates id) tasks
              ≡ occurrences id (ids_of (to_refresh status)) - occurrences id (keys in_process))
            × (count (deletes id) tasks
                ≡ occurrences id (keys in_process) - occurrences id (ids_of (to_refresh status))))
unfolding create_plan
create_plan_exact priority status in_process own =
    let planned = plan_creations priority (to_refresh status) (keys in_process) in
    let facts = λ (id : String). creations id priority (to_refresh status) (keys in_process) in
    let (deleted, done, d, c) =
      deletions in_process planned.1 own (λ id. at_most _ _ _ (let (x, y, z) = facts id in z)) in
    (
      planned.0 ++ map delete_job deleted,
      rw done refl,
      λ id.
          let (x, y, z) = facts id in
          (
            count-append (creates id) planned.0 (map delete_job deleted) ∙ no_more (c id) x,
            count-append (deletes id) planned.0 (map delete_job deleted) ∙ only_these y (d id ∙ z),
          ),
    )
