-- ===== src/Policy/Documents.antt =====
-- The documents of policy.service.ts: an upload against a removal, and the results of a search.
use smart_parking_management.Prelude.{
  ℕ, zero, suc, ◌+◌, ◌≤◌, Bool, true, false, not, ◌≡◌, refl, ◌∙◌, List, [], ◌∷◌, ◌++◌, map,
  find_many, order_by, IsOrdered, order_by-IsOrdered, length, any, All, leb, ltb, count-order_by,
  ◌==◌, arith, ==_refl, Bool-cases, inl, inr,
}
use smart_parking_management.Schema.{Db, Text, PolicyDocument, PolicyChunk}
use smart_parking_management.Action.{ok, Succeeds}
use smart_parking_management.Policy.{
  chunk_text, chunks_or_none, default_chunk_size, default_overlap, chunk_rows, document_row, store,
  upload, remove_document, PolicySearchResult, scores_higher, first_results, scored,
  search_policies,
}

abbrev pub chunks_of : ℕ → Db → List PolicyChunk
chunks_of id db = find_many (λ c. c.document_id == id) db.policy_chunks

rows_removed :
    (id n : ℕ) (chunks : List Text) (old : List PolicyChunk)
    → any (λ c. c.document_id == id) old ≡ false
    → find_many (λ c. not (c.document_id == id)) (chunk_rows id n chunks ++ old) ≡ old
unfolding chunk_rows
rows_removed id n [] [] h = refl
rows_removed id n [] (c ∷ cs) h = ground (arith, rows_removed id n [] cs)
rows_removed id n (c ∷ cs) old h = ground (arith, rows_removed id (n + 1) cs old h, ==_refl id)

rows_counted :
    (id n : ℕ) (chunks : List Text) (old : List PolicyChunk)
    → any (λ c. c.document_id == id) old ≡ false
    → length (find_many (λ c. c.document_id == id) (chunk_rows id n chunks ++ old)) ≡ length chunks
unfolding chunk_rows
rows_counted id n [] [] h = refl
rows_counted id n [] (c ∷ cs) h = ground (arith, rows_counted id n [] cs)
rows_counted id n (c ∷ cs) old h = ground (arith, rows_counted id (n + 1) cs old h, ==_refl id)

documents_removed :
    (id : ℕ) (old : List PolicyDocument)
    → any (λ d. d.id == id) old ≡ false
    → find_many (λ d. not (d.id == id)) old ≡ old
documents_removed id [] h = refl
documents_removed id (d ∷ ds) h = ground (arith, documents_removed id ds)

store-remove_document :
    (doc : PolicyDocument) (chunks : List Text) (db : Db)
    → any (λ d. d.id == doc.id) db.policy_documents ≡ false
    → any (λ c. c.document_id == doc.id) db.policy_chunks ≡ false
    → let (r, db') = store doc chunks db in
      Succeeds r
      → ((n : ℕ) × (r ≡ ok (record { document = doc; chunk_count = suc n }))
          × (length (chunks_of doc.id db') ≡ suc n))
        × (remove_document doc.id db' ≡ (ok tt, db))
unfolding remove_document
store-remove_document doc [] db no_doc no_chunk h = elim h [ ]
store-remove_document doc (c ∷ cs) db no_doc no_chunk h =
    let self = ==_refl doc.id in
    let count = rows_counted doc.id 0 (c ∷ cs) db.policy_chunks no_chunk in
    let rows = rows_removed doc.id 0 (c ∷ cs) db.policy_chunks no_chunk in
    let docs = documents_removed doc.id db.policy_documents no_doc in
    ((length cs, refl, count), ground arith)

-- An upload that succeeds stores as many chunks as it says, at least one, and the removal of the
-- document takes away exactly what it has stored, if its id is new.
pub upload-remove_document :
    (text title filename : Text) (user id : ℕ) (db : Db)
    → any (λ d. d.id == id) db.policy_documents ≡ false
    → any (λ c. c.document_id == id) db.policy_chunks ≡ false
    → let (r, db') = upload text title filename user id db in
      Succeeds r
      → ((n : ℕ) × (r
            ≡ ok (record { document = document_row id title filename user; chunk_count = suc n }))
          × (length (chunks_of id db') ≡ suc n))
        × (remove_document id db' ≡ (ok tt, db))
unfolding upload
upload-remove_document text title filename user id db =
    store-remove_document (document_row id title filename user)
      (chunks_or_none (chunk_text text default_chunk_size default_overlap)) db

All-first_results :
    (P : PolicySearchResult → Type 0) (n : ℕ) (rs : List PolicySearchResult)
    → All P rs
    → All P (first_results n rs)
unfolding first_results
All-first_results P zero rs h = tt
All-first_results P (suc n) [] h = tt
All-first_results P (suc n) (r ∷ rs) h = (h.0, All-first_results P n rs h.1)

first_results-IsOrdered :
    (n : ℕ) (rs : List PolicySearchResult)
    → IsOrdered scores_higher rs
    → IsOrdered scores_higher (first_results n rs)
unfolding first_results
first_results-IsOrdered zero rs h = tt
first_results-IsOrdered (suc n) [] h = tt
first_results-IsOrdered (suc n) (r ∷ rs) h =
    (All-first_results _ n rs h.0, first_results-IsOrdered n rs h.1)

length-first_results : (n : ℕ) (rs : List PolicySearchResult) → length (first_results n rs) ≤ n
unfolding first_results
length-first_results zero rs = omega arith
length-first_results (suc n) [] = omega arith
length-first_results (suc n) (r ∷ rs) = omega (arith, length-first_results n rs)

-- The results of a kind that are better than a score.
abbrev pub better : ℕ → PolicySearchResult → Bool
better score r = ltb score r.score

none_better :
    (score top : ℕ) (rs : List PolicySearchResult)
    → top ≤ score
    → All (λ r. leb r.score top ≡ true) rs
    → length (find_many (better score) rs) ≡ 0
none_better score top [] le h = refl
none_better score top (r ∷ rs) le h = ground (arith, none_better score top rs le h.1, h.0)

-- All that is better than a result that is given is given too.
best_first :
    (n score : ℕ) (rs : List PolicySearchResult)
    → IsOrdered scores_higher rs
    → any (λ r. leb r.score score) (first_results n rs) ≡ true
    → length (find_many (better score) (first_results n rs)) ≡ length (find_many (better score) rs)
unfolding first_results
best_first zero score rs h some_given = ground arith
best_first (suc n) score [] h some_given = refl
best_first (suc n) score (r ∷ rs) h some_given = elim (Bool-cases (leb r.score score)) [
  | inl low ↦
      let le : r.score ≤ score = ground (arith, low) in
      let given =
        none_better score r.score (first_results n rs) le (All-first_results _ n rs h.0) in
      let stored = none_better score r.score rs le h.0 in ground (arith, low)
  | inr high ↦ ground (arith, high, best_first n score rs h.1)
]

-- A search gives at most as many results as asked for, the best first, and it leaves out nothing that
-- scores higher than a result that it gives: for a score that some result does not exceed, there are
-- as many results above it as chunks above it.
pub search_policies_lem :
    (similarity : Text → Text → ℕ) (query : Text) (top_k score : ℕ) (db : Db)
    → let results = search_policies similarity query top_k db in
      any (λ r. leb r.score score) results ≡ true
      → (length results ≤ top_k)
        × IsOrdered scores_higher results
        × (length (find_many (better score) results)
            ≡ length (find_many (better score) (map (scored similarity db query) db.policy_chunks)))
unfolding search_policies
search_policies_lem similarity query top_k score db some_given =
    let rows = map (scored similarity db query) db.policy_chunks in
    let sorted = order_by scores_higher rows in
    let ordered : IsOrdered scores_higher sorted =
      order_by-IsOrdered scores_higher (λ a b h. ground (arith, h))
        (λ a b c h k. ground (arith, h, k)) rows in
    (
      length-first_results top_k sorted,
      first_results-IsOrdered top_k sorted ordered,
      best_first top_k score sorted ordered some_given
          ∙ count-order_by scores_higher (better score) rows,
    )
