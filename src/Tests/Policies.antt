-- ===== src/Tests/Policies.antt =====
-- Runs of PolicyService: a short text is cut, stored, found and removed.
use smart_parking_management.Prelude.{
  ℕ, ◌≡◌, ◌≤◌, refl, suc, false, some, [], ◌∷◌, List, length, All, find_many, map, arith, IsOrdered,
  order_by,
}
use smart_parking_management.Schema.{Text, Db}
use smart_parking_management.Action.{ok}
use smart_parking_management.Policy.{
  chunk_text, is_space, upload, remove_document, document_row, search_policies, scored,
  scores_higher,
}
use smart_parking_management.Policy.Chunks.{chunk_text_holds, count, count_all, Fits}
use smart_parking_management.Policy.Documents.{
  chunks_of, upload-remove_document, search_policies_lem, better,
}
use smart_parking_management.Tests.Data.{opening_db}

abbrev rules : Text
rules = b'n' ∷ b'o' ∷ b' ' ∷ b' ' ∷ b'f' ∷ b'e' ∷ b'e' ∷ []

chunk_text_holds_example :
    (chunks : List Text) × (chunk_text rules 4 1 ≡ some chunks)
    × All (Fits 4 1 rules) chunks
    × ((c : ℕ) → is_space c ≡ false → count c rules ≤ count_all c chunks)
chunk_text_holds_example = chunk_text_holds rules 4 1 (omega arith)

upload-remove_document_example :
    let (r, db') = upload rules (b'T' ∷ []) (b'F' ∷ []) 9 4 opening_db in
    ((n : ℕ) × (r
        ≡ ok (record { document = document_row 4 (b'T' ∷ []) (b'F' ∷ []) 9; chunk_count = suc n }))
      × (length (chunks_of 4 db') ≡ suc n))
    × (remove_document 4 db' ≡ (ok tt, opening_db))
unfolding upload
upload-remove_document_example =
    upload-remove_document rules (b'T' ∷ []) (b'F' ∷ []) 9 4 opening_db refl refl tt

-- The likeness is the length here.
abbrev by_length : Text → Text → ℕ
by_length query content = length content

abbrev two_chunks : Db
two_chunks = record opening_db {
  policy_chunks =
      record { document_id = 4; content = b'a' ∷ []; chunk_index = 0 }
      ∷ record { document_id = 4; content = b'b' ∷ b'c' ∷ []; chunk_index = 1 }
      ∷ [];
}

search_policies_lem_example :
    let results = search_policies by_length (b'q' ∷ []) 1 two_chunks in
    (length results ≤ 1)
    × IsOrdered scores_higher results
    × (length (find_many (better 2) results)
        ≡ length (
            find_many
              (better 2)
              (map (scored by_length two_chunks (b'q' ∷ [])) two_chunks.policy_chunks)))
unfolding search_policies order_by
search_policies_lem_example = search_policies_lem by_length (b'q' ∷ []) 1 2 two_chunks refl
