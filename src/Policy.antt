-- ===== src/Policy.antt =====
-- The policy documents: backend/src/modules/policy/chunk-text.util.ts and policy.service.ts. The text of
-- a PDF, the embedding of a text and the likeness of two embeddings come from libraries: they are inputs
-- and parameters.
pub mod Chunks
pub mod Documents
use smart_parking_management.Prelude.{
  min, ℕ, zero, suc, ◌+◌, ◌-◌, Bool, true, false, not, ◌&&◌, ◌||◌, Option, none, some, List, [],
  ◌∷◌, ◌++◌, map, find_first, find_many, order_by, length, any, ltb, leb, ◌==◌, if◌then◌else◌,
}
use smart_parking_management.Schema.{Db, Text, PolicyDocument, PolicyChunk}
use smart_parking_management.Action.{
  Action, Error, pure, gets, or_throw, throw, modify, transaction, ◌>>=◌, ◌>>◌,
}

-- `\s` of a regular expression, and what `trim` takes away.
abbrev pub is_space : ℕ → Bool
is_space c =
    (leb 9 c && leb c 13)
    || c == 32
    || c == 160
    || c == 5760
    || (leb 8192 c && leb c 8202)
    || c == 8232
    || c == 8233
    || c == 8239
    || c == 8287
    || c == 12288
    || c == 65279

-- `text.replace(/\s+/g, ' ')`, with whether the character before was a space.
unfoldable pub collapse : Bool → Text → Text
collapse after [] = []
collapse after (c ∷ cs) =
    let inside = collapse true cs in
    let next = collapse false cs in
    if is_space c then (if after then inside else 32 ∷ inside) else c ∷ next

unfoldable pub trim_start : Text → Text
trim_start [] = []
trim_start (c ∷ cs) = let rest = trim_start cs in if is_space c then rest else c ∷ cs

unfoldable pub trim_end : Text → Text
trim_end [] = []
trim_end (c ∷ cs) =
    let rest = trim_end cs in
    elim rest [ [] ↦ (if is_space c then [] else c ∷ []) | (d ∷ ds) ↦ c ∷ d ∷ ds ]

-- `trim()`
unfoldable pub trim : Text → Text
unfolding trim_start trim_end
trim text = trim_end (trim_start text)

unfoldable pub normalize : Text → Text
unfolding collapse trim
normalize text = trim (collapse false text)

unfoldable pub take : ℕ → Text → Text
take zero text = []
take (suc n) [] = []
take (suc n) (c ∷ cs) = c ∷ take n cs

unfoldable pub drop : ℕ → Text → Text
drop zero text = text
drop (suc n) [] = []
drop (suc n) (c ∷ cs) = drop n cs

-- `text.slice(start, end)`
unfoldable pub slice : ℕ → ℕ → Text → Text
unfolding take drop
slice start end text = take (end - start) (drop start text)

-- `if (chunk) chunks.push(chunk)`
abbrev pub push_given : Text → List Text → List Text
push_given [] chunks = chunks
push_given (c ∷ cs) chunks = (c ∷ cs) ∷ chunks

abbrev pub pushed : Text → Option (List Text) → Option (List Text)
pushed chunk none = none
pushed chunk (some chunks) = some (push_given chunk chunks)

-- The loop from a start on; none if the fuel does not last.
unfoldable pub chunks_from : ℕ → ℕ → ℕ → Text → ℕ → Option (List Text)
unfolding slice trim
chunks_from zero chunk_size overlap text start = none
chunks_from (suc fuel) chunk_size overlap text start =
    let end = min (start + chunk_size) (length text) in
    let chunk = trim (slice start end text) in
    let rest = chunks_from fuel chunk_size overlap text (end - overlap) in
    if ltb start (length text)
    then (if end == length text then some (push_given chunk []) else pushed chunk rest)
    else some []

-- `chunkText`; every round but the last moves the start on, so that the length is fuel enough.
unfoldable pub chunk_text : Text → ℕ → ℕ → Option (List Text)
unfolding normalize chunks_from
chunk_text text chunk_size overlap =
    let normalized = normalize text in
    chunks_from (suc (length normalized)) chunk_size overlap normalized 0

abbrev pub default_chunk_size : ℕ
default_chunk_size = 800

abbrev pub default_overlap : ℕ
default_overlap = 150

abbrev pub chunks_or_none : Option (List Text) → List Text
chunks_or_none none = []
chunks_or_none (some chunks) = chunks

-- `createMany({ data: chunks.map((content, index) => …) })`
unfoldable pub chunk_rows : ℕ → ℕ → List Text → List PolicyChunk
chunk_rows document_id index [] = []
chunk_rows document_id index (content ∷ chunks) =
    record { document_id = document_id; content = content; chunk_index = index }
    ∷ chunk_rows document_id (index + 1) chunks

pub record PolicyDocumentResponse : Type 0 where
  pub document : PolicyDocument
  pub chunk_count : ℕ

abbrev pub document_row : ℕ → Text → Text → ℕ → PolicyDocument
document_row id title filename uploaded_by = record {
  id = id;
  title = title;
  filename = filename;
  uploaded_by = uploaded_by;
}

abbrev pub store : PolicyDocument → List Text → Action PolicyDocumentResponse
store doc [] = throw Error.no_text
store doc (chunk ∷ chunks) = do
  transaction do
    modify (λ db. record db { policy_documents = doc ∷ db.policy_documents })
    modify (λ db. record db {
      policy_chunks = chunk_rows doc.id 0 (chunk ∷ chunks) ++ db.policy_chunks;
    })
  pure (record { document = doc; chunk_count = length (chunk ∷ chunks) })

-- `PolicyService.upload`, of a PDF with a text, with the id of the new row.
unfoldable pub upload : Text → Text → Text → ℕ → ℕ → Action PolicyDocumentResponse
unfolding chunk_text chunk_rows
upload text title filename uploaded_by id =
    store (document_row id title filename uploaded_by)
      (chunks_or_none (chunk_text text default_chunk_size default_overlap))

-- `PolicyService.findAll`, less the order by time.
unfoldable pub find_documents : Db → List PolicyDocumentResponse
find_documents db =
    map
      (λ doc. record {
        document = doc;
        chunk_count = length (find_many (λ c. c.document_id == doc.id) db.policy_chunks);
      })
      db.policy_documents

-- `PolicyService.remove`; the chunks go along (`onDelete: Cascade`).
unfoldable pub remove_document : ℕ → Action (Unit {0})
remove_document id = do
  or_throw (← gets (λ db. find_first (λ d. d.id == id) db.policy_documents))
      Error.document_not_found
  modify (λ db. record db {
    policy_documents = find_many (λ d. not (d.id == id)) db.policy_documents;
    policy_chunks = find_many (λ c. not (c.document_id == id)) db.policy_chunks;
  })

pub record PolicySearchResult : Type 0 where
  pub document_title : Text
  pub content : Text
  pub score : ℕ

abbrev pub title_of : Option PolicyDocument → Text
title_of none = []
title_of (some doc) = doc.title

abbrev pub scores_higher : PolicySearchResult → PolicySearchResult → Bool
scores_higher a b = leb b.score a.score

-- `slice(0, topK)`
unfoldable pub first_results : ℕ → List PolicySearchResult → List PolicySearchResult
first_results zero results = []
first_results (suc n) [] = []
first_results (suc n) (r ∷ rs) = r ∷ first_results n rs

-- `topK = 5`
abbrev pub default_top_k : ℕ
default_top_k = 5

-- `cosineSimilarity` of the embeddings of two texts, on a scale from 0 on.
module _ (similarity : Text → Text → ℕ) where
  abbrev pub scored : Db → Text → PolicyChunk → PolicySearchResult
  scored db query chunk = record {
    document_title = title_of (find_first (λ d. d.id == chunk.document_id) db.policy_documents);
    content = chunk.content;
    score = similarity query chunk.content;
  }

  -- `PolicyService.search`
  unfoldable pub search_policies : Text → ℕ → Db → List PolicySearchResult
  unfolding first_results
  search_policies query top_k db =
      first_results top_k (order_by scores_higher (map (scored db query) db.policy_chunks))
