-- ===== src/Restore/Objects.antt =====
-- Objects that arrive in chunks: the maps of MutableChunkedBackupObject in
-- frontend/src/services/backup/restore/pipeline.ts. A map keeps its insertion order, and an entry's
-- key is its objectId.
pub mod Filled
use private_communication.Common.{
  ℕ, zero, suc, ◌+◌, String, Bool, true, false, Option, none, some, List, [], ◌∷◌, ◌++◌, length,
  set, replicate, leb, ◌==◌, str_eq, if◌then◌else◌, Result, ok, err, ◌>>=◌, ◌>>◌, guard, expect,
  traverse,
}
use private_communication.Pcbk.Value.{Value}
use private_communication.Pcbk.RecordHeader.{RecordHeader}
use private_communication.Restore.Errors.{Thrown, malformed, plain, lift}

-- A kind of object: its metadata, their validator and the number of chunks that they announce.
pub record MetaFormat : Type 1 where
  pub Meta : Type 0
  pub validate : Value → Result String Meta
  pub chunk_count : Meta → ℕ

-- MutableChunkedBackupObject: a chunk that has not arrived is `none`.
pub record ChunkedObject (M : Type 0) : Type 0 where
  pub object_id : String
  pub meta : M
  pub chunks : List (Option (List ℕ))
  pub total_bytes : ℕ

-- ParsedChunkedBackupObject
pub record ParsedObject (M : Type 0) : Type 0 where
  pub object_id : String
  pub meta : M
  pub chunks : List (List ℕ)
  pub total_bytes : ℕ

-- `new Array(n)` throws above this.
abbrev pub max_array_length : ℕ
max_array_length = 0xffffffff

-- `entry.chunks[i]`, where a hole or an index out of range reads as `undefined`.
abbrev pub chunk_at : List (Option (List ℕ)) → ℕ → Option (List ℕ)
chunk_at [] i = none
chunk_at (c ∷ cs) zero = c
chunk_at (c ∷ cs) (suc i) = chunk_at cs i

module _ {M : Type 0} where
  -- `map.get(id)`
  unfoldable pub find_object : String → List (ChunkedObject M) → Option (ChunkedObject M)
  find_object id [] = none
  find_object id (o ∷ os) = if str_eq o.object_id id then some o else find_object id os

  -- A write through the reference that `map.get` returned.
  unfoldable pub update_object : ChunkedObject M → List (ChunkedObject M) → List (ChunkedObject M)
  update_object new [] = []
  update_object new (o ∷ os) =
      if str_eq o.object_id new.object_id then new ∷ os else o ∷ update_object new os

  -- The chunk arrives: `entry.chunks[i] = payload; entry.totalBytes += payload.length`. The index of
  -- an accepted header is below its chunkCount, which is the length of the array.
  abbrev pub put_chunk : ChunkedObject M → ℕ → List ℕ → ChunkedObject M
  put_chunk o i payload = record o {
    chunks = set o.chunks i (some payload);
    total_bytes = o.total_bytes + length payload;
  }

  -- The body of the cases `…-chunk`, behind the check of the encoding.
  unfoldable pub add_chunk :
      (M → ℕ)
      → RecordHeader
      → List ℕ
      → List (ChunkedObject M)
      → Result Thrown (List (ChunkedObject M))
  add_chunk chunk_count h payload objects = do
    object_id ← expect h.object_id (plain "chunk requires objectId")
    entry ← expect (find_object object_id objects) (malformed "chunk appears before metadata.")
    count ← expect h.chunk_count (malformed "chunk chunkCount does not match metadata.")
    guard (count == chunk_count entry.meta) (malformed "chunk chunkCount does not match metadata.")
    index ← expect h.chunk_index (plain "chunk requires chunkIndex")
    elim (chunk_at entry.chunks index) [
      | some _ ↦ err (malformed "chunk repeats.")
      | none ↦ ok (update_object (put_chunk entry index payload) objects)
    ]

module _ (F : MetaFormat) where
  -- The entry that a `…-meta` record makes.
  abbrev pub empty_object : String → F.Meta → ChunkedObject F.Meta
  empty_object object_id meta = record {
    object_id = object_id;
    meta = meta;
    chunks = replicate (F.chunk_count meta) none;
    total_bytes = 0;
  }

  -- The body of the cases `…-meta`, behind the check of the encoding.
  unfoldable pub add_object :
      RecordHeader
      → Result String Value
      → List (ChunkedObject F.Meta)
      → Result Thrown (List (ChunkedObject F.Meta))
  add_object h payload objects = do
    object_id ← expect h.object_id (plain "meta requires objectId")
    elim (find_object object_id objects) [
      | some _ ↦ err (malformed "Duplicate objectId.")
      | none ↦ do
        value ← lift payload
        meta ← lift (F.validate value)
        guard (leb (F.chunk_count meta) max_array_length) (plain "Invalid array length")
        ok (objects ++ empty_object object_id meta ∷ [])
    ]

-- The chunks, if all have arrived.
abbrev pub all_present : List (Option (List ℕ)) → Option (List (List ℕ))
all_present [] = some []
all_present (none ∷ cs) = none
all_present (some c ∷ cs) = elim (all_present cs) [ none ↦ none | some rest ↦ some (c ∷ rest) ]

module _ {M : Type 0} where
  pub finalize_object : ChunkedObject M → Result Thrown (ParsedObject M)
  finalize_object o = do
    chunks ← expect (all_present o.chunks) (plain "object has missing chunk data")
    ok (record {
      object_id = o.object_id;
      meta = o.meta;
      chunks = chunks;
      total_bytes = o.total_bytes;
    })

  -- finalizeChunkedObjects
  unfoldable pub finalize_chunked_objects :
      List (ChunkedObject M) → Result Thrown (List (ParsedObject M))
  unfolding finalize_object
  finalize_chunked_objects objects = traverse finalize_object objects
