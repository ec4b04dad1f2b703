-- ===== src/Backend/Attachments/Chunks.antt =====
-- The chunks of an attachment, in backend/src/routes/attachments.ts and services/attachments.ts.
use native.Mathlib.Nat.{
  suc-mul, lt-div-mul-add, div-mul-le_self, mul-le-mul_right, le-div_iff_mul-le,
}
use private_communication.Common.{
  ap, ◌∙◌, ltb→lt, ℕ, zero, suc, ◌+◌, ◌-◌, ◌*◌, ◌/◌, ◌≤◌, ◌<◌, ◌≡◌, ◌≢◌, refl, inl, inr, max, min,
  Bool, true, false, ◌||◌, List, [], ◌∷◌, ◌++◌, length, ltb, ◌==◌, ==_iff, if◌then◌else◌, arith,
  Bool-cases,
}

abbrev pub encrypted_chunk_overhead_bytes : ℕ
encrypted_chunk_overhead_bytes = 16

-- `Math.max(1, Math.ceil(totalSize / chunkSize))`
unfoldable pub get_expected_chunk_count : ℕ → ℕ → ℕ
get_expected_chunk_count total_size chunk_size =
    max 1 ((total_size + (chunk_size - 1)) / chunk_size)

-- A difference below zero is raised to zero, where subtraction on ℕ stops.
unfoldable pub get_expected_plaintext_chunk_size : ℕ → ℕ → ℕ → ℕ
get_expected_plaintext_chunk_size total_size chunk_size chunk_index =
    min chunk_size (total_size - chunk_index * chunk_size)

unfoldable pub get_expected_encrypted_chunk_size : ℕ → ℕ → ℕ → ℕ
get_expected_encrypted_chunk_size total_size chunk_size chunk_index =
    get_expected_plaintext_chunk_size total_size chunk_size chunk_index
    + encrypted_chunk_overhead_bytes

-- `receivedChunks.includes(chunkIndex)`
unfoldable pub includes : List ℕ → ℕ → Bool
includes [] i = false
includes (x ∷ xs) i = x == i || includes xs i

-- `sort((a, b) => a - b)`, by insertion: sorting numbers has one result.
unfoldable pub insert_sorted : ℕ → List ℕ → List ℕ
insert_sorted i [] = i ∷ []
insert_sorted i (x ∷ xs) = if ltb i x then i ∷ x ∷ xs else x ∷ insert_sorted i xs

unfoldable pub sort_numbers : List ℕ → List ℕ
sort_numbers [] = []
sort_numbers (x ∷ xs) = insert_sorted x (sort_numbers xs)

-- The received chunks that markUploadChunkReceived leaves.
unfoldable pub mark_received : ℕ → List ℕ → List ℕ
mark_received i xs = if includes xs i then xs else sort_numbers (xs ++ (i ∷ []))

-- The first `n` chunks' sizes together.
unfoldable pub total_of_chunks : ℕ → ℕ → ℕ → ℕ
total_of_chunks total_size chunk_size zero = 0
total_of_chunks total_size chunk_size (suc n) =
    total_of_chunks total_size chunk_size n
    + get_expected_plaintext_chunk_size total_size chunk_size n

total_of_first :
    (total_size chunk_size n : ℕ)
    → total_of_chunks total_size chunk_size n ≡ min (n * chunk_size) total_size
unfolding total_of_chunks get_expected_plaintext_chunk_size
total_of_first total_size chunk_size zero = omega arith
total_of_first total_size chunk_size (suc n) =
    let before = total_of_first total_size chunk_size n in
    let next = suc-mul n chunk_size in rw before (ground (arith, next))

-- Numbers from `a` on, each larger than the one before it, all below `n`.
abbrev pub IsRising : ℕ → ℕ → List ℕ → Type 0
IsRising a n [] = Unit {0}
IsRising a n (x ∷ xs) = (a ≤ x) × (x < n) × IsRising (suc x) n xs

rising_length : (a n : ℕ) (xs : List ℕ) → a ≤ n → IsRising a n xs → length xs ≤ n - a
rising_length a n [] l h = omega arith
rising_length a n (x ∷ xs) l h =
    let rest = rising_length (suc x) n xs (omega arith) h.2 in omega arith

rising_full :
    (a n : ℕ) (xs : List ℕ) (i : ℕ)
    → IsRising a n xs
    → n - a ≤ length xs
    → a ≤ i
    → i < n
    → includes xs i ≡ true
unfolding includes
rising_full a n [] i h l p q = absurd (omega arith)
rising_full a n (x ∷ xs) i h l p q =
    let most = rising_length (suc x) n xs (omega arith) h.2 in
    elim (Bool-cases (x == i)) [
      | inl e ↦ rw e refl
      | inr f ↦
          let apart : x ≢ i = λ (e : x ≡ i). cc ((==_iff x i).1 e, f) in
          rw f (rising_full (suc x) n xs i h.2 (omega arith) (omega arith) q)
    ]

includes-insert_sorted : (i : ℕ) (xs : List ℕ) → includes (insert_sorted i xs) i ≡ true
unfolding insert_sorted includes
includes-insert_sorted i [] = ground arith
includes-insert_sorted i (x ∷ xs) = ground (arith, includes-insert_sorted i xs)

at_least_one :
    (total_size chunk_size : ℕ)
    → 0 < total_size
    → 0 < chunk_size
    → 1 ≤ (total_size + (chunk_size - 1)) / chunk_size
at_least_one total_size chunk_size t c =
    (le-div_iff_mul-le {k = chunk_size} {x = 1} {y = total_size + (chunk_size - 1)} c).1
      (omega arith)

IsRising-insert :
    (a n i : ℕ) (xs : List ℕ)
    → IsRising a n xs
    → a ≤ i
    → i < n
    → includes xs i ≡ false
    → IsRising a n (insert_sorted i xs)
unfolding insert_sorted includes
IsRising-insert a n i [] h p q f = (p, q, tt)
IsRising-insert a n i (x ∷ xs) h p q f = elim (Bool-cases (ltb i x)) [
  | inl t ↦ rw t (p, q, (ltb→lt i x t, h.1, h.2))
  | inr g ↦
      let other : includes xs i ≡ false = ground arith in
      let above : suc x ≤ i = ground arith in
      rw g (h.0, h.1, IsRising-insert (suc x) n i xs h.2 above q other)
]

insert_below : (x n : ℕ) (xs : List ℕ) → IsRising (suc x) n xs → insert_sorted x xs ≡ x ∷ xs
unfolding insert_sorted
insert_below x n [] h = refl
insert_below x n (y ∷ xs) h = ground arith

IsRising-weaken : (a b n : ℕ) (xs : List ℕ) → a ≤ b → IsRising b n xs → IsRising a n xs
IsRising-weaken a b n [] l h = tt
IsRising-weaken a b n (x ∷ xs) l h = (omega arith, h.1, h.2)

-- Sorting a rising list with one more number at its end puts the number into its place.
sort_last :
    (a n i : ℕ) (xs : List ℕ)
    → IsRising a n xs
    → i < n
    → includes xs i ≡ false
    → sort_numbers (xs ++ (i ∷ [])) ≡ insert_sorted i xs
unfolding sort_numbers insert_sorted includes
sort_last a n i [] h l f = refl
sort_last a n i (x ∷ xs) h l f =
    let other : includes xs i ≡ false = ground arith in
    rw (sort_last (suc x) n i xs h.2 l other) (elim (Bool-cases (ltb i x)) [
      | inl t ↦
          let first =
            insert_below i n xs (IsRising-weaken (suc i) (suc x) n xs (ground arith) h.2) in
          let second = insert_below x n xs h.2 in rw (t, first) (ground (arith, second))
      | inr g ↦
          let above : suc x ≤ i = ground arith in
          rw g (
            insert_below x n (insert_sorted i xs)
              (IsRising-insert (suc x) n i xs h.2 above l other))
    ])

-- The received chunks of an upload: in rising order, and below the number of its chunks.
abbrev pub IsReceived : ℕ → List ℕ → Type 0
IsReceived n xs = IsRising 0 n xs

-- Marking a chunk of the upload keeps the received chunks in rising order without repetition, whether
-- the chunk was received before or not, and it is among them afterwards.
pub mark_received-IsReceived :
    (n i : ℕ) (xs : List ℕ)
    → i < n
    → IsReceived n xs
    → IsReceived n (mark_received i xs) × (includes (mark_received i xs) i ≡ true)
unfolding mark_received
mark_received-IsReceived n i xs l h = elim (Bool-cases (includes xs i)) [
  | inl t ↦ rw t (h, t)
  | inr f ↦ rw f (
      rw (sort_last 0 n i xs h l f)
        (IsRising-insert 0 n i xs h (omega arith) l f, includes-insert_sorted i xs))
]

-- Where as many chunks are received as the upload has, every chunk is received.
pub received_all :
    (n i : ℕ) (xs : List ℕ) → IsReceived n xs → n ≤ length xs → i < n → includes xs i ≡ true
received_all n i xs h l q = rising_full 0 n xs i h (omega arith) (omega arith) q

-- The chunks of an attachment that is not empty are its bytes: the sizes that the server expects of
-- them add up to the size of the attachment, and each chunk has at least one byte and no more than the
-- chunk size.
pub chunks_add_up :
    (total_size chunk_size : ℕ)
    → 0 < total_size
    → 0 < chunk_size
    → (total_of_chunks total_size chunk_size (get_expected_chunk_count total_size chunk_size)
        ≡ total_size)
      × ((i : ℕ)
          → i < get_expected_chunk_count total_size chunk_size
          → (1 ≤ get_expected_plaintext_chunk_size total_size chunk_size i)
            × (get_expected_plaintext_chunk_size total_size chunk_size i ≤ chunk_size))
unfolding get_expected_chunk_count get_expected_plaintext_chunk_size
chunks_add_up total_size chunk_size t c =
    let q = (total_size + (chunk_size - 1)) / chunk_size in
    let over = lt-div-mul-add {a = total_size + (chunk_size - 1)} c in
    let under = div-mul-le_self (total_size + (chunk_size - 1)) chunk_size in
    let some_chunk = at_least_one total_size chunk_size t c in
    (
      total_of_first total_size chunk_size (max 1 q)
          ∙ ap (λ k. min (k * chunk_size) total_size) {y = q} (omega arith)
          ∙ omega arith,
      λ i h.
          let upto = mul-le-mul_right {m = suc i} {n = q} chunk_size (omega arith) in
          let next = suc-mul i chunk_size in (omega arith, omega arith),
    )
