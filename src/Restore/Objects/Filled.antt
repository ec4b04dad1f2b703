-- ===== src/Restore/Objects/Filled.antt =====
-- A map of objects while their chunks arrive.
use private_communication.Common.{
  ℕ, zero, suc, ◌+◌, ◌<◌, ◌≡◌, refl, sym, ap, subst, ◌∙◌, String, Option, none, some, List, [], ◌∷◌,
  ◌++◌, length, set, replicate, leb, ◌==◌, ==_iff, str_eq, str_eq_iff, Result, ok, All, Bool-cases,
  inl, inr, arith, Option-cases, length-append, All-append, >>=-eq-ok, guard-eq-ok, expect-eq-ok,
  ok-injective,
}
use private_communication.Pcbk.Value.{Value}
use private_communication.Pcbk.RecordHeader.{RecordHeader}
use private_communication.Pcbk.RecordHeader.Accepted.{IsPlaced}
use private_communication.Restore.Errors.{lift}
use private_communication.Restore.Objects.{
  max_array_length, empty_object, MetaFormat, ChunkedObject, ParsedObject, find_object,
  update_object, chunk_at, put_chunk, add_chunk, add_object, all_present, finalize_object,
  finalize_chunked_objects,
}

-- The chunks that have arrived: how many they are, and their bytes.
abbrev pub arrived : List (Option (List ℕ)) → ℕ
arrived [] = 0
arrived (none ∷ cs) = arrived cs
arrived (some c ∷ cs) = 1 + arrived cs

abbrev pub arrived_bytes : List (Option (List ℕ)) → ℕ
arrived_bytes [] = 0
arrived_bytes (none ∷ cs) = arrived_bytes cs
arrived_bytes (some c ∷ cs) = length c + arrived_bytes cs

module _ {M : Type 0} where
  abbrev pub arrived_total : List (ChunkedObject M) → ℕ
  arrived_total [] = 0
  arrived_total (o ∷ os) = arrived o.chunks + arrived_total os

module _ {M : Type 0} (chunk_count : M → ℕ) where
  -- An object has one place for each chunk that it announced, and the size of those that came.
  pub record IsFilling (o : ChunkedObject M) : Type 0 where
    pub places : length o.chunks ≡ chunk_count o.meta
    pub bytes : o.total_bytes ≡ arrived_bytes o.chunks

-- `Array.from({ length })`
abbrev holes : ℕ → List (Option (List ℕ))
holes n = replicate n none

arrived-replicate :
    (n : ℕ) → (length (holes n) ≡ n) × (arrived (holes n) ≡ 0) × (arrived_bytes (holes n) ≡ 0)
arrived-replicate zero = (refl, refl, refl)
arrived-replicate (suc n) = ground (arith, arrived-replicate n)

arrived-set :
    (cs : List (Option (List ℕ))) (i : ℕ) (c : List ℕ)
    → i < length cs
    → chunk_at cs i ≡ none
    → (length (set cs i (some c)) ≡ length cs)
      × (arrived (set cs i (some c)) ≡ arrived cs + 1)
      × (arrived_bytes (set cs i (some c)) ≡ arrived_bytes cs + length c)
arrived-set [] i c h e = absurd (omega arith)
arrived-set (none ∷ cs) zero c h e = ground arith
arrived-set (some d ∷ cs) zero c h e = cc
arrived-set (none ∷ cs) (suc i) c h e = ground (arith, arrived-set cs i c)
arrived-set (some d ∷ cs) (suc i) c h e = ground (arith, arrived-set cs i c)

module _ {M : Type 0} where
  find-All :
      (P : ChunkedObject M → Type 0) (id : String) (os : List (ChunkedObject M))
      {o : ChunkedObject M}
      → All P os
      → find_object id os ≡ some o
      → P o × (o.object_id ≡ id)
  unfolding find_object
  find-All P id [] a e = cc
  find-All P id (p ∷ os) a e = elim (Bool-cases (str_eq p.object_id id)) [
    | inl h ↦
        let same : p ≡ _ = ground arith in
        (subst P same a.0, ap (λ q. q.object_id) (sym same) ∙ (str_eq_iff p.object_id id).0 h)
    | inr h ↦ find-All P id os a.1 (ground arith)
  ]

  update-All :
      (P : ChunkedObject M → Type 0) (new : ChunkedObject M) (os : List (ChunkedObject M))
      → P new
      → All P os
      → All P (update_object new os)
  unfolding update_object
  update-All P new [] p a = tt
  update-All P new (o ∷ os) p a = elim (Bool-cases (str_eq o.object_id new.object_id)) [
    | inl h ↦ rw h (p, a.1)
    | inr h ↦ rw h (a.0, update-All P new os p a.1)
  ]

  -- A write changes one entry and no key.
  update_total :
      (new old : ChunkedObject M) (os : List (ChunkedObject M))
      → find_object new.object_id os ≡ some old
      → (arrived_total (update_object new os) + arrived old.chunks
          ≡ arrived_total os + arrived new.chunks)
        × (length (update_object new os) ≡ length os)
  unfolding update_object find_object
  update_total new old [] e = cc
  update_total new old (o ∷ os) e = ground (arith, update_total new old os)

  arrived_total-append :
      (os qs : List (ChunkedObject M))
      → arrived_total (os ++ qs) ≡ arrived_total os + arrived_total qs
  arrived_total-append [] qs = omega arith
  arrived_total-append (o ∷ os) qs = omega (arith, arrived_total-append os qs)

placed_below :
    (o : Option String) (k n : Option ℕ)
    → IsPlaced o k n
    → (i count announced : ℕ) → k ≡ some i
    → n ≡ some count
    → count ≡ announced
    → i < announced
placed_below o k n p i count announced a b e = ground arith

module _ {M : Type 0} (chunk_count : M → ℕ) where
  put_chunk-IsFilling :
      (o : ChunkedObject M) (i : ℕ) (c : List ℕ)
      → IsFilling chunk_count o
      → i < chunk_count o.meta
      → chunk_at o.chunks i ≡ none
      → IsFilling chunk_count (put_chunk o i c)
        × (arrived (put_chunk o i c).chunks ≡ arrived o.chunks + 1)
  put_chunk-IsFilling o i c f h e =
      let s = arrived-set o.chunks i c (omega (arith, f.places)) e in
      (record { places = omega (arith, s.0, f.places); bytes = omega (arith, s.2, f.bytes) }, s.1)

  -- A chunk that is taken fills one place of one object.
  pub add_chunk-IsFilling :
      (h : RecordHeader) (payload : List ℕ) (objects after : List (ChunkedObject M))
      → IsPlaced h.object_id h.chunk_index h.chunk_count
      → All (IsFilling chunk_count) objects
      → add_chunk chunk_count h payload objects ≡ ok after
      → All (IsFilling chunk_count) after
        × (arrived_total after ≡ arrived_total objects + 1)
        × (length after ≡ length objects)
  unfolding add_chunk
  add_chunk-IsFilling h payload objects after placed a e =
      let (id, hid, e1) = expect-eq-ok h.object_id _ _ e in
      let (entry, found, e2) = expect-eq-ok (find_object id objects) _ _ e1 in
      let (count, hcount, e3) = expect-eq-ok h.chunk_count _ _ e2 in
      let (same, e4) = guard-eq-ok (count == chunk_count entry.meta) _ _ e3 in
      let (i, hi, e5) = expect-eq-ok h.chunk_index _ _ e4 in
      elim (Option-cases (chunk_at entry.chunks i)) [
        | inl hole ↦
            let (filling, named) = find-All (IsFilling chunk_count) id objects a found in
            let low : i < chunk_count entry.meta =
              placed_below h.object_id h.chunk_index h.chunk_count placed i count
                (chunk_count entry.meta) hi hcount
                ((==_iff count (chunk_count entry.meta)).0 same) in
            let put = put_chunk-IsFilling entry i payload filling low hole in
            let made : update_object (put_chunk entry i payload) objects ≡ after =
              ok-injective (rw hole at e5) in
            let total =
              update_total (put_chunk entry i payload) entry objects
                (subst (λ k. find_object k objects ≡ some entry) (sym named) found) in
            (
              subst (All (IsFilling chunk_count)) made
                  (update-All (IsFilling chunk_count) (put_chunk entry i payload) objects put.0 a),
              ap arrived_total (sym made) ∙ omega (arith, total.0, put.1),
              ap length (sym made) ∙ total.1,
            )
        | inr (c, full) ↦ cc (rw full at e5)
      ]

module _ (F : MetaFormat) where
  -- An object that is announced has no chunk yet.
  pub add_object-IsFilling :
      (h : RecordHeader) (payload : Result String Value)
      (objects after : List (ChunkedObject F.Meta))
      → All (IsFilling F.chunk_count) objects
      → add_object F h payload objects ≡ ok after
      → All (IsFilling F.chunk_count) after
        × (arrived_total after ≡ arrived_total objects)
        × (length after ≡ length objects + 1)
  unfolding add_object
  add_object-IsFilling h payload objects after a e =
      let (id, hid, e1) = expect-eq-ok h.object_id _ _ e in
      elim (Option-cases (find_object id objects)) [
        | inl fresh ↦
            let e2 = rw fresh at e1 in
            let (value, hv, e3) = >>=-eq-ok (lift payload) _ e2 in
            let (meta, hm, e4) = >>=-eq-ok (lift (F.validate value)) _ e3 in
            let (small, e5) = guard-eq-ok (leb (F.chunk_count meta) max_array_length) _ _ e4 in
            let holes = arrived-replicate (F.chunk_count meta) in
            let one : List (ChunkedObject F.Meta) = empty_object F id meta ∷ [] in
            let made : objects ++ one ≡ after = ok-injective e5 in
            (
              subst (All (IsFilling F.chunk_count)) made (
                  All-append (IsFilling F.chunk_count) objects one a
                    (record { places = holes.0; bytes = sym holes.2 }, tt)),
              ap arrived_total (sym made)
                  ∙ arrived_total-append objects one
                  ∙ omega (arith, holes.1),
              ap length (sym made) ∙ length-append objects one,
            )
        | inr (o, taken) ↦ cc (rw taken at e1)
      ]

-- The bytes of all chunks.
abbrev pub byte_total : List (List ℕ) → ℕ
byte_total [] = 0
byte_total (c ∷ cs) = length c + byte_total cs

all_present-arrived :
    (cs : List (Option (List ℕ))) (ds : List (List ℕ))
    → all_present cs ≡ some ds
    → (length ds ≡ length cs) × (arrived cs ≡ length cs) × (byte_total ds ≡ arrived_bytes cs)
all_present-arrived [] ds e = ground arith
all_present-arrived (none ∷ cs) ds e = cc
all_present-arrived (some c ∷ cs) ds e = elim (Option-cases (all_present cs)) [
  | inl h ↦ cc (rw h at e)
  | inr (rest, h) ↦ ground (arith, all_present-arrived cs rest h, rw h at e)
]

module _ {M : Type 0} (chunk_count : M → ℕ) where
  -- A finished object: all the chunks that its metadata announce, and their size.
  pub record IsWhole (p : ParsedObject M) : Type 0 where
    pub chunks : length p.chunks ≡ chunk_count p.meta
    pub bytes : p.total_bytes ≡ byte_total p.chunks

  abbrev pub announced : List (ParsedObject M) → ℕ
  announced [] = 0
  announced (p ∷ ps) = chunk_count p.meta + announced ps

  finalize_object-IsWhole :
      (o : ChunkedObject M) (p : ParsedObject M)
      → IsFilling chunk_count o
      → finalize_object o ≡ ok p
      → IsWhole p × (arrived o.chunks ≡ chunk_count p.meta)
  unfolding finalize_object
  finalize_object-IsWhole o p f e =
      let (chunks, present, e1) = expect-eq-ok (all_present o.chunks) _ _ e in
      let a = all_present-arrived o.chunks chunks present in ground (arith, a, f)

  pub finalize-IsWhole :
      (os : List (ChunkedObject M)) (ps : List (ParsedObject M))
      → All (IsFilling chunk_count) os
      → finalize_chunked_objects os ≡ ok ps
      → All IsWhole ps × (length ps ≡ length os) × (arrived_total os ≡ announced ps)
  unfolding finalize_chunked_objects
  finalize-IsWhole [] ps a e = ground arith
  finalize-IsWhole (o ∷ os) ps a e =
      let (p, hp, e1) = >>=-eq-ok (finalize_object o) _ e in
      let (qs, hqs, e2) = >>=-eq-ok (finalize_chunked_objects os) _ e1 in
      let (whole, n) = finalize_object-IsWhole o p a.0 hp in
      let rest = finalize-IsWhole os qs a.1 hqs in
      let made : p ∷ qs ≡ ps = ok-injective e2 in
      (
        subst (All IsWhole) made (whole, rest.0),
        ap length (sym made) ∙ ap suc rest.1,
        omega (arith, n, rest.2) ∙ ap announced made,
      )
