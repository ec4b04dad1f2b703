-- ===== src/Pcbk/Manifest/Compare.antt =====
-- The comparison of two object lists decides whether they hold the same entries.
use mathlib.Core.List.{Perm, Permᴰ}
use mathlib.Core.List.Perm
use mathlib.Core.Logic.{∥∥₁_elim}
use mathlib.Core.Bool.{Bool-set}
use private_communication.Common.{
  ◌≡◌, ◌≢◌, ◌↔◌, inl, inr, refl, sym, suc, ap, ap₂, ◌∙◌, String, Bool, true, false, List, [], ◌∷◌,
  length, str_eq_iff, ℤ, if◌then◌else◌, ◌==◌, is_negative, arith, Bool-cases, String-cases, ltb,
  subst, All,
}
use private_communication.Pcbk.Manifest.{
  ObjectEntry, compare_entry, insert_entry, sort_entries, entry_eq, entries_eq,
  compare_object_entries,
}

-- What localeCompare is: a strict order, which tells two different texts of a kind apart. It may find
-- no difference between texts of other kinds, as it does between texts that Unicode holds equivalent.
pub record IsCollation (P : String → Type 0) (locale_compare : String → String → ℤ) : Type 0 where
  pub asym :
      (a b : String)
      → is_negative (locale_compare a b) ≡ true
      → is_negative (locale_compare b a) ≡ false
  pub apart :
      (a b : String)
      → P a
      → P b
      → a ≢ b
      → is_negative (locale_compare a b) ≡ false
      → is_negative (locale_compare b a) ≡ true
  pub trans :
      (a b c : String)
      → is_negative (locale_compare a b) ≡ true
      → is_negative (locale_compare b c) ≡ true
      → is_negative (locale_compare a c) ≡ true

-- The identifiers of the entries are of the kind.
abbrev pub AllOf : (String → Type 0) → List ObjectEntry → Type 0
AllOf P es = All (λ e. P e.object_id) es

module _ (lc : String → String → ℤ) where
  abbrev below : ObjectEntry → ObjectEntry → Bool
  below e f = is_negative (compare_entry lc e f)

  insert-perm : (e : ObjectEntry) (es : List ObjectEntry) → Perm (insert_entry lc e es) (e ∷ es)
  unfolding insert_entry
  insert-perm e [] = Perm.refl (e ∷ [])
  insert-perm e (f ∷ fs) = elim (Bool-cases (below f e)) [
    | inl h ↦ rw h (Perm.trans (Perm.cons f (insert-perm e fs)) (Perm.swap e f fs))
    | inr h ↦ rw h (Perm.refl (e ∷ f ∷ fs))
  ]

  length-insert :
      (e : ObjectEntry) (es : List ObjectEntry) → length (insert_entry lc e es) ≡ suc (length es)
  unfolding insert_entry
  length-insert e [] = refl
  length-insert e (f ∷ fs) = ground (arith, length-insert e fs)

  length-sort : (es : List ObjectEntry) → length (sort_entries lc es) ≡ length es
  unfolding sort_entries
  length-sort [] = refl
  length-sort (e ∷ es) = length-insert e (sort_entries lc es) ∙ ap suc (length-sort es)

  sort-perm : (es : List ObjectEntry) → Perm (sort_entries lc es) es
  unfolding sort_entries
  sort-perm [] = Perm.refl []
  sort-perm (e ∷ es) = Perm.trans (insert-perm e (sort_entries lc es)) (Perm.cons e (sort-perm es))

entry_eq→eq : (e f : ObjectEntry) → entry_eq e f ≡ true → e ≡ f
entry_eq→eq e f h = ground (arith, str_eq_iff e.object_id f.object_id)

entry_eq_refl : (e : ObjectEntry) → entry_eq e e ≡ true
entry_eq_refl e = ground (arith, str_eq_iff e.object_id e.object_id)

entries_eq→eq :
    (es fs : List ObjectEntry) → length es ≡ length fs → entries_eq es fs ≡ true → es ≡ fs
entries_eq→eq [] [] l h = refl
entries_eq→eq [] (f ∷ fs) l h = absurd (omega arith)
entries_eq→eq (e ∷ es) [] l h = cc
entries_eq→eq (e ∷ es) (f ∷ fs) l h = ground (arith, entry_eq→eq e f, entries_eq→eq es fs)

entries_eq_refl : (es : List ObjectEntry) → entries_eq es es ≡ true
entries_eq_refl [] = refl
entries_eq_refl (e ∷ es) = ground (arith, entry_eq_refl e, entries_eq_refl es)

abbrev number_below : ObjectEntry → ObjectEntry → Bool
number_below e f =
    if e.chunk_count == f.chunk_count then ltb e.size f.size else ltb e.chunk_count f.chunk_count

number_below_trans :
    (e f g : ObjectEntry)
    → number_below e f ≡ true
    → number_below f g ≡ true
    → number_below e g ≡ true
number_below_trans e f g h k = ground arith

length-perm : {es fs : List ObjectEntry} → Permᴰ es fs → length es ≡ length fs
length-perm Permᴰ.nil = refl
length-perm (Permᴰ.cons e p) = ap suc (length-perm p)
length-perm (Permᴰ.swap e f) = refl
length-perm (Permᴰ.trans p q) = length-perm p ∙ length-perm q

module _ (P : String → Type 0) (lc : String → String → ℤ) (law : IsCollation P lc) where
  below-asym : (e f : ObjectEntry) → below lc e f ≡ true → below lc f e ≡ false
  unfolding compare_entry
  below-asym e f h = ground (
    arith,
    str_eq_iff e.object_id f.object_id,
    str_eq_iff f.object_id e.object_id,
    law.asym e.object_id f.object_id,
  )

  below-total :
      (e f : ObjectEntry)
      → P e.object_id
      → P f.object_id
      → below lc e f ≡ false
      → below lc f e ≡ false
      → e ≡ f
  unfolding compare_entry
  below-total e f pe pf h k = ground (
    arith,
    str_eq_iff e.object_id f.object_id,
    str_eq_iff f.object_id e.object_id,
    law.apart e.object_id f.object_id pe pf,
  )

  -- Entries of one identifier compare by their numbers, others by their identifiers.
  below-same : (e f : ObjectEntry) → e.object_id ≡ f.object_id → below lc e f ≡ number_below e f
  unfolding compare_entry
  below-same e f h = ground (arith, str_eq_iff e.object_id f.object_id)

  below-differ :
      (e f : ObjectEntry)
      → e.object_id ≢ f.object_id
      → below lc e f ≡ is_negative (lc e.object_id f.object_id)
  unfolding compare_entry
  below-differ e f h = ground (arith, str_eq_iff e.object_id f.object_id)

  below_trans :
      (e f g : ObjectEntry) → below lc e f ≡ true → below lc f g ≡ true → below lc e g ≡ true
  below_trans e f g h k = elim (String-cases e.object_id f.object_id) [
    | inl a ↦ elim (String-cases f.object_id g.object_id) [
      | inl b ↦ ground (
        arith,
        below-same e f a,
        below-same f g b,
        below-same e g (a ∙ b),
        number_below_trans e f g,
      )
      | inr b ↦ ground (
        arith,
        below-differ f g b,
        below-differ e g (λ c. b (sym a ∙ c)),
        ap (λ s. lc s g.object_id) a,
      )
    ]
    | inr a ↦ elim (String-cases f.object_id g.object_id) [
      | inl b ↦
          ground (
            arith,
            below-differ e f a,
            below-differ e g (λ c. a (c ∙ sym b)),
            ap (lc e.object_id) b,
          )
      | inr b ↦ elim (String-cases e.object_id g.object_id) [
        | inl c ↦ ground (
          arith,
          below-differ e f a,
          below-differ f g b,
          ap (lc f.object_id) c,
          law.asym e.object_id f.object_id,
        )
        | inr c ↦ ground (
          arith,
          below-differ e f a,
          below-differ f g b,
          below-differ e g c,
          law.trans e.object_id f.object_id g.object_id,
        )
      ]
    ]
  ]

  insert_comm :
      (e f : ObjectEntry) (es : List ObjectEntry)
      → P e.object_id
      → P f.object_id
      → AllOf P es
      → insert_entry lc e (insert_entry lc f es) ≡ insert_entry lc f (insert_entry lc e es)
  unfolding insert_entry
  insert_comm e f [] pe pf ps = ground (arith, below-asym e f, below-total e f pe pf)
  insert_comm e f (g ∷ es) pe pf ps = ground (
    arith,
    insert_comm e f es pe pf ps.1,
    below-asym e f,
    below-total e f pe pf,
    below_trans e f g,
    below_trans f e g,
    below_trans g e f,
    below_trans g f e,
    below-asym e g,
    below-asym f g,
    below-total e g pe ps.0,
    below-total f g pf ps.0,
  )

  insert_all :
      (e : ObjectEntry) (es : List ObjectEntry)
      → P e.object_id
      → AllOf P es
      → AllOf P (insert_entry lc e es)
  unfolding insert_entry
  insert_all e [] pe ps = (pe, tt)
  insert_all e (f ∷ fs) pe ps = elim (Bool-cases (below lc f e)) [
    | inl h ↦ rw h (ps.0, insert_all e fs pe ps.1)
    | inr h ↦ rw h (pe, ps)
  ]

  sort_all : (es : List ObjectEntry) → AllOf P es → AllOf P (sort_entries lc es)
  unfolding sort_entries
  sort_all [] ps = tt
  sort_all (e ∷ es) ps = insert_all e (sort_entries lc es) ps.0 (sort_all es ps.1)

  Permᴰ-all : {es fs : List ObjectEntry} → Permᴰ es fs → AllOf P es → AllOf P fs
  Permᴰ-all Permᴰ.nil ps = tt
  Permᴰ-all (Permᴰ.cons e p) ps = (subst (λ x. P x.object_id) e ps.0, Permᴰ-all p ps.1)
  Permᴰ-all (Permᴰ.swap e f) ps =
      (subst (λ x. P x.object_id) f ps.1.0, (subst (λ x. P x.object_id) e ps.0, ps.1.1))
  Permᴰ-all (Permᴰ.trans p q) ps = Permᴰ-all q (Permᴰ-all p ps)

  sort-Permᴰ :
      {es fs : List ObjectEntry}
      → Permᴰ es fs
      → AllOf P es
      → sort_entries lc es ≡ sort_entries lc fs
  unfolding sort_entries
  sort-Permᴰ Permᴰ.nil ps = refl
  sort-Permᴰ (Permᴰ.cons e p) ps = ap₂ (insert_entry lc) e (sort-Permᴰ p ps.1)
  sort-Permᴰ (Permᴰ.swap {l = l} e f) ps =
      insert_comm _ _ (sort_entries lc l) ps.0 ps.1.0 (sort_all l ps.1.1)
      ∙ ap₂ (λ x y. insert_entry lc x (insert_entry lc y (sort_entries lc l))) f e
  sort-Permᴰ (Permᴰ.trans p q) ps = sort-Permᴰ p ps ∙ sort-Permᴰ q (Permᴰ-all p ps)

-- If the comparison of two object lists succeeds, one is a permutation of the other, whatever the
-- comparison of texts is.
pub compare_object_entries-perm :
    (lc : String → String → ℤ) (left right : List ObjectEntry)
    → compare_object_entries lc left right ≡ true
    → Perm left right
unfolding compare_object_entries
compare_object_entries-perm lc left right h =
    let same : length left ≡ length right = ground arith in
    let equal : sort_entries lc left ≡ sort_entries lc right =
      entries_eq→eq _ _ (length-sort lc left ∙ same ∙ sym (length-sort lc right)) (ground arith) in
    Perm.trans (Perm.symm (sort-perm lc left))
      (subst (λ s. Perm s right) (sym equal) (sort-perm lc right))

perm-compare :
    (P : String → Type 0) (lc : String → String → ℤ)
    → IsCollation P lc
    → {left right : List ObjectEntry} → AllOf P left
    → Permᴰ left right
    → compare_object_entries lc left right ≡ true
unfolding compare_object_entries
perm-compare P lc law {left} {right} ps p =
    let same = length-perm p in
    let equal : entries_eq (sort_entries lc left) (sort_entries lc right) ≡ true =
      rw (sort-Permᴰ P lc law p ps) (entries_eq_refl (sort_entries lc right)) in
    ground arith

-- With a comparison of texts that is a strict order and tells the texts of a kind apart, and with
-- identifiers of this kind in the first list, the comparison of two object lists succeeds exactly when
-- one is a permutation of the other. The identifiers of the second list may be of any kind.
pub compare_object_entries_iff :
    (P : String → Type 0) (lc : String → String → ℤ)
    → IsCollation P lc
    → (left right : List ObjectEntry) → AllOf P left
    → (compare_object_entries lc left right ≡ true) ↔ Perm left right
unfolding compare_object_entries
compare_object_entries_iff P lc law left right ps = (
  compare_object_entries-perm lc left right,
  λ p. ∥∥₁_elim p (Bool-set _ _) (perm-compare P lc law ps),
)
