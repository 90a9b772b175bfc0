-- ===== src/Storage/Capability/Sorting.antt =====
-- Sorting texts, as in `signing_fields` of crates/canopee-storage/src/capability.rs, forgets the
-- order in which they came.
use mathlib.Core.List.{Perm, Permᴰ}
use mathlib.Core.List.Perm
use mathlib.Core.Logic.{∥∥₁_elim}
use canopee.Prelude.{Text, true, false, ◌≡◌, refl, ◌∙◌, List, [], ◌∷◌, arith, Bool-cases, inl, inr}
use canopee.Storage.Capability.{text_le, insert_text, sort_texts}

text_le_total : (s t : Text) → text_le s t ≡ false → text_le t s ≡ true
unfolding text_le
text_le_total [] t h = ground arith
text_le_total (x ∷ s) [] h = refl
text_le_total (x ∷ s) (y ∷ t) h = ground (arith, text_le_total s t)

text_le_antisymm : (s t : Text) → text_le s t ≡ true → text_le t s ≡ true → s ≡ t
unfolding text_le
text_le_antisymm [] [] h k = refl
text_le_antisymm [] (y ∷ t) h k = ground arith
text_le_antisymm (x ∷ s) [] h k = ground arith
text_le_antisymm (x ∷ s) (y ∷ t) h k = ground (arith, text_le_antisymm s t)

text_le_trans : (s t u : Text) → text_le s t ≡ true → text_le t u ≡ true → text_le s u ≡ true
unfolding text_le
text_le_trans [] t u h k = refl
text_le_trans (x ∷ s) [] u h k = ground arith
text_le_trans (x ∷ s) (y ∷ t) [] h k = ground arith
text_le_trans (x ∷ s) (y ∷ t) (z ∷ u) h k = ground (arith, text_le_trans s t u)

insert_text_comm :
    (a b : Text) (l : List Text) → insert_text a (insert_text b l) ≡ insert_text b (insert_text a l)
unfolding insert_text
insert_text_comm a b [] = ground (arith, text_le_total a b, text_le_total b a, text_le_antisymm a b)
insert_text_comm a b (x ∷ l) = ground (
  arith,
  text_le_total a b,
  text_le_total b a,
  text_le_antisymm a b,
  text_le_total a x,
  text_le_total b x,
  text_le_trans a b x,
  text_le_trans b a x,
  insert_text_comm a b l,
)

sort_texts-permᴰ : {l m : List Text} → Permᴰ l m → sort_texts l ≡ sort_texts m
unfolding sort_texts
sort_texts-permᴰ Permᴰ.nil = refl
sort_texts-permᴰ (Permᴰ.cons {l₁ = l} {l₂ = m} e h) = cc (e, sort_texts-permᴰ h)
sort_texts-permᴰ (Permᴰ.swap {a = a} {b = b} {l = l} e e') =
    cc (e, e', insert_text_comm a b (sort_texts l))
sort_texts-permᴰ (Permᴰ.trans h k) = sort_texts-permᴰ h ∙ sort_texts-permᴰ k

texts-set : IsSet (List Text)
texts-set = hlevel

pub sort_texts-perm : {l m : List Text} → Perm l m → sort_texts l ≡ sort_texts m
sort_texts-perm {l} {m} h = ∥∥₁_elim h (texts-set (sort_texts l) (sort_texts m)) sort_texts-permᴰ

insert_text-perm : (s : Text) (l : List Text) → Perm (insert_text s l) (s ∷ l)
unfolding insert_text
insert_text-perm s [] = Perm.rfl
insert_text-perm s (t ∷ l) = elim (Bool-cases (text_le s t)) [
  | inl e ↦ rw (e) (Perm.refl (s ∷ t ∷ l))
  | inr e ↦
      let swapped : Perm (t ∷ insert_text s l) (s ∷ t ∷ l) =
        Perm.trans (Perm.cons t (insert_text-perm s l)) (Perm.swap s t l) in
      rw (e) swapped
]

-- Sorting only reorders.
pub perm-sort_texts : (l : List Text) → Perm (sort_texts l) l
unfolding sort_texts
perm-sort_texts [] = Perm.rfl
perm-sort_texts (s ∷ l) =
    Perm.trans (insert_text-perm s (sort_texts l)) (Perm.cons s (perm-sort_texts l))
