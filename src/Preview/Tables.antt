-- ===== src/Preview/Tables.antt =====
-- The rows of links: the unique indices as an invariant, and what finds a live link by its name.
use lapdev.Base.{
  ◌≡◌, refl, ap, ◌∙◌, String, Bool, true, false, not, Bool-cases, inl, inr, Option, none, some,
  List, [], ◌∷◌, arith, ◌==◌, nat_key, string_key, option_key, nat_eq_iff, if◌then◌else◌, select,
  find, any,
}
use lapdev.Base.Map.{map_some}
use lapdev.Preview.{
  Uuid, Time, PreviewUrl, clash, has_id, has_name, is_live, insert_row, update_row, others,
  write_found, find_preview_url_by_name,
}

-- No two rows clash.
abbrev pub IsValid : List PreviewUrl → Type 0
IsValid [] = Unit
IsValid (row ∷ rows) = (any (clash row) rows ≡ false) × IsValid rows

pub any-find {ℓ} :
    {A : Type ℓ} (p q : A → Bool) (xs : List A) (x : A)
    → any p xs ≡ false
    → find q xs ≡ some x
    → p x ≡ false
any-find p q [] x h found = cc
any-find p q (y ∷ ys) x h found = ground (arith, any-find p q ys x)

pub find-holds {ℓ} :
    {A : Type ℓ} (q : A → Bool) (xs : List A) (x : A) → find q xs ≡ some x → q x ≡ true
find-holds q [] x found = cc
find-holds q (y ∷ ys) x found = ground (arith, find-holds q ys x)

any-select {ℓ} :
    {A : Type ℓ} (p q : A → Bool) (xs : List A) → any p xs ≡ false → any p (select q xs) ≡ false
any-select p q [] h = refl
any-select p q (y ∷ ys) h = ground (arith, any-select p q ys)

select-IsValid :
    (q : PreviewUrl → Bool) (rows : List PreviewUrl) → IsValid rows → IsValid (select q rows)
select-IsValid q [] v = tt
select-IsValid q (row ∷ rows) v =
    ground (arith, select-IsValid q rows v.1, any-select (clash row) q rows v.0)

pub insert_row-IsValid :
    (row : PreviewUrl) (rows : List PreviewUrl) {after : List PreviewUrl}
    → IsValid rows
    → insert_row row rows ≡ some after
    → IsValid after
unfolding insert_row
insert_row-IsValid row rows v h = ground arith

write_found-IsValid :
    (f : PreviewUrl → PreviewUrl) (rest : List PreviewUrl) (found : Option PreviewUrl)
    {after : List PreviewUrl}
    → IsValid rest
    → write_found f rest found ≡ some after
    → IsValid after
unfolding write_found
write_found-IsValid f rest none v h = cc
write_found-IsValid f rest (some row) v h = ground arith

pub update_row-IsValid :
    (id : Uuid) (f : PreviewUrl → PreviewUrl) (rows : List PreviewUrl) {after : List PreviewUrl}
    → IsValid rows
    → update_row id f rows ≡ some after
    → IsValid after
unfolding update_row
update_row-IsValid id f rows v h =
    write_found-IsValid f (others id rows) (find (has_id id) rows)
      (select-IsValid (λ row. not (has_id id row)) rows v) h

find-others :
    (id j : Uuid) (rows : List PreviewUrl)
    → (j == id) ≡ false
    → find (has_id id) (others j rows) ≡ find (has_id id) rows
find-others id j [] h = refl
find-others id j (row ∷ rows) h =
    ground
      (arith, find-others id j rows h, nat_eq_iff row.id j, nat_eq_iff row.id id, nat_eq_iff j id)

write_found-find :
    (id j : Uuid) (f : PreviewUrl → PreviewUrl) (rest : List PreviewUrl) (found : Option PreviewUrl)
    {after : List PreviewUrl}
    → ((row : PreviewUrl) → (f row).id ≡ row.id)
    → ((row : PreviewUrl) → found ≡ some row → has_id j row ≡ true)
    → write_found f rest found ≡ some after
    → find (has_id id) after ≡ (if j == id then map_some f found else find (has_id id) rest)
unfolding write_found
write_found-find id j f rest none keeps is_j h = cc
write_found-find id j f rest (some row) keeps is_j h =
    ground (arith, keeps row, is_j row refl, nat_eq_iff row.id j, nat_eq_iff row.id id)

-- What is found by a key after an update.
pub find-update_row :
    (id j : Uuid) (f : PreviewUrl → PreviewUrl) (rows : List PreviewUrl) {after : List PreviewUrl}
    → ((row : PreviewUrl) → (f row).id ≡ row.id)
    → update_row j f rows ≡ some after
    → find (has_id id) after
      ≡ (if j == id then map_some f (find (has_id id) rows) else find (has_id id) rows)
unfolding update_row
find-update_row id j f rows keeps h =
    let found =
      write_found-find id j f (others j rows) (find (has_id j) rows) keeps
        (λ row e. find-holds (has_id j) rows row e) h in
    elim (Bool-cases (j == id)) [
      | inl here ↦
          let same : j ≡ id = (nat_eq_iff j id).0 here in
          rw here (rw here at found ∙ ap (λ k. map_some f (find (has_id k) rows)) same)
      | inr other ↦ rw other (rw other at found ∙ find-others id j rows other)
    ]

live_same : (d e : Option Time) → is_live d ≡ true → is_live e ≡ true → (d == e) ≡ true
live_same none none h k = refl
live_same none (some t) h k = cc
live_same (some t) e h k = cc

name_same : (n a b : String) → (a == n) ≡ true → (b == n) ≡ true → (a == b) ≡ true
name_same n a b h k =
    ground (arith, string_key.same_iff a n, string_key.same_iff b n, string_key.same_iff a b)

apart_name :
    (name : String) (r row : PreviewUrl)
    → clash r row ≡ false
    → has_name name row ≡ true
    → has_name name r ≡ false
apart_name name r row apart named = elim (Bool-cases (has_name name r)) [
  | inr other ↦ other
  | inl both ↦
      absurd (ground (arith, live_same r.deleted_at row.deleted_at, name_same name r.name row.name))
]

-- In a valid table the live row with a name is the one that is found by it.
pub find-live :
    (name : String) (rows : List PreviewUrl) (row : PreviewUrl)
    → IsValid rows
    → find (has_id row.id) rows ≡ some row
    → has_name name row ≡ true
    → find_preview_url_by_name name rows ≡ some row
unfolding find_preview_url_by_name
find-live name [] row v found named = cc
find-live name (r ∷ rows) row v found named = elim (Bool-cases (has_id row.id r)) [
  | inl here ↦ let same : r ≡ row = ground arith in rw (same, named)
  | inr elsewhere ↦
      let behind : find (has_id row.id) rows ≡ some row = ground arith in
      let apart : clash r row ≡ false = any-find (clash r) (has_id row.id) rows row v.0 behind in
      let other : has_name name r ≡ false = apart_name name r row apart named in
      rw other (find-live name rows row v.1 behind named)
]
