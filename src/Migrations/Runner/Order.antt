-- ===== src/Migrations/Runner/Order.antt =====
-- The order of a pass: the core schema first, then the files by name; and the names of distinct
-- directory entries are distinct.
use across_backend_api.Prelude.{
  ◌≡◌, refl, sym, ap, ◌∙◌, inl, inr, true, false, not, ◌||◌, List, [], ◌∷◌, map, arith,
  if◌then◌else◌, Bool-cases, if_branches, All,
}
use across_backend_api.Prelude.Text.{Text, codes, text_eq, text_eq_refl, text_eq_sound, mem_text}
use across_backend_api.Migrations.Runner.{
  DirEntry, schema_sql, ext, text_leb, insert_sorted, sort_strings, sql_names, erase_first,
  load_migration_names,
}
use across_backend_api.Migrations.Runner.Pending.{Distinct}

-- Each name is at most the next one.
abbrev pub Ascending : List Text → Type 0
Ascending [] = Unit
Ascending (n ∷ ns) = All (λ m. text_leb n m ≡ true) ns × Ascending ns

text_leb_total : (s t : Text) → text_leb s t ≡ false → text_leb t s ≡ true
unfolding text_leb
text_leb_total [] t h = cc
text_leb_total (a ∷ s) [] h = refl
text_leb_total (a ∷ s) (b ∷ t) h = ground (arith, text_leb_total s t)

text_leb_trans : (s t u : Text) → text_leb s t ≡ true → text_leb t u ≡ true → text_leb s u ≡ true
unfolding text_leb
text_leb_trans [] t u h k = refl
text_leb_trans (a ∷ s) [] u h k = cc
text_leb_trans (a ∷ s) (b ∷ t) [] h k = cc
text_leb_trans (a ∷ s) (b ∷ t) (c ∷ u) h k = ground (arith, text_leb_trans s t u)

below-All :
    (s t : Text) (ts : List Text)
    → text_leb s t ≡ true
    → All (λ m. text_leb t m ≡ true) ts
    → All (λ m. text_leb s m ≡ true) ts
below-All s t [] h a = tt
below-All s t (u ∷ ts) h a = (text_leb_trans s t u h a.0, below-All s t ts h a.1)

insert_sorted-All {ℓ} :
    (P : Text → Type ℓ) (s : Text) (ts : List Text) → P s → All P ts → All P (insert_sorted s ts)
unfolding insert_sorted
insert_sorted-All P s [] h a = (h, tt)
insert_sorted-All P s (t ∷ ts) h a =
    if_branches (All P) (text_leb s t) (λ _. (h, a)) (λ _. (a.0, insert_sorted-All P s ts h a.1))

insert_sorted-Ascending :
    (s : Text) (ts : List Text) → Ascending ts → Ascending (insert_sorted s ts)
unfolding insert_sorted
insert_sorted-Ascending s [] a = (tt, tt)
insert_sorted-Ascending s (t ∷ ts) a =
    if_branches Ascending (text_leb s t) (λ h. ((h, below-All s t ts h a.0), a))
      λ h. (
        insert_sorted-All (λ m. text_leb t m ≡ true) s ts (text_leb_total s t h) a.0,
        insert_sorted-Ascending s ts a.1,
      )

sort_strings-Ascending : (ts : List Text) → Ascending (sort_strings ts)
unfolding sort_strings
sort_strings-Ascending [] = tt
sort_strings-Ascending (t ∷ ts) =
    insert_sorted-Ascending t (sort_strings ts) (sort_strings-Ascending ts)

erase_first-All {ℓ} :
    (P : Text → Type ℓ) (s : Text) (ts : List Text) → All P ts → All P (erase_first s ts)
unfolding erase_first
erase_first-All P s [] a = tt
erase_first-All P s (t ∷ ts) a =
    if_branches (All P) (text_eq t s) (λ _. a.1) (λ _. (a.0, erase_first-All P s ts a.1))

erase_first-Ascending : (s : Text) (ts : List Text) → Ascending ts → Ascending (erase_first s ts)
unfolding erase_first
erase_first-Ascending s [] a = tt
erase_first-Ascending s (t ∷ ts) a =
    if_branches Ascending (text_eq t s) (λ _. a.1)
      (λ _. (erase_first-All (λ m. text_leb t m ≡ true) s ts a.0, erase_first-Ascending s ts a.1))

-- Membership is kept by the sort, and by moving the core schema to the front.
mem_text-insert_sorted :
    (x s : Text) (ts : List Text) → mem_text x (insert_sorted s ts) ≡ (text_eq s x || mem_text x ts)
unfolding insert_sorted mem_text
mem_text-insert_sorted x s [] = refl
mem_text-insert_sorted x s (t ∷ ts) = ground (arith, mem_text-insert_sorted x s ts)

mem_text-sort_strings : (x : Text) (ts : List Text) → mem_text x (sort_strings ts) ≡ mem_text x ts
unfolding sort_strings mem_text
mem_text-sort_strings x [] = refl
mem_text-sort_strings x (t ∷ ts) =
    mem_text-insert_sorted x t (sort_strings ts)
    ∙ ap (λ b. text_eq t x || b) (mem_text-sort_strings x ts)

mem_text-erase_first :
    (x s : Text) (ts : List Text)
    → mem_text s ts ≡ true
    → (text_eq s x || mem_text x (erase_first s ts)) ≡ mem_text x ts
unfolding erase_first mem_text
mem_text-erase_first x s [] h = cc
mem_text-erase_first x s (t ∷ ts) h = ground (arith, text_eq_sound t s, mem_text-erase_first x s ts)

-- The files of a pass are the `.sql` files of the folder; the core schema comes first if it is
-- there, and the others are in ascending order.
pub load_migration_names-order :
    (entries : List DirEntry)
    → ((x : Text) → mem_text x (load_migration_names entries) ≡ mem_text x (sql_names entries))
      × ((rest : List Text) × (load_migration_names entries
            ≡ (if mem_text schema_sql (sql_names entries) then schema_sql ∷ rest else rest))
          × Ascending rest)
unfolding load_migration_names
load_migration_names-order entries =
    let names : List Text = sort_strings (sql_names entries) in
    let same : mem_text schema_sql names ≡ mem_text schema_sql (sql_names entries) =
      mem_text-sort_strings schema_sql (sql_names entries) in
    elim (Bool-cases (mem_text schema_sql names)) [
      | inl there ↦ (
        λ x. rw there (
            mem_text-erase_first x schema_sql names there
            ∙ mem_text-sort_strings x (sql_names entries)),
        (
          erase_first schema_sql names,
          rw (there, sym same ∙ there),
          erase_first-Ascending schema_sql names (sort_strings-Ascending (sql_names entries)),
        ),
      )
      | inr absent ↦ (
        λ x. rw absent (mem_text-sort_strings x (sql_names entries)),
        (names, rw (absent, sym same ∙ absent), sort_strings-Ascending (sql_names entries)),
      )
    ]

insert_sorted-Distinct :
    (s : Text) (ts : List Text)
    → mem_text s ts ≡ false
    → Distinct ts
    → Distinct (insert_sorted s ts)
unfolding insert_sorted mem_text
insert_sorted-Distinct s [] h d = (refl, tt)
insert_sorted-Distinct s (t ∷ ts) h d =
    if_branches Distinct (text_leb s t) (λ _. (h, d))
      λ _. (
        ground (arith, mem_text-insert_sorted t s ts, text_eq_sound s t, text_eq_refl t),
        insert_sorted-Distinct s ts (ground arith) d.1,
      )

sort_strings-Distinct : (ts : List Text) → Distinct ts → Distinct (sort_strings ts)
unfolding sort_strings
sort_strings-Distinct [] d = tt
sort_strings-Distinct (t ∷ ts) d =
    insert_sorted-Distinct t (sort_strings ts) (mem_text-sort_strings t ts ∙ d.0)
      (sort_strings-Distinct ts d.1)

mem_text-erase_first-false :
    (x s : Text) (ts : List Text) → mem_text x ts ≡ false → mem_text x (erase_first s ts) ≡ false
unfolding erase_first mem_text
mem_text-erase_first-false x s [] h = refl
mem_text-erase_first-false x s (t ∷ ts) h = ground (arith, mem_text-erase_first-false x s ts)

erase_first-Distinct :
    (s : Text) (ts : List Text)
    → Distinct ts
    → Distinct (erase_first s ts) × (mem_text s (erase_first s ts) ≡ false)
unfolding erase_first mem_text
erase_first-Distinct s [] d = (tt, refl)
erase_first-Distinct s (t ∷ ts) d = elim (Bool-cases (text_eq t s)) [
  | inl e ↦ rw e (d.1, ground (arith, text_eq_sound t s))
  | inr n ↦
      let (r, q) = erase_first-Distinct s ts d.1 in
      rw n ((mem_text-erase_first-false t s ts d.0, r), rw n q)
]

mem_text-sql_names :
    (x : Text) (es : List DirEntry)
    → mem_text x (map (λ e. e.name) es) ≡ false
    → mem_text x (sql_names es) ≡ false
unfolding sql_names mem_text
mem_text-sql_names x [] h = refl
mem_text-sql_names x (e ∷ es) h = ground (arith, mem_text-sql_names x es)

sql_names-Distinct :
    (es : List DirEntry) → Distinct (map (λ e. e.name) es) → Distinct (sql_names es)
unfolding sql_names
sql_names-Distinct [] d = tt
sql_names-Distinct (e ∷ es) d =
    if_branches Distinct (e.is_dir || not (text_eq (ext e.name) (codes ".sql")))
      (λ _. sql_names-Distinct es d.1)
      (λ _. (mem_text-sql_names e.name es d.0, sql_names-Distinct es d.1))

-- Distinct directory entries give a pass distinct file names.
pub load_migration_names-Distinct :
    (es : List DirEntry) → Distinct (map (λ e. e.name) es) → Distinct (load_migration_names es)
unfolding load_migration_names
load_migration_names-Distinct es d =
    let names : List Text = sort_strings (sql_names es) in
    let dn : Distinct names = sort_strings-Distinct (sql_names es) (sql_names-Distinct es d) in
    let (r, q) = erase_first-Distinct schema_sql names dn in
    if_branches Distinct (mem_text schema_sql names) (λ _. (q, r)) (λ _. dn)
