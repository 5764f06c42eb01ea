-- ===== src/Dataset/Linked.antt =====
-- The links of the tables of src/dataset/dataset.service.ts join records of the datasets that their
-- relation joins, through every operation.
pub mod Records
pub mod Tables
pub mod Runs
use documents_backend.Common.{
  ℕ, String, Bool, true, false, not, ◌&&◌, ◌≡◌, refl, sym, ◌∙◌, Option, none, some, List, [], ◌∷◌,
  ◌++◌, All, All-map, All-append, All-filter, find, find-append, find-filter, or_else, nat_eq,
  nat_eq_iff, if◌then◌else◌, arith, inl, inr, Bool-cases, Result, ok, >>=-eq-ok, throw_if-eq-ok,
}
use documents_backend.Common.Dict.{Dict}
use documents_backend.Dataset.Types.{Runtime, Value, DatasetField, DatasetRecord}
use documents_backend.Dataset.Store.{
  Dataset, Relation, Link, Store, holds, find_dataset, find_record, find_relation, save_record,
  delete_where,
}

-- The relation of a link is there, and so are its records, each in the dataset at its side.
pub record Sound {R : Runtime} (records : List (DatasetRecord R)) (relations : List Relation)
    (l : Link) : Type 0 where
  pub relation : Relation
  pub relation_there : find_relation l.relation relations ≡ some relation
  pub source : DatasetRecord R
  pub source_there : find_record l.source_record records ≡ some source
  pub source_fits : source.dataset ≡ relation.source_dataset
  pub target : DatasetRecord R
  pub target_there : find_record l.target_record records ≡ some target
  pub target_fits : target.dataset ≡ relation.target_dataset

-- A relation that is found stays the same.
abbrev pub Steady : List Relation → List Relation → Type 0
Steady old new =
    (id : ℕ) (r : Relation) → find_relation id old ≡ some r → find_relation id new ≡ some r

holds-some :
    {A : Type 0} (p : A → Bool) (o : Option A) (a : A) → o ≡ some a → holds p o ≡ true → p a ≡ true
holds-some p none a e h = cc
holds-some p (some b) a e h = let same : b ≡ a = cc in rw (← same) h

module _ {R : Runtime} where
  abbrev pub IsLinked : Store R → Type 0
  IsLinked s = All (Sound s.records s.relations) s.links

  -- A record that is found stays in its dataset.
  abbrev pub Kept : List (DatasetRecord R) → List (DatasetRecord R) → Type 0
  Kept old new =
      (id : ℕ) (x : DatasetRecord R)
      → find_record id old ≡ some x
      → (y : DatasetRecord R) × (find_record id new ≡ some y) × (y.dataset ≡ x.dataset)

  Kept-Sound :
      (old new : List (DatasetRecord R)) (relations others : List Relation) (l : Link)
      → Kept old new
      → Steady relations others
      → Sound old relations l
      → Sound new others l
  Kept-Sound old new relations others l kept steady h =
      let (source, source_there, source_same) = kept l.source_record h.source h.source_there in
      let (target, target_there, target_same) = kept l.target_record h.target h.target_there in
      record {
        relation = h.relation;
        relation_there = steady l.relation h.relation h.relation_there;
        source = source;
        source_there = source_there;
        source_fits = source_same ∙ h.source_fits;
        target = target;
        target_there = target_there;
        target_fits = target_same ∙ h.target_fits;
      }

  -- Rows that come in at the end change nothing that is found.
  pub Kept-append : (records more : List (DatasetRecord R)) → Kept records (records ++ more)
  Kept-append records more id x h =
      (x, find-append (λ r. nat_eq r.id id) records more ∙ rw h refl, refl)

  -- Tables in which what is found stays, with the same links.
  pub IsLinked-Kept :
      (s t : Store R)
      → Kept s.records t.records
      → Steady s.relations t.relations
      → t.links ≡ s.links
      → IsLinked s
      → IsLinked t
  IsLinked-Kept s t kept steady same h = rw same (
      All-map _ _ s.links
        (λ l. Kept-Sound s.records t.records s.relations t.relations l kept steady) h)

  pub delete_where-IsLinked :
      (keep_record : DatasetRecord R → Bool) (keep_relation : Relation → Bool)
      (keep_link : Link → Bool) (s : Store R)
      → IsLinked s
      → IsLinked (delete_where keep_record keep_relation keep_link s)
  unfolding delete_where
  delete_where-IsLinked keep_record keep_relation keep_link s =
      let t = delete_where keep_record keep_relation keep_link s in
      All-filter (Sound s.records s.relations) (Sound t.records t.relations) _ s.links λ l h kept.
        let relation_kept : holds keep_relation (find_relation l.relation s.relations) ≡ true =
          ground arith in
        let source_kept : holds keep_record (find_record l.source_record s.records) ≡ true =
          ground arith in
        let target_kept : holds keep_record (find_record l.target_record s.records) ≡ true =
          ground arith in
        record {
          relation = h.relation;
          source = h.source;
          target = h.target;
          source_fits = h.source_fits;
          target_fits = h.target_fits;
          relation_there =
              find-filter _ _ s.relations h.relation_there
                (holds-some keep_relation _ h.relation h.relation_there relation_kept);
          source_there =
              find-filter _ _ s.records h.source_there
                (holds-some keep_record _ h.source h.source_there source_kept);
          target_there =
              find-filter _ _ s.records h.target_there
                (holds-some keep_record _ h.target h.target_there target_kept);
        }

  -- A record that is saved where another of its number and dataset stood.
  pub save_record-Kept :
      (r : DatasetRecord R) (records : List (DatasetRecord R))
      → ((x : DatasetRecord R) → find_record r.id records ≡ some x → x.dataset ≡ r.dataset)
      → Kept records (save_record r records)
  unfolding save_record
  save_record-Kept r [] same id x h = cc
  save_record-Kept r (z ∷ records) same id x h = elim (Bool-cases (nat_eq z.id r.id)) [
    | inl t ↦ rw t (elim (Bool-cases (nat_eq z.id id)) [
      | inl u ↦
          let here : z ≡ x = ground arith in
          let fits = same z (ground arith) in
          (r, ground (arith, nat_eq_iff z.id id, nat_eq_iff z.id r.id), rw (← here) (sym fits))
      | inr u ↦ (x, ground (arith, nat_eq_iff z.id id, nat_eq_iff z.id r.id), refl)
    ])
    | inr t ↦ rw t (elim (Bool-cases (nat_eq z.id id)) [
      | inl u ↦ (x, ground arith, refl)
      | inr u ↦
          let (y, there, fits) =
            save_record-Kept r records (λ x e. same x (ground arith)) id x (ground arith) in
          (y, ground arith, fits)
    ])
  ]

  pub refl-Kept : (records : List (DatasetRecord R)) → Kept records records
  refl-Kept records id x h = (x, h, refl)

pub refl-Steady : (relations : List Relation) → Steady relations relations
refl-Steady relations id r h = h

pub Steady-append : (relations more : List Relation) → Steady relations (relations ++ more)
Steady-append relations more id r h = find-append (λ x. nat_eq x.id id) relations more ∙ rw h refl
