-- ===== src/Iconindex/Build/Stamps.antt =====
-- The recorded timestamps after a build.
use mathlib.Core.List.{map}
use iconify_cli.Base.{
  ℕ, ◌≡◌, refl, ap, ◌∙◌, ◌⊎◌, inl, inr, Bool, true, false, some, List, [], ◌∷◌, arith,
  if◌then◌else◌, All, All-map, keep, Bool-cases,
}
use iconify_cli.Base.Strings.{Str, str_eq_iff, str_eq_refl, has}
use iconify_cli.Base.Dict.{Dict, lookup}
use iconify_cli.Iconindex.Collection.{CollectionPayload}
use iconify_cli.Iconindex.Db.{SetInfo, SetRow, Db}
use iconify_cli.Iconindex.Replace.{set_last_modified}
use iconify_cli.Iconindex.Replace.Frame.{stamp, has_set, sets-replaced, stamp-replaced}
use iconify_cli.Iconindex.Replace.Sets.{upserted, set_prefixes, has_set-upsert_rows}
use iconify_cli.Iconindex.Build.{Fetched, job, Arrival, Progress, fetch, or_zero}
use iconify_cli.Iconindex.Build.Loop.{Refreshes, Fails, has-append, prefixes}

-- What holds of an arrival: its set has a row, and its timestamp is the upstream one.
pub record IsDated (last_mod : Dict ℕ) (rows : List SetRow) (a : Arrival) : Type 0 where
  pub lm : a.lm ≡ or_zero (lookup a.prefix last_mod)
  pub present : has_set a.prefix rows ≡ true

-- The sets refreshed so far have the upstream timestamp, the others that of `rows`.
pub record Stamped (last_mod : Dict ℕ) (rows : List SetRow) (p : Progress) : Type 0 where
  pub stamped :
      (q : Str)
      → stamp q p.db.icon_sets
        ≡ (if has q p.result.refreshed then some (or_zero (lookup q last_mod)) else stamp q rows)
  pub sets : (q : Str) → has_set q p.db.icon_sets ≡ has_set q rows

has_set-map :
    (lm : ℕ) (p q : Str) (rows : List SetRow)
    → has_set q (map (set_last_modified lm p) rows) ≡ has_set q rows
unfolding has_set set_last_modified
has_set-map lm p q [] = refl
has_set-map lm p q (r ∷ rows) = ground (arith, has_set-map lm p q rows)

module _ (last_mod : Dict ℕ) (rows : List SetRow) (now : ℕ) where
  pub Stamped-write :
      (a : Arrival) (p q : Progress)
      → IsDated last_mod rows a
      → Refreshes now a p q
      → Stamped last_mod rows p
      → Stamped last_mod rows q
  unfolding has
  Stamped-write a p q d w h = record {
    stamped = λ k.
        ap (λ (d : Db). stamp k d.icon_sets) w.db
        ∙ (stamp-replaced now a.prefix w.rows a.lm p.db k
            ∙ ground (
              arith,
              h.stamped k,
              h.sets a.prefix,
              d.lm,
              d.present,
              w.refreshed,
              has-append k p.result.refreshed (a.prefix ∷ []),
              str_eq_iff k a.prefix,
            ));
    sets = λ k.
        ap (λ (d : Db). has_set k d.icon_sets) w.db
        ∙ (ap (has_set k) (sets-replaced now a.prefix w.rows a.lm p.db)
            ∙ (has_set-map a.lm a.prefix k p.db.icon_sets ∙ h.sets k));
  }

  pub Stamped-fail :
      (a : Arrival) (p q : Progress)
      → IsDated last_mod rows a
      → Fails a p q
      → Stamped last_mod rows p
      → Stamped last_mod rows q
  Stamped-fail a p q d w h = record {
    stamped = λ k. rw (w.db, w.refreshed) (h.stamped k);
    sets = λ k. rw w.db (h.sets k);
  }

-- Every fetched set has been written to icon_sets before.
pub fetch-IsDated :
    (last_mod : Dict ℕ) (rows : List SetRow) (collection : Str → Fetched CollectionPayload)
    (f : SetInfo → Bool) (sets : List SetInfo)
    → All (λ s. has_set s.prefix rows ≡ true) sets
    → All (IsDated last_mod rows) (map (fetch collection) (map (job last_mod) (keep f sets)))
unfolding fetch job
fetch-IsDated last_mod rows collection f [] h = tt
fetch-IsDated last_mod rows collection f (s ∷ sets) h =
    let rest = fetch-IsDated last_mod rows collection f sets h.1 in
    elim (Bool-cases (f s)) [
      | inl e ↦ rw e (record { lm = refl; present = h.0 }, rest)
      | inr e ↦ rw e rest
    ]

-- Each set is current, or among the fetched.
abbrev Covered :
    Dict ℕ → (Str → Fetched CollectionPayload) → (SetInfo → Bool) → List SetInfo → SetInfo → Type 0
Covered last_mod collection f sets s =
    (f s ≡ false)
    ⊎ (has s.prefix (prefixes (map (fetch collection) (map (job last_mod) (keep f sets)))) ≡ true)

pub All-Covered :
    (last_mod : Dict ℕ) (collection : Str → Fetched CollectionPayload) (f : SetInfo → Bool)
    (sets : List SetInfo)
    → All (Covered last_mod collection f sets) sets
unfolding prefixes has fetch job
All-Covered last_mod collection f [] = tt
All-Covered last_mod collection f (s ∷ sets) =
    let rest = All-Covered last_mod collection f sets in
    elim (Bool-cases (f s)) [
      | inl e ↦ (
        inr (rw e (ground (arith, str_eq_refl s.prefix))),
        All-map _ _ (λ t c. elim c [ inl o ↦ inl o | inr o ↦ inr (rw e (ground (arith, o))) ]) sets
            rest,
      )
      | inr e ↦
          (inl e, All-map _ _ (λ t c. elim c [ inl o ↦ inl o | inr o ↦ inr (rw e o) ]) sets rest)
    ]

listed : (sets : List SetInfo) → All (λ s. has s.prefix (set_prefixes sets) ≡ true) sets
unfolding set_prefixes has
listed [] = tt
listed (s ∷ sets) = (
  ground (arith, str_eq_refl s.prefix),
  All-map _ _ (λ t h. ground (arith, h)) sets (listed sets),
)

-- The sets that have been written have rows.
pub sets_present :
    (now : ℕ) (sets : List SetInfo) (db : Db)
    → All (λ s. has_set s.prefix (upserted now sets db).icon_sets ≡ true) sets
unfolding upserted
sets_present now sets db =
    All-map _ _ (λ s h. has_set-upsert_rows now sets s.prefix db.icon_sets ∙ ground (arith, h)) sets
      (listed sets)
