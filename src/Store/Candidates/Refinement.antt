-- ===== src/Store/Candidates/Refinement.antt =====
-- The calls follow the state machine, and a tombstone stays.
use iconify_cli.Base.{
  ℕ, ◌≡◌, refl, sym, ap, ◌∙◌, subst, Bool, true, false, Option, none, some, List, [], ◌∷◌, arith,
  All, map, some-inj,
}
use iconify_cli.Base.Strings.{Str}
use iconify_cli.Store.Db.{
  Class, flag_alias, playbook_candidate, Status, opened, confirmed, rejected, expired, CandidateRow,
  Db, Faults,
}
use iconify_cli.Store.Candidates.{
  is_rejected, reopened, find_signature, new_row, bumped, reject_error, reject_error_of, is_purged,
}
use iconify_cli.Store.Candidates.Rows.{IsKeyed}
use iconify_cli.Store.Candidates.Machine.{
  Op, purge, run, run_all, state_of, state, derives, rejects, purges_tombstones, kind_of, Step,
  stays, appears, reopens, is_confirmed, rejected_open, rejected_expired, rejected_confirmed,
  expires_open, purged_expired, purged_confirmed, purged_too, purged_tombstone, Steps, none_left,
  one_more,
}
use iconify_cli.Store.Candidates.Changes.{Change}
use iconify_cli.Store.Candidates.Runs.{run-Changes}

Step-reopened : (c : Class) (s : Status) → Step derives (some (c, s)) (some (c, reopened s))
Step-reopened c opened = stays derives (some (c, opened))
Step-reopened c confirmed = stays derives (some (c, confirmed))
Step-reopened c rejected = stays derives (some (c, rejected))
Step-reopened c expired = reopens c

Step-rejected :
    (id : ℕ) (c : Class) (s : Status)
    → reject_error_of id c s ≡ none
    → Step rejects (some (c, s)) (some (c, rejected))
unfolding reject_error_of
Step-rejected id c opened h = rejected_open c
Step-rejected id c rejected h = absurd (cc)
Step-rejected id c expired h = rejected_expired c
Step-rejected id flag_alias confirmed h = absurd (cc)
Step-rejected id playbook_candidate confirmed h = rejected_confirmed

Step-purged :
    (t : Bool) (c : Class) (s : Status)
    → is_purged t s ≡ true
    → Step (kind_of (purge t)) (some (c, s)) none
unfolding is_purged
Step-purged t c opened h = absurd (cc)
Step-purged true c rejected h = purged_tombstone c
Step-purged false c rejected h = absurd (cc)
Step-purged true c confirmed h = purged_too (purged_confirmed c)
Step-purged false c confirmed h = purged_confirmed c
Step-purged true c expired h = purged_too (purged_expired c)
Step-purged false c expired h = purged_expired c

state_of-bumped :
    (now : ℕ) (r : CandidateRow)
    → state_of (some (bumped now r)) ≡ some (r.class, reopened r.status)
unfolding bumped
state_of-bumped now r = ground arith

-- A change of the row is a move of the state.
Change-Step :
    (op : Op) (a b : Option CandidateRow)
    → Change op a b
    → Step (kind_of op) (state_of a) (state_of b)
Change-Step op a b (Change.same e) = simp e (stays (kind_of op) (state_of a))
Change-Step op a b (Change.appears c s o e f) = simp (o, e, f) (unfold new_row in appears c)
Change-Step op a b (Change.recurs s r o e f) =
    simp (o, e, f) (simp (state_of-bumped s.now r) (Step-reopened r.class r.status))
Change-Step op a b (Change.gets_confirmed now r o e f g) =
    simp (o, e, g) (simp f (is_confirmed r.class))
Change-Step op a b (Change.gets_rejected now r o e f g) =
    simp (o, e, g) (Step-rejected r.id r.class r.status (unfold reject_error in f))
Change-Step op a b (Change.expires ttl now r o e f g) =
    simp (o, e, g) (simp f (expires_open r.class))
Change-Step op a b (Change.vanishes t r o e f g) = simp (o, e, g) (Step-purged t r.class r.status f)

-- Calls in a row, with whatever failures, take every signature along moves of the state machine, one of
-- each call's kind, if ids and signatures are keys at the start.
pub run_all-Steps :
    (ops : List Op) (db : Db) (fs : Faults) (sig : Str)
    → IsKeyed db.candidates
    → Steps (map kind_of ops) (state sig db) (state sig (run_all ops db fs))
unfolding run_all
run_all-Steps [] db fs sig k = none_left (state sig db)
run_all-Steps (op ∷ ops) db fs sig k =
    let (c, k') = run-Changes op db fs k in
    one_more (Change-Step op _ _ (c sig))
      (run_all-Steps ops (run op db fs).0 (run op db fs).1 sig k')

-- The call is no purge of tombstones.
abbrev pub Spares : Op → Type 0
Spares op = kind_of op ≡ purges_tombstones → ⊥

bumped-rejected : (now : ℕ) (r : CandidateRow) → is_rejected r.status ≡ true → bumped now r ≡ r
unfolding bumped
bumped-rejected now r h = simp h refl

purged_rejected : (t : Bool) (s : Status) → s ≡ rejected → is_purged t s ≡ true → t ≡ true
unfolding is_purged
purged_rejected true s h p = refl
purged_rejected false s h p = ground (arith, h)

Change-rejected :
    (op : Op) (r : CandidateRow) (b : Option CandidateRow)
    → Spares op
    → r.status ≡ rejected
    → Change op (some r) b
    → b ≡ some r
Change-rejected op r b sp s (Change.same e) = e
Change-rejected op r b sp s (Change.appears c x o e f) = absurd (cc)
Change-rejected op r b sp s (Change.recurs x t o e f) =
    let q : t ≡ r = some-inj (sym e) in
    f
    ∙ ap (λ (y : CandidateRow). some (bumped x.now y)) q
    ∙ ap (λ y. some y) (bumped-rejected x.now r (simp s refl))
Change-rejected op r b sp s (Change.gets_confirmed now t o e f g) =
    let q : t ≡ r = some-inj (sym e) in
    let p : opened ≡ rejected = sym f ∙ ap (λ (y : CandidateRow). y.status) q ∙ s in absurd (cc)
Change-rejected op r b sp s (Change.gets_rejected now t o e f g) =
    let q : t ≡ r = some-inj (sym e) in
    let p = subst (λ (y : CandidateRow). reject_error y ≡ none) q f in
    absurd (unfold reject_error reject_error_of in ground (arith, s, p))
Change-rejected op r b sp s (Change.expires ttl now t o e f g) =
    let q : t ≡ r = some-inj (sym e) in
    let p : opened ≡ rejected = sym f ∙ ap (λ (y : CandidateRow). y.status) q ∙ s in absurd (cc)
Change-rejected op r b sp s (Change.vanishes t x o e f g) =
    let q : x ≡ r = some-inj (sym e) in
    let p = purged_rejected t x.status (ap (λ (y : CandidateRow). y.status) q ∙ s) f in
    absurd (sp (ap kind_of o ∙ ap (λ u. kind_of (purge u)) p))

-- A rejected candidate stays as it is, in every column, through any calls but a purge of tombstones,
-- with whatever failures: no sighting revives it. Ids and signatures are keys at the start.
pub run_all-rejected :
    (ops : List Op) (db : Db) (fs : Faults) (sig : Str) (r : CandidateRow)
    → IsKeyed db.candidates
    → find_signature sig db.candidates ≡ some r
    → r.status ≡ rejected
    → All Spares ops
    → find_signature sig (run_all ops db fs).candidates ≡ some r
unfolding run_all
run_all-rejected [] db fs sig r k f s a = f
run_all-rejected (op ∷ ops) db fs sig r k f s (sp, a) =
    let (c, k') = run-Changes op db fs k in
    let b = (run op db fs).0 in
    let g : find_signature sig b.candidates ≡ some r =
      Change-rejected op r (find_signature sig b.candidates) sp s
        (subst (λ o. Change op o (find_signature sig b.candidates)) f (c sig)) in
    run_all-rejected ops b (run op db fs).1 sig r k' g s a
