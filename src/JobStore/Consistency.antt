-- ===== src/JobStore/Consistency.antt =====
-- What holds of the jobs table between two calls: both keys are unique, a row's key is the print of
-- its update identifier, and exactly the running rows carry an owner and a claim.
use ytdlbot.Prelude.{
  ℕ, ◌≡◌, refl, sym, ap, ◌∙◌, fun_ext, Bool, true, false, ◌||◌, ◌&&◌, String, Option, none, some,
  List, [], ◌∷◌, ◌++◌, if◌then◌else◌, str_eq, eq_iff, any, filter, take, All, arith, Bool-cases,
  some_path, inl, inr,
}
use mathlib.Core.Bool.{false≢true}
use ytdlbot.Prelude.Decimal.{str}
use ytdlbot.Sql.{update_where, order_by}
use ytdlbot.Sql.Laws.{
  All-update_where, All-append, any-update_where, any-append, any-take, any-order_by, any-filter,
}
use ytdlbot.JobStore.Schema.{JobRow, running, state_eq}
use ytdlbot.JobStore.Inbox.{clashes, job_of_id}
use ytdlbot.JobStore.Claims.{is_among, job_ids}

abbrev pub is_some {ℓ} : {A : Type ℓ} → Option A → Bool
is_some none = false
is_some (some _) = true

pub record IsRow (r : JobRow) : Type 0 where
  pub keyed : r.job_id ≡ str r.update_id
  pub owned : is_some r.owner_id ≡ state_eq r.state running
  pub claimed : is_some r.claim_expires_at ≡ state_eq r.state running

-- No two rows share a key.
abbrev pub Distinct : List JobRow → Type 0
Distinct [] = Unit
Distinct (r ∷ rows) = (any (clashes r) rows ≡ false) × Distinct rows

pub record IsConsistent (jobs : List JobRow) : Type 0 where
  pub rows : All IsRow jobs
  pub distinct : Distinct jobs

module _ (p : JobRow → Bool) (f : JobRow → JobRow)
    (same : (r : JobRow) → ((f r).job_id ≡ r.job_id) × ((f r).update_id ≡ r.update_id)) where
  clashes-update :
      (r x : JobRow) → (clashes (f r) x ≡ clashes r x) × (clashes r (f x) ≡ clashes r x)
  clashes-update r x = (rw ((same r).0, (same r).1), rw ((same x).0, (same x).1))

  Distinct-update_where : (rows : List JobRow) → Distinct rows → Distinct (update_where p f rows)
  Distinct-update_where [] h = tt
  Distinct-update_where (r ∷ rows) h = (first (p r), Distinct-update_where rows h.1)
    where
      first : (b : Bool) → any (clashes (if b then f r else r)) (update_where p f rows) ≡ false
      first true =
          any-update_where (clashes (f r)) p f (λ x. (clashes-update (f r) x).1) rows
          ∙ ap (λ q. any q rows) (fun_ext (λ x. (clashes-update r x).0))
          ∙ h.0
      first false = any-update_where (clashes r) p f (λ x. (clashes-update r x).1) rows ∙ h.0

  pub IsConsistent-update_where :
      ((r : JobRow) → p r ≡ true → IsRow r → IsRow (f r))
      → (jobs : List JobRow) → IsConsistent jobs
      → IsConsistent (update_where p f jobs)
  IsConsistent-update_where keeps jobs h = record {
    rows = All-update_where IsRow p f keeps jobs h.rows;
    distinct = Distinct-update_where jobs h.distinct;
  }

clashes_sym : (r x : JobRow) → clashes r x ≡ false → clashes x r ≡ false
clashes_sym r x h = ground (arith, eq_iff r.job_id x.job_id, eq_iff x.job_id r.job_id)

or_false : (a b : Bool) → (a || b) ≡ false → (a ≡ false) × (b ≡ false)
or_false a b h = ground arith

or_intro : (a b : Bool) → a ≡ false → b ≡ false → (a || b) ≡ false
or_intro a b h k = ground arith

Distinct-append :
    (rows : List JobRow) (new : JobRow)
    → Distinct rows
    → any (clashes new) rows ≡ false
    → Distinct (rows ++ new ∷ [])
Distinct-append [] new h e = (refl, tt)
Distinct-append (r ∷ rows) new h e = (
  first (or_false (clashes new r) (any (clashes new) rows) e).0,
  Distinct-append rows new h.1 (or_false (clashes new r) (any (clashes new) rows) e).1,
)
  where
    first : clashes new r ≡ false → any (clashes r) (rows ++ new ∷ []) ≡ false
    first k =
        any-append (clashes r) rows (new ∷ [])
        ∙ or_intro _ _ h.0 (or_intro _ _ (clashes_sym new r k) refl)

hit-clashes :
    (rows : List JobRow) (p : JobRow → Bool) (id : String) (x : JobRow)
    → str_eq x.job_id id ≡ true
    → any (λ y. p y && str_eq y.job_id id) rows ≡ true
    → any (clashes x) rows ≡ true
hit-clashes [] p id x e h = cc
hit-clashes (y ∷ rows) p id x e h = ground (
  arith,
  eq_iff x.job_id id,
  eq_iff y.job_id id,
  eq_iff y.job_id x.job_id,
  hit-clashes rows p id x e,
)

-- In a table with unique keys, the row that a key finds is the only one that the key can reach.
pub unique_hit :
    (jobs : List JobRow) (p : JobRow → Bool) (id : String) {r : JobRow}
    → Distinct jobs
    → job_of_id id jobs ≡ some r
    → any (λ x. p x && str_eq x.job_id id) jobs ≡ true
    → p r ≡ true
unfolding job_of_id
unique_hit [] p id d found hit = cc
unique_hit (x ∷ jobs) p id {r} d found hit = elim (Bool-cases (str_eq x.job_id id)) [
  | inr other ↦ unique_hit jobs p id d.1 (rw other at found) (next other hit)
  | inl same ↦ elim (Bool-cases (p x)) [
    | inl passes ↦ ap p (sym (some_path (rw same at found))) ∙ passes
    | inr fails ↦ absurd (false≢true (sym d.0 ∙ hit-clashes jobs p id x same (rw fails at hit)))
  ]
]
  where
    next :
        str_eq x.job_id id ≡ false
        → any (λ y. p y && str_eq y.job_id id) (x ∷ jobs) ≡ true
        → any (λ y. p y && str_eq y.job_id id) jobs ≡ true
    next other h = ground arith

is_among-job_ids :
    (rows : List JobRow) (id : String)
    → is_among (job_ids rows) id ≡ any (λ r. str_eq r.job_id id) rows
unfolding is_among
is_among-job_ids [] id = refl
is_among-job_ids (r ∷ rows) id = ground (arith, is_among-job_ids rows id)

-- Whatever a SELECT returns passes its WHERE.
pub selected :
    (jobs : List JobRow) (p : JobRow → Bool) (le : JobRow → JobRow → Bool) (n : ℕ) (id : String)
    → is_among (job_ids (take n (order_by le (filter p jobs)))) id ≡ true
    → any (λ x. p x && str_eq x.job_id id) jobs ≡ true
selected jobs p le n id h =
    sym (any-filter (λ x. str_eq x.job_id id) p jobs)
    ∙ sym (any-order_by (λ x. str_eq x.job_id id) le (filter p jobs))
    ∙ any-take (λ x. str_eq x.job_id id) n (order_by le (filter p jobs))
        (sym (is_among-job_ids _ id) ∙ h)

-- A row that a SELECT passes over is not among the identifiers that it returns.
pub is_among-select :
    (jobs : List JobRow) (p : JobRow → Bool) (le : JobRow → JobRow → Bool) (n : ℕ) (id : String)
    {r : JobRow}
    → Distinct jobs
    → job_of_id id jobs ≡ some r
    → p r ≡ false
    → is_among (job_ids (take n (order_by le (filter p jobs)))) id ≡ false
is_among-select jobs p le n id d found out =
    elim (Bool-cases (is_among (job_ids (take n (order_by le (filter p jobs)))) id)) [
      | inr absent ↦ absent
      | inl present ↦
          absurd
            (false≢true (sym out ∙ unique_hit jobs p id d found (selected jobs p le n id present)))
    ]

-- A new row that clashes with none may be added.
pub IsConsistent-append :
    (rows : List JobRow) (new : JobRow)
    → IsRow new
    → any (clashes new) rows ≡ false
    → IsConsistent rows
    → IsConsistent (rows ++ new ∷ [])
IsConsistent-append rows new r e h = record {
  rows = All-append IsRow rows (new ∷ []) h.rows (r, tt);
  distinct = Distinct-append rows new h.distinct e;
}
