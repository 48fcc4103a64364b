-- ===== src/Model/Laws.antt =====
-- Laws of the report (internal/model/model.go) under calls of Add, AddCategorized and Diagnose.
use mathlib.Core.List.{append_assoc, append-nil}
use kube_net_mods.Prelude.{
  ℕ, ◌+◌, ◌≡◌, refl, sym, ap, ◌∙◌, true, false, List, [], ◌∷◌, ◌++◌, Str, str_eq, str_eq_sym,
  any-append, Bool-cases, inl, inr, length, if◌then◌else◌, arith, str_eq_refl,
}
use kube_net_mods.Model.{
  Status, pass, fail, warn, info, skip, status_eq, Target, Result, Diagnosis, Report, new_report,
  entry, add_categorized, diagnosed, diagnose, count_results, count_by_status,
}

-- No two diagnoses have the same message.
abbrev pub Distinct : List Diagnosis → Type 0
Distinct [] = Unit
Distinct (d ∷ ds) = (diagnosed ds d.message ≡ false) × Distinct ds

-- The writes that a check makes, one after another.
pub data Writes (r : Report) : Report → Type 0 where
  start : Writes r r
  result :
      {s : Report} (layer check : Str) (status : Status) (category message : Str)
      → Writes r s
      → Writes r (add_categorized s layer check status category message)
  diagnosis : {s : Report} (message : Str) → Writes r s → Writes r (diagnose s message)

Distinct-append :
    (ds : List Diagnosis) (d : Diagnosis)
    → Distinct ds
    → diagnosed ds d.message ≡ false
    → Distinct (ds ++ d ∷ [])
Distinct-append [] d h k = (refl, tt)
Distinct-append (e ∷ ds) d (h, hs) k = (
  any-append (λ x. str_eq x.message e.message) ds (d ∷ [])
      ∙ ground (arith, str_eq_sym d.message e.message),
  Distinct-append ds d hs (ground arith),
)

diagnose-Distinct :
    (r : Report) (m : Str) → Distinct r.diagnoses → Distinct (diagnose r m).diagnoses
unfolding diagnose
diagnose-Distinct r m h = elim (Bool-cases (diagnosed r.diagnoses m)) [
  | inl old ↦ rw old h
  | inr new ↦ rw new (Distinct-append r.diagnoses _ h new)
]

-- Whatever a check writes to a fresh report, no message is diagnosed twice in it.
pub Writes-Distinct :
    (command : Str) (target : Target) (now : ℕ) {r : Report}
    → Writes (new_report command target now) r
    → Distinct r.diagnoses
unfolding new_report add_categorized
Writes-Distinct command target now start = tt
Writes-Distinct command target now (result layer check status category message w) =
    Writes-Distinct command target now w
Writes-Distinct command target now (diagnosis {s} message w) =
    diagnose-Distinct s message (Writes-Distinct command target now w)

-- The report after some writes is the report before them with results and diagnoses appended.
abbrev pub Extends : Report → Report → Type 0
Extends r s =
    (rs : List Result) × (ds : List Diagnosis) × (s.results ≡ r.results ++ rs)
    × (s.diagnoses ≡ r.diagnoses ++ ds)
    × (s.target ≡ r.target)

diagnose-Extends : (r : Report) (m : Str) → Extends r (diagnose r m)
unfolding diagnose
diagnose-Extends r m = elim (Bool-cases (diagnosed r.diagnoses m)) [
  | inl old ↦ rw old ([], [], sym (append-nil _), sym (append-nil _), refl)
  | inr new ↦ rw new ([], _, sym (append-nil _), refl, refl)
]

-- After any sequence of Add, AddCategorized and Diagnose calls, the report is the one before with
-- results and diagnoses appended after those that were there, and with the same target.
pub Writes-Extends : {r s : Report} → Writes r s → Extends r s
unfolding add_categorized
Writes-Extends start = ([], [], sym (append-nil _), sym (append-nil _), refl)
Writes-Extends (result layer check status category message w) =
    let (rs, ds, er, ed, et) = Writes-Extends w in
    let new : List Result = entry layer check status category message ∷ [] in
    (rs ++ new, ds, ap (λ xs. xs ++ new) er ∙ append_assoc _ rs new, ed, et)
Writes-Extends (diagnosis {s} message w) =
    let (rs, ds, er, ed, et) = Writes-Extends w in
    let (rs', ds', er', ed', et') = diagnose-Extends s message in
    (
      rs ++ rs',
      ds ++ ds',
      er' ∙ ap (λ xs. xs ++ rs') er ∙ append_assoc _ rs rs',
      ed' ∙ ap (λ xs. xs ++ ds') ed ∙ append_assoc _ ds ds',
      et' ∙ et,
    )

diagnose_old : (r : Report) (m : Str) → diagnosed r.diagnoses m ≡ true → diagnose r m ≡ r
unfolding diagnose
diagnose_old r m old = rw old

diagnosed-diagnose : (r : Report) (m : Str) → diagnosed (diagnose r m).diagnoses m ≡ true
unfolding diagnose
diagnosed-diagnose r m = elim (Bool-cases (diagnosed r.diagnoses m)) [
  | inl old ↦ rw (diagnose_old r m old) old
  | inr new ↦
      rw new (any-append (λ d. str_eq d.message m) r.diagnoses _ ∙ ground (arith, str_eq_refl m))
]

results-diagnose : (r : Report) (m : Str) → (diagnose r m).results ≡ r.results
unfolding diagnose
results-diagnose r m = ground arith

-- Diagnosing a message makes it diagnosed, leaves the results alone, and changes nothing the second
-- time.
pub diagnose_once :
    (r : Report) (m : Str)
    → (diagnosed (diagnose r m).diagnoses m ≡ true)
      × ((diagnose r m).results ≡ r.results)
      × (diagnose (diagnose r m) m ≡ diagnose r m)
diagnose_once r m = (
  diagnosed-diagnose r m,
  results-diagnose r m,
  diagnose_old (diagnose r m) m (diagnosed-diagnose r m),
)

count_results-shift :
    (status : Status) (n : ℕ) (rs : List Result)
    → count_results status n rs ≡ n + count_results status 0 rs
unfolding count_results
count_results-shift status n [] = omega arith
count_results-shift status n (r ∷ rs) = ground (
  arith,
  count_results-shift status n rs,
  count_results-shift status (n + 1) rs,
  count_results-shift status 1 rs,
)

count_results_total :
    (rs : List Result)
    → count_results pass 0 rs
        + count_results fail 0 rs
        + count_results warn 0 rs
        + count_results info 0 rs
        + count_results skip 0 rs
      ≡ length rs
unfolding count_results
count_results_total [] = omega arith
count_results_total (r ∷ rs) = ground (
  arith,
  count_results_total rs,
  count_results-shift pass 1 rs,
  count_results-shift fail 1 rs,
  count_results-shift warn 1 rs,
  count_results-shift info 1 rs,
  count_results-shift skip 1 rs,
)

count_results-append :
    (status : Status) (n : ℕ) (rs ss : List Result)
    → count_results status n (rs ++ ss) ≡ count_results status (count_results status n rs) ss
unfolding count_results
count_results-append status n [] ss = refl
count_results-append status n (r ∷ rs) ss =
    count_results-append status (if status_eq r.status status then n + 1 else n) rs ss

-- Each result is counted under exactly one of the five statuses.
pub count_by_status_total :
    (r : Report)
    → count_by_status r pass
        + count_by_status r fail
        + count_by_status r warn
        + count_by_status r info
        + count_by_status r skip
      ≡ length r.results
unfolding count_by_status
count_by_status_total r = count_results_total r.results

-- Adding a result raises the count of its own status by one, and no other count.
pub count_by_status-add_categorized :
    (r : Report) (layer check : Str) (status : Status) (category message : Str) (counted : Status)
    → count_by_status (add_categorized r layer check status category message) counted ≡ (
        if status_eq status counted
        then count_by_status r counted + 1
        else count_by_status r counted)
unfolding add_categorized count_by_status count_results
count_by_status-add_categorized r layer check status category message counted =
    count_results-append counted 0 r.results (entry layer check status category message ∷ [])

pub count_by_status-diagnose :
    (r : Report) (m : Str) (counted : Status)
    → count_by_status (diagnose r m) counted ≡ count_by_status r counted
unfolding count_by_status
count_by_status-diagnose r m counted = ap (count_results counted 0) (results-diagnose r m)
