-- ===== src/Model.antt =====
-- internal/model/model.go: the report that every check writes to. The wall clock of `NewReport` is an
-- argument; the fields of `Target` that the modelled code reads are kept.
pub mod Laws
pub mod Steps
use kube_net_mods.Prelude.{
  ℕ, ◌+◌, Bool, true, false, List, [], ◌∷◌, ◌++◌, Str, codes, str_eq, any, if◌then◌else◌, ℤ, length,
}

pub data Status : Type 0 where
  pass fail warn info skip : Status

-- The string that the status stands for.
abbrev pub status_eq : Status → Status → Bool
status_eq pass pass = true
status_eq fail fail = true
status_eq warn warn = true
status_eq info info = true
status_eq skip skip = true
status_eq _ _ = false

pub record Target : Type 0 where
  pub namespace : Str
  pub service : Str
  pub service_port : ℤ
  pub source_namespace : Str
  pub source_pod : Str

pub record Result : Type 0 where
  pub layer : Str
  pub check : Str
  pub status : Status
  pub category : Str
  pub message : Str

pub record Diagnosis : Type 0 where
  pub severity : Str
  pub message : Str

pub record Report : Type 0 where
  pub tool : Str
  pub command : Str
  pub timestamp : ℕ
  pub target : Target
  pub results : List Result
  pub diagnoses : List Diagnosis

unfoldable pub new_report : Str → Target → ℕ → Report
new_report command target now = record {
  tool = codes "KubeNetMods";
  command = command;
  timestamp = now;
  target = target;
  results = [];
  diagnoses = [];
}

abbrev pub entry : Str → Str → Status → Str → Str → Result
entry layer check status category message = record {
  layer = layer;
  check = check;
  status = status;
  category = category;
  message = message;
}

unfoldable pub add_categorized : Report → Str → Str → Status → Str → Str → Report
add_categorized r layer check status category message = record r {
  results = r.results ++ entry layer check status category message ∷ [];
}

unfoldable pub add : Report → Str → Str → Status → Str → Report
unfolding add_categorized
add r layer check status message = add_categorized r layer check status [] message

-- Whether a diagnosis with this message is there already.
abbrev pub diagnosed : List Diagnosis → Str → Bool
diagnosed ds message = any (λ d. str_eq d.message message) ds

unfoldable pub diagnose : Report → Str → Report
diagnose r message =
    if diagnosed r.diagnoses message
    then r
    else record r { diagnoses = r.diagnoses ++ record { severity = []; message = message } ∷ [] }

count_results : Status → ℕ → List Result → ℕ
count_results status count [] = count
count_results status count (result ∷ results) =
    count_results status (if status_eq result.status status then count + 1 else count) results

unfoldable pub count_by_status : Report → Status → ℕ
unfolding count_results
count_by_status r status = count_results status 0 r.results
