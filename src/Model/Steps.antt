-- ===== src/Model/Steps.antt =====
-- How the writes of a handler are put together from those of its parts.
use kube_net_mods.Prelude.{
  Bool, true, false, Option, none, some, Str, if◌then◌else◌, ◌>>=◌, ◌≡◌, refl,
}
use kube_net_mods.Model.{Report, Status, add, add_categorized, diagnose}
use kube_net_mods.Model.Laws.{Writes, start, result, diagnosis}

pub Writes-trans : {r s t : Report} → Writes r s → Writes s t → Writes r t
Writes-trans w start = w
Writes-trans w (result layer check status category message v) =
    result layer check status category message (Writes-trans w v)
Writes-trans w (diagnosis message v) = diagnosis message (Writes-trans w v)

pub add-Writes :
    {r s : Report} (layer check : Str) (status : Status) (message : Str)
    → Writes r s
    → Writes r (add s layer check status message)
unfolding add
add-Writes layer check status message w = result layer check status _ message w

-- A result and its diagnosis
pub told-Writes :
    {r s : Report} (layer check : Str) (status : Status) (message told : Str)
    → Writes r s
    → Writes r (diagnose (add s layer check status message) told)
told-Writes layer check status message told w =
    diagnosis told (add-Writes layer check status message w)

pub if-Writes :
    {r s t : Report} (b : Bool) → Writes r s → Writes r t → Writes r (if b then s else t)
if-Writes true w v = w
if-Writes false w v = v

-- The report of the chosen pair
pub pair-Writes :
    {r : Report} {B : Type 0} (b : Bool) (p q : Report × B)
    → Writes r p.0
    → Writes r q.0
    → Writes r (if b then p else q).0
pair-Writes true p q w v = w
pair-Writes false p q w v = v

-- The handler returns, and what it wrote is a sequence of writes. `report` finds the report in what it
-- returns.
module _ {A : Type 0} (report : A → Report) (r : Report) where
  abbrev pub Ends : Option A → Type 0
  Ends none = ⊥
  Ends (some a) = Writes r (report a)

  pub if-Ends : (b : Bool) (o p : Option A) → Ends o → Ends p → Ends (if b then o else p)
  if-Ends true o p w v = w
  if-Ends false o p w v = v

pub >>=-Ends :
    {A B : Type 0} (first : A → Report) (second : B → Report) (r : Report) (o : Option A)
    (f : A → Option B)
    → Ends first r o
    → ((a : A) → Writes r (first a) → Ends second r (f a))
    → Ends second r (o >>= f)
>>=-Ends first second r none f w next = absurd w
>>=-Ends first second r (some a) f w next = next a w

pub Ends-result :
    (r : Report) (o : Option Report) → Ends (λ s. s) r o → (s : Report) × (o ≡ some s) × Writes r s
Ends-result r none w = absurd w
Ends-result r (some s) w = (s, refl, w)

pub noted-Writes :
    {r s : Report} (layer check : Str) (status : Status) (category message : Str)
    → Writes r s
    → Writes r (add_categorized s layer check status category message)
noted-Writes layer check status category message w = result layer check status category message w

pub diagnosed-Writes : {r s : Report} (message : Str) → Writes r s → Writes r (diagnose s message)
diagnosed-Writes message w = diagnosis message w
