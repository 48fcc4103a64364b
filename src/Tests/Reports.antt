-- ===== src/Tests/Reports.antt =====
-- The laws of reports, applied.
use kube_net_mods.Prelude.{[], codes}
use kube_net_mods.Model.{Report, fail, add_categorized, diagnose}
use kube_net_mods.Model.Laws.{
  Distinct, Writes, start, result, diagnosis, Extends, Writes-Distinct, Writes-Extends,
}
use kube_net_mods.Tests.Data.{target, empty_report}

abbrev one_fail : Report
one_fail = add_categorized empty_report (codes "L") (codes "c") fail [] (codes "no answer")

abbrev told_twice : Report
told_twice = diagnose (diagnose one_fail (codes "fix it")) (codes "fix it")

abbrev written : Writes empty_report told_twice
written =
    diagnosis (codes "fix it") (
      diagnosis (codes "fix it") (result (codes "L") (codes "c") fail [] (codes "no answer") start))

Writes-Distinct_example : Distinct told_twice.diagnoses
Writes-Distinct_example = Writes-Distinct (codes "service") target 0 written

Writes-Extends_example : Extends empty_report told_twice
Writes-Extends_example = Writes-Extends written
