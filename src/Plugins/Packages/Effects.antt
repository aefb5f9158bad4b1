-- ===== src/Plugins/Packages/Effects.antt =====
-- internals/plugins/packages/plan.go: when a plan says that something will change.
use hardline.Base.{
  Text, codes, ◌≡◌, refl, Bool, true, false, not, ◌&&◌, ◌||◌, List, [], ◌∷◌, ◌++◌, if◌then◌else◌,
  is_nil, arith,
}
use hardline.Plugins.Packages.Ops.{Decision}
use hardline.Plugins.Packages.Report.{
  Preview, if_runs, PlanInputs, changes, diff_of, rest_idle, extent, rows,
}
use hardline.Plugins.Packages.Render.{render_plan}

is_nil-append : (l m : List Text) → is_nil (l ++ m) ≡ is_nil l && is_nil m
is_nil-append [] m = refl
is_nil-append (x ∷ l) m = refl

is_nil-rows : (a b : Text) (l : List Text) → is_nil (rows a b l) ≡ is_nil l
is_nil-rows a b [] = refl
is_nil-rows a b (x ∷ l) = refl

if_runs_idle :
    (mode : Text) (d : Decision) (p : Preview)
    → (not d.will_run || is_nil (if_runs mode d p)) ≡ is_nil (if_runs mode d p)
if_runs_idle mode d p = ground arith

is_nil-index_row : (b : Bool) (t : Text) → is_nil (if b then t ∷ [] else []) ≡ not b
is_nil-index_row true t = refl
is_nil-index_row false t = refl

is_nil-row_lists :
    (t x : Text) (u : Bool) (a b c d e f : List Text) (p q r o v z : Text)
    → is_nil (
        (if u then t ∷ [] else [])
        ++ (rows x p a
            ++ (rows x q b ++ (rows x r c ++ (rows x o d ++ (rows x v e ++ rows x z f))))))
      ≡ not u && (is_nil a && ((is_nil b && is_nil c) && ((is_nil d && is_nil e) && is_nil f)))
is_nil-row_lists t x u a b c d e f p q r o v z =
    rw
      (
        is_nil-append (if u then t ∷ [] else []) _,
        is_nil-index_row u t,
        is_nil-append (rows x p a) _,
        is_nil-append (rows x q b) _,
        is_nil-append (rows x r c) _,
        is_nil-append (rows x o d) _,
        is_nil-append (rows x v e) _,
        is_nil-rows x p a,
        is_nil-rows x q b,
        is_nil-rows x r c,
        is_nil-rows x o d,
        is_nil-rows x v e,
        is_nil-rows x z f,
      )
      (ground arith)

is_nil-diff_of : (i : PlanInputs) → is_nil (diff_of i) ≡ not i.update.will_run && rest_idle i
unfolding diff_of rest_idle changes
is_nil-diff_of i =
    let c = changes i in
    rw
      (
        if_runs_idle i.upgrade_mode i.upgrade i.upgrade_preview,
        if_runs_idle i.autoremove_mode i.autoremove i.autoremove_preview,
      )
      (is_nil-row_lists _ (codes "package ") i.update.will_run c.upgrade c.install c.install_deps
        c.purge c.purge_deps c.autoremove (codes ": installed -> upgraded")
        (codes ": absent -> installed") (codes ": absent -> installed (dependency)")
        (codes ": installed -> purged") (codes ": installed -> removed (pulled in by purge)")
        (codes ": installed -> removed by autoremove"))

-- A plan says that it will change something exactly if its diff has a row.
pub render_plan-will_change :
    (i : PlanInputs) → (render_plan i).will_change ≡ not (is_nil (render_plan i).diff)
unfolding render_plan extent
render_plan-will_change i = ground (arith, is_nil-diff_of i)
