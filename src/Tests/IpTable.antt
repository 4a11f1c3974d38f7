-- ===== src/Tests/IpTable.antt =====
-- A host with one default route, at metric 600, on which `ip` moves it to metric 100.
use nixnet_corbet_ch.Base.{
  ◌≡◌, ◌≢◌, refl, inl, inr, ◌⊎◌, Bool, true, false, false≢true, ◌&&◌, List, [], ◌∷◌, Option, none,
  some, Result, ok, err, In, here, there, In-cases, Bool-cases, if◌then◌else◌, sym, ◌∙◌, ap, subst,
}
use nixnet_corbet_ch.Base.Int.{pos, eqb_ℤ_iff}
use nixnet_corbet_ch.Base.Text.{Text, codes, text_eq, text_eq_iff}
use nixnet_corbet_ch.Publish.Route
use nixnet_corbet_ch.Publish.Route.{
  Host, RoutePublisher, BoundedOutput, IpRoute, Publication, metric_of, reprioritize, apply,
  target_metric, ip, show_args, replace_args, del_args,
}
use nixnet_corbet_ch.Publish.Route.Table.{RoutingTable, accepted, Prints}

-- The table before, with both routes, and after.
pub data Phase : Type 0 where
  before : Phase
  both : Phase
  after : Phase

abbrev pub iface : Text
iface = codes "wan0"

abbrev pub gw : Option Text
gw = some (codes "192.0.2.1")

abbrev pub old : IpRoute
old = record { gateway = gw; metric = some (pos 600) }

abbrev pub new : IpRoute
new = record { gateway = gw; metric = some (pos 100) }

abbrev pub routes : Phase → List IpRoute
routes before = old ∷ []
routes both = new ∷ old ∷ []
routes after = new ∷ []

abbrev json : Phase → Text
json before = codes "before"
json both = codes "both"
json after = codes "after"

abbrev output : Bool → Text → BoundedOutput
output success stdout = record {
  success = success;
  status = [];
  stdout = stdout;
  stderr = [];
  timed_out = false;
}

unfoldable pub same_args : List Text → List Text → Bool
same_args [] [] = true
same_args (x ∷ xs) (y ∷ ys) = text_eq x y && same_args xs ys
same_args _ _ = false

abbrev replaced : Phase → Phase
replaced before = both
replaced both = both
replaced after = after

abbrev deleting : Bool → Phase → Result Text BoundedOutput × Phase
deleting true before = (ok (output false []), before)
deleting true _ = (ok (output true []), after)
deleting false w = (ok (output false []), w)

unfoldable pub spawn : Phase → Text → List Text → Result Text BoundedOutput × Phase
spawn w command args =
    if same_args args (show_args iface)
    then (ok (output true (json w)), w)
    else if same_args args (replace_args gw iface (pos 100))
    then (ok (output true []), replaced w)
    else deleting (same_args args (del_args iface old)) w

unfoldable pub from_str : Text → Result Text (List IpRoute)
from_str text =
    if text_eq text (json before)
    then ok (routes before)
    else if text_eq text (json both)
    then ok (routes both)
    else if text_eq text (json after)
    then ok (routes after)
    else err (codes "expected value")

abbrev pub host : Host Phase
host = record { spawn = spawn; from_str = from_str }

abbrev pub self : RoutePublisher
self = record { ip_path = []; command_timeout_ms = codes "5000" }

only_new : (x : IpRoute) → In x (new ∷ []) → x ≡ new
only_new x m = elim (In-cases m) [ inl e ↦ e | inr n ↦ elim n [ ] ]

new_or_old : (x : IpRoute) → In x (new ∷ old ∷ []) → (x ≡ new) ⊎ (x ≡ old)
new_or_old x m = elim (In-cases m) [
  | inl e ↦ inl e
  | inr n ↦ elim (In-cases n) [ inl e ↦ inr e | inr k ↦ elim k [ ] ]
]

-- Of the routes after a replacement, the new one and those that were there.
after_replacing :
    (w : Phase) (x : IpRoute)
    → In x (routes (replaced w))
    → (x ≡ new) ⊎ (In x (routes w) × (x ≡ old))
after_replacing before x m = elim (new_or_old x m) [ inl e ↦ inl e | inr e ↦ inr (rw e here, e) ]
after_replacing both x m = elim (new_or_old x m) [
  | inl e ↦ inl e
  | inr e ↦ inr (rw e (there here), e)
]
after_replacing after x m = inl (only_new x m)

replace_refused :
    (w : Phase) (g : Text)
    → text_eq g (codes "192.0.2.1") ≡ false
    → spawn w (codes "ip") (replace_args (some g) iface (pos 100)) ≡ (ok (output false []), w)
unfolding spawn same_args text_eq Route.runs
replace_refused w g other = rw other

replace_done :
    (w : Phase) (g : Text)
    → text_eq g (codes "192.0.2.1") ≡ true
    → spawn w (codes "ip") (replace_args (some g) iface (pos 100))
      ≡ (ok (output true []), replaced w)
unfolding spawn same_args text_eq Route.runs
replace_done w g same = rw same

replace_none :
    (w : Phase)
    → spawn w (codes "ip") (replace_args none iface (pos 100)) ≡ (ok (output false []), w)
unfolding spawn same_args text_eq Route.runs
replace_none w = refl

-- A replacement over any gateway: done where it is the interface's, refused otherwise.
replace_cases :
    (w : Phase) (gateway : Option Text)
    → ((gateway ≡ gw)
        × (spawn w (codes "ip") (replace_args gateway iface (pos 100))
            ≡ (ok (output true []), replaced w)))
      ⊎ (spawn w (codes "ip") (replace_args gateway iface (pos 100)) ≡ (ok (output false []), w))
replace_cases w none = inr (replace_none w)
replace_cases w (some g) = elim (Bool-cases (text_eq g (codes "192.0.2.1"))) [
  | inl same ↦ inl (ap some ((text_eq_iff g (codes "192.0.2.1")).0 same), replace_done w g same)
  | inr other ↦ inr (replace_refused w g other)
]

deleting_cases :
    (b : Bool) (w : Phase)
    → (In new (routes w) × (deleting b w ≡ (ok (output true []), after)))
      ⊎ (deleting b w ≡ (ok (output false []), w))
deleting_cases true before = inr refl
deleting_cases true both = inl (here, refl)
deleting_cases true after = inl (here, refl)
deleting_cases false w = inr refl

delete_cases :
    (w : Phase) (r : IpRoute)
    → (In new (routes w) × (spawn w (codes "ip") (del_args iface r) ≡ (ok (output true []), after)))
      ⊎ (spawn w (codes "ip") (del_args iface r) ≡ (ok (output false []), w))
unfolding spawn same_args text_eq Route.runs
delete_cases w r = deleting_cases (same_args (del_args iface r) (del_args iface old)) w

listing : (w : Phase) → Prints host (json w) (routes w)
unfolding from_str text_eq Route.runs
listing before = inr (refl, refl)
listing both = inr (refl, refl)
listing after = inr (refl, refl)

show_done : (w : Phase) → spawn w (codes "ip") (show_args iface) ≡ (ok (output true (json w)), w)
unfolding spawn same_args text_eq
show_done w = refl

stdout_of : Result Text BoundedOutput → Text
stdout_of (ok out) = out.stdout
stdout_of (err e) = e

shows :
    (w : Phase) (out : BoundedOutput)
    → (spawn w (codes "ip") (show_args iface)).0 ≡ ok out
    → out.success ≡ true
    → Prints host out.stdout (routes w)
unfolding stdout_of
shows w out run fine =
    let same : json w ≡ out.stdout =
      ap stdout_of
        (sym (ap (λ (p : Result Text BoundedOutput × Phase). p.0) (show_done w)) ∙ run) in
    subst (λ (t : Text). Prints host t (routes w)) same (listing w)

abbrev Ran : Type 0
Ran = Result Text BoundedOutput × Phase

not_accepted :
    {A : Type 0} (p : Ran) (w : Phase) → p ≡ (ok (output false []), w) → accepted p.0 ≡ true → A
not_accepted p w e fine = absurd (false≢true (sym (ap (λ (q : Ran). accepted q.0) e) ∙ fine))

old_elsewhere : (x : IpRoute) → x ≡ old → metric_of x ≢ pos 100
old_elsewhere x e h = false≢true ((eqb_ℤ_iff (pos 600) (pos 100)).1 (sym (ap metric_of e) ∙ h))

replaces :
    (w : Phase) (gateway : Option Text) (x : IpRoute)
    → accepted (spawn w (codes "ip") (replace_args gateway iface (pos 100))).0 ≡ true
    → In x (routes (spawn w (codes "ip") (replace_args gateway iface (pos 100))).1)
    → ((x.gateway ≡ gateway) × (metric_of x ≡ pos 100))
      ⊎ (In x (routes w) × (metric_of x ≢ pos 100))
replaces w gateway x fine m = elim (replace_cases w gateway) [
  | inl (same, e) ↦ elim (after_replacing w x (subst (λ (p : Ran). In x (routes p.1)) e m)) [
    | inl n ↦ inl (ap (λ (y : IpRoute). y.gateway) n ∙ sym same, ap metric_of n)
    | inr (k, o) ↦ inr (k, old_elsewhere x o)
  ]
  | inr e ↦ not_accepted _ w e fine
]

installed_new : (w : Phase) → In new (routes (replaced w))
installed_new before = here
installed_new both = here
installed_new after = here

installs :
    (w : Phase) (gateway : Option Text)
    → accepted (spawn w (codes "ip") (replace_args gateway iface (pos 100))).0 ≡ true
    → (x : IpRoute) × In x (routes (spawn w (codes "ip") (replace_args gateway iface (pos 100))).1)
      × (metric_of x ≡ pos 100)
installs w gateway fine = elim (replace_cases w gateway) [
  | inl (same, e) ↦ (new, subst (λ (p : Ran). In new (routes p.1)) (sym e) (installed_new w), refl)
  | inr e ↦ not_accepted _ w e fine
]

replaced_keeps : (w : Phase) (x : IpRoute) → In x (routes w) → In x (routes (replaced w))
replaced_keeps before x m = there m
replaced_keeps both x m = m
replaced_keeps after x m = m

replace_keeps :
    (w : Phase) (gateway : Option Text) (x : IpRoute)
    → In x (routes w)
    → (y : IpRoute) × In y (routes (spawn w (codes "ip") (replace_args gateway iface (pos 100))).1)
      × (metric_of y ≡ metric_of x)
replace_keeps w gateway x m = elim (replace_cases w gateway) [
  | inl (same, e) ↦ (x, subst (λ (p : Ran). In x (routes p.1)) (sym e) (replaced_keeps w x m), refl)
  | inr e ↦ (x, subst (λ (p : Ran). In x (routes p.1)) (sym e) m, refl)
]

deletes :
    (w : Phase) (r : IpRoute)
    → metric_of r ≢ pos 100
    → accepted (spawn w (codes "ip") (del_args iface r)).0 ≡ true
    → ¬ In r (routes (spawn w (codes "ip") (del_args iface r)).1)
deletes w r other fine m = elim (delete_cases w r) [
  | inl (k, e) ↦ other (ap metric_of (only_new r (subst (λ (p : Ran). In r (routes p.1)) e m)))
  | inr e ↦ not_accepted _ w e fine
]

delete_only :
    (w : Phase) (r x : IpRoute)
    → In x (routes (spawn w (codes "ip") (del_args iface r)).1)
    → In x (routes w)
delete_only w r x m = elim (delete_cases w r) [
  | inl (k, e) ↦
      subst (λ (y : IpRoute). In y (routes w))
        (sym (only_new x (subst (λ (p : Ran). In x (routes p.1)) e m))) k
  | inr e ↦ subst (λ (p : Ran). In x (routes p.1)) e m
]

new_at_metric : (w : Phase) (x : IpRoute) → In x (routes w) → metric_of x ≡ pos 100 → x ≡ new
new_at_metric before x m h = elim (In-cases m) [
  | inl e ↦ absurd (old_elsewhere x e h)
  | inr n ↦ elim n [ ]
]
new_at_metric both x m h = elim (new_or_old x m) [
  | inl e ↦ e
  | inr e ↦ absurd (old_elsewhere x e h)
]
new_at_metric after x m h = only_new x m

delete_keeps :
    (w : Phase) (r x : IpRoute)
    → metric_of r ≢ pos 100
    → In x (routes w)
    → metric_of x ≡ pos 100
    → In x (routes (spawn w (codes "ip") (del_args iface r)).1)
delete_keeps w r x other m h = elim (delete_cases w r) [
  | inl (k, e) ↦
      subst (λ (p : Ran). In x (routes p.1)) (sym e)
        (subst (λ (y : IpRoute). In y (routes after)) (sym (new_at_metric w x m h)) here)
  | inr e ↦ subst (λ (p : Ran). In x (routes p.1)) (sym e) m
]

pub table : RoutingTable host self iface (pos 100)
table = record {
  defaults = routes;
  shows = shows;
  show_keeps = λ w. ap (λ (p : Ran). routes p.1) (show_done w);
  replaces = replaces;
  installs = installs;
  replace_keeps = replace_keeps;
  deletes = deletes;
  delete_only = delete_only;
  delete_keeps = delete_keeps;
}

pub listed_before : table.defaults before ≡ old ∷ []
unfolding table
listed_before = refl

pub old_before : In old (table.defaults before)
unfolding table
old_before = here
