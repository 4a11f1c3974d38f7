-- ===== src/Engine/Worker/Sound.antt =====
-- The winner pointer of every group stays in range, and every published address backed by a winner,
-- in every interleaving of the workers of src/engine/mod.rs.
use nixnet_corbet_ch.Base.{
  ℕ, suc, ◌≡◌, refl, sym, ap, subst, ◌∙◌, List, [], ◌∷◌, some, map, set, length, some_inj,
}
use nixnet_corbet_ch.Base.Int.{ℤ}
use nixnet_corbet_ch.Base.Text.{Text}
use nixnet_corbet_ch.Engine.{TransportRuntime, Group, Action, IsValid}
use nixnet_corbet_ch.Engine.Decide.{decide_action}
use nixnet_corbet_ch.Engine.Decide.Laws.{decide_action-IsValid}
use nixnet_corbet_ch.Engine.Decide.Publication.{decide_action-IsBacked}
use nixnet_corbet_ch.Engine.Groups.Lookup.{length-set}
use nixnet_corbet_ch.Engine.New.Valid.{IsSound}
use nixnet_corbet_ch.Engine.Worker.{mark_due}
use nixnet_corbet_ch.Engine.Worker.Stable.{IsStable}

pub length-map : {A B : Type 0} (f : A → B) (xs : List A) → length (map f xs) ≡ length xs
length-map f [] = refl
length-map f (x ∷ xs) = ap suc (length-map f xs)

pub set-IsSound :
    (g : Group) (idx : ℕ) (tr : TransportRuntime)
    → IsSound g
    → IsSound (record g { transports = set g.transports idx tr })
set-IsSound g idx tr (v, b) = (rw (length-set g.transports idx tr) v, b)

pub tick-IsSound :
    (g g' : Group) (now : ℤ) (a : Action)
    → IsSound g
    → decide_action g now ≡ some (g', a)
    → IsSound g'
tick-IsSound g g' now a (v, b) done =
    let (g'', a'', e, v'', same) = decide_action-IsValid g now v in
    (
      subst IsValid (ap (λ (r : Group × Action). r.0) (some_inj (sym e ∙ done))) v'',
      decide_action-IsBacked g g' now a v b done,
    )

pub IsSound-IsStable : (quoted : Text → Text) → IsStable quoted IsSound
IsSound-IsStable quoted = record {
  probed = λ g idx tr res at h there_tr. set-IsSound g idx _ h;
  marked = λ g idx tr started due h there_tr. set-IsSound g idx _ h;
  all_due = λ g now h. (rw (length-map (mark_due now) g.transports) h.0, h.1);
  ticked = tick-IsSound;
  reported = λ g e h. h;
}
