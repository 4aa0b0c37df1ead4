-- ===== src/Repo/Hunk/Replay.antt =====
-- Lines appended to a hunk that replays are replayed after it.
use mathlib.Core.Path.{fun_ext}
use nudge.Base.{List, [], ap, refl, ◌++◌, ◌∙◌, ◌∷◌, ◌≡◌}
use nudge.Base.Result.{Result, err, ok, ◌>>=◌}
use nudge.Repo.Hunk.{DiffLine, Tally, tally_lines, tally_step}

>>=_assoc {ℓ κ μ} :
    {E : Type 0} {A : Type ℓ} {B : Type κ} {C : Type μ} (m : Result E A) (f : A → Result E B)
    (g : B → Result E C)
    → (m >>= λ a. f a >>= g) ≡ (m >>= f >>= g)
>>=_assoc (ok a) f g = refl
>>=_assoc (err e) f g = refl

pub tally_lines-append :
    (ls ms : List DiffLine) (t : Tally)
    → tally_lines (ls ++ ms) t ≡ (tally_lines ls t >>= tally_lines ms)
unfolding tally_lines
tally_lines-append [] ms t = refl
tally_lines-append (l ∷ ls) ms t =
    ap (λ f. tally_step l t >>= f) (fun_ext (tally_lines-append ls ms))
    ∙ >>=_assoc (tally_step l t) (tally_lines ls) (tally_lines ms)
