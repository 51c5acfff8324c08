-- ===== src/Execution/Rules.antt =====
-- How to reason about programs of the pipeline: a program `Meets` its conditions when from every
-- world with the first it gives a value with the second or leaves with the third.
use web_db.Prelude.{Bool, true, false, Result, ok, err, if◌then◌else◌}
use web_db.Execution.World.{
  World, Program, resume, recover, then_do, look, leave, give, change, ◌>>=◌, ◌>>◌, on_error,
  deferred,
}

abbrev pub Ends :
    {E A : Type 0} → (A → World → Type 0) → (E → World → Type 0) → Result E A × World → Type 0
Ends Q F (ok a, w) = Q a w
Ends Q F (err e, w) = F e w

pub record Meets {E A : Type 0} (P : World → Type 0) (m : Program E A) (Q : A → World → Type 0)
    (F : E → World → Type 0) : Type 0 where
  pub ends : (w : World) → P w → Ends Q F (m w)

pub resume-Ends :
    {E A B : Type 0} {Q : A → World → Type 0} {F : E → World → Type 0} {R : B → World → Type 0}
    {next : A → Program E B} (o : Result E A × World)
    → Ends Q F o
    → ((a : A) → Meets (Q a) (next a) R F)
    → Ends R F (resume next o)
resume-Ends (ok a, w) h k = (k a).ends w h
resume-Ends (err e, w) h k = h

pub bind-Meets :
    {E A B : Type 0} {P : World → Type 0} {m : Program E A} {Q : A → World → Type 0}
    {F : E → World → Type 0} {R : B → World → Type 0} {next : A → Program E B}
    → Meets P m Q F
    → ((a : A) → Meets (Q a) (next a) R F)
    → Meets P (m >>= next) R F
bind-Meets {m} h k = record { ends = λ w p. resume-Ends (m w) (h.ends w p) k }

pub after-Meets :
    {E A B : Type 0} {P : World → Type 0} {m : Program E A} {Q : A → World → Type 0}
    {F : E → World → Type 0} {R : B → World → Type 0} {next : Program E B}
    → Meets P m Q F
    → ((a : A) → Meets (Q a) next R F)
    → Meets P (m >> next) R F
after-Meets {m} h k = record { ends = λ w p. resume-Ends (m w) (h.ends w p) k }

deferred-Ends :
    {E A : Type 0} {Q : A → World → Type 0} {F : E → World → Type 0} (R : A → World → Type 0)
    (G : E → World → Type 0) (last : World → World) (o : Result E A × World)
    → Ends Q F o
    → ((a : A) (w : World) → Q a w → R a (last w))
    → ((e : E) (w : World) → F e w → G e (last w))
    → Ends R G (then_do last o)
deferred-Ends R G last (ok a, w) h good bad = good a w h
deferred-Ends R G last (err e, w) h good bad = bad e w h

pub deferred-Meets :
    {E A : Type 0} {P : World → Type 0} {m : Program E A} {Q R : A → World → Type 0}
    {F G : E → World → Type 0} (last : World → World)
    → Meets P m Q F
    → ((a : A) (w : World) → Q a w → R a (last w))
    → ((e : E) (w : World) → F e w → G e (last w))
    → Meets P (deferred last m) R G
deferred-Meets {m} {R} {G} last h good bad = record {
  ends = λ w p. deferred-Ends R G last (m w) (h.ends w p) good bad;
}

pub recover-Ends :
    {E F A : Type 0} {Q : A → World → Type 0} {G : E → World → Type 0} {H : F → World → Type 0}
    {handler : E → Program F A} (o : Result E A × World)
    → Ends Q G o
    → ((e : E) → Meets (G e) (handler e) Q H)
    → Ends Q H (recover handler o)
recover-Ends (ok a, w) h k = h
recover-Ends (err e, w) h k = (k e).ends w h

pub on_error-Meets :
    {E F A : Type 0} {P : World → Type 0} {m : Program E A} {Q : A → World → Type 0}
    {G : E → World → Type 0} {H : F → World → Type 0} {handler : E → Program F A}
    → Meets P m Q G
    → ((e : E) → Meets (G e) (handler e) Q H)
    → Meets P (on_error m handler) Q H
on_error-Meets {m} h k = record { ends = λ w p. recover-Ends (m w) (h.ends w p) k }

pub Meets-from :
    {E A : Type 0} {P P' : World → Type 0} {m : Program E A} {Q : A → World → Type 0}
    {F : E → World → Type 0}
    → ((w : World) → P' w → P w)
    → Meets P m Q F
    → Meets P' m Q F
Meets-from f h = record { ends = λ w p. h.ends w (f w p) }

pub if-Meets :
    {E A : Type 0} {P : World → Type 0} {Q : A → World → Type 0} {F : E → World → Type 0} (b : Bool)
    {m n : Program E A}
    → Meets P m Q F
    → Meets P n Q F
    → Meets P (if b then m else n) Q F
if-Meets true h k = h
if-Meets false h k = k

pub Ends-to :
    {E A : Type 0} {Q : A → World → Type 0} (R : A → World → Type 0) (F : E → World → Type 0)
    (o : Result E A × World)
    → Ends Q F o
    → ((a : A) (w : World) → Q a w → R a w)
    → Ends R F o
Ends-to R F (ok a, w) h good = good a w h
Ends-to R F (err e, w) h good = h

pub leave-Meets :
    {E A : Type 0} {P : World → Type 0} {Q : A → World → Type 0} {F : E → World → Type 0} (e : E)
    → ((w : World) → P w → F e w)
    → Meets P (leave e) Q F
leave-Meets e f = record { ends = f }

pub give-Meets :
    {E A : Type 0} {P : World → Type 0} {Q : A → World → Type 0} {F : E → World → Type 0} (a : A)
    → ((w : World) → P w → Q a w)
    → Meets P (give a) Q F
give-Meets a f = record { ends = f }

pub change-Meets :
    {E : Type 0} {P : World → Type 0} {Q : Unit {0} → World → Type 0} {F : E → World → Type 0}
    (f : World → World)
    → ((w : World) → P w → Q tt (f w))
    → Meets P (change f) Q F
change-Meets f h = record { ends = h }

pub look-Meets :
    {E A : Type 0} (P : World → Type 0) {F : E → World → Type 0} (f : World → A)
    → Meets P (look f) (λ _. P) F
look-Meets P f = record { ends = λ w h. h }

failure-Ends :
    {E A : Type 0} (Q : A → World → Type 0) (F G : E → World → Type 0) (o : Result E A × World)
    → ((e : E) (w : World) → F e w → G e w)
    → Ends Q F o
    → Ends Q G o
failure-Ends Q F G (ok a, w) f h = h
failure-Ends Q F G (err e, w) f h = f e w h

-- A weaker end of a failure.
pub Meets-or :
    {E A : Type 0} {P : World → Type 0} {m : Program E A} {Q : A → World → Type 0}
    {F G : E → World → Type 0}
    → ((e : E) (w : World) → F e w → G e w)
    → Meets P m Q F
    → Meets P m Q G
Meets-or {m} {Q} {F} {G} f h = record { ends = λ w p. failure-Ends Q F G (m w) f (h.ends w p) }
