-- ===== src/Parser/Deferred.antt =====
-- parser/parser.go: a deferred error is never lost.
use Prim.{tt}
use meyer.Base.{Bytes, Option, none, refl, some, ℕ, ◌≡◌, length, subst, ◌≤◌}
use meyer.Parser.State.{
  Error, Outcome, State, and_then, done, failed, flush_deferred, keep_first, raise, Parser, defer_,
  ◌>>=◌, ◌>>◌,
}
use meyer.Parser.Safe.{Ensures, Good, Valid, holds, rejects, Extends, Safe}
use meyer.Parser.Looks.{defer_-Ensures}

-- The run fails with an error of the input.
abbrev pub Rejected {ℓ} : {A : Type ℓ} → Bytes → Outcome A → Type ℓ
Rejected src o = (e : Error) × (o ≡ failed e) × Good src e

-- What a run keeps of a deferred error.
pub flush-Rejected :
    {A : Type 0} {s : State} {o : Outcome A} {e : Error}
    → Valid s
    → s.deferred ≡ some e
    → Ensures s o
    → Rejected s.src (and_then o (λ _. flush_deferred))
unfolding flush_deferred raise
flush-Rejected v h (rejects {e} g) = (e, refl, g)
flush-Rejected {e = e} v h (holds w x) = rw (x.deferred e h) (e, refl, (v.pending e h).0)

pub kept :
    (s : State) (o : Option Error) (msg : Bytes) (offset : ℕ)
    → s.deferred ≡ o
    → (e : Error) × (s' : State) × (keep_first o msg offset s ≡ done tt s') × (s'.deferred ≡ some e)
unfolding keep_first
kept s none msg offset h = (_, _, refl, refl)
kept s (some e) msg offset h = (e, s, refl, h)

pub Ensures-done :
    {A : Type 0} {a : A} {s s' : State} → Ensures s (done a s') → Valid s' × Extends s s'
Ensures-done (holds v x) = (v, x)

-- Where a grammar action defers an error in a valid state, whatever safe function runs next, the
-- parse is rejected by the time the deferred error is flushed, with an error of the input.
pub defer_-Rejected :
    {A : Type 0} (m : Parser A) (msg : Bytes) (offset : ℕ) (s : State)
    → Safe m
    → Valid s
    → offset ≤ length s.src
    → Rejected s.src ((defer_ msg offset >> m >>= λ _. flush_deferred) s)
unfolding defer_
defer_-Rejected m msg offset s hm v inside =
    let (e, s', ran, pending) = kept s s.deferred msg offset refl in
    let (w, x) = Ensures-done (subst (Ensures s) ran (defer_-Ensures s msg offset v inside)) in
    rw ran (
      subst (λ z. Rejected z (and_then (m s') (λ _. flush_deferred))) x.src
        (flush-Rejected w pending (hm.run s' w)))
