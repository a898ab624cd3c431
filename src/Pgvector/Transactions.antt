-- ===== src/Pgvector/Transactions.antt =====
-- What follows of a transaction of saap/plugins/memory/pgvector/__init__.py.
use ai_voice.Prelude.{◌≡◌, refl, arith}
use ai_voice.Prelude.Exec.{Result, ok, err, Exec, zoom}
use ai_voice.Pgvector.Store.{PgState, world_lens, settle}

pub settle-ok :
    {E W A : Type 0} (w : W) (p : Result E A × PgState W) {a : A} {s : PgState W}
    → settle w p ≡ (ok a, s)
    → p ≡ (ok a, s)
settle-ok w (ok b, t) h = h
settle-ok w (err e, t) h = absurd (ground arith)

-- What holds of the world behind a transaction, whether it is kept or undone.
pub settle_world :
    {E W A : Type 0} (P : W → Type 0) (w : W) (p : Result E A × PgState W)
    → P w
    → ((a : A) (s : PgState W) → p ≡ (ok a, s) → P s.world)
    → P (settle w p).1.world
settle_world P w (ok a, s) h k = k a s refl
settle_world P w (err e, s) h k = h

pub zoomed :
    {E W A : Type 0} (m : Exec E W A) {s s' : PgState W} {a : A}
    → zoom world_lens m s ≡ (ok a, s')
    → m s.world ≡ (ok a, s'.world)
zoomed m h = λ i. ((h i).0, (h i).1.world)
