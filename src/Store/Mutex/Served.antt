-- ===== src/Store/Mutex/Served.antt =====
-- What the clients are handed, over all interleavings of the goroutines' steps.
use onetimelink.Store.{SecretStore}
use onetimelink.Prelude.{
  ℕ, List, ◌≡◌, ◌+◌, ◌≤◌, All, [], ◌∷◌, ◌++◌, arith, ap, refl, ◌∙◌, if◌then◌else◌, sym, ◌&&◌,
}
use onetimelink.Prelude.Text.{Bytes, str_eq}
use onetimelink.Store.History.{
  run, total, Op, handed_out, step, adds, claims, expires, remaining, granted, run-append,
  total-append,
}
use onetimelink.Store.Mutex.{
  Log, answer, state_of, Call, IsAnswered, effect, Answer, writes, asks, handed,
}
use onetimelink.Store.Mutex.Steps.{System, Reach}
use onetimelink.Store.Valid.{IsValid, IsOp}
use onetimelink.Store.Mutex.Refines.{Reach-linearizable}
use onetimelink.Store.Reads.{total-handed_out-le}

-- The writing calls of a log, the first one first.
unfoldable pub ops_of : Log → List Op
ops_of [] = []
ops_of ((writes op, a) ∷ log) = ops_of log ++ (op ∷ [])
ops_of ((asks q, a) ∷ log) = ops_of log

-- 1 for an answer of Claim with which a client has the secret under `id`.
unfoldable pub hands_out : Bytes → Call → Answer → ℕ
hands_out id (writes (claims k urlbase urlget urlapiget)) (handed (info, found)) =
    if str_eq k id && found then 1 else 0
hands_out id c a = 0

-- How often the secret under `id` was handed out.
unfoldable pub handouts : Bytes → Log → ℕ
handouts id [] = 0
handouts id ((c, a) ∷ log) = hands_out id c a + handouts id log

state_of-run : (st : SecretStore) (log : Log) → state_of st log ≡ run st (ops_of log)
unfolding state_of effect ops_of run
state_of-run st [] = refl
state_of-run st ((writes op, a) ∷ log) =
    ap (λ b. step b op) (state_of-run st log) ∙ sym (run-append st (ops_of log) op)
state_of-run st ((asks q, a) ∷ log) = state_of-run st log

-- What one right answer hands out.
hands_out-handed_out :
    (id : Bytes) (b : SecretStore) (op : Op)
    → hands_out id (writes op) (answer b (writes op)) ≡ handed_out id b op
unfolding hands_out answer handed_out
hands_out-handed_out id b (adds e k now draws) = refl
hands_out-handed_out id b (claims k urlbase urlget urlapiget) = refl
hands_out-handed_out id b (expires now) = refl

handouts-total :
    (id : Bytes) (st : SecretStore) (log : Log)
    → IsAnswered st log
    → handouts id log ≡ total (handed_out id) st (ops_of log)
unfolding handouts ops_of total hands_out
handouts-total id st [] h = refl
handouts-total id st ((writes op, a) ∷ log) (right, h) =
    let one = hands_out-handed_out id (state_of st log) op in
    let all = total-append (handed_out id) st (ops_of log) op in
    rw (right, one, all, state_of-run st log, handouts-total id st log h) (omega arith)
handouts-total id st ((asks q, a) ∷ log) (right, h) = omega (arith, handouts-total id st log h)

-- However the steps of the goroutines interleave, from a well-formed store: the answers of Claim that
-- handed out the secret under an id are at most the reads that were left there at first and those that
-- the successful calls of AddEntry allowed, taken in the order of the log.
-- The MaxClicks of each call of AddEntry is one that its Go type int has room for.
pub Reach-handouts-le :
    (id : Bytes) (st : SecretStore) (s : System)
    → Reach st s
    → IsValid st
    → All IsOp (ops_of s.mem.log)
    → handouts id s.mem.log ≤ remaining id st + total (granted id) st (ops_of s.mem.log)
Reach-handouts-le id st s r v fine =
    let answered = (Reach-linearizable st s r).0 in
    rw (handouts-total id st s.mem.log answered)
      (total-handed_out-le id st (ops_of s.mem.log) fine v)
