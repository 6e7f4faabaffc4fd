-- ===== src/Middleware/Chain/Tests.antt =====
-- Examples: a gateway whose state counts the entries of its log, with one key and no rate limit.
use api_gateway.Common.{
  ℕ, List, [], ◌∷◌, ◌++◌, append_nil, Bool-cases, ◌≡◌, refl, sym, ◌⊎◌, inl, inr,
}
use api_gateway.Http.{Request}
use api_gateway.Middleware.Context.{Call, set_header, json, Context, done, panicked, Handler, Gin}
use api_gateway.Middleware.Sequence.{run, sequence, counting, request_for, unseen}
use api_gateway.Middleware.Chain.{id_of, Parts, setup_middleware}
use api_gateway.Middleware.Chain.Logged.{gates, identified, logged, failed, serve-logged}
use api_gateway.Middleware.Chain.Gates.{Extends, Gate, gates-Gate}
use api_gateway.Middleware.Chain.Ids.{left, serve-id}

abbrev gin : Gin ℕ
gin = sequence ℕ

abbrev parts : Parts ℕ
parts = counting

abbrev req : Request
req = request_for "/api/items" ""

abbrev asked : Context ℕ
asked = unseen 0 req

-- A route that answers, and one that panics.
abbrev answers : Handler ℕ
answers next c = done (record c { calls = c.calls ++ json 200 ∷ [] })

abbrev crashes : Handler ℕ
crashes next c = panicked c

serve-logged_example :
    let result = run (setup_middleware parts ++ crashes ∷ []) asked in
    let inner = run (gates parts (crashes ∷ [])) (identified parts asked) in
    ((d : Context ℕ) × (inner ≡ done d) × (result ≡ done (logged parts asked d)))
    ⊎ ((d : Context ℕ) × (inner ≡ panicked d) × (result ≡ done (failed d)))
serve-logged_example = serve-logged gin parts (crashes ∷ []) asked refl

gates-Gate_example : Gate gin parts asked
gates-Gate_example = gates-Gate gin parts asked refl

answers-Extends : (d : Context ℕ) → Extends d (left (run (answers ∷ []) d))
answers-Extends d = elim (Bool-cases d.aborted) [
  | inl e ↦ rw (e) ([], sym (append_nil d.calls))
  | inr e ↦ rw (e) (_, refl)
]

serve-id_example :
    (rest : List Call) × ((left (run (setup_middleware parts ++ answers ∷ []) asked)).calls
      ≡ set_header "X-Request-ID" (id_of "u-1" req) ∷ rest)
serve-id_example = serve-id gin parts (answers ∷ []) asked refl refl answers-Extends
